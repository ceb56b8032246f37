-- ===== src/Repo.antt =====
-- kubo-master/repo: the sharing of open repositories, and their migration.
pub mod OnlyOne
pub mod Migrations
pub mod Common
pub mod FsRepo
