-- ===== src/Options/Unixfs/Steps.antt =====
-- The steps of `UnixfsAddOptions` one by one.
use bock_ipfs.Base.{
  ◌==◌, Bool-cases, nat_eq, string_eq, ◌≡◌, sym, ap, ◌≢◌, ◌↔◌, inl, inr, true, false, not, ◌&&◌,
  ◌||◌, arith,
}
use bock_ipfs.Base.Results.{ok, IsOk, Result-cases, ok_injective}
use bock_ipfs.Base.Int.{ℤ, pos, negsuc, int_beq, is_positive, is_negative}
use bock_ipfs.Options.Unixfs.{
  AddSettings, is_zero_time, Prefix, Defaults, check_nocopy, settle_mtime, settle_mode,
  settle_leaves, check_version, finish,
}

pub check_nocopy_ok :
    (o c : AddSettings)
    → check_nocopy o ≡ ok c
    → (c.no_copy ≡ true → c.raw_leaves ≡ true)
      × (c.mh_type ≡ o.mh_type)
      × (c.cid_version ≡ o.cid_version)
unfolding check_nocopy
check_nocopy_ok o c h = elim (Bool-cases (o.no_copy && not o.raw_leaves)) [
  | inl b ↦ elim (Bool-cases o.raw_leaves_set) [
    | inl set ↦ absurd (ground (arith, b, set, h))
    | inr free ↦
        (ground (arith, b, free, h), ground (arith, b, free, h), ground (arith, b, free, h))
  ]
  | inr b ↦ (ground (arith, b, h), ground (arith, b, h), ground (arith, b, h))
]

-- what the steps that cannot fail leave and establish
pub record Settled (o s : AddSettings) : Type 0 where
  pub copy : s.no_copy ≡ o.no_copy
  pub hashed : s.mh_type ≡ o.mh_type
  pub versioned : s.cid_version ≡ o.cid_version
  pub leaves : o.raw_leaves ≡ true → s.raw_leaves ≡ true
  pub mode_one : s.mode ≢ 0 → s.preserve_mode ≡ false
  pub mtime_one : is_zero_time s.mtime ≡ false → s.preserve_mtime ≡ false
  pub v1_leaves : is_positive s.cid_version ≡ true → s.raw_leaves_set ≡ false → s.raw_leaves ≡ true

pub settle-Settled : (o : AddSettings) → Settled o (settle_leaves (settle_mode (settle_mtime o)))
unfolding settle_leaves settle_mode settle_mtime
settle-Settled o = record {
  copy = ground arith;
  hashed = ground arith;
  versioned = ground arith;
  leaves = λ h. ground (arith, h);
  mode_one = λ h. ground (arith, h);
  mtime_one = λ h. ground (arith, h);
  v1_leaves = λ p q. ground (arith, p, q);
}

module _ (lib : Defaults) where
  open lib use {sha2_256, prefix_for_cid_version}

  -- what `check_version` leaves and establishes
  pub record Versioned (o c : AddSettings) : Type 0 where
    pub copy : c.no_copy ≡ o.no_copy
    pub hashed : c.mh_type ≡ o.mh_type
    pub leaves : c.raw_leaves ≡ o.raw_leaves
    pub version_1 : c.mh_type ≢ sha2_256 → c.cid_version ≡ pos 1
    pub not_negative : is_negative c.cid_version ≡ false

  pub check_version-Versioned : (o c : AddSettings) → check_version lib o ≡ ok c → Versioned o c
  unfolding check_version
  check_version-Versioned o c h = elim (Bool-cases (o.mh_type == sha2_256)) [
    | inl sha ↦ elim (Bool-cases (is_negative o.cid_version)) [
      | inl below ↦ record {
        copy = ground (arith, sha, below, h);
        hashed = ground (arith, sha, below, h);
        leaves = ground (arith, sha, below, h);
        version_1 = λ ne. absurd (ne (ground (arith, sha, below, h)));
        not_negative = ground (arith, sha, below, h);
      }
      | inr above ↦ record {
        copy = ground (arith, sha, above, h);
        hashed = ground (arith, sha, above, h);
        leaves = ground (arith, sha, above, h);
        version_1 = λ ne. absurd (ne (ground (arith, sha, above, h)));
        not_negative = ground (arith, sha, above, h);
      }
    ]
    | inr other ↦ elim (Bool-cases (int_beq o.cid_version (pos 0))) [
      | inl v0 ↦ absurd (ground (arith, other, v0, h))
      | inr not_v0 ↦
          elim (Bool-cases (int_beq o.cid_version (pos 1) || int_beq o.cid_version (negsuc 0))) [
            | inr unknown ↦ absurd (ground (arith, other, not_v0, unknown, h))
            | inl known ↦ record {
              copy = ground (arith, other, not_v0, known, h);
              hashed = ground (arith, other, not_v0, known, h);
              leaves = ground (arith, other, not_v0, known, h);
              version_1 = λ ne. ground (arith, other, not_v0, known, h);
              not_negative = ground (arith, other, not_v0, known, h);
            }
          ]
    ]
  ]

  pub finish_ok :
      (o r : AddSettings) (p : Prefix)
      → finish lib o ≡ ok (r, p)
      → (r ≡ o)
        × (p.mh_type ≡ o.mh_type)
        × ((q : Prefix) × (prefix_for_cid_version o.cid_version ≡ ok q) × (p.version ≡ q.version))
  unfolding finish
  finish_ok o r p h = elim (Result-cases (prefix_for_cid_version o.cid_version)) [
    | inr (e, bad) ↦ absurd (ground (arith, h, bad))
    | inl (q, fine) ↦
        let same = ok_injective (rw (fine, finish) at h) in
        (
          sym (ap (λ (x : AddSettings × Prefix). x.0) same),
          sym (ap (λ (x : AddSettings × Prefix). x.1.mh_type) same),
          (q, fine, sym (ap (λ (x : AddSettings × Prefix). x.1.version) same)),
        )
  ]

  pub nocopy_accepts :
      (o : AddSettings)
      → IsOk (check_nocopy o) ↔ (o.no_copy ≡ true → o.raw_leaves ≡ false → o.raw_leaves_set ≡ false)
  unfolding check_nocopy
  nocopy_accepts o = ground arith

  pub version_accepts :
      (o : AddSettings)
      → IsOk (check_version lib o)
        ↔ (o.mh_type ≢ sha2_256 → o.cid_version ≢ negsuc 0 → o.cid_version ≡ pos 1)
  unfolding check_version
  version_accepts o = (ground arith, λ h. ground (arith, h))

  pub finish_accepts :
      ((v : ℤ) → IsOk (prefix_for_cid_version v)) → (o : AddSettings) → IsOk (finish lib o)
  unfolding finish
  finish_accepts prefixes o = ground (arith, prefixes o.cid_version)
