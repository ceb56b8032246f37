-- ===== src/Repo/FsRepo/Creating/Initial.antt =====
-- kubo-master/repo/fsrepo/fsrepo.go: what `Init` leaves behind when it succeeds.
use bock_ipfs.Base.Results.{ok, Result-cases}
use bock_ipfs.Base.Int.{ℤ}
use bock_ipfs.Base.{
  Bool-cases, String, ◌≡◌, refl, sym, ap, ◌∙◌, subst, ◌⊎◌, inl, inr, true, false, Option, none,
  arith,
}
use bock_ipfs.Repo.FsRepo.{current_version, FsError, OpenConfig}
use bock_ipfs.Repo.FsRepo.Creating.{
  File, whole, exists, Files, Write, done, nothing, half, put_file, put_config, Creation, layout_of,
  is_initialized, init_config, init_spec, write_repo_version, init,
}

put_file_lem :
    {A : Type 0} (w : Write) (a : A) (old : File A)
    → (put_file w a old).1 ≡ none
    → (put_file w a old).0 ≡ whole a
unfolding put_file
put_file_lem done a old e = refl
put_file_lem (nothing x) a old e = cc
put_file_lem (half x) a old e = cc

module _ (c : Creation) (conf : OpenConfig) where
  -- the new configuration, or the old file if the new one was not put in its place
  abbrev pub Placed : File OpenConfig → File OpenConfig → Type 0
  Placed old new = (c.renamed ≡ true → new ≡ whole conf) × (c.renamed ≡ false → new ≡ old)

  abbrev ConfigStep : Files → Files × Option FsError → Type 0
  ConfigStep fs p =
      Placed fs.config_file p.0.config_file
      × (p.0.version_file ≡ fs.version_file)
      × (p.0.spec_file ≡ fs.spec_file)

  init_config_lem :
      (fs : Files)
      → is_initialized c fs ≡ false
      → (init_config c conf fs).1 ≡ none
      → ConfigStep fs (init_config c conf fs)
  unfolding init_config put_config
  init_config_lem fs new e = elim (Result-cases c.config_name) [
    | inr (x, bad) ↦ absurd (ground (arith, new, bad, e))
    | inl (name, good) ↦
        let written = put_file_lem c.write_config conf fs.config_file in
        elim (Bool-cases c.renamed) [
          | inl placed ↦ (
            (
              λ yes. ground (arith, new, good, written, placed, e),
              λ no. absurd (ground (arith, placed, no)),
            ),
            ground (arith, new, good, placed),
            ground (arith, new, good, placed),
          )
          | inr lost ↦ (
            (λ yes. absurd (ground (arith, lost, yes)), λ no. ground (arith, new, good, lost)),
            ground (arith, new, good, lost),
            ground (arith, new, good, lost),
          )
        ]
  ]

  -- the specification that there was, or that of the configuration
  abbrev pub SpecKept : Files → Files → Type 0
  SpecKept fs fs' =
      ((exists fs.spec_file ≡ true) × (fs'.spec_file ≡ fs.spec_file))
      ⊎ ((spec : String) × (layout_of c conf ≡ ok spec) × (fs'.spec_file ≡ whole spec))

  spec_from :
      (fs fs1 fs2 : Files) → fs1.spec_file ≡ fs.spec_file → SpecKept fs1 fs2 → SpecKept fs fs2
  spec_from fs fs1 fs2 same (inl (there, kept)) = inl (rw (sym same) there, kept ∙ same)
  spec_from fs fs1 fs2 same (inr made) = inr made

  abbrev SpecStep : Files → Files × Option FsError → Type 0
  SpecStep fs p =
      (p.0.config_file ≡ fs.config_file) × (p.0.version_file ≡ fs.version_file) × SpecKept fs p.0

  init_spec_lem : (fs : Files) → (init_spec c conf fs).1 ≡ none → SpecStep fs (init_spec c conf fs)
  unfolding init_spec
  init_spec_lem fs e = elim (Result-cases c.spec_name) [
    | inr (x, bad) ↦ ground arith
    | inl (name, good) ↦ elim (Bool-cases (exists fs.spec_file)) [
      | inl there ↦
          let step : init_spec c conf fs ≡ (fs, none) = ground arith in
          subst (SpecStep fs) (sym step) (refl, refl, inl (there, refl))
      | inr absent ↦ elim (Result-cases (layout_of c conf)) [
        | inr (x, bad) ↦ ground arith
        | inl (spec, made) ↦
            let (f, failed) = put_file c.write_spec spec fs.spec_file in
            let step : init_spec c conf fs ≡ (record fs { spec_file = f }, failed) = ground arith in
            let wrote = sym (ap (λ (p : Files × Option FsError). p.1) step) ∙ e in
            subst (SpecStep fs) (sym step)
              (refl, refl, inr (spec, made, put_file_lem c.write_spec spec fs.spec_file wrote))
      ]
    ]
  ]

  write_repo_version_lem :
      (v : ℤ) (fs : Files)
      → (write_repo_version c v fs).1 ≡ none
      → (write_repo_version c v fs).0 ≡ record fs { version_file = whole v }
  unfolding write_repo_version
  write_repo_version_lem v fs e = ground (arith, put_file_lem c.write_version v fs.version_file)

  -- An `Init` that succeeds finds a configuration and changes nothing, or leaves the configuration, or
  -- the old file of it if the new one could not be put in its place, the current version, and a specification: the one that there was, or that of the configuration.
  pub init_lem :
      (fs fs' : Files)
      → init c conf fs ≡ (fs', none)
      → ((is_initialized c fs ≡ true) × (fs' ≡ fs))
        ⊎ ((is_initialized c fs ≡ false)
            × Placed fs.config_file fs'.config_file
            × (fs'.version_file ≡ whole current_version)
            × SpecKept fs fs')
  unfolding init
  init_lem fs fs' e = elim (Bool-cases (is_initialized c fs)) [
    | inl old ↦ inl (old, ground arith)
    | inr new ↦
        let fs1 : Files = (init_config c conf fs).0 in
        let fs2 : Files = (init_spec c conf fs1).0 in
        let e1 : (init_config c conf fs).1 ≡ none = ground arith in
        let e2 : (init_spec c conf fs1).1 ≡ none = ground arith in
        let e3 : write_repo_version c current_version fs2 ≡ (fs', none) = ground arith in
        let l1 = init_config_lem fs new e1 in
        let l2 = init_spec_lem fs1 e2 in
        let l3 =
          write_repo_version_lem current_version fs2
            (ap (λ (p : Files × Option FsError). p.1) e3) in
        let l4 : fs' ≡ record fs2 { version_file = whole current_version } =
          sym (ap (λ (p : Files × Option FsError). p.0) e3) ∙ l3 in
        let kept : SpecKept fs fs2 = spec_from fs fs1 fs2 l1.2 l2.2 in
        inr (
          subst
            (λ (z : Files).
              (is_initialized c fs ≡ false)
              × Placed fs.config_file z.config_file
              × (z.version_file ≡ whole current_version)
              × SpecKept fs z)
            (sym l4) (new, subst (Placed fs.config_file) (sym l2.0) l1.0, refl, kept))
  ]
