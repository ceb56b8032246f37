-- ===== src/Options/Unixfs/Resolving.antt =====
-- What the settings are that `UnixfsAddOptions` accepts.
use bock_ipfs.Base.{
  nat_eq, string_eq, ◌≡◌, sym, ap, ◌∙◌, subst, ◌≢◌, ◌↔◌, inl, inr, true, false, List,
}
use bock_ipfs.Base.Results.{ok, IsOk, Result-cases}
use bock_ipfs.Base.Int.{ℤ, pos, negsuc, is_positive, is_negative}
use bock_ipfs.Options.Unixfs.{
  AddSettings, AddOption, apply_options, is_zero_time, Prefix, Defaults, check_nocopy, settle_mtime,
  settle_mode, settle_leaves, initial, check_version, resolve, unixfs_add_options,
}
use bock_ipfs.Options.Unixfs.Steps.{
  check_nocopy_ok, settle-Settled, Versioned, check_version-Versioned, finish_ok, nocopy_accepts,
  version_accepts, finish_accepts,
}

module _ (lib : Defaults) where
  open lib use {sha2_256, prefix_for_cid_version}

  -- What holds of settings and a prefix that `UnixfsAddOptions` returns.
  pub record IsResolved (o : AddSettings) (p : Prefix) : Type 0 where
    pub nocopy_raw : o.no_copy ≡ true → o.raw_leaves ≡ true
    pub hash_version : o.mh_type ≢ sha2_256 → o.cid_version ≡ pos 1
    pub known_version : is_negative o.cid_version ≡ false
    pub one_mode : o.mode ≢ 0 → o.preserve_mode ≡ false
    pub one_mtime : is_zero_time o.mtime ≡ false → o.preserve_mtime ≡ false
    pub cidv1_raw :
        is_positive o.cid_version ≡ true → o.raw_leaves_set ≡ false → o.raw_leaves ≡ true
    pub prefix_hash : p.mh_type ≡ o.mh_type
    pub prefix_version :
        (q : Prefix) × (prefix_for_cid_version o.cid_version ≡ ok q) × (p.version ≡ q.version)

  -- Settings that `resolve` accepts, and no others: raw leaves are not refused beside nocopy, and
  -- another hash than sha2-256 comes with CIDv1 or with no version.
  pub IsConsistentRequest : AddSettings → Type 0
  IsConsistentRequest o =
      (o.no_copy ≡ true → o.raw_leaves ≡ false → o.raw_leaves_set ≡ false)
      × (o.mh_type ≢ sha2_256 → o.cid_version ≢ negsuc 0 → o.cid_version ≡ pos 1)

  resolved :
      (o1 o2 : AddSettings) (p : Prefix)
      → (o1.no_copy ≡ true → o1.raw_leaves ≡ true)
      → Versioned lib o1 o2
      → (p.mh_type ≡ (settle_leaves (settle_mode (settle_mtime o2))).mh_type)
      → ((q : Prefix) × (prefix_for_cid_version
              (settle_leaves (settle_mode (settle_mtime o2))).cid_version
            ≡ ok q)
          × (p.version ≡ q.version))
      → IsResolved (settle_leaves (settle_mode (settle_mtime o2))) p
  resolved o1 o2 p raw v hashed version =
      let t = settle-Settled o2 in
      record {
        nocopy_raw = λ e. t.leaves (v.leaves ∙ raw (sym v.copy ∙ sym t.copy ∙ e));
        hash_version = λ ne. t.versioned ∙ v.version_1 (λ e. ne (t.hashed ∙ e));
        known_version = ap is_negative t.versioned ∙ v.not_negative;
        one_mode = t.mode_one;
        one_mtime = t.mtime_one;
        cidv1_raw = t.v1_leaves;
        prefix_hash = hashed;
        prefix_version = version;
      }

  resolve-IsResolved : (o r : AddSettings) (p : Prefix) → resolve lib o ≡ ok (r, p) → IsResolved r p
  unfolding resolve
  resolve-IsResolved o r p h = elim (Result-cases (check_nocopy o)) [
    | inr (e, c1) ↦ absurd (cc (rw (c1, resolve) at h))
    | inl (o1, c1) ↦ elim (Result-cases (check_version lib o1)) [
      | inr (e, c2) ↦ absurd (cc (rw (c1, c2, resolve) at h))
      | inl (o2, c2) ↦
          let (same, hashed, version) = finish_ok lib _ r p (rw (c1, c2, resolve) at h) in
          subst (λ x. IsResolved x p) (sym same)
            (resolved o1 o2 p (check_nocopy_ok o o1 c1).0 (check_version-Versioned lib o1 o2 c2)
              hashed version)
    ]
  ]

  -- Settings that `UnixfsAddOptions` returns have raw leaves with nocopy and with CIDv1 where they
  -- were not set, CIDv1 with another hash than sha2-256, a version that is not negative, not both a
  -- mode or a time and its preservation, and the prefix of that version with the hash.
  pub unixfs_add_options-IsResolved :
      (opts : List AddOption) (r : AddSettings) (p : Prefix)
      → unixfs_add_options lib opts ≡ ok (r, p)
      → IsResolved r p
  unfolding unixfs_add_options
  unixfs_add_options-IsResolved opts r p h =
      elim (Result-cases (apply_options opts (initial lib))) [
        | inr (e, a) ↦ absurd (cc (rw (a, unixfs_add_options) at h))
        | inl (o, a) ↦ resolve-IsResolved o r p (rw (a, unixfs_add_options) at h)
      ]

  -- Where every version has a prefix, `UnixfsAddOptions` refuses settings that its options built up
  -- exactly if raw leaves are turned off beside nocopy, or a hash other than sha2-256 comes with a
  -- version other than 1 and the default of -1.
  pub resolve_accepts :
      ((v : ℤ) → IsOk (prefix_for_cid_version v))
      → (o : AddSettings) → IsOk (resolve lib o) ↔ IsConsistentRequest o
  unfolding resolve IsConsistentRequest
  resolve_accepts prefixes o = elim (Result-cases (check_nocopy o)) [
    | inr (e, c1) ↦ (
      (λ is. absurd (rw (c1, resolve, IsOk) at is)),
      (λ h. absurd (subst IsOk c1 ((nocopy_accepts lib o).1 h.0))),
    )
    | inl (o1, c1) ↦
        let (raw, hashed, versioned) = check_nocopy_ok o o1 c1 in
        let fits = (nocopy_accepts lib o).0 (subst IsOk (sym c1) tt) in
        elim (Result-cases (check_version lib o1)) [
          | inr (e, c2) ↦ (
            (λ is. absurd (rw (c1, c2, resolve, IsOk) at is)),
            (λ h. absurd (
                subst IsOk c2 (
                  (version_accepts lib o1).1 (λ other default.
                    versioned
                    ∙ h.1 (λ sha. other (hashed ∙ sha)) (λ d. default (versioned ∙ d)))))),
          )
          | inl (o2, c2) ↦ (
            (λ is. (
              fits,
              (λ other default.
                  sym versioned
                  ∙ (version_accepts lib o1).0 (subst IsOk (sym c2) tt)
                      (λ sha. other (sym hashed ∙ sha)) (λ d. default (sym versioned ∙ d))),
            )),
            (λ h. rw (c1, c2, resolve) (finish_accepts lib prefixes _)),
          )
        ]
  ]
