-- ===== src/Gc/Trigger/Limits.antt =====
-- The thresholds that `NewGC` computes.
use bock_ipfs.Base.{
  str_eq, if◌then◌else◌, Bool-cases, Option-cases, nat_eq, string_eq, ℕ, zero, suc, ◌+◌, ◌-◌, ◌*◌,
  ◌/◌, ◌%◌, ◌^◌, ◌≤◌, ◌<◌, String, ◌≡◌, sym, ap, ◌∙◌, inl, inr, Option, arith,
}
use bock_ipfs.Base.Results.{Result, ok, Result-cases, ok_injective}
use bock_ipfs.Base.Int.{pos, int_beq}
use bock_ipfs.Gc.Trigger.{
  DatastoreConfig, Thresholds, to_uint64, thresholds, default_max, default_watermark, new_gc,
}

below_percent : (m w : ℕ) → w ≤ 100 → m * w ≤ m * 100
below_percent zero w h = omega arith
below_percent (suc m) w h = omega (arith, below_percent m w h)

gc_at_lem : (m w : ℕ) → w ≤ 100 → m * 100 < 2 ^ 64 → (thresholds m (pos w)).gc_at ≡ m * w / 100
unfolding thresholds to_uint64
gc_at_lem m w h fits =
    let small : w % 2 ^ 64 ≡ w = omega arith in
    let fits' : m * w % 2 ^ 64 ≡ m * w = omega (arith, below_percent m w h) in
    ap (λ x. m * x % 2 ^ 64 / 100) small ∙ ap (λ x. x / 100) fits'

-- the slack from the threshold, which is at most the maximum
slack_of : (m g : ℕ) → g ≤ m → m < 2 ^ 64 → (m + 2 ^ 64 - g) % 2 ^ 64 ≡ m - g
slack_of m g h fits = omega arith

-- For a watermark of at most 100 percent and a maximum whose hundredfold fits 64 bits, the threshold
-- is that percentage of the maximum, rounded down, it is at most the maximum, and the slack is the
-- rest in units of 10e9 bytes, rounded down, or 1 if the rest is less than a unit.
pub thresholds_bounds :
    (m w : ℕ)
    → w ≤ 100
    → m * 100 < 2 ^ 64
    → ((thresholds m (pos w)).gc_at * 100 ≤ m * w)
      × (m * w < (thresholds m (pos w)).gc_at * 100 + 100)
      × ((thresholds m (pos w)).gc_at ≤ m)
      × ((m - (thresholds m (pos w)).gc_at < 10000000000) → (thresholds m (pos w)).slack_gb ≡ 1)
      × ((10000000000 ≤ m - (thresholds m (pos w)).gc_at)
          → (thresholds m (pos w)).slack_gb ≡ (m - (thresholds m (pos w)).gc_at) / 10000000000)
unfolding thresholds to_uint64
thresholds_bounds m w h fits =
    let same = gc_at_lem m w h fits in
    let below = below_percent m w h in
    let g = (thresholds m (pos w)).gc_at in
    let slack = slack_of m g (omega (arith, same, below)) (omega arith) in
    (
      omega (arith, same, below),
      omega (arith, same, below),
      omega (arith, same, below),
      λ small.
          let none_left : (m - g) / 10000000000 ≡ 0 = omega (arith, small) in
          ground (arith, slack, none_left),
      λ large.
          let some_left : 1 ≤ (m - g) / 10000000000 = omega (arith, large) in
          ground (arith, slack, some_left),
    )

default_max_ok :
    (write : String → Option String) (cfg c : DatastoreConfig)
    → default_max write cfg ≡ ok c
    → (c.storage_max ≡ (if str_eq cfg.storage_max "" then "10GB" else cfg.storage_max))
      × (c.storage_gc_watermark ≡ cfg.storage_gc_watermark)
unfolding default_max
default_max_ok write cfg c h = elim (Bool-cases (str_eq cfg.storage_max "")) [
  | inr full ↦ (ground (arith, full, h), ground (arith, full, h))
  | inl empty ↦ elim (Option-cases (write "Datastore.StorageMax")) [
    | inl e ↦ (ground (arith, empty, e, h), ground (arith, empty, e, h))
    | inr (x, e) ↦ absurd (ground (arith, empty, e, h))
  ]
]

default_watermark_ok :
    (write : String → Option String) (cfg c : DatastoreConfig)
    → default_watermark write cfg ≡ ok c
    → (c.storage_max ≡ cfg.storage_max)
      × (c.storage_gc_watermark
          ≡ (if int_beq cfg.storage_gc_watermark (pos 0) then pos 90 else cfg.storage_gc_watermark))
unfolding default_watermark
default_watermark_ok write cfg c h = elim (Bool-cases (int_beq cfg.storage_gc_watermark (pos 0))) [
  | inr full ↦ (ground (arith, full, h), ground (arith, full, h))
  | inl empty ↦ elim (Option-cases (write "Datastore.StorageGCWatermark")) [
    | inl e ↦ (ground (arith, empty, e, h), ground (arith, empty, e, h))
    | inr (x, e) ↦ absurd (ground (arith, empty, e, h))
  ]
]

-- `NewGC` succeeds only with the thresholds of the configured size and watermark, with 10GB for an
-- empty size and 90 for a watermark of 0.
pub new_gc_lem :
    (write : String → Option String) (parse_bytes : String → Result String ℕ)
    → (cfg : DatastoreConfig) (t : Thresholds) → new_gc write parse_bytes (ok cfg) ≡ ok t
    → (m : ℕ) × (parse_bytes (if str_eq cfg.storage_max "" then "10GB" else cfg.storage_max) ≡ ok m)
      × (t
          ≡ thresholds m (
              if int_beq cfg.storage_gc_watermark (pos 0)
              then pos 90
              else cfg.storage_gc_watermark))
unfolding new_gc
new_gc_lem write parse_bytes cfg t h = elim (Result-cases (default_max write cfg)) [
  | inr (e, d1) ↦ absurd (cc (rw (d1, new_gc) at h))
  | inl (c1, d1) ↦ elim (Result-cases (default_watermark write c1)) [
    | inr (e, d2) ↦ absurd (cc (rw (d1, d2, new_gc) at h))
    | inl (c2, d2) ↦ elim (Result-cases (parse_bytes c2.storage_max)) [
      | inr (e, p) ↦ absurd (cc (rw (d1, d2, p, new_gc) at h))
      | inl (m, p) ↦
          let (max1, mark1) = default_max_ok write cfg c1 d1 in
          let (max2, mark2) = default_watermark_ok write c1 c2 d2 in
          (
            m,
            ap parse_bytes (sym (max2 ∙ max1)) ∙ p,
            sym (ok_injective (rw (d1, d2, p, new_gc) at h))
                ∙ ap (λ w. thresholds m w)
                    (mark2 ∙ ap (λ w. if int_beq w (pos 0) then pos 90 else w) mark1),
          )
    ]
  ]
]
