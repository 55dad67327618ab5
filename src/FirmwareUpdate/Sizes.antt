-- ===== src/FirmwareUpdate/Sizes.antt =====
-- The subpages of a sector cover it.
use native.Mathlib.Nat.{div-add-mod, mod-lt}
use atlascode.Prelude.{
  ℕ, ◌+◌, ◌-◌, ◌*◌, ◌/◌, ◌%◌, ◌<◌, ◌≡◌, refl, false, Option, none, some, ◌==◌, if◌then◌else◌, ◌>>=◌,
  arith,
}
use atlascode.FirmwareUpdate.{
  calculate_dynamic_header_len, get_max_payload_size, get_max_sub_page_count, get_min_payload_size,
}

payload-positive : (routers : ℕ) → 0 < get_max_payload_size (calculate_dynamic_header_len routers)
unfolding calculate_dynamic_header_len get_max_payload_size
payload-positive routers = ground arith

-- For a header of any route, the subpages of a sector are all of the largest payload but the last, the
-- last is smaller, and together they are the sector; no division by zero occurs.
pub subpages_cover :
    (sector_value routers : ℕ)
    → (count : ℕ) × (last : ℕ) × (get_max_sub_page_count sector_value
          (calculate_dynamic_header_len routers)
        ≡ some count)
      × (get_min_payload_size sector_value (calculate_dynamic_header_len routers) ≡ some last)
      × ((count - 1) * get_max_payload_size (calculate_dynamic_header_len routers) + last
          ≡ sector_value)
      × (last < get_max_payload_size (calculate_dynamic_header_len routers))
unfolding get_max_sub_page_count get_min_payload_size
subpages_cover sector_value routers =
    go (get_max_payload_size (calculate_dynamic_header_len routers)) (payload-positive routers)
  where
    go :
        (p : ℕ)
        → 0 < p
        → (count : ℕ) × (last : ℕ) × (◌≡◌ {A = Option ℕ}
            (if p == 0 then none else some (sector_value / p + 1))
            (some count))
          × (◌≡◌ {A = Option ℕ}
              ((if p == 0 then none else some (sector_value / p + 1)) >>= λ n.
                some (sector_value - (n - 1) * p))
              (some last))
          × ((count - 1) * p + last ≡ sector_value)
          × (last < p)
    go p h =
        let some_payload : (p == 0) ≡ false = ground arith in
        let q = sector_value / p in
        let r = sector_value % p in
        let less : q + 1 - 1 ≡ q = omega arith in
        let split : q * p + r ≡ sector_value = grind (arith, div-add-mod sector_value p) in
        let rest : sector_value - q * p ≡ r = omega (arith, split) in
        (
          q + 1,
          r,
          rw some_payload refl,
          rw (some_payload, less, rest) refl,
          rw less split,
          mod-lt sector_value h,
        )
