-- ===== src/Hci/Parameters.antt =====
-- The advertising parameters: what is accepted.
use ch58x_hal.Base.{ℕ, ◌*◌, ◌≤◌, ◌<◌, ◌≡◌, ◌↔◌, refl, subst}
use ch58x_hal.Base.{
  arith, Bool, true, false, not, ◌||◌, some, List, [], ◌∷◌, length, at, any, ◌==◌, has_bits, IsByte,
  u16_from_le, all_below, all_below_sound, leb,
}
use ch58x_hal.Hci.{AdvertisingParameters, above_channels, parse}

-- The command parameters that this controller supports.
pub record IsSupported (params : List ℕ) : Type 0 where
  pub size : length params ≡ 15
  pub min_ge : 0x20 ≤ u16_from_le (at params 0) (at params 1)
  pub min_le_max : u16_from_le (at params 0) (at params 1) ≤ u16_from_le (at params 2) (at params 3)
  pub max_le : u16_from_le (at params 2) (at params 3) ≤ 0x4000
  pub adv_ind : at params 4 ≡ 0
  pub random_address : at params 5 ≡ 1
  pub peer_kind : at params 6 ≤ 1
  pub some_channel : 1 ≤ at params 13
  pub channels_le : at params 13 ≤ 7
  pub no_filter : at params 14 ≡ 0

abbrev bool_eq : Bool → Bool → Bool
bool_eq true b = b
bool_eq false b = not b

abbrev one_of : ℕ → Bool
one_of n = has_bits n 1 || (has_bits n 2 || has_bits n 4)

channels_test : (n : ℕ) → n < 256 → ((above_channels n == 0) ≡ true) ↔ (n ≤ 7)
unfolding all_below
channels_test n lt = ((λ h. ground (arith, fact)), (λ h. ground (arith, fact)))
  where
    test : ℕ → Bool
    test k = bool_eq (above_channels k == 0) (leb k 7)

    fact : test n ≡ true
    fact = all_below_sound 256 test n refl lt

some_channel_set : (n : ℕ) → 1 ≤ n → n ≤ 7 → one_of n ≡ true
unfolding all_below
some_channel_set n low high = ground (arith, all_below_sound 8 test n refl (omega arith))
  where
    test : ℕ → Bool
    test k = k == 0 || one_of k

abbrev accepted : List ℕ → AdvertisingParameters
accepted params = record {
  interval_us = u16_from_le (at params 0) (at params 1) * 625;
  channels = has_bits (at params 13) 1 ∷ has_bits (at params 13) 2 ∷ has_bits (at params 13) 4 ∷ [];
}

module _ (params : List ℕ) (byte : IsByte (at params 13)) where
  parse_inv :
      (p : AdvertisingParameters)
      → parse params ≡ some p
      → IsSupported params × (accepted params ≡ p)
  unfolding parse
  parse_inv p h = ground (arith, channels_test (at params 13) byte)

  parse_supported : IsSupported params → parse params ≡ some (accepted params)
  unfolding parse
  parse_supported s = ground (
    arith,
    (channels_test (at params 13) byte).1 s.channels_le,
    s.size,
    s.min_ge,
    s.min_le_max,
    s.max_le,
    s.adv_ind,
    s.random_address,
    s.peer_kind,
    s.some_channel,
    s.no_filter,
  )

  -- Parameters are accepted exactly when the command asks for ADV_IND from a random address without
  -- a filter, on some of the three channels and with an ordered interval range in bounds; the
  -- interval is then the minimum in microseconds, a unit being 625 of them, from 20 ms to 10.24 s,
  -- and one of the three channels is set.
  pub parse_accepts :
      (((p : AdvertisingParameters) × (parse params ≡ some p)) ↔ IsSupported params)
      × ((p : AdvertisingParameters)
          → parse params ≡ some p
          → (p.interval_us ≡ u16_from_le (at params 0) (at params 1) * 625)
            × (20_000 ≤ p.interval_us)
            × (p.interval_us ≤ 10_240_000)
            × (length p.channels ≡ 3)
            × (any (λ c. c) p.channels ≡ true))
  parse_accepts =
      (((λ m. (parse_inv m.0 m.1).0), (λ s. (accepted params, parse_supported s))), bounds)
    where
      bounds :
          (p : AdvertisingParameters)
          → parse params ≡ some p
          → (p.interval_us ≡ u16_from_le (at params 0) (at params 1) * 625)
            × (20_000 ≤ p.interval_us)
            × (p.interval_us ≤ 10_240_000)
            × (length p.channels ≡ 3)
            × (any (λ c. c) p.channels ≡ true)
      bounds p h = subst In (parse_inv p h).1 (
        refl,
        least s,
        greatest s,
        refl,
        ground (arith, some_channel_set (at params 13) s.some_channel s.channels_le),
      )
        where
          s : IsSupported params
          s = (parse_inv p h).0

          In : AdvertisingParameters → Type 0
          In q =
              (q.interval_us ≡ u16_from_le (at params 0) (at params 1) * 625)
              × (20_000 ≤ q.interval_us)
              × (q.interval_us ≤ 10_240_000)
              × (length q.channels ≡ 3)
              × (any (λ c. c) q.channels ≡ true)

          least : IsSupported params → 20_000 ≤ (accepted params).interval_us
          least t = omega (arith, t.min_ge)

          greatest : IsSupported params → (accepted params).interval_us ≤ 10_240_000
          greatest t = omega (arith, t.min_le_max, t.max_le)
