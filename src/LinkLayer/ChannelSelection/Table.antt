-- ===== src/LinkLayer/ChannelSelection/Table.antt =====
-- The table of the used channels that `ChannelSelection1` keeps: what the loop leaves in it.
use ch58x_hal.Base.{
  ℕ, zero, suc, ◌+◌, ◌/◌, ◌%◌, ◌^◌, ◌≤◌, ◌<◌, ◌≡◌, ◌⊎◌, ◌≢◌, inl, inr, refl, sym, ap, subst, ◌∙◌,
}
use ch58x_hal.Base.{
  arith, Bool, true, false, not, List, [], ◌∷◌, length, at, set, replicate, All, for_range,
}
use ch58x_hal.Base.{
  ltb, ◌==◌, bit_and, IsByte, Bool-cases, ltb→lt, all_below, all_below_sound, ◌||◌,
}
use ch58x_hal.Base.{length-set, get_or-set_self, get_or-set_ne}
use ch58x_hal.Base.Bits.Mask.{and-low}
use ch58x_hal.Base.Bits.Test.{bit_set}
use ch58x_hal.LinkLayer.ControlPdu.{data_channel_map_is_valid, count_ones, used_channels}
use ch58x_hal.LinkLayer.ChannelSelection.{is_used, record_channel, used_table}

-- The bit of a channel in the map.
abbrev bit_of : List ℕ → ℕ → ℕ
bit_of map c = at map (c / 8) / 2 ^ (c % 8) % 2

abbrev count_below : List ℕ → ℕ → ℕ
count_below map zero = 0
count_below map (suc n) = bit_of map n + count_below map n

-- What the loop keeps: the channels below `n` are seen and `t` is the table.
pub record IsTable (map : List ℕ) (n : ℕ) (t : List ℕ × ℕ) : Type 0 where
  pub size : length t.0 ≡ 37
  pub few : t.1 ≤ n
  pub count : t.1 ≡ count_below map n
  pub sound : (i : ℕ) → i < t.1 → (is_used map (at t.0 i) ≡ true) × (at t.0 i < n)

record_channel-IsTable :
    (map : List ℕ) (n : ℕ) (t : List ℕ × ℕ)
    → n < 37
    → IsTable map n t
    → IsTable map (suc n) (record_channel map n t)
record_channel-IsTable map n (used, used_len) lt h = elim (Bool-cases (is_used map n)) [
  | inl e ↦ taken e
  | inr e ↦ skipped e
]
  where
    bit : is_used map n ≡ (bit_of map n == 1)
    bit = bit_set (at map (n / 8)) (n % 8)

    entry :
        is_used map n ≡ true
        → (i : ℕ) → i < suc used_len
        → (is_used map (at (set used used_len n) i) ≡ true) × (at (set used used_len n) i < suc n)
    entry e i lti = elim (decide i used_len) [
      | inl p ↦
          subst (λ (v : ℕ). (is_used map v ≡ true) × (v < suc n))
            (sym (
              ap (at (set used used_len n)) p
              ∙ get_or-set_self used used_len n 0 (omega (arith, h.size, h.few))))
            (e, omega arith)
      | inr p ↦
          subst (λ (v : ℕ). (is_used map v ≡ true) × (v < suc n))
            (sym (get_or-set_ne used used_len i n 0 (λ q. p (sym q))))
            ((h.sound i (ground arith)).0, omega (arith, (h.sound i (ground arith)).1))
    ]
      where
        decide : (a b : ℕ) → (a ≡ b) ⊎ (a ≢ b)
        decide a b = ground arith

    taken : is_used map n ≡ true → IsTable map (suc n) (record_channel map n (used, used_len))
    taken e = subst (IsTable map (suc n)) (sym (simp e)) (record {
      size = length-set used used_len n ∙ h.size;
      few = omega (arith, h.few);
      count = ground (arith, h.count, bit);
      sound = λ (i : ℕ) lti. entry e i lti;
    })

    skipped : is_used map n ≡ false → IsTable map (suc n) (record_channel map n (used, used_len))
    skipped e = subst (IsTable map (suc n)) (sym (simp e)) (record {
      size = h.size;
      few = omega (arith, h.few);
      count = ground (arith, h.count, bit);
      sound = λ (i : ℕ) lti. ((h.sound i lti).0, omega (arith, (h.sound i lti).1));
    })

for_range-IsTable :
    (map : List ℕ) (n i : ℕ) (t : List ℕ × ℕ)
    → i + n ≤ 37
    → IsTable map i t
    → IsTable map (i + n) (for_range n i (record_channel map) t)
for_range-IsTable map zero i t le h = subst (λ (m : ℕ). IsTable map m t) (omega arith) h
for_range-IsTable map (suc n) i t le h =
    subst (λ (m : ℕ). IsTable map m (for_range (suc n) i (record_channel map) t)) (omega arith)
      (for_range-IsTable map n (suc i) (record_channel map i t) (omega arith)
        (record_channel-IsTable map i t (omega arith) h))

pub used_table-IsTable : (map : List ℕ) → IsTable map 37 (used_table map)
unfolding used_table
used_table-IsTable map =
    for_range-IsTable map 37 0 (replicate 37 0, 0) (omega arith)
      (record {
        size = refl;
        few = omega arith;
        count = refl;
        sound = λ (i : ℕ) lt. absurd (omega arith);
      })

count_ones_octet :
    (n : ℕ)
    → count_ones 8 n
      ≡ n / 1 % 2
        + (n / 2 % 2
            + (n / 4 % 2 + (n / 8 % 2 + (n / 16 % 2 + (n / 32 % 2 + (n / 64 % 2 + n / 128 % 2))))))
count_ones_octet n = omega (
  arith,
  and-low 1 n,
  and-low 1 (n / 2),
  and-low 1 (n / 2 / 2),
  and-low 1 (n / 2 / 2 / 2),
  and-low 1 (n / 2 / 2 / 2 / 2),
  and-low 1 (n / 2 / 2 / 2 / 2 / 2),
  and-low 1 (n / 2 / 2 / 2 / 2 / 2 / 2),
  and-low 1 (n / 2 / 2 / 2 / 2 / 2 / 2 / 2),
)

-- Five octets of which the last has no bit above the channel 36.
top_clear : (e : ℕ) → e < 256 → (bit_and e 0xe0 == 0) ≡ true → e < 32
unfolding all_below
top_clear e lt h = ltb→lt e 32 (ground (arith, all_below_sound 256 test e refl lt))
  where
    test : ℕ → Bool
    test e = not (bit_and e 0xe0 == 0) || ltb e 32

-- The table has as many channels as the map has bits.
count-used_channels :
    (a b c d e : ℕ)
    → e < 32
    → count_below (a ∷ b ∷ c ∷ d ∷ e ∷ []) 37 ≡ used_channels (a ∷ b ∷ c ∷ d ∷ e ∷ [])
count-used_channels a b c d e lt = omega (
  arith,
  count_ones_octet a,
  count_ones_octet b,
  count_ones_octet c,
  count_ones_octet d,
  count_ones_octet e,
)

-- A valid map leaves at least two channels in the table.
pub two_used :
    (map : List ℕ)
    → length map ≡ 5
    → All IsByte map
    → data_channel_map_is_valid map ≡ true
    → 2 ≤ (used_table map).1
unfolding data_channel_map_is_valid
two_used (a ∷ b ∷ c ∷ d ∷ e ∷ []) l bs v = ground (
  arith,
  (used_table-IsTable (a ∷ b ∷ c ∷ d ∷ e ∷ [])).count,
  count-used_channels a b c d e,
  top_clear e bs.1.1.1.1.0,
)
two_used _ l bs v = absurd (omega arith)
