-- ===== src/LinkLayer/ChannelSelection/Selection.antt =====
-- `ChannelSelection1`: every selected channel is one of the map, and how the phase moves.
use ch58x_hal.Base.{ℕ, ◌%◌, ◌≤◌, ◌<◌, ◌≡◌, inl, inr, refl, sym, subst}
use ch58x_hal.Base.{arith, true, List, [], ◌∷◌, length, at, All, IsByte}
use ch58x_hal.Base.{Bool-cases, ok}
use native.Mathlib.Nat.{mod-lt}
use ch58x_hal.LinkLayer.ControlPdu.{data_channel_map_is_valid}
use ch58x_hal.LinkLayer.ChannelSelection.{
  ChannelSelection1, is_used, used_table, new, unmapped_channel, mapped_channel, next_channel,
  update_map,
}
use ch58x_hal.LinkLayer.ChannelSelection.Table.{IsTable, used_table-IsTable, two_used}
use ch58x_hal.Radio.{Error, Channel}
use ch58x_hal.Radio

-- `[u8; 5]`.
pub record IsMap (map : List ℕ) : Type 0 where
  pub five : length map ≡ 5
  pub octets : All IsByte map

-- The selector after any number of calls.
pub record IsSelector (s : ChannelSelection1) : Type 0 where
  pub table : (s.used, s.used_len) ≡ used_table s.map
  pub map : IsMap s.map
  pub valid : data_channel_map_is_valid s.map ≡ true
  pub hop_ge : 5 ≤ s.hop
  pub hop_le : s.hop ≤ 16
  pub phase : s.last_unmapped < 37

abbrev started : List ℕ → ℕ → ChannelSelection1
started map hop = record {
  map = map;
  used = (used_table map).0;
  used_len = (used_table map).1;
  hop = hop;
  last_unmapped = 0;
}

new_inv :
    (map : List ℕ) (hop : ℕ) (s : ChannelSelection1)
    → new map hop ≡ ok s
    → (started map hop ≡ s) × (data_channel_map_is_valid map ≡ true) × (5 ≤ hop) × (hop ≤ 16)
unfolding new
new_inv map hop s e = ground arith

pub new-IsSelector :
    (map : List ℕ) (hop : ℕ) (s : ChannelSelection1) → IsMap map → new map hop ≡ ok s → IsSelector s
new-IsSelector map hop s m e =
    let inv = new_inv map hop s e in
    subst IsSelector inv.0 (record {
      table = refl;
      map = m;
      valid = inv.1;
      hop_ge = inv.2;
      hop_le = inv.3;
      phase = omega arith;
    })

pub update_map-IsSelector :
    (s : ChannelSelection1) (map : List ℕ)
    → IsSelector s
    → IsMap map
    → IsSelector (update_map s map).0
unfolding update_map
update_map-IsSelector s map h m = elim (Bool-cases (data_channel_map_is_valid map)) [
  | inl v ↦ subst IsSelector (sym (simp v)) (record {
    table = refl;
    map = m;
    valid = v;
    hop_ge = h.hop_ge;
    hop_le = h.hop_le;
    phase = h.phase;
  })
  | inr v ↦ subst IsSelector (sym (simp v)) h
]

pub next_channel-IsSelector : (s : ChannelSelection1) → IsSelector s → IsSelector (next_channel s).0
unfolding next_channel
next_channel-IsSelector s h = record {
  table = h.table;
  map = h.map;
  valid = h.valid;
  hop_ge = h.hop_ge;
  hop_le = h.hop_le;
  phase = omega arith;
}

pub Radio-new_below : (c : ℕ) → c < 37 → Radio.new c ≡ ok (record { index = c })
unfolding Radio.new
Radio-new_below c lt = ground arith

-- The channel that `next_channel` selects.
mapped_channel-is_used :
    (s : ChannelSelection1)
    → IsSelector s
    → (is_used s.map (mapped_channel s) ≡ true) × (mapped_channel s < 37)
mapped_channel-is_used s h = elim (Bool-cases (is_used s.map (unmapped_channel s))) [
  | inl e ↦ subst P (sym (simp e)) (e, omega arith)
  | inr e ↦ subst P (sym (simp e)) (entry (unmapped_channel s % s.used_len) remainder)
]
  where
    P : ℕ → Type 0
    P v = (is_used s.map v ≡ true) × (v < 37)

    table : IsTable s.map 37 (s.used, s.used_len)
    table = subst (IsTable s.map 37) (sym h.table) (used_table-IsTable s.map)

    entry : (i : ℕ) → i < s.used_len → P (at s.used i)
    entry = table.sound

    some_used : 2 ≤ s.used_len
    some_used =
        subst (λ (t : List ℕ × ℕ). 2 ≤ t.1) (sym h.table)
          (two_used s.map h.map.five h.map.octets h.valid)

    remainder : unmapped_channel s % s.used_len < s.used_len
    remainder = mod-lt (unmapped_channel s) (omega (arith, some_used))

-- A call of the selector: the next event, or a new map.
pub data Call : Type 0 where
  select : Call
  replace : List ℕ → Call

abbrev pub step : ChannelSelection1 → Call → ChannelSelection1
step s select = (next_channel s).0
step s (replace map) = (update_map s map).0

abbrev pub after : ChannelSelection1 → List Call → ChannelSelection1
after s [] = s
after s (c ∷ cs) = after (step s c) cs

abbrev pub AreMaps : List Call → Type 0
AreMaps [] = Unit
AreMaps (select ∷ cs) = AreMaps cs
AreMaps (replace map ∷ cs) = IsMap map × AreMaps cs

after-IsSelector :
    (cs : List Call) (s : ChannelSelection1) → AreMaps cs → IsSelector s → IsSelector (after s cs)
after-IsSelector [] s m h = h
after-IsSelector (select ∷ cs) s m h =
    after-IsSelector cs (next_channel s).0 m (next_channel-IsSelector s h)
after-IsSelector (replace map ∷ cs) s m h =
    after-IsSelector cs (update_map s map).0 m.1 (update_map-IsSelector s map h m.0)

-- After a successful `new` and any sequence of calls, accepted and rejected maps included, the next
-- call of `next_channel` gives a data channel, never an error, and the map in force has it.
pub next_channel-is_used :
    (map : List ℕ) (hop : ℕ) (s : ChannelSelection1) (cs : List Call)
    → IsMap map
    → AreMaps cs
    → new map hop ≡ ok s
    → (c : ℕ) × ((next_channel (after s cs)).1 ≡ ok (record { index = c }))
      × (is_used (after s cs).map c ≡ true)
      × (c < 37)
unfolding next_channel
next_channel-is_used map hop s cs m ms e =
    let t = after s cs in
    let used = mapped_channel-is_used t (after-IsSelector cs s ms (new-IsSelector map hop s m e)) in
    (mapped_channel t, Radio-new_below (mapped_channel t) used.1, used.0, used.1)
