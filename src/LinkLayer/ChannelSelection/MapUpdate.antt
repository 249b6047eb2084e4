-- ===== src/LinkLayer/ChannelSelection/MapUpdate.antt =====
-- From a received `LL_CHANNEL_MAP_IND` to the selector.
use ch58x_hal.Base.{ℕ, ◌≤◌, ◌≡◌, refl, sym, subst}
use ch58x_hal.Base.{arith, true, false, List, [], ◌∷◌, ◌++◌, length, at, take, drop, All}
use ch58x_hal.Base.{IsByte, u16_from_le, u16_to_le, ok}
use ch58x_hal.LinkLayer.Timing.{classify_instant}
use ch58x_hal.LinkLayer.ControlPdu.{
  ChannelMapInd, is_passed, data_channel_map_is_valid, parse_channel_map,
}
use ch58x_hal.LinkLayer.ControlPdu.Parameters.{u16_to_le_from_le}
use ch58x_hal.LinkLayer.ChannelSelection.{ChannelSelection1, used_table, update_map}
use ch58x_hal.LinkLayer.ChannelSelection.Selection.{IsMap}
use ch58x_hal.LinkLayer.ChannelSelection.Table.{two_used}

abbrev fields : List ℕ → ChannelMapInd
fields payload = record {
  map = take 5 (drop 1 payload);
  instant = u16_from_le (at payload 6) (at payload 7);
}

parse_inv :
    (payload : List ℕ) (event_counter : ℕ) (u : ChannelMapInd)
    → parse_channel_map payload event_counter ≡ ok u
    → (length payload ≡ 8)
      × (at payload 0 ≡ 1)
      × (fields payload ≡ u)
      × (data_channel_map_is_valid (fields payload).map ≡ true)
      × (is_passed (classify_instant event_counter (fields payload).instant) ≡ false)
unfolding parse_channel_map
parse_inv payload event_counter u e = ground arith

fields_layout :
    (payload : List ℕ)
    → length payload ≡ 8
    → at payload 0 ≡ 1
    → All IsByte payload
    → (0x01 ∷ ((fields payload).map ++ u16_to_le (fields payload).instant) ≡ payload)
      × IsMap (fields payload).map
fields_layout (o ∷ a ∷ b ∷ c ∷ d ∷ e ∷ f ∷ g ∷ []) l one bs = (
  (λ t.
      opcode t ∷ (a ∷ b ∷ c ∷ d ∷ e ∷ u16_to_le_from_le f g bs.1.1.1.1.1.1.0 bs.1.1.1.1.1.1.1.0 t)),
  record {
    five = refl;
    octets = (bs.1.0, (bs.1.1.0, (bs.1.1.1.0, (bs.1.1.1.1.0, (bs.1.1.1.1.1.0, tt)))));
  },
)
  where
    opcode : 0x01 ≡ o
    opcode = sym one
fields_layout _ l one bs = absurd (omega arith)

-- The selector takes the map.
abbrev Taken : ChannelSelection1 → List ℕ → Type 0
Taken s map =
    (update_map s map
      ≡ (record s { map = map; used = (used_table map).0; used_len = (used_table map).1 }, ok tt))
    × (2 ≤ (used_table map).1)

taken :
    (s : ChannelSelection1) (map : List ℕ)
    → IsMap map
    → data_channel_map_is_valid map ≡ true
    → Taken s map
unfolding update_map
taken s map m v = (simp v, two_used map m.five m.octets v)

-- A payload of octets that is accepted as a channel map update is the encoding of the result; its
-- instant has not passed, and every selector takes its map, in which at least two channels are used,
-- and keeps its hop and its phase.
pub parse_channel_map_accepts :
    (payload : List ℕ) (event_counter : ℕ) (u : ChannelMapInd) (s : ChannelSelection1)
    → All IsByte payload
    → parse_channel_map payload event_counter ≡ ok u
    → (0x01 ∷ (u.map ++ u16_to_le u.instant) ≡ payload)
      × (is_passed (classify_instant event_counter u.instant) ≡ false)
      × (update_map s u.map ≡ (
        record s { map = u.map; used = (used_table u.map).0; used_len = (used_table u.map).1 },
        ok tt,
      ))
      × (2 ≤ (used_table u.map).1)
parse_channel_map_accepts payload event_counter u s bs e =
    let inv = parse_inv payload event_counter u e in
    let layout = fields_layout payload inv.0 inv.1 bs in
    let ready = taken s (fields payload).map layout.1 inv.3 in
    subst P inv.2 (layout.0, inv.4, ready.0, ready.1)
  where
    P : ChannelMapInd → Type 0
    P v =
        (0x01 ∷ (v.map ++ u16_to_le v.instant) ≡ payload)
        × (is_passed (classify_instant event_counter v.instant) ≡ false)
        × (update_map s v.map ≡ (
          record s { map = v.map; used = (used_table v.map).0; used_len = (used_table v.map).1 },
          ok tt,
        ))
        × (2 ≤ (used_table v.map).1)
