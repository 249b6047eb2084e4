-- ===== src/LinkLayer/ChannelSelection.antt =====
-- `ChannelSelection1` of crates/ble-controller/src/link_layer.rs, lines 1100 to 1165.
mod Table
pub mod Selection
pub mod Phase
pub mod MapUpdate
use ch58x_hal.Base.{ℕ, zero, suc, ◌+◌, ◌/◌, ◌%◌, Bool, true, false, not, ◌&&◌, ◌||◌}
use ch58x_hal.Base.{
  List, [], ◌∷◌, at, set, replicate, for_range, ltb, leb, if◌then◌else◌, has_bits, ◌<<<◌,
}
use ch58x_hal.Base.{Result, ok, err}
use ch58x_hal.LinkLayer.ControlPdu.{data_channel_map_is_valid}
use ch58x_hal.Radio.{Error, invalid_packet, Channel}
use ch58x_hal.Radio

pub record ChannelSelection1 : Type 0 where
  pub map : List ℕ
  pub used : List ℕ
  pub used_len : ℕ
  pub hop : ℕ
  pub last_unmapped : ℕ

-- `map[usize::from(channel / 8)] & (1 << (channel % 8)) != 0`.
abbrev pub is_used : List ℕ → ℕ → Bool
is_used map channel = has_bits (at map (channel / 8)) (1 <<< (channel % 8))

-- The body of the loop over the channels, on the array `used` and `used_len`.
abbrev pub record_channel : List ℕ → ℕ → List ℕ × ℕ → List ℕ × ℕ
record_channel map channel (used, used_len) =
    if is_used map channel then (set used used_len channel, suc used_len) else (used, used_len)

unfoldable pub used_table : List ℕ → List ℕ × ℕ
used_table map = for_range 37 0 (record_channel map) (replicate 37 0, 0)

unfoldable pub new : List ℕ → ℕ → Result ChannelSelection1 Error
new map hop =
    if not (leb 5 hop && leb hop 16) || not (data_channel_map_is_valid map)
    then err invalid_packet
    else let table = used_table map in
      ok (record { map = map; used = table.0; used_len = table.1; hop = hop; last_unmapped = 0 })

-- `(self.last_unmapped + self.hop) % 37`.
abbrev pub unmapped_channel : ChannelSelection1 → ℕ
unmapped_channel s = (s.last_unmapped + s.hop) % 37

abbrev pub mapped_channel : ChannelSelection1 → ℕ
mapped_channel s =
    if is_used s.map (unmapped_channel s)
    then unmapped_channel s
    else at s.used (unmapped_channel s % s.used_len)

-- The state afterwards, and the argument of the `unwrap`.
unfoldable pub next_channel : ChannelSelection1 → ChannelSelection1 × Result Channel Error
next_channel s = (record s { last_unmapped = unmapped_channel s }, Radio.new (mapped_channel s))

-- The state afterwards: unchanged on an error.
unfoldable pub update_map : ChannelSelection1 → List ℕ → ChannelSelection1 × Result (Unit {0}) Error
update_map s map =
    if not (data_channel_map_is_valid map)
    then (s, err invalid_packet)
    else let table = used_table map in
      (record s { map = map; used = table.0; used_len = table.1 }, ok tt)
