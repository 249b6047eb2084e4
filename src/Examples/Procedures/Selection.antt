-- ===== src/Examples/Procedures/Selection.antt =====
-- Channel selection on concrete values.
use ch58x_hal.Base.{ℕ, ◌<◌, ◌≡◌, refl, arith}
use ch58x_hal.Base.{true, List, [], ◌∷◌, replicate, ok}
use ch58x_hal.LinkLayer.ControlPdu.{data_channel_map_is_valid}
use ch58x_hal.LinkLayer.ChannelSelection.{ChannelSelection1, is_used, next_channel, used_table}
use ch58x_hal.LinkLayer.ChannelSelection
use ch58x_hal.LinkLayer.ChannelSelection.Selection.{
  IsMap, IsSelector, Call, select, replace, after, new-IsSelector, next_channel-is_used,
}
use ch58x_hal.LinkLayer.ChannelSelection.Phase.{every_channel_selected}
use ch58x_hal.LinkLayer.ChannelSelection.{update_map}

abbrev pub map : List ℕ
map = 0x05 ∷ 0x00 ∷ 0x80 ∷ 0x00 ∷ 0x10 ∷ []

map-IsMap : IsMap map
map-IsMap = record {
  five = refl;
  octets = (omega arith, (omega arith, (omega arith, (omega arith, (omega arith, tt)))));
}

abbrev pub selector : ChannelSelection1
selector = record {
  map = map;
  used = (used_table map).0;
  used_len = (used_table map).1;
  hop = 7;
  last_unmapped = 0;
}

selector_made : ChannelSelection.new map 7 ≡ ok selector
unfolding ChannelSelection.new data_channel_map_is_valid
selector_made = refl

selector-IsSelector : IsSelector selector
selector-IsSelector = new-IsSelector map 7 selector map-IsMap selector_made

abbrev selector_calls : List Call
selector_calls = select ∷ replace map ∷ select ∷ []

next_channel-is_used_example :
    (c : ℕ) × ((next_channel (after selector selector_calls)).1 ≡ ok (record { index = c }))
    × (is_used (after selector selector_calls).map c ≡ true)
    × (c < 37)
next_channel-is_used_example =
    next_channel-is_used map 7 selector selector_calls map-IsMap (map-IsMap, tt) selector_made

every_channel_selected_example :
    (k : ℕ) × (k < 37)
    × ((next_channel (after selector (replicate k select))).1 ≡ ok (record { index = 23 }))
every_channel_selected_example =
    every_channel_selected selector 23 selector-IsSelector (omega arith) refl
