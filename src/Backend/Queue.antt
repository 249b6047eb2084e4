-- ===== src/Backend/Queue.antt =====
-- The queues of a connection: crates/ch58x-ble/src/link_layer.rs, and the sequence
-- bits of a staged header. A method on `&mut self` gives the connection afterwards with its result.
use ch58x_hal.Base.{ℕ, ◌+◌, ◌*◌, ◌-◌, Bool, true, false, not, ◌||◌, Option, none, some}
use mathlib.Core.Option
use ch58x_hal.Base.{List, [], ◌∷◌, length, at, take, drop, ltb, ◌==◌, ◌!=◌, if◌then◌else◌}
use ch58x_hal.Base.{bit_and, bit_or, u8, u32, u16_from_le, ◌>>>◌, is_some, max, Result, ok, err}
use ch58x_hal.LinkLayer.Sequence.{data_header_nesn, data_header_sn, data_header_sequence_mask}
use ch58x_hal.Llcp.Procedure.{ProcedureToken}
use ch58x_hal.Backend.Transport.{Packet}
use ch58x_hal.Backend.Connection.{
  ActiveConnection, PendingData, hci_command_disallowed, hci_invalid_parameters,
  max_data_pdu_payload, llid_continuation, llid_start, llid_control,
}

-- `!mask` on an octet is `255 - mask`.
unfoldable pub refresh_transmit_sequence_header : ℕ → ℕ → ℕ → ℕ
refresh_transmit_sequence_header header transmit_sn expected_sn =
    bit_or
      (bit_or (bit_and header (255 - data_header_sequence_mask))
        (bit_and expected_sn 1 * data_header_nesn))
      (bit_and transmit_sn 1 * data_header_sn)

-- `iter_mut().find(|slot| slot.is_none())` and the store; `none` if every slot is taken.
abbrev pub fill_first : PendingData → List (Option PendingData) → Option (List (Option PendingData))
fill_first d [] = none
fill_first d (none ∷ slots) = some (some d ∷ slots)
fill_first d (some e ∷ slots) = Option.map (◌∷◌ (some e)) (fill_first d slots)

-- The connection after `queued` is set to `true`; `none` if it is `false`.
abbrev pub placed_behind :
    ActiveConnection → Option (List (Option PendingData)) → Option ActiveConnection
placed_behind c (some slots) = some (record c { queued_acl = slots })
placed_behind c none = none

abbrev pub place_acl : ActiveConnection → PendingData → Option PendingData → Option ActiveConnection
place_acl c d none = some (record c { pending = some d })
place_acl c d (some first) = placed_behind c (fill_first d c.queued_acl)

-- `wrapping_add(1).max(1)`.
abbrev pub following_token : ℕ → ℕ
following_token token = max (u32 (token + 1)) 1

abbrev pub count_token :
    ActiveConnection → Option ActiveConnection → ActiveConnection × Result (Unit {0}) ℕ
count_token c none = (c, err hci_command_disallowed)
count_token c (some d) =
    (record d { next_acl_owner_token = following_token d.next_acl_owner_token }, ok tt)

-- The fields of an ACL packet of at least four octets.
abbrev pub raw_handle : Packet → ℕ
raw_handle packet = u16_from_le (at packet.bytes 0) (at packet.bytes 1)

abbrev pub acl_length : Packet → ℕ
acl_length packet = u16_from_le (at packet.bytes 2) (at packet.bytes 3)

abbrev pub acl_llid : Packet → ℕ
acl_llid packet =
    if bit_and (raw_handle packet >>> 12) 0x03 == 1 then llid_continuation else llid_start

abbrev pub acl_data_of : ActiveConnection → Packet → PendingData
acl_data_of c packet = record {
  bytes = take (acl_length packet) (drop 4 packet.bytes);
  llid = acl_llid packet;
  owner_token = c.next_acl_owner_token;
}

unfoldable pub queue_acl : ActiveConnection → Packet → ActiveConnection × Result (Unit {0}) ℕ
queue_acl c packet =
    if ltb (length packet.bytes) 4
    then (c, err hci_command_disallowed)
    else if bit_and (raw_handle packet) 0x0fff != c.handle
        || (acl_length packet + 4 != length packet.bytes
            || ltb max_data_pdu_payload (acl_length packet))
    then (c, err hci_invalid_parameters)
    else count_token c (place_acl c (acl_data_of c packet) c.pending)

unfoldable pub allocate_control_token : ActiveConnection → ActiveConnection × ProcedureToken
allocate_control_token c = (
  record c { next_control_owner_token = bit_or (u32 (c.next_control_owner_token + 1)) 0x80000000 },
  record { owner_token = c.next_control_owner_token; generation = u8 c.next_control_owner_token },
)

abbrev pub control_data : List ℕ → ProcedureToken → PendingData
control_data bytes token = record {
  bytes = bytes;
  llid = llid_control;
  owner_token = token.owner_token;
}

unfoldable pub queue_control_with_token :
    ActiveConnection → List ℕ → ProcedureToken → ActiveConnection × Bool
queue_control_with_token c bytes token =
    if ltb max_data_pdu_payload (length bytes)
    then (c, false)
    else if not (is_some c.pending_control)
    then (record c { pending_control = some (control_data bytes token) }, true)
    else if not (is_some c.queued_control)
    then (record c { queued_control = some (control_data bytes token) }, true)
    else (c, false)

unfoldable pub queue_control_owned :
    ActiveConnection → List ℕ → ActiveConnection × Option ProcedureToken
unfolding allocate_control_token queue_control_with_token
queue_control_owned c bytes =
    let (d, token) = allocate_control_token c in
    let (e, queued) = queue_control_with_token d bytes token in
    (e, if queued then some token else none)

unfoldable pub queue_control : ActiveConnection → List ℕ → ActiveConnection × Bool
unfolding queue_control_owned
queue_control c bytes = let (d, token) = queue_control_owned c bytes in (d, is_some token)
