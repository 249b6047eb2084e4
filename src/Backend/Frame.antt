-- ===== src/Backend/Frame.antt =====
-- What a connection event sends and what an acknowledgment releases:
-- crates/ch58x-ble/src/link_layer.rs.
use ch58x_hal.Base.{ℕ, Bool, true, false, Option, none, some, List, [], ◌∷◌, ◌++◌, length}
use ch58x_hal.Base.{bit_or, bit_xor, ◌<<<◌, is_some, if◌then◌else◌, u8, ok, err}
use ch58x_hal.Backend.Transport.{Host, completed_acl}
use ch58x_hal.Backend.Connection.{
  ActiveConnection, PendingData, TransmittedPdu, no_pdu, control, acl, empty, llid_continuation,
}
use ch58x_hal.Backend.Queue.{refresh_transmit_sequence_header}
use ch58x_hal.Backend.Control.{plan_pending_control_procedure, is_no_pdu, no_frame, Step}

-- The choice of a class for the next frame.
abbrev pub choose_transmitted : ActiveConnection → TransmittedPdu
choose_transmitted c =
    if is_some c.pending_control then control else if is_some c.pending then acl else empty

unfoldable pub select_transmitted : ActiveConnection → ActiveConnection
select_transmitted c =
    if is_no_pdu c.transmitted then record c { transmitted = choose_transmitted c } else c

abbrev pub selected_data : TransmittedPdu → ActiveConnection → Option PendingData
selected_data control c = c.pending_control
selected_data acl c = c.pending
selected_data empty c = none
selected_data no_pdu c = none

abbrev pub frame_llid : Option PendingData → ℕ
frame_llid (some d) = d.llid
frame_llid none = llid_continuation

abbrev pub frame_payload : Option PendingData → List ℕ
frame_payload (some d) = d.bytes
frame_payload none = []

abbrev pub frame_of : ActiveConnection → Option PendingData → List ℕ
frame_of c selected =
    bit_or (bit_or (frame_llid selected) (c.expected_sn <<< 2)) (c.transmit_sn <<< 3)
    ∷ u8 (length (frame_payload selected))
    ∷ frame_payload selected

abbrev pub is_control : TransmittedPdu → Bool
is_control control = true
is_control _ = false

abbrev pub planned : ActiveConnection → Step
planned c = if is_control c.transmitted then plan_pending_control_procedure c else (c, ok tt)

abbrev pub framed : Step → Step
framed (c, err e) = (c, err e)
framed (c, ok done) = (
  record c { tx_frame = frame_of c (selected_data c.transmitted c); tx_frame_fresh = true },
  ok tt,
)

unfoldable pub build_transmit_frame : ActiveConnection → Step
unfolding plan_pending_control_procedure
build_transmit_frame c = framed (planned c)

-- `if connection.tx_frame_len == 0 && self.build_transmit_frame(connection).is_err()`.
unfoldable pub ensure_frame : ActiveConnection → Step
unfolding build_transmit_frame
ensure_frame c = if no_frame c.tx_frame then build_transmit_frame c else (c, ok tt)

abbrev pub refreshed : List ℕ → ℕ → ℕ → List ℕ
refreshed [] transmit_sn expected_sn = []
refreshed (header ∷ rest) transmit_sn expected_sn =
    refresh_transmit_sequence_header header transmit_sn expected_sn ∷ rest

unfoldable pub refresh_frame : ActiveConnection → ActiveConnection
unfolding refresh_transmit_sequence_header
refresh_frame c = record c { tx_frame = refreshed c.tx_frame c.transmit_sn c.expected_sn }

-- `queued_acl[index] = queued_acl[index + 1].take()` for each index but the last.
abbrev pub shifted : List (Option PendingData) → List (Option PendingData)
shifted [] = []
shifted (slot ∷ slots) = slots ++ (none ∷ [])

abbrev pub first_slot : List (Option PendingData) → Option PendingData
first_slot [] = none
first_slot (slot ∷ slots) = slot

-- `priority_control.take().or_else(|| queued_control.take())`.
abbrev pub next_control : Option PendingData → ActiveConnection → ActiveConnection
next_control none c = record c { pending_control = c.queued_control; queued_control = none }
next_control (some d) c = record c { pending_control = some d; priority_control = none }

-- The `match` on what was transmitted.
unfoldable pub release_transmitted :
    TransmittedPdu → ActiveConnection → Host → ActiveConnection × Host
unfolding completed_acl
release_transmitted control c h = (next_control c.priority_control c, h)
release_transmitted acl c h = (
  record c { pending = first_slot c.queued_acl; queued_acl = shifted c.queued_acl },
  completed_acl c.handle 1 h,
)
release_transmitted empty c h = (c, h)
release_transmitted no_pdu c h = (c, h)

-- The rest of an acknowledgment: nothing is outstanding and the sequence number changes.
unfoldable pub settle_transmit : ActiveConnection → ActiveConnection
settle_transmit c = record c {
  transmitted = no_pdu;
  tx_frame = [];
  tx_frame_fresh = false;
  transmit_sn = bit_xor c.transmit_sn 1;
}
