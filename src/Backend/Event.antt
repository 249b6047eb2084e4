-- ===== src/Backend/Event.antt =====
-- One connection event: `connection_event` of crates/ch58x-ble/src/link_layer.rs. The radio is an
-- argument, a function from what it is asked to what it gives; so are the clock's readings.
pub mod Total
use ch58x_hal.Base.{ℕ, ◌+◌, ◌-◌, ◌*◌, Bool, true, false, not, ◌&&◌, ◌||◌, Option, none, some}
use ch58x_hal.Base.{
  List, [], ◌∷◌, length, at, take, ltb, ◌==◌, if◌then◌else◌, bit_and, bit_or, bit_xor,
}
use ch58x_hal.Base.{◌>>>◌, Result, ok, err}
use ch58x_hal.LinkLayer.Sequence.{acknowledges_transmit_owner}
use ch58x_hal.Llcp.Procedure.{termination}
use ch58x_hal.Radio.{Error, Channel}
use ch58x_hal.Backend.Transport.{Host, send_acl}
use ch58x_hal.Backend.Connection.{
  ActiveConnection, PendingData, max_data_pdu_payload, llid_continuation, llid_start, llid_control,
}
use ch58x_hal.Backend.Schedule.{
  next_channel, receive_close, take_receive_timeout, synchronize, apply_instants, notifies,
  forget_request,
}
use ch58x_hal.Backend.Control.{
  local_procedure_active, complete_pending_control_transmit, acknowledge_pending_control,
  promote_priority_control_if_idle, Step,
}
use ch58x_hal.Backend.Frame.{
  select_transmitted, ensure_frame, refresh_frame, is_control, release_transmitted, settle_transmit,
}
use ch58x_hal.Backend.Emit.{emit_connection_update_complete}
use ch58x_hal.Backend.Received.{Handled, handle_ll_control}

-- The arguments of `Radio::exchange`.
pub record ExchangeCall : Type 0 where
  pub channel : Channel
  pub receive_deadline : ℕ
  pub timeout : ℕ
  pub tx_frame : List ℕ

-- What it gives: whether the frame went out, and the received packet.
pub record Exchange : Type 0 where
  pub transmitted : Bool
  pub crc_ok : Bool
  pub payload : List ℕ
  pub rssi_dbm : ℕ
  pub timestamp_us : ℕ

abbrev pub Radio : Type 0
Radio = ExchangeCall → Option Exchange

-- What both uses of `apply_instants` do with its result.
abbrev pub told : ActiveConnection × Result (Bool × Bool) ℕ → Host → Handled
told (c, err reason) h = (c, h, some reason)
told (c, ok (applied, changed)) h =
    let d = forget_request c applied in
    (d, (if notifies c applied changed then emit_connection_update_complete d h else h), none)

unfoldable pub apply_and_tell : ActiveConnection → ℕ → Host → Handled
unfolding apply_instants emit_connection_update_complete
apply_and_tell c now h = told (apply_instants c now) h

-- Up to the exchange: the frame stands, with the sequence numbers of this event.
unfoldable pub stage : ActiveConnection → Step
unfolding promote_priority_control_if_idle select_transmitted ensure_frame
stage c = ensure_frame (select_transmitted (promote_priority_control_if_idle c))

abbrev pub sent_once : Step → Step
sent_once (c, ok done) = (record c { tx_frame_fresh = false }, ok tt)
sent_once (c, err e) = (c, err e)

-- The first transmission of a frame.
unfoldable pub note_transmitted : ActiveConnection → Exchange → Step
unfolding complete_pending_control_transmit
note_transmitted c x =
    if c.tx_frame_fresh && x.transmitted
    then sent_once
        (if is_control c.transmitted then complete_pending_control_transmit c else (c, ok tt))
    else (c, ok tt)

abbrev first_octet_is : ℕ → Option PendingData → Bool
first_octet_is value none = false
first_octet_is value (some pdu) = at pdu.bytes 0 == value

unfoldable pub sent_terminate : ActiveConnection → Exchange → Bool
unfolding local_procedure_active
sent_terminate c x =
    x.transmitted
    && (is_control c.transmitted
        && (local_procedure_active c termination && first_octet_is 0x02 c.pending_control))

abbrev pub released : Step → Host → Handled
released (c, err e) h = (c, h, some 0x1f)
released (c, ok done) h =
    let (d, k) = release_transmitted c.transmitted c h in (settle_transmit d, k, none)

-- The body of the test of `acknowledges_transmit_owner`.
unfoldable pub acknowledge : ActiveConnection → ℕ → Host → Handled
unfolding acknowledge_pending_control release_transmitted settle_transmit
acknowledge c now h =
    released (if is_control c.transmitted then acknowledge_pending_control c now else (c, ok tt)) h

-- The LLID of a PDU that is new.
abbrev pub hci_flags : ℕ → ℕ
hci_flags header = if bit_and header 0x03 == llid_continuation then 0x1000 else 0x2000

abbrev pub is_empty : List ℕ → Bool
is_empty [] = true
is_empty _ = false

abbrev pub is_data_llid : ℕ → Bool
is_data_llid header = bit_and header 0x03 == llid_continuation || bit_and header 0x03 == llid_start

abbrev pub deliver : ℕ → List ℕ → ActiveConnection → Host → Option Handled
deliver header payload c h =
    if is_data_llid header && not (is_empty payload)
    then some (c, (send_acl (bit_or c.handle (hci_flags header)) payload h).0, none)
    else if bit_and header 0x03 == llid_control
    then handle_ll_control payload c h
    else some (c, h, none)

-- The test of the sequence number of the peer, and what a new PDU brings.
unfoldable pub accept : ℕ → List ℕ → ActiveConnection → Host → Option Handled
unfolding handle_ll_control send_acl
accept header payload c h =
    if bit_and (header >>> 3) 1 == c.expected_sn
    then deliver header payload (record c { expected_sn = bit_xor c.expected_sn 1 }) h
    else some (c, h, none)

-- The end of the event: the instants once more, and the new anchor.
abbrev pub synchronized : ℕ → Option ℕ → Handled → Handled
synchronized anchor terminated (c, h, some reason) = (c, h, some reason)
synchronized anchor terminated (c, h, none) = (synchronize c anchor, h, terminated)

abbrev pub first_of : Bool → Option ℕ → Option ℕ
first_of sent terminated = if sent then some 0x16 else terminated

abbrev pub closed : Bool → ℕ → ℕ → Option Handled → Option Handled
closed sent anchor now none = none
closed sent anchor now (some (c, h, terminated)) =
    some (synchronized anchor (first_of sent terminated) (apply_and_tell c now h))

-- From the acknowledgment on; `acknowledged` ends the event where it gives a reason.
abbrev pub acknowledged : ℕ → List ℕ → Bool → ℕ → ℕ → Handled → Option Handled
acknowledged header payload sent anchor now (c, h, some reason) = some (c, h, some reason)
acknowledged header payload sent anchor now (c, h, none) =
    closed sent anchor now (accept header payload c h)

-- A packet whose CRC and lengths are right.
unfoldable pub on_packet :
    ℕ → List ℕ → Exchange → Bool → Bool → (ℕ → ℕ) → ActiveConnection → Host → Option Handled
unfolding acknowledges_transmit_owner acknowledge accept apply_and_tell synchronize
on_packet header payload x outstanding sent clock c h =
    let d = record c {
      last_rssi = x.rssi_dbm;
      supervision_deadline = clock 1 + c.request.supervision_timeout * 10_000;
    } in
    acknowledged header payload sent (x.timestamp_us - (1 + 4 + 2 + length payload + 3) * 8)
      (clock 3)
      (if acknowledges_transmit_owner header d.transmit_sn outstanding false
        then acknowledge d (clock 2) h
        else (d, h, none))

-- The tests of a received packet.
unfoldable pub on_payload :
    List ℕ → Exchange → Bool → Bool → (ℕ → ℕ) → ActiveConnection → Host → Option Handled
unfolding on_packet
on_payload (header ∷ size ∷ body) x outstanding sent clock c h =
    if ltb max_data_pdu_payload size || bit_and header 0x03 == 0
    then some (c, h, none)
    else if ltb (length body) size
    then some (c, h, none)
    else on_packet header (take size body) x outstanding sent clock c h
on_payload _ x outstanding sent clock c h = some (c, h, none)

abbrev pub after_transmit : Exchange → Bool → (ℕ → ℕ) → Host → Step → Option Handled
after_transmit x outstanding clock h (c, err e) = some (c, h, some 0x1f)
after_transmit x outstanding clock h (c, ok done) =
    if not x.crc_ok
    then some (c, h, none)
    else on_payload x.payload x outstanding (sent_terminate c x) clock c h

abbrev pub after_exchange : Option Exchange → (ℕ → ℕ) → ActiveConnection → Host → Option Handled
after_exchange none clock c h = some (c, h, none)
after_exchange (some x) clock c h =
    after_transmit x (not c.tx_frame_fresh) clock h (note_transmitted c x)

abbrev pub exchanged : Radio → (ℕ → ℕ) → Channel → ℕ → ℕ → Host → Step → Option Handled
exchanged radio clock channel deadline timeout h (c, err e) = some (c, h, some 0x1f)
exchanged radio clock channel deadline timeout h (c, ok done) =
    let d = refresh_frame c in
    after_exchange
      (radio (record {
        channel = channel;
        receive_deadline = deadline;
        timeout = timeout;
        tx_frame = d.tx_frame;
      }))
      clock d h

-- `err` is the `unwrap` of the channel selection.
abbrev pub tuned : Radio → (ℕ → ℕ) → Result Channel Error → ActiveConnection → Host → Option Handled
tuned radio clock (err e) c h = none
tuned radio clock (ok channel) c h =
    let (d, timeout) = take_receive_timeout c in
    exchanged radio clock channel (receive_close c) timeout h (stage d)

abbrev pub opened : Radio → (ℕ → ℕ) → Handled → Option Handled
opened radio clock (c, h, some reason) = some (c, h, some reason)
opened radio clock (c, h, none) = let (d, channel) = next_channel c in tuned radio clock channel d h

-- `none` is a panic; the last part of a result is the reason of a disconnection.
unfoldable pub connection_event : Radio → (ℕ → ℕ) → ActiveConnection → Host → Option Handled
unfolding apply_and_tell next_channel receive_close take_receive_timeout stage refresh_frame
    note_transmitted sent_terminate on_payload
connection_event radio clock c h = opened radio clock (apply_and_tell c (clock 0) h)
