-- ===== src/Backend/Event/Total.antt =====
-- No connection event reaches a panic but that of the channel selection.
use ch58x_hal.Base.{ℕ, ◌≡◌, ◌≢◌, ◌⊎◌, refl, inl, inr}
use ch58x_hal.Base.{
  arith, Bool, true, ◌&&◌, ◌||◌, not, Option, none, some, List, [], ◌∷◌, length, take, Result, ok,
  err,
}
use ch58x_hal.Base.{◌==◌, if_both, is_some, bit_and, ltb, ◌>>>◌, bit_xor}
use ch58x_hal.Radio.{Error, Channel}
use ch58x_hal.LinkLayer.ControlPdu.{
  ControlPduError, malformed, invalid_parameters, instant_passed, ConnectionParamPdu, parse_request,
}
use ch58x_hal.Backend.Transport.{Host}
use ch58x_hal.Backend.Connection.{ActiveConnection, max_data_pdu_payload, llid_control}
use ch58x_hal.Backend.Schedule.{next_channel, take_receive_timeout, receive_close}
use ch58x_hal.Backend.Control.{Step}
use ch58x_hal.Backend.Frame.{refresh_frame}
use ch58x_hal.Backend.Received.{Handled, on_parameter_request, dispatch, handle_ll_control}
use ch58x_hal.Backend.Event.{
  Exchange, Radio, apply_and_tell, stage, note_transmitted, sent_terminate, is_data_llid, is_empty,
  accept, closed, acknowledged, on_packet, on_payload, after_transmit, after_exchange, exchanged,
  opened, tuned, connection_event,
}

abbrev Ends : Option Handled → Type 0
Ends result = is_some result ≡ true

-- The error of `unreachable!()` is none of those that a request can have.
parse_request-ne-passed :
    (payload : List ℕ) (event_counter : ℕ)
    → parse_request payload event_counter ≢ err instant_passed
unfolding parse_request
parse_request-ne-passed payload event_counter e = ground arith

on_parameter_request-Ends :
    (r : Result ConnectionParamPdu ControlPduError) (c : ActiveConnection) (h : Host)
    → r ≢ err instant_passed
    → Ends (on_parameter_request r c h)
unfolding on_parameter_request
on_parameter_request-Ends (ok request) c h ne = refl
on_parameter_request-Ends (err malformed) c h ne = refl
on_parameter_request-Ends (err invalid_parameters) c h ne = refl
on_parameter_request-Ends (err instant_passed) c h ne = absurd (ne refl)

dispatch-Ends :
    (opcode : ℕ) (payload : List ℕ) (c : ActiveConnection) (h : Host)
    → Ends (dispatch opcode payload c h)
unfolding dispatch
dispatch-Ends opcode payload c h = ground (
  arith,
  on_parameter_request-Ends (parse_request payload c.event_counter) c h
      (parse_request-ne-passed payload c.event_counter),
)

handle-Ends :
    (payload : List ℕ) (c : ActiveConnection) (h : Host) → Ends (handle_ll_control payload c h)
unfolding handle_ll_control
handle-Ends [] c h = refl
handle-Ends (opcode ∷ rest) c h = dispatch-Ends opcode (opcode ∷ rest) c h

accept-Ends :
    (header : ℕ) (payload : List ℕ) (c : ActiveConnection) (h : Host)
    → Ends (accept header payload c h)
unfolding accept
accept-Ends header payload c h =
    let d = record c { expected_sn = bit_xor c.expected_sn 1 } in
    if_both Ends (bit_and (header >>> 3) 1 == c.expected_sn)
      (if_both Ends (is_data_llid header && not (is_empty payload)) refl
        (if_both Ends (bit_and header 0x03 == llid_control) (handle-Ends payload d h) refl))
      refl

closed-Ends :
    (sent : Bool) (anchor now : ℕ) (result : Option Handled)
    → Ends result
    → Ends (closed sent anchor now result)
closed-Ends sent anchor now none e = cc
closed-Ends sent anchor now (some (c, h, reason)) e = refl

acknowledged-Ends :
    (header : ℕ) (payload : List ℕ) (sent : Bool) (anchor now : ℕ) (result : Handled)
    → Ends (acknowledged header payload sent anchor now result)
acknowledged-Ends header payload sent anchor now (c, h, some reason) = refl
acknowledged-Ends header payload sent anchor now (c, h, none) =
    closed-Ends sent anchor now (accept header payload c h) (accept-Ends header payload c h)

on_payload-Ends :
    (octets : List ℕ) (x : Exchange) (outstanding sent : Bool) (clock : ℕ → ℕ)
    (c : ActiveConnection) (h : Host)
    → Ends (on_payload octets x outstanding sent clock c h)
unfolding on_payload on_packet
on_payload-Ends [] x outstanding sent clock c h = refl
on_payload-Ends (header ∷ []) x outstanding sent clock c h = refl
on_payload-Ends (header ∷ size ∷ body) x outstanding sent clock c h =
    if_both Ends (ltb max_data_pdu_payload size || bit_and header 0x03 == 0) refl (
      if_both Ends (ltb (length body) size) refl
        (acknowledged-Ends header (take size body) sent _ (clock 3) _))

after_exchange-Ends :
    (x : Option Exchange) (clock : ℕ → ℕ) (c : ActiveConnection) (h : Host)
    → Ends (after_exchange x clock c h)
after_exchange-Ends none clock c h = refl
after_exchange-Ends (some x) clock c h = transmitted (note_transmitted c x)
  where
    transmitted : (p : Step) → Ends (after_transmit x (not c.tx_frame_fresh) clock h p)
    transmitted (d, err e) = refl
    transmitted (d, ok done) =
        if_both Ends (not x.crc_ok) refl
          (on_payload-Ends x.payload x (not c.tx_frame_fresh) (sent_terminate d x) clock d h)

exchanged-Ends :
    (radio : Radio) (clock : ℕ → ℕ) (channel : Channel) (deadline timeout : ℕ) (h : Host) (p : Step)
    → Ends (exchanged radio clock channel deadline timeout h p)
exchanged-Ends radio clock channel deadline timeout h (c, err e) = refl
exchanged-Ends radio clock channel deadline timeout h (c, ok done) =
    after_exchange-Ends
      (radio (record {
        channel = channel;
        receive_deadline = deadline;
        timeout = timeout;
        tx_frame = (refresh_frame c).tx_frame;
      }))
      clock (refresh_frame c) h

-- The result, or the panic of the channel selection.
abbrev pub EndsOrPanics : Handled → Option Handled → Type 0
EndsOrPanics (c, h, reason) result =
    ((r : Handled) × (result ≡ some r))
    ⊎ ((result ≡ none) × (e : Error) × ((next_channel c).1 ≡ err e))

result_of : (o : Option Handled) → Ends o → (result : Handled) × (o ≡ some result)
result_of none e = cc
result_of (some result) e = (result, refl)

opened-Ends :
    (radio : Radio) (clock : ℕ → ℕ) (result : Handled)
    → EndsOrPanics result (opened radio clock result)
opened-Ends radio clock (c, h, some reason) = inl ((c, h, some reason), refl)
opened-Ends radio clock (c, h, none) = tuned_lem (next_channel c).1 refl
  where
    d : ActiveConnection
    d = (next_channel c).0

    tuned_lem :
        (channel : Result Channel Error)
        → (next_channel c).1 ≡ channel
        → EndsOrPanics (c, h, none) (tuned radio clock channel d h)
    tuned_lem (err e) same = inr (refl, e, same)
    tuned_lem (ok channel) same = inl (
        result_of
          (exchanged radio clock channel (receive_close d) (take_receive_timeout d).1 h
            (stage (take_receive_timeout d).0))
          (exchanged-Ends radio clock channel (receive_close d) (take_receive_timeout d).1 h
            (stage (take_receive_timeout d).0)))

-- Whatever the radio gives and whatever the peer has sent, a connection event gives a result, or it
-- stops with the panic of a channel selection that has no channel: the `unreachable!()` behind a
-- connection parameter request is not reached.
pub connection_event_total :
    (radio : Radio) (clock : ℕ → ℕ) (c : ActiveConnection) (h : Host)
    → EndsOrPanics (apply_and_tell c (clock 0) h) (connection_event radio clock c h)
unfolding connection_event
connection_event_total radio clock c h = opened-Ends radio clock (apply_and_tell c (clock 0) h)
