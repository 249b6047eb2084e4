-- ===== src/Backend/Acl/Calm.antt =====
-- The control PDUs of the peer leave the ACL packets, the frame, the sequence numbers and the credits
-- alone.
use ch58x_hal.Base.{ℕ, ◌≡◌, refl}
use ch58x_hal.Base.{arith, Option, none, some, Result, ok, err}
use ch58x_hal.Base.{if_both, is_some}
use ch58x_hal.LinkLayer.ControlPdu.{
  ControlPduError, malformed, invalid_parameters, instant_passed, ConnectionUpdateInd,
  ChannelMapInd, ConnectionParamPdu, InstantProcedure,
}
use ch58x_hal.LinkLayer.ControlPdu
use ch58x_hal.Llcp.Procedure.{local_initiator, remote_initiator}
use ch58x_hal.Llcp.Procedure
use ch58x_hal.Llcp.Transmit.{expected_response_with_instant}
use ch58x_hal.Backend.Transport.{Host}
use ch58x_hal.Backend.Connection.{ActiveConnection}
use ch58x_hal.Backend.Control.{start_remote_instant_procedure, remote_connection_parameters_active}
use ch58x_hal.Backend.Emit.{emit_connection_update_result, update_parameters}
use ch58x_hal.Backend.Received.{
  Handled, update_owner, take_update, refused_by, on_connection_update, abandon_request, yield_to,
  take_map, on_channel_map,
}
use ch58x_hal.Backend.Acl.Untouched.{
  Untouched, Untouched-refl, Untouched-trans, credits, event-credits, answered-Untouched,
  start-Untouched,
}

-- What a handled PDU leaves alone.
abbrev pub Calm : ActiveConnection → Host → Handled → Type 0
Calm c h (d, k, reason) = Untouched c d × (credits k.sent ≡ credits h.sent)

abbrev pub AllCalm : ActiveConnection → Host → Option Handled → Type 0
AllCalm c h none = Unit {0}
AllCalm c h (some result) = Calm c h result

pub emit-credits :
    (c : ActiveConnection) (status : ℕ) (h : Host)
    → credits (emit_connection_update_result c status h).sent ≡ credits h.sent
unfolding emit_connection_update_result
emit-credits c status h = event-credits 0x3e (update_parameters c status) h refl

-- The connection that comes with a result has only its procedures and control PDUs changed.
abbrev Owned : ActiveConnection → ActiveConnection × Result (Unit {0}) ℕ → Type 0
Owned c p = Untouched c p.0

update_owner-Untouched :
    (c : ActiveConnection) (u : ConnectionUpdateInd) → Owned c (update_owner c u)
unfolding update_owner
update_owner-Untouched c u =
    if_both (Owned c) (is_some c.local_connection_param_request)
      (answered-Untouched c
        (expected_response_with_instant c.procedures local_initiator 0x00 u.instant))
      (if_both (Owned c) (remote_connection_parameters_active c)
        (answered-Untouched c
          (expected_response_with_instant c.procedures remote_initiator 0x00 u.instant))
        (start-Untouched c Procedure.connection_update 0x00 u.instant))

-- A stop leaves everything.
pub stopped-Calm : (c : ActiveConnection) (h : Host) (reason : ℕ) → Calm c h (c, h, some reason)
stopped-Calm c h reason = (Untouched-refl c, refl)

pub take_update-Calm :
    (c : ActiveConnection) (h : Host) (u : ConnectionUpdateInd)
    (p : ActiveConnection × Result (Unit {0}) ℕ)
    → Owned c p
    → Calm c h (take_update u h p)
take_update-Calm c h u (d, ok done) o = (ground (arith, o), refl)
take_update-Calm c h u (d, err e) o = (o, refl)

pub take_map-Calm :
    (c d : ActiveConnection) (h k : Host) (u : ChannelMapInd)
    (p : ActiveConnection × Result (Unit {0}) ℕ)
    → Calm c h (d, k, none)
    → Owned d p
    → Calm c h (take_map u k p)
take_map-Calm c d h k u (e, ok done) a o = (ground (arith, Untouched-trans a.0 o), a.1)
take_map-Calm c d h k u (e, err reason) a o = (Untouched-trans a.0 o, a.1)

pub on_connection_update-Calm :
    (r : Result ConnectionUpdateInd ControlPduError) (c : ActiveConnection) (h : Host)
    → Calm c h (on_connection_update r c h)
unfolding on_connection_update
on_connection_update-Calm (ok u) c h =
    if_both (Calm c h) (is_some c.pending_connection_update) (stopped-Calm c h 0x1e) (
      if_both (Calm c h) (refused_by c.local_connection_param_request u) (stopped-Calm c h 0x20)
        (take_update-Calm c h u (update_owner c u) (update_owner-Untouched c u)))
on_connection_update-Calm (err malformed) c h = stopped-Calm c h 0x1e
on_connection_update-Calm (err invalid_parameters) c h = stopped-Calm c h 0x1e
on_connection_update-Calm (err instant_passed) c h = stopped-Calm c h 0x28

-- A connection and what the host has been sent.
abbrev CalmPair : ActiveConnection → Host → ActiveConnection × Host → Type 0
CalmPair c h p = Calm c h (p.0, p.1, none)

pub abandon_request-Calm :
    (c : ActiveConnection) (error : ℕ) (h : Host) → CalmPair c h (abandon_request c error h)
unfolding abandon_request
abandon_request-Calm c error h = (ground arith, emit-credits (abandon_request c error h).0 error h)

pub yield_to-Calm :
    (i : InstantProcedure) (c : ActiveConnection) (h : Host) → CalmPair c h (yield_to i (c, h))
yield_to-Calm i c h =
    if_both (CalmPair c h) (is_some c.local_connection_param_request) (abandon_request-Calm c _ h)
      (Untouched-refl c, refl)

pub on_channel_map-Calm :
    (r : Result ChannelMapInd ControlPduError) (c : ActiveConnection) (h : Host)
    → Calm c h (on_channel_map r c h)
unfolding on_channel_map
on_channel_map-Calm (ok u) c h =
    if_both (Calm c h) (is_some c.pending_channel_map) (stopped-Calm c h 0x1e) (
      let p = yield_to ControlPdu.channel_map_update (c, h) in
      take_map-Calm c p.0 h p.1 u
        (start_remote_instant_procedure p.0 Procedure.channel_map_update 0x01 u.instant)
        (yield_to-Calm ControlPdu.channel_map_update c h)
        (start-Untouched p.0 Procedure.channel_map_update 0x01 u.instant))
on_channel_map-Calm (err malformed) c h = stopped-Calm c h 0x1e
on_channel_map-Calm (err invalid_parameters) c h = stopped-Calm c h 0x1e
on_channel_map-Calm (err instant_passed) c h = stopped-Calm c h 0x28
