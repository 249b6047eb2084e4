-- ===== src/Backend/Acl/Moves.antt =====
-- What a connection event may do to the ACL packets, and the parts of an event that do nothing to
-- them.
use ch58x_hal.Base.{ℕ, ◌+◌, ◌≡◌, refl, ◌∙◌}
use ch58x_hal.Base.{
  arith, Bool, true, false, ◌&&◌, not, Option, none, some, List, [], ◌∷◌, Result, ok, err,
}
use ch58x_hal.Base.{
  ◌==◌, if◌then◌else◌, if_both, bit_xor, bit_and, bit_or, ◌>>>◌, ltb, length, ◌++◌, u16, u16_to_le,
}
use ch58x_hal.Backend.Transport.{
  Host, send_acl, TransportError, acl_data, hci_packet_capacity, send_controller_packet,
}
use ch58x_hal.Backend.Connection.{ActiveConnection, hci_success, llid_control}
use ch58x_hal.Backend.Schedule.{
  next_channel, take_receive_timeout, synchronize, apply_channel_map, apply_connection_update,
  apply_instants, notifies, forget_request,
}
use ch58x_hal.LinkLayer.ChannelSelection.{update_map}
use ch58x_hal.Backend.Emit.{emit_connection_update_complete}
use ch58x_hal.Backend.Received.{Handled, handle_ll_control}
use ch58x_hal.Backend.Event.{
  apply_and_tell, told, hci_flags, is_empty, is_data_llid, deliver, accept, synchronized, first_of,
  closed,
}
use ch58x_hal.Backend.Acl.Untouched.{Untouched, credits, credits-append}
use ch58x_hal.Backend.Acl.Calm.{AllCalm, emit-credits}
use ch58x_hal.Backend.Acl.Received.{handle_ll_control-Calm}

-- The ACL packets and what is on its way are the same.
pub record Steady (c d : ActiveConnection) : Type 0 where
  pub pending : d.pending ≡ c.pending
  pub queued_acl : d.queued_acl ≡ c.queued_acl
  pub transmitted : d.transmitted ≡ c.transmitted
  pub tx_frame : d.tx_frame ≡ c.tx_frame
  pub fresh : d.tx_frame_fresh ≡ c.tx_frame_fresh
  pub transmit_sn : d.transmit_sn ≡ c.transmit_sn

pub Steady-trans : {c d e : ActiveConnection} → Steady c d → Steady d e → Steady c e
Steady-trans a b = record {
  pending = b.pending ∙ a.pending;
  queued_acl = b.queued_acl ∙ a.queued_acl;
  transmitted = b.transmitted ∙ a.transmitted;
  tx_frame = b.tx_frame ∙ a.tx_frame;
  fresh = b.fresh ∙ a.fresh;
  transmit_sn = b.transmit_sn ∙ a.transmit_sn;
}

Untouched-Steady : {c d : ActiveConnection} → Untouched c d → Steady c d
Untouched-Steady u = record {
  pending = u.pending;
  queued_acl = u.queued_acl;
  transmitted = u.transmitted;
  tx_frame = u.tx_frame;
  fresh = u.fresh;
  transmit_sn = u.transmit_sn;
}

abbrev pub Quiet : ActiveConnection → Host → Handled → Type 0
Quiet c h (d, k, reason) = Steady c d × (credits k.sent ≡ credits h.sent)

abbrev pub AllQuiet : ActiveConnection → Host → Option Handled → Type 0
AllQuiet c h none = Unit {0}
AllQuiet c h (some result) = Quiet c h result

AllCalm-Quiet :
    (c : ActiveConnection) (h : Host) (result : Option Handled)
    → AllCalm c h result
    → AllQuiet c h result
AllCalm-Quiet c h none a = tt
AllCalm-Quiet c h (some (d, k, reason)) a = (Untouched-Steady a.0, a.1)

AllQuiet-from :
    (c d : ActiveConnection) (h k : Host) (result : Option Handled)
    → Steady c d
    → credits k.sent ≡ credits h.sent
    → AllQuiet d k result
    → AllQuiet c h result
AllQuiet-from c d h k none s e q = tt
AllQuiet-from c d h k (some (f, l, reason)) s e q = (Steady-trans s q.0, q.1 ∙ e)

pub next_channel-Steady : (c : ActiveConnection) → Steady c (next_channel c).0
unfolding next_channel
next_channel-Steady c = ground arith

pub timeout-Steady : (c : ActiveConnection) → Steady c (take_receive_timeout c).0
unfolding take_receive_timeout
timeout-Steady c = ground arith

pub synchronize-Steady : (c : ActiveConnection) (anchor : ℕ) → Steady c (synchronize c anchor)
unfolding synchronize
synchronize-Steady c anchor = ground arith

apply_instants-Steady : (c : ActiveConnection) (now : ℕ) → Steady c (apply_instants c now).0
unfolding apply_instants apply_channel_map apply_connection_update update_map
apply_instants-Steady c now = ground arith

complete-credits :
    (c : ActiveConnection) (h : Host)
    → credits (emit_connection_update_complete c h).sent ≡ credits h.sent
unfolding emit_connection_update_complete
complete-credits c h = emit-credits c hci_success h

-- Whether the host is told or not.
told-credits :
    (notify : Bool) (c : ActiveConnection) (h : Host)
    → credits (if notify then emit_connection_update_complete c h else h).sent ≡ credits h.sent
told-credits notify c h =
    if_both (λ (k : Host). credits k.sent ≡ credits h.sent) notify (complete-credits c h) refl

told-Quiet :
    (c : ActiveConnection) (h : Host) (p : ActiveConnection × Result (Bool × Bool) ℕ)
    → Steady c p.0
    → Quiet c h (told p h)
told-Quiet c h (d, err reason) s = (s, refl)
told-Quiet c h (d, ok (true, changed)) s =
    (ground (arith, s), told-credits (notifies d true changed) (forget_request d true) h)
told-Quiet c h (d, ok (false, changed)) s = (s, told-credits (notifies d false changed) d h)

pub apply_and_tell-Quiet :
    (c : ActiveConnection) (now : ℕ) (h : Host) → Quiet c h (apply_and_tell c now h)
unfolding apply_and_tell
apply_and_tell-Quiet c now h = told-Quiet c h (apply_instants c now) (apply_instants-Steady c now)

sent-credits :
    (payload : List ℕ) (h : Host)
    → credits (send_controller_packet (record { kind = acl_data; bytes = payload }) h).sent
      ≡ credits h.sent
sent-credits payload h =
    omega (arith, credits-append h.sent (record { kind = acl_data; bytes = payload } ∷ []))

abbrev Sent : Host → Host × Result (Unit {0}) TransportError → Type 0
Sent h p = credits p.0.sent ≡ credits h.sent

send_acl-credits : (handle : ℕ) (payload : List ℕ) (h : Host) → Sent h (send_acl handle payload h)
unfolding send_acl
send_acl-credits handle payload h =
    if_both (Sent h) (ltb hci_packet_capacity (length payload + 4)) refl
      (sent-credits (u16_to_le handle ++ (u16_to_le (u16 (length payload)) ++ payload)) h)

unchanged : (c : ActiveConnection) → Steady c c
unchanged c = ground arith

deliver-Quiet :
    (header : ℕ) (payload : List ℕ) (c : ActiveConnection) (h : Host)
    → AllQuiet c h (deliver header payload c h)
deliver-Quiet header payload c h =
    if_both (AllQuiet c h) (is_data_llid header && not (is_empty payload))
      (unchanged c, send_acl-credits (bit_or c.handle (hci_flags header)) payload h)
      (if_both (AllQuiet c h) (bit_and header 0x03 == llid_control)
        (AllCalm-Quiet c h (handle_ll_control payload c h) (handle_ll_control-Calm payload c h))
        (unchanged c, refl))

pub accept-Quiet :
    (header : ℕ) (payload : List ℕ) (c : ActiveConnection) (h : Host)
    → AllQuiet c h (accept header payload c h)
unfolding accept
accept-Quiet header payload c h =
    let d = record c { expected_sn = bit_xor c.expected_sn 1 } in
    if_both (AllQuiet c h) (bit_and (header >>> 3) 1 == c.expected_sn)
      (AllQuiet-from c d h h (deliver header payload d h) (ground arith) refl
        (deliver-Quiet header payload d h))
      (unchanged c, refl)

synchronized-Quiet :
    (anchor : ℕ) (terminated : Option ℕ) (c : ActiveConnection) (h : Host) (result : Handled)
    → Quiet c h result
    → Quiet c h (synchronized anchor terminated result)
synchronized-Quiet anchor terminated c h (d, k, some reason) q = q
synchronized-Quiet anchor terminated c h (d, k, none) q =
    (Steady-trans q.0 (synchronize-Steady d anchor), q.1)

-- The end of an event, from what `accept` gives.
pub closed-Quiet :
    (sent : Bool) (anchor now : ℕ) (c : ActiveConnection) (h : Host) (result : Option Handled)
    → AllQuiet c h result
    → AllQuiet c h (closed sent anchor now result)
closed-Quiet sent anchor now c h none q = tt
closed-Quiet sent anchor now c h (some (d, k, terminated)) q =
    AllQuiet-from c d h k (closed sent anchor now (some (d, k, terminated))) q.0 q.1 (
      synchronized-Quiet anchor (first_of sent terminated) d k (apply_and_tell d now k)
        (apply_and_tell-Quiet d now k))
