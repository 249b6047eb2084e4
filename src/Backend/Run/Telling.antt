-- ===== src/Backend/Run/Telling.antt =====
-- The loop of a connection always goes on, and tells the host why it ends.
use ch58x_hal.Base.{ℕ, ◌≡◌, refl, subst, sym, Bool, true, false, Option, none, some, List, [], ◌∷◌}
use ch58x_hal.Base.{
  ◌⊎◌, inl, inr, arith, ◌++◌, Bool-cases, has_bits, u16_to_le, leb, ◌==◌, if◌then◌else◌, if_both,
  ok, err,
}
use ch58x_hal.Llcp.Timers.{check_timeouts}
use ch58x_hal.Backend.Transport.{Packet, event, event_packet}
use ch58x_hal.Backend.Schedule.{Skipped, next_channel, receive_open}
use ch58x_hal.Backend.Schedule.Ending.{skip_expired_events_total}
use ch58x_hal.Backend.Control.{with_procedures}
use ch58x_hal.Radio.{Error}
use ch58x_hal.Hci.{event_enabled}
use ch58x_hal.Backend.Event.{apply_and_tell}
use ch58x_hal.Backend.Emit.{emit_disconnection, emit_connection_update_complete}
use ch58x_hal.Backend.Received.{Handled}
use ch58x_hal.Backend.Event.Total.{connection_event_total}
use ch58x_hal.Backend.Run.{
  Wake, host_packet, timer, Turn, Link, Next, go_on, start_over, panicked, awaited, disconnected,
  process_connected_host_packet, ended, processed, drain, check_deadlines, after_skip,
  skip_and_tell, after_event, admitted_event, then_do, woken, turn, next_turn, run_connection,
}

module _ {Random : Type 0} (fill_bytes : Random → Random × List ℕ) where
  -- HCI_Disconnection_Complete, with success, the handle and the reason.
  abbrev pub disconnection : Link Random → ℕ → Packet
  disconnection l reason = record {
    kind = event_packet;
    bytes = 0x05 ∷ 4 ∷ 0x00 ∷ (u16_to_le l.connection.handle ++ (reason ∷ []));
  }

  -- The wait would begin before the clock has started, or the channel selection has no channel.
  abbrev pub Panics : Link Random → Type 0
  Panics l =
      (receive_open l.connection ≡ none)
      ⊎ ((now : ℕ) × (e : Error) × ((next_channel (apply_and_tell l.connection now l.host).0).1
            ≡ err e))

  -- At the end the last that the host was sent is the event of the disconnection, with its reason,
  -- unless the host has masked it.
  abbrev pub IsTold : Link Random × Next → Type 0
  IsTold (l, disconnected reason) =
      (has_bits l.host.event_mask 0x10 ≡ false)
      ⊎ ((earlier : List Packet) × (l.host.sent ≡ earlier ++ (disconnection l reason ∷ [])))
  IsTold (l, panicked) = Panics l
  IsTold (l, go_on) = Unit {0}
  IsTold (l, start_over) = Unit {0}

  -- There is a result, and the host is told if it is the end.
  abbrev Tells : Option (Link Random × Next) → Type 0
  Tells none = ⊥
  Tells (some p) = IsTold p

  ended-IsTold : (l : Link Random) (reason : ℕ) → IsTold (ended fill_bytes l reason)
  unfolding emit_disconnection event event_enabled
  ended-IsTold l reason = elim (Bool-cases (has_bits l.host.event_mask 0x10)) [
    | inl e ↦ inr (l.host.sent, ground (arith, e))
    | inr e ↦ inl (ground (arith, e))
  ]

  drain-IsTold : (packets : List Packet) (l : Link Random) → IsTold (drain fill_bytes packets l)
  unfolding drain
  drain-IsTold [] l = tt
  drain-IsTold (packet ∷ packets) l =
      if_both IsTold (process_connected_host_packet fill_bytes packet l).1
        (ended-IsTold (process_connected_host_packet fill_bytes packet l).0 0x16)
        (drain-IsTold packets (process_connected_host_packet fill_bytes packet l).0)

  deadlines-IsTold : (now : ℕ) (l : Link Random) → IsTold (check_deadlines fill_bytes now l)
  unfolding check_deadlines
  deadlines-IsTold now l =
      let checked = check_timeouts l.connection.procedures now 0x22 in
      let m = record l { connection = with_procedures l.connection checked.0 } in
      if_both IsTold checked.1 (ended-IsTold m 0x22)
        (if_both IsTold (leb m.connection.supervision_deadline now) (ended-IsTold m 0x08) tt)

  skip-Tells :
      (now : ℕ) (clock : ℕ → ℕ) (l : Link Random) → Tells (skip_and_tell fill_bytes now clock l)
  unfolding skip_and_tell
  skip-Tells now clock l =
      let total = skip_expired_events_total l.connection now clock in
      subst (λ (o : Option Skipped). Tells (after_skip fill_bytes l o)) (sym total.1)
        (skipped total.0)
    where
      counted : (b : Bool) (m : Link Random) → IsTold (m, if b then go_on else start_over)
      counted true m = tt
      counted false m = tt

      skipped : (result : Skipped) → Tells (after_skip fill_bytes l (some result))
      skipped (c, err reason) = ended-IsTold (record l { connection = c }) 0x08
      skipped (c, ok (count, notify)) = counted (count == 0) (record l {
        connection = c;
        host = if notify then emit_connection_update_complete c l.host else l.host;
      })

  event-Tells : (t : Turn) (l : Link Random) → Tells (admitted_event fill_bytes t l)
  unfolding admitted_event
  event-Tells t l = elim (connection_event_total t.radio t.event_clock l.connection l.host) [
    | inl (result, same) ↦
        subst (λ (o : Option Handled). Tells (after_event fill_bytes l o)) (sym same)
          (handled result)
    | inr (same, e, failed) ↦
        subst (λ (o : Option Handled). Tells (after_event fill_bytes l o)) (sym same)
          (inr (t.event_clock 0, e, failed))
  ]
    where
      handled : (result : Handled) → Tells (after_event fill_bytes l (some result))
      handled (c, h, some reason) = ended-IsTold (record l { connection = c; host = h }) reason
      handled (c, h, none) = tt

  then_do-Tells :
      (p : Option (Link Random × Next)) (f : Link Random → Option (Link Random × Next))
      → Tells p
      → ((l : Link Random) → Tells (f l))
      → Tells (then_do fill_bytes p f)
  then_do-Tells none f t k = absurd t
  then_do-Tells (some (l, go_on)) f t k = k l
  then_do-Tells (some (l, start_over)) f t k = t
  then_do-Tells (some (l, panicked)) f t k = t
  then_do-Tells (some (l, disconnected reason)) f t k = t

  woken-Tells : (w : Wake) (t : Turn) (l : Link Random) → Tells (woken fill_bytes w t l)
  woken-Tells (host_packet packet) t l = told (process_connected_host_packet fill_bytes packet l)
    where
      told : (p : Link Random × Bool) → IsTold (processed fill_bytes p)
      told (m, true) = ended-IsTold m 0x16
      told (m, false) = tt
  woken-Tells timer t l =
      then_do-Tells (skip_and_tell fill_bytes t.timer_now t.timer_clock l)
        (admitted_event fill_bytes t) (skip-Tells t.timer_now t.timer_clock l) (event-Tells t)

  awaited-Tells :
      (t : Turn) (l : Link Random) (o : Option ℕ)
      → receive_open l.connection ≡ o
      → Tells (awaited fill_bytes o t l)
  awaited-Tells t l none e = inl e
  awaited-Tells t l (some open_us) e = woken-Tells t.wake t l

  turn-Tells : (t : Turn) (l : Link Random) → Tells (turn fill_bytes t l)
  unfolding turn
  turn-Tells t l =
      then_do-Tells (some (drain fill_bytes t.waiting l)) _ (drain-IsTold t.waiting l) λ m.
        then_do-Tells (some (check_deadlines fill_bytes t.now m)) _ (deadlines-IsTold t.now m) λ n.
          then_do-Tells (skip_and_tell fill_bytes t.now t.clock n)
            (λ o. awaited fill_bytes (receive_open o.connection) t o) (skip-Tells t.now t.clock n)
            λ o. awaited-Tells t o (receive_open o.connection) refl

  next_turn-Tells :
      (rest : Link Random → Option (Link Random × Next)) (p : Option (Link Random × Next))
      → ((l : Link Random) → Tells (rest l))
      → Tells p
      → Tells (next_turn fill_bytes rest p)
  next_turn-Tells rest none k t = absurd t
  next_turn-Tells rest (some (l, go_on)) k t = k l
  next_turn-Tells rest (some (l, start_over)) k t = k l
  next_turn-Tells rest (some (l, disconnected reason)) k t = t
  next_turn-Tells rest (some (l, panicked)) k t = t

  run-Tells : (turns : List Turn) (l : Link Random) → Tells (run_connection fill_bytes turns l)
  unfolding run_connection
  run-Tells [] l = tt
  run-Tells (t ∷ ts) l =
      next_turn-Tells (run_connection fill_bytes ts) (turn fill_bytes t l) (λ m. run-Tells ts m)
        (turn-Tells t l)

  result_of :
      (o : Option (Link Random × Next))
      → Tells o
      → (p : Link Random × Next) × (o ≡ some p) × IsTold p
  result_of none t = absurd t
  result_of (some p) t = (p, refl, t)

  -- Over any turns, whatever the host, the clock and the radio do in them, the loop of a connection
  -- gives a result, that is, 2 ^ 16 rounds over missed events are enough. If it has ended, the last
  -- that the host was sent is the event of the disconnection with the handle and the reason, unless
  -- the host has masked that event. It stops with a panic only where a receive window would open
  -- before the clock has started, or where the channel selection has no channel for the next event.
  pub run_connection_tells :
      (turns : List Turn) (l : Link Random)
      → (p : Link Random × Next) × (run_connection fill_bytes turns l ≡ some p) × IsTold p
  run_connection_tells turns l = result_of (run_connection fill_bytes turns l) (run-Tells turns l)
