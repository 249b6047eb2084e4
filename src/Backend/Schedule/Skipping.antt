-- ===== src/Backend/Schedule/Skipping.antt =====
-- Missed connection events: `skip_expired_events` ends, and what it leaves.
use ch58x_hal.Base.{
  ℕ, zero, suc, ◌+◌, ◌*◌, ◌%◌, ◌^◌, ◌≤◌, ◌<◌, ◌≡◌, refl, sym, subst, ◌∙◌, ap, ap₂, inl, inr,
}
use ch58x_hal.Base.{
  arith, Bool, true, false, ◌||◌, Option, none, some, Result, ok, err, leb, ltb, Bool-cases, ltb→lt,
}
use native.Mathlib.Nat.{suc-mul}
use ch58x_hal.LinkLayer.ControlPdu.{ConnectionUpdateInd, ChannelMapInd, data_channel_map_is_valid}
use ch58x_hal.LinkLayer.ChannelSelection.{update_map}
use ch58x_hal.LinkLayer.ChannelSelection
use ch58x_hal.Backend.Connection.{ActiveConnection}
use ch58x_hal.Backend.Schedule.{
  apply_channel_map, apply_connection_update, apply_instants, schedule_following_event,
  next_channel, skip_event, skip_rounds, skip_expired_events, receive_close, Skipped, count_round,
}

abbrev interval_is_long : Option ConnectionUpdateInd → Bool
interval_is_long none = true
interval_is_long (some update) = leb 6 update.interval

abbrev map_is_valid : Option ChannelMapInd → Bool
map_is_valid none = true
map_is_valid (some update) = data_channel_map_is_valid update.map

-- The interval in force and a pending one are those of the specification, a pending map is valid,
-- and the channel selection has a phase: what every accepted PDU leaves.
pub record IsScheduled (c : ActiveConnection) : Type 0 where
  pub interval : 6 ≤ c.request.interval
  pub update : interval_is_long c.pending_connection_update ≡ true
  pub map : map_is_valid c.pending_channel_map ≡ true
  pub phase : c.channels.last_unmapped < 37

-- What is sent and acknowledged is the same.
pub record Kept (c d : ActiveConnection) : Type 0 where
  pub transmit_sn : d.transmit_sn ≡ c.transmit_sn
  pub expected_sn : d.expected_sn ≡ c.expected_sn
  pub pending : d.pending ≡ c.pending
  pub queued_acl : d.queued_acl ≡ c.queued_acl
  pub pending_control : d.pending_control ≡ c.pending_control
  pub queued_control : d.queued_control ≡ c.queued_control
  pub transmitted : d.transmitted ≡ c.transmitted
  pub tx_frame : d.tx_frame ≡ c.tx_frame

-- What `n` events without the radio leave alone, and what they move.
pub record Advanced (c d : ActiveConnection) (n : ℕ) : Type 0 where
  pub counter : d.event_counter ≡ (c.event_counter + n) % 2 ^ 16
  pub phase : d.channels.last_unmapped ≡ (c.channels.last_unmapped + n * c.channels.hop) % 37
  pub hop : d.channels.hop ≡ c.channels.hop
  pub anchor : c.next_anchor + n * 7_500 ≤ d.next_anchor
  pub synchronized : d.last_sync_anchor ≡ c.last_sync_anchor
  pub kept : Kept c d

module _ (c : ActiveConnection) (now : ℕ) (h : IsScheduled c) where
  skip_event_ok : (changed : Bool) × ((skip_event c now).1 ≡ ok changed)
  unfolding skip_event apply_instants apply_channel_map apply_connection_update
      schedule_following_event next_channel update_map ChannelSelection.next_channel
  skip_event_ok = (changed_of (skip_event c now).1, ground (arith, h.map))
    where
      changed_of : Result Bool ℕ → Bool
      changed_of (ok b) = b
      changed_of (err e) = false

  pub skip_event-IsScheduled : IsScheduled (skip_event c now).0
  unfolding skip_event apply_instants apply_channel_map apply_connection_update
      schedule_following_event next_channel update_map ChannelSelection.next_channel
  skip_event-IsScheduled = ground arith

  skip_event-Advanced : c.event_counter < 2 ^ 16 → Advanced c (skip_event c now).0 1
  unfolding skip_event apply_instants apply_channel_map apply_connection_update
      schedule_following_event next_channel update_map ChannelSelection.next_channel
  skip_event-Advanced small = ground arith

Advanced-trans :
    (c d e : ActiveConnection) (n : ℕ) → Advanced c d 1 → Advanced d e n → Advanced c e (suc n)
Advanced-trans c d e n a b = record {
  counter = omega (arith, a.counter, b.counter);
  phase =
      b.phase
      ∙ ap₂ (λ (l h : ℕ). (l + n * h) % 37) a.phase a.hop
      ∙ omega (arith, suc-mul n c.channels.hop);
  hop = b.hop ∙ a.hop;
  anchor = omega (arith, a.anchor, b.anchor);
  synchronized = b.synchronized ∙ a.synchronized;
  kept = record {
    transmit_sn = b.kept.transmit_sn ∙ a.kept.transmit_sn;
    expected_sn = b.kept.expected_sn ∙ a.kept.expected_sn;
    pending = b.kept.pending ∙ a.kept.pending;
    queued_acl = b.kept.queued_acl ∙ a.kept.queued_acl;
    pending_control = b.kept.pending_control ∙ a.kept.pending_control;
    queued_control = b.kept.queued_control ∙ a.kept.queued_control;
    transmitted = b.kept.transmitted ∙ a.kept.transmitted;
    tx_frame = b.kept.tx_frame ∙ a.kept.tx_frame;
  };
}

Advanced-refl :
    (c : ActiveConnection)
    → c.event_counter < 2 ^ 16
    → c.channels.last_unmapped < 37
    → Advanced c c 0
Advanced-refl c small phase = record {
  counter = omega arith;
  phase = omega arith;
  hop = refl;
  anchor = omega arith;
  synchronized = refl;
  kept = record {
    transmit_sn = refl;
    expected_sn = refl;
    pending = refl;
    queued_acl = refl;
    pending_control = refl;
    queued_control = refl;
    transmitted = refl;
    tx_frame = refl;
  };
}

anchor-le-receive_close : (c : ActiveConnection) → c.next_anchor ≤ receive_close c
unfolding receive_close
anchor-le-receive_close c = omega arith

-- What the loop gives from `count` on.
abbrev Ends : ActiveConnection → ℕ → ℕ → Option Skipped → Type 0
Ends c now count result =
    (d : ActiveConnection) × (n : ℕ) × (notify : Bool) × (result ≡ some (d, ok (count + n, notify)))
    × Advanced c d n
    × IsScheduled d
    × (now ≤ receive_close d)

count_round_ok :
    (rounds : ℕ → Bool → ActiveConnection → Option Skipped) (count : ℕ) (notify changed : Bool)
    (p : ActiveConnection × Result Bool ℕ)
    → p.1 ≡ ok changed
    → count ≤ 2 ^ 15
    → count_round rounds count notify p ≡ rounds (count + 1) (notify || changed) p.0
count_round_ok rounds count notify changed (d, ok b) o few = ground arith
count_round_ok rounds count notify changed (d, err e) o few = cc

module _ (fuel now : ℕ) (clock : ℕ → ℕ) (count : ℕ) (notify : Bool) (c : ActiveConnection) where
  skip_rounds_done :
      ltb (receive_close c) now ≡ false
      → skip_rounds (suc fuel) now clock count notify c ≡ some (c, ok (count, notify))
  unfolding skip_rounds
  skip_rounds_done e = simp e

  skip_rounds_next :
      (changed : Bool)
      → ltb (receive_close c) now ≡ true
      → (skip_event c (clock count)).1 ≡ ok changed
      → count ≤ 2 ^ 15
      → skip_rounds (suc fuel) now clock count notify c
        ≡ skip_rounds fuel now clock (count + 1) (notify || changed) (skip_event c (clock count)).0
  unfolding skip_rounds
  skip_rounds_next changed e o few = simp e (
      count_round_ok (skip_rounds fuel now clock) count notify changed (skip_event c (clock count))
        o few)

Ends-next :
    (c d : ActiveConnection) (now count : ℕ) (result : Option Skipped)
    → Advanced c d 1
    → Ends d now (count + 1) result
    → Ends c now count result
Ends-next c d now count result a (e, n, notify, same, b, s, le) = (
  e,
  suc n,
  notify,
  same
      ∙ ap (λ (k : ℕ). some (e, ok (k, notify))) {x = count + 1 + n} {y = count + suc n}
          (omega arith),
  Advanced-trans c d e n a b,
  s,
  le,
)

skip_rounds-Ends :
    (fuel now : ℕ) (clock : ℕ → ℕ) (count : ℕ) (notify : Bool) (c : ActiveConnection)
    → count + fuel ≡ 2 ^ 16
    → c.event_counter < 2 ^ 16
    → now + count * 7_500 ≤ c.next_anchor + 2 ^ 15 * 7_500
    → count ≤ 2 ^ 15
    → IsScheduled c
    → Ends c now count (skip_rounds fuel now clock count notify c)
skip_rounds-Ends zero now clock count notify c f small near few h = absurd (omega arith)
skip_rounds-Ends (suc fuel) now clock count notify c f small near few h =
    elim (Bool-cases (ltb (receive_close c) now)) [
      | inl e ↦
          let d = (skip_event c (clock count)).0 in
          let changed = skip_event_ok c (clock count) h in
          let a = skip_event-Advanced c (clock count) h small in
          subst (Ends c now count)
            (sym (skip_rounds_next fuel now clock count notify c changed.0 e changed.1 few))
            (Ends-next c d now count _ a (
              skip_rounds-Ends fuel now clock (count + 1) (notify || changed.0) d (omega arith)
                (omega (arith, a.counter)) (omega (arith, a.anchor)) (few_left e)
                (skip_event-IsScheduled c (clock count) h)))
      | inr e ↦ (
        c,
        0,
        notify,
        skip_rounds_done fuel now clock count notify c e
            ∙ ap (λ (k : ℕ). some (c, ok (k, notify))) {x = count} {y = count + 0} (omega arith),
        Advanced-refl c small h.phase,
        h,
        ground (arith, e),
      )
    ]
  where
    few_left : ltb (receive_close c) now ≡ true → count + 1 ≤ 2 ^ 15
    few_left e = omega (arith, ltb→lt (receive_close c) now e, anchor-le-receive_close c)

abbrev Skips : ActiveConnection → ℕ → Option Skipped → Type 0
Skips c now result =
    (d : ActiveConnection) × (n : ℕ) × (notify : Bool) × (result ≡ some (d, ok (n, notify)))
    × Advanced c d n
    × IsScheduled d
    × (now ≤ receive_close d)

Ends-Skips :
    (c : ActiveConnection) (now : ℕ) (result : Option Skipped)
    → Ends c now 0 result
    → Skips c now result
Ends-Skips c now result (d, n, notify, same, a, s, le) = (
  d,
  n,
  notify,
  same ∙ ap (λ (k : ℕ). some (d, ok (k, notify))) {x = 0 + n} {y = n} (omega arith),
  a,
  s,
  le,
)

-- With a clock that reads at most 245 seconds past the anchor, 2 ^ 16 rounds are enough and the
-- 16-bit count does not overflow: `skip_expired_events` ends with a connection whose receive window
-- is still open. The counter and the phase of the channel selection have moved by the events that
-- were skipped, each took at least 7.5 milliseconds, and nothing that is sent or acknowledged has
-- changed.
pub skip_expired_events_ends :
    (c : ActiveConnection) (now : ℕ) (clock : ℕ → ℕ)
    → IsScheduled c
    → c.event_counter < 2 ^ 16
    → now ≤ c.next_anchor + 2 ^ 15 * 7_500
    → (d : ActiveConnection) × (n : ℕ) × (notify : Bool) × (skip_expired_events c now clock
        ≡ some (d, ok (n, notify)))
      × Advanced c d n
      × IsScheduled d
      × (now ≤ receive_close d)
unfolding skip_expired_events
skip_expired_events_ends c now clock h small near = Ends-Skips c now _ (
    skip_rounds-Ends (2 ^ 16) now clock 0 false c (omega arith) small (omega arith) (omega arith) h)
