-- ===== src/LinkLayer/Event/Closing.antt =====
-- When a connection event goes on, and why it ends.
use ch58x_hal.Base.{◌≡◌, ◌↔◌, ◌⊎◌, refl, arith, Bool, true, false, not, ◌&&◌, if◌then◌else◌}
use ch58x_hal.LinkLayer.Sequence.{connection_event_may_continue}
use ch58x_hal.LinkLayer.Event.{
  continue, both_md_clear, invalid_crc, invalid_mic, DecisionInput, response_advertises_more_data,
  connection_event_decision,
}

-- All that the next exchange needs.
pub record MayGoOn (input : DecisionInput) : Type 0 where
  pub crc : input.crc_ok ≡ true
  pub mic : input.mic_ok ≡ true
  pub time : input.before_deadline ≡ true
  pub resources : input.resources_available ≡ true
  pub more : (input.local_more_data ≡ true) ⊎ (input.peer_more_data ≡ true)

decision_goes_on :
    (input : DecisionInput) → connection_event_decision input ≡ continue → MayGoOn input
unfolding connection_event_decision connection_event_may_continue
decision_goes_on input h = ground arith

may_go_on : (input : DecisionInput) → MayGoOn input → connection_event_decision input ≡ continue
unfolding connection_event_decision connection_event_may_continue
may_go_on input h = ground (arith, h.crc, h.mic, h.time, h.resources, h.more)

-- A connection event goes on exactly when CRC and MIC are right, the deadline is not reached, the
-- resources suffice and a side has more data; and when the packet is not authentic the More Data bits
-- and the clock have no say in the reason.
pub connection_event_goes_on :
    (input : DecisionInput)
    → ((connection_event_decision input ≡ continue) ↔ MayGoOn input)
      × (input.crc_ok ≡ false → connection_event_decision input ≡ invalid_crc)
      × (input.crc_ok ≡ true → input.mic_ok ≡ false → connection_event_decision input ≡ invalid_mic)
unfolding connection_event_decision
connection_event_goes_on input =
    ((decision_goes_on input, may_go_on input), (λ h. simp h), (λ h k. simp (h, k)))

-- With `response_advertises_more_data` as the local bit, an event whose response is a retry or has no
-- owner, and with nothing more on either side, closes; a fresh owner that wants its acknowledgment
-- keeps it open if CRC, MIC, time and resources allow it.
pub final_acknowledgment :
    (has_owner is_retry : Bool)
    → let input : DecisionInput = record {
      crc_ok = true;
      mic_ok = true;
      local_more_data = response_advertises_more_data false true has_owner is_retry true;
      peer_more_data = false;
      before_deadline = true;
      resources_available = true;
    } in
      connection_event_decision input
      ≡ (if has_owner && not is_retry then continue else both_md_clear)
unfolding connection_event_decision connection_event_may_continue response_advertises_more_data
final_acknowledgment true true = refl
final_acknowledgment true false = refl
final_acknowledgment false true = refl
final_acknowledgment false false = refl
