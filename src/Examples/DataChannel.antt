-- ===== src/Examples/DataChannel.antt =====
-- Sequence numbers, the transmit queue, channel selection and event closing on concrete values.
use ch58x_hal.Base.{ℕ, ◌+◌, ◌≤◌, ◌≡◌, inl, refl, arith, true, false, none, some}
use ch58x_hal.Base.{List, [], ◌∷◌, length, take, ok}
use ch58x_hal.LinkLayer.Sequence.Delivery.Link.{Turn, turn, turns, fresh, first}
use ch58x_hal.LinkLayer.Sequence.Delivery.Delivered.{delivered_in_order, exchange_progress}
use ch58x_hal.LinkLayer.EventTx.State.{
  slot0, Token, Decision, TxState, from_owner_tokens, new_with_owner_tokens,
}
use ch58x_hal.LinkLayer.EventTx.State.{with_empty_retry}
use ch58x_hal.LinkLayer.EventTx.Delivered.{every_payload_acknowledged}
use ch58x_hal.LinkLayer.EventTx.Select.{select}
use ch58x_hal.LinkLayer.EventTx.Queue.{IsQueue, Selected}
use ch58x_hal.LinkLayer.EventTx.Selecting.{select-Selected}
use ch58x_hal.LinkLayer.EventTx.Order.Runs.{Call, selects, completes, run}
use ch58x_hal.LinkLayer.EventTx.Order.Acknowledged.{acknowledged_in_order}

abbrev from_central : Turn
from_central = record { from_central = true; staged = 0x02; more = false; lost = false }

abbrev lost_answer : Turn
lost_answer = record { from_central = false; staged = 0x01; more = true; lost = true }

abbrev two_turns : List Turn
two_turns = from_central ∷ lost_answer ∷ []

delivered_in_order_example :
    (m : ℕ) × (n : ℕ) × ((turns fresh two_turns).peripheral.received ≡ first m)
    × ((turns fresh two_turns).central.received ≡ first n)
    × ((turns fresh two_turns).central.acked ≤ m)
    × (m ≤ (turns fresh two_turns).central.acked + 1)
    × ((turns fresh two_turns).peripheral.acked ≤ n)
    × (n ≤ (turns fresh two_turns).peripheral.acked + 1)
delivered_in_order_example = delivered_in_order two_turns (omega arith, (omega arith, tt))

exchange_progress_example :
    (turn
      (turn
        (turns fresh two_turns)
        (record { from_central = true; staged = 0x02; more = true; lost = false }))
      (record { from_central = false; staged = 0x01; more = false; lost = false })).central.acked
    ≡ (turns fresh two_turns).central.acked + 1
exchange_progress_example =
    exchange_progress two_turns 0x02 0x01 true false (omega arith, (omega arith, tt)) (omega arith)
      (omega arith)

abbrev first_token : Token
first_token = record { payload_id = 0; owner_token = 7; generation = 0 }

abbrev second_token : Token
second_token = record { payload_id = 1; owner_token = 9; generation = 0 }

abbrev two_staged : TxState
two_staged = record {
  slots = record { first = some first_token; second = some second_token };
  generations = record { first = 0; second = 0 };
  outstanding = none;
  planned = none;
  payload_count = 2;
  next_payload_id = 2;
  owner_tokens = 7 ∷ 9 ∷ 0 ∷ 0 ∷ 0 ∷ 0 ∷ 0 ∷ 0 ∷ [];
  last_released_slot = slot0;
}

abbrev first_decision : Decision
first_decision = record {
  response_slot = slot0;
  response_token = some first_token;
  response_is_retry = false;
  acknowledged_response = false;
  acknowledged_token = none;
  refill_after_transmit = none;
  more_payloads_after_response = true;
}

two_staged-IsQueue : IsQueue 0 two_staged
two_staged-IsQueue = record {
  count_le = omega arith;
  next_le = omega arith;
  staged = (refl, inl (refl, refl));
  owned_first = refl;
  owned_second = refl;
  held = tt;
  pending = tt;
}

select-Selected_example : Selected 0 two_staged (select two_staged false)
select-Selected_example = select-Selected 0 two_staged false two_staged-IsQueue

abbrev calls : List Call
calls = selects false ∷ completes first_decision ∷ selects true ∷ []

abbrev created : TxState
created = from_owner_tokens (7 ∷ 9 ∷ 0 ∷ 0 ∷ 0 ∷ 0 ∷ 0 ∷ 0 ∷ []) 2

made : new_with_owner_tokens (7 ∷ 9 ∷ []) ≡ ok created
unfolding new_with_owner_tokens
made = refl

acknowledged_in_order_example :
    (run (record { state = created; acknowledged = [] }) calls).acknowledged
    ≡ take
        (length (run (record { state = created; acknowledged = [] }) calls).acknowledged)
        (7 ∷ 9 ∷ [])
acknowledged_in_order_example = acknowledged_in_order (7 ∷ 9 ∷ []) created calls (inl made)

abbrev resumed_state : TxState
resumed_state = record created {
  slots = record { first = none; second = some first_token };
  next_payload_id = 1;
  outstanding = some (record { slot = slot0; token = none });
}

resumed : with_empty_retry (7 ∷ 9 ∷ []) ≡ ok resumed_state
unfolding with_empty_retry new_with_owner_tokens from_owner_tokens
resumed = refl

every_payload_acknowledged_example :
    (cs : List Call) × ((run (record { state = resumed_state; acknowledged = [] }) cs).acknowledged
      ≡ 7 ∷ 9 ∷ [])
every_payload_acknowledged_example = every_payload_acknowledged (7 ∷ 9 ∷ []) resumed_state resumed
