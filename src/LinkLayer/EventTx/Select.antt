-- ===== src/LinkLayer/EventTx/Select.antt =====
-- The operations of `ConnectionEventTxState`: lines 263 to 435.
use mathlib.Core.Logic.{ite}
use native.Mathlib.Decide.{ℕ_discrete}
use ch58x_hal.Base.{ℕ, ◌+◌, Bool, true, false, not, ◌&&◌, ◌||◌, Option, none, some, is_some}
use ch58x_hal.Base.{ltb, ◌==◌, ◌!=◌, if◌then◌else◌, u8, get_elem?, at, Result, ok, err, ◌>>=◌}
use ch58x_hal.LinkLayer.EventTx.State.{
  Slot, slot0, slot1, Token, Refill, Decision, TxError, ack_without_outstanding_response,
  response_plan_already_pending, completion_does_not_match_decision, Outstanding, Two, get, put,
  other, TxState,
}

unfoldable pub slot_index : Slot → ℕ
slot_index slot0 = 0
slot_index slot1 = 1

unfoldable pub Token-discrete : Discrete (Option Token)
Token-discrete = hlevel ℕ_discrete

unfoldable pub Decision-discrete : Discrete (Option Decision)
Decision-discrete = hlevel ℕ_discrete

unfoldable pub Slot-discrete : Discrete Slot
Slot-discrete = hlevel

unfoldable pub staged_slot : Option Token → Option Token → Option Slot
staged_slot (some left) (some right) =
    if ltb right.payload_id left.payload_id then some slot1 else some slot0
staged_slot (some left) none = some slot0
staged_slot none (some right) = some slot1
staged_slot none none = none

-- `slots.iter().enumerate().any(|(index, token)| index != excluded && token.is_some())`
unfoldable pub other_is_staged : Slot → Two (Option Token) → Bool
unfolding slot_index
other_is_staged excluded slots =
    0 != slot_index excluded && is_some slots.first
    || 1 != slot_index excluded && is_some slots.second

unfoldable pub retry : TxState → Outstanding → Decision
unfolding other_is_staged
retry s o = record {
  response_slot = o.slot;
  response_token = o.token;
  response_is_retry = true;
  acknowledged_response = false;
  acknowledged_token = none;
  refill_after_transmit = none;
  more_payloads_after_response =
      other_is_staged o.slot s.slots || ltb s.next_payload_id s.payload_count;
}

unfoldable pub refill_of : TxState → Option Slot → Option Refill
refill_of s none = none
refill_of s (some slot) =
    if ltb s.next_payload_id s.payload_count
    then some (record {
      slot = slot;
      token = record {
        payload_id = s.next_payload_id;
        owner_token = at s.owner_tokens s.next_payload_id;
        generation = u8 (get slot s.generations + 1);
      };
    })
    else none

-- The slot that the acknowledgement released, or else the other slot if it is free.
unfoldable pub released_or_free : Option Slot → Slot → Two (Option Token) → Option Slot
released_or_free (some slot) response slots = some slot
released_or_free none response slots =
    if is_some (get (other response) slots) then none else some (other response)

unfoldable pub response_slot_of : Option Slot → Slot → Slot
response_slot_of (some slot) last_released = slot
response_slot_of none last_released = last_released

-- The tail of `preview_select`, with its local variables as arguments.
unfoldable pub choose :
    TxState → Two (Option Token) → Slot → Option Slot → Bool → Option Token → Decision
unfolding staged_slot other_is_staged refill_of released_or_free response_slot_of
choose s slots last_released_slot released_slot acknowledged_response acknowledged_token =
    let response_slot =
      response_slot_of (staged_slot slots.first slots.second) last_released_slot in
    let refill = refill_of s (released_or_free released_slot response_slot slots) in
    record {
      response_slot = response_slot;
      response_token = get response_slot slots;
      response_is_retry = false;
      acknowledged_response = acknowledged_response;
      acknowledged_token = acknowledged_token;
      refill_after_transmit = refill;
      more_payloads_after_response =
          other_is_staged response_slot slots
          || is_some refill
          || ltb s.next_payload_id s.payload_count;
    }

unfoldable pub preview_outstanding : TxState → Option Outstanding → Bool → Result Decision TxError
unfolding retry choose
preview_outstanding s (some o) false = ok (retry s o)
preview_outstanding s (some o) true =
    ok (choose s (put o.slot none s.slots) o.slot (some o.slot) true o.token)
preview_outstanding s none true = err ack_without_outstanding_response
preview_outstanding s none false = ok (choose s s.slots s.last_released_slot none false none)

unfoldable pub preview_select : TxState → Bool → Result Decision TxError
unfolding preview_outstanding
preview_select s acknowledged_transmit =
    if is_some s.planned
    then err response_plan_already_pending
    else preview_outstanding s s.outstanding acknowledged_transmit

unfoldable pub release : TxState → Option Outstanding → Result TxState TxError
release s (some o) =
    ok (record s {
      outstanding = none;
      slots = put o.slot none s.slots;
      last_released_slot = o.slot;
    })
release s none = err ack_without_outstanding_response

unfoldable pub select : TxState → Bool → Result (TxState × Decision) TxError
unfolding preview_select release
select s acknowledged_transmit = do
  decision ← preview_select s acknowledged_transmit
  let released = if decision.acknowledged_response then release s s.outstanding else ok s
  s' ← released
  ok (record s' { planned = some decision }, decision)

unfoldable pub outstanding_matches : Option Outstanding → Decision → Bool
unfolding Token-discrete Slot-discrete
outstanding_matches none d = true
outstanding_matches (some o) d =
    ite (Slot-discrete o.slot d.response_slot)
      (ite (Token-discrete o.token d.response_token) true false) false

unfoldable pub owner_matches : Option ℕ → ℕ → Bool
owner_matches none owner = false
owner_matches (some found) owner = found == owner

unfoldable pub refill_matches : TxState → Option Refill → Bool
unfolding owner_matches
refill_matches s none = true
refill_matches s (some r) =
    not (is_some (get r.slot s.slots))
    && (r.token.payload_id == s.next_payload_id
        && (r.token.generation == u8 (get r.slot s.generations + 1)
            && owner_matches (get_elem? s.owner_tokens r.token.payload_id) r.token.owner_token))

unfoldable pub commit_refill : Option Refill → TxState → TxState
commit_refill none s = s
commit_refill (some r) s = record s {
  generations = put r.slot r.token.generation s.generations;
  slots = put r.slot (some r.token) s.slots;
  next_payload_id = s.next_payload_id + 1;
}

unfoldable pub complete_transmit : TxState → Decision → Result TxState TxError
unfolding Decision-discrete outstanding_matches refill_matches commit_refill
complete_transmit s decision =
    ite (Decision-discrete s.planned (some decision))
      (if outstanding_matches s.outstanding decision
          && refill_matches s decision.refill_after_transmit
        then ok (
            commit_refill decision.refill_after_transmit (record s {
              planned = none;
              outstanding =
                  some (record { slot = decision.response_slot; token = decision.response_token });
            }))
        else err completion_does_not_match_decision)
      (err completion_does_not_match_decision)

unfoldable pub abort_transmit : TxState → Decision → Result TxState TxError
unfolding Decision-discrete
abort_transmit s decision =
    ite (Decision-discrete s.planned (some decision)) (ok (record s { planned = none }))
      (err completion_does_not_match_decision)
