-- ===== src/LinkLayer/EventTx/State.antt =====
-- The types of crates/ble-controller/src/link_layer.rs, lines 82 to 262, and the constructors.
use ch58x_hal.Base.{ℕ, zero, suc, ◌-◌, Bool, Option, none, some, List, [], ◌∷◌}
use ch58x_hal.Base.{◌++◌, length, at, replicate, ltb, ◌==◌, if◌then◌else◌, min, Result, ok, err}
use ch58x_hal.Base.{◌>>=◌}

pub data Slot : Type 0 where
  slot0 slot1 : Slot

pub record Token : Type 0 where
  pub payload_id : ℕ
  pub owner_token : ℕ
  pub generation : ℕ

pub record Refill : Type 0 where
  pub slot : Slot
  pub token : Token

pub record Decision : Type 0 where
  pub response_slot : Slot
  pub response_token : Option Token
  pub response_is_retry : Bool
  pub acknowledged_response : Bool
  pub acknowledged_token : Option Token
  pub refill_after_transmit : Option Refill
  pub more_payloads_after_response : Bool

pub data TxError : Type 0 where
  too_many_payloads ack_without_outstanding_response response_plan_already_pending : TxError
  completion_does_not_match_decision : TxError

pub record Outstanding : Type 0 where
  pub slot : Slot
  pub token : Option Token

pub record Two {ℓ} (A : Type ℓ) : Type ℓ where
  pub first : A
  pub second : A

abbrev pub get {ℓ} : {A : Type ℓ} → Slot → Two A → A
get slot0 p = p.first
get slot1 p = p.second

abbrev pub put {ℓ} : {A : Type ℓ} → Slot → A → Two A → Two A
put slot0 a p = record p { first = a }
put slot1 a p = record p { second = a }

abbrev pub other : Slot → Slot
other slot0 = slot1
other slot1 = slot0

pub record TxState : Type 0 where
  pub slots : Two (Option Token)
  pub generations : Two ℕ
  pub outstanding : Option Outstanding
  pub planned : Option Decision
  pub payload_count : ℕ
  pub next_payload_id : ℕ
  pub owner_tokens : List ℕ
  pub last_released_slot : Slot

abbrev pub max_payloads : ℕ
max_payloads = 8

token_at : List ℕ → ℕ → Token
token_at owners id = record { payload_id = id; owner_token = at owners id; generation = 0 }

initial_slots : List ℕ → ℕ → Two (Option Token)
unfolding token_at
initial_slots owners zero = record { first = none; second = none }
initial_slots owners (suc zero) = record { first = some (token_at owners 0); second = none }
initial_slots owners (suc (suc n)) = record {
  first = some (token_at owners 0);
  second = some (token_at owners 1);
}

unfoldable pub from_owner_tokens : List ℕ → ℕ → TxState
unfolding initial_slots
from_owner_tokens owner_tokens payload_count = record {
  slots = initial_slots owner_tokens payload_count;
  generations = record { first = 0; second = 0 };
  outstanding = none;
  planned = none;
  payload_count = payload_count;
  next_payload_id = if ltb 1 payload_count then 2 else payload_count;
  owner_tokens = owner_tokens;
  last_released_slot = slot0;
}

-- `[i as u32; n]` followed by zeros up to the array's length.
count_up : ℕ → ℕ → List ℕ
count_up zero i = []
count_up (suc n) i = i ∷ count_up n (suc i)

unfoldable pub new : ℕ → TxState
unfolding from_owner_tokens count_up
new payload_count =
    let bounded_count = min payload_count max_payloads in
    from_owner_tokens (count_up bounded_count 0 ++ replicate (max_payloads - bounded_count) 0)
      bounded_count

unfoldable pub new_with_owner_tokens : List ℕ → Result TxState TxError
unfolding from_owner_tokens
new_with_owner_tokens owner_tokens =
    if ltb max_payloads (length owner_tokens)
    then err too_many_payloads
    else ok (
        from_owner_tokens (owner_tokens ++ replicate (max_payloads - length owner_tokens) 0)
          (length owner_tokens))

unfoldable pub with_empty_retry : List ℕ → Result TxState TxError
with_empty_retry owner_tokens = do
  state ← new_with_owner_tokens owner_tokens
  ok (record state {
    slots = record { first = none; second = state.slots.first };
    next_payload_id = if length owner_tokens == 0 then 0 else 1;
    outstanding = some (record { slot = slot0; token = none });
  })
