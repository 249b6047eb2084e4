-- ===== src/LinkLayer/EventTx/Queue.antt =====
-- The two slots as a queue: what `ConnectionEventTxState` keeps true.
use ch58x_hal.Base.{ℕ, suc, ◌+◌, ◌≤◌, ◌<◌, ◌≡◌, ◌⊎◌, true, Option, none, some, is_some, List, at}
use ch58x_hal.Base.{Result, ok, err}
use ch58x_hal.LinkLayer.EventTx.State.{
  Slot, Token, Refill, Decision, TxError, Outstanding, get, other, TxState, max_payloads,
}

-- The staged payloads are those from `acked` to `next`, at most two.
abbrev pub Staged : ℕ → ℕ → Option Token → Option Token → Type 0
Staged acked next none none = acked ≡ next
Staged acked next (some t) none = (t.payload_id ≡ acked) × (next ≡ acked + 1)
Staged acked next none (some u) = (u.payload_id ≡ acked) × (next ≡ acked + 1)
Staged acked next (some t) (some u) =
    (next ≡ acked + 2)
    × (((t.payload_id ≡ acked) × (u.payload_id ≡ acked + 1))
        ⊎ ((u.payload_id ≡ acked) × (t.payload_id ≡ acked + 1)))

abbrev pub IsOwned : List ℕ → Option Token → Type 0
IsOwned owners none = Unit {0}
IsOwned owners (some t) = t.owner_token ≡ at owners t.payload_id

abbrev pub IsOldest : ℕ → Option Token → Type 0
IsOldest acked none = Unit {0}
IsOldest acked (some t) = t.payload_id ≡ acked

-- The transmitted payload is the oldest, and is still in its slot; an Empty PDU is in none. The
-- other slot is staged unless nothing is left to stage.
abbrev pub Held : ℕ → TxState → Option Outstanding → Type 0
Held acked s none = Unit {0}
Held acked s (some o) =
    (get o.slot s.slots ≡ o.token)
    × IsOldest acked o.token
    × ((is_some (get (other o.slot) s.slots) ≡ true) ⊎ (s.next_payload_id ≡ s.payload_count))

abbrev pub CanRefill : TxState → Slot → Option Refill → Type 0
CanRefill s slot none =
    (is_some (get (other slot) s.slots) ≡ true) ⊎ (s.next_payload_id ≡ s.payload_count)
CanRefill s slot (some r) =
    (s.next_payload_id < s.payload_count) × (r.slot ≡ other slot) × (get r.slot s.slots ≡ none)

-- A decision that is pending repeats the outstanding response, or takes the oldest staged payload
-- while none is outstanding.
abbrev pub Repeats : TxState → Decision → Type 0
Repeats s d =
    (s.outstanding ≡ some (record { slot = d.response_slot; token = d.response_token }))
    × (d.refill_after_transmit ≡ none)

abbrev pub Takes : ℕ → TxState → Decision → Type 0
Takes acked s d =
    (s.outstanding ≡ none)
    × (get d.response_slot s.slots ≡ d.response_token)
    × IsOldest acked d.response_token
    × CanRefill s d.response_slot d.refill_after_transmit

abbrev pub Pending : ℕ → TxState → Option Decision → Type 0
Pending acked s none = Unit {0}
Pending acked s (some d) = Repeats s d ⊎ Takes acked s d

pub record IsQueue (acked : ℕ) (s : TxState) : Type 0 where
  pub count_le : s.payload_count ≤ max_payloads
  pub next_le : s.next_payload_id ≤ s.payload_count
  pub staged : Staged acked s.next_payload_id s.slots.first s.slots.second
  pub owned_first : IsOwned s.owner_tokens s.slots.first
  pub owned_second : IsOwned s.owner_tokens s.slots.second
  pub held : Held acked s s.outstanding
  pub pending : Pending acked s s.planned

abbrev pub after_ack : ℕ → Option Token → ℕ
after_ack acked none = acked
after_ack acked (some t) = suc acked

-- The acknowledged payload is the oldest.
abbrev pub Acknowledges : ℕ → TxState → Option Token → Type 0
Acknowledges acked s none = Unit {0}
Acknowledges acked s (some t) =
    (t.payload_id ≡ acked) × (t.owner_token ≡ at s.owner_tokens acked) × (acked < s.payload_count)

abbrev pub Keeps : TxState → TxState → Type 0
Keeps s s' = (s'.owner_tokens ≡ s.owner_tokens) × (s'.payload_count ≡ s.payload_count)

abbrev pub Selected : ℕ → TxState → Result (TxState × Decision) TxError → Type 0
Selected acked s (err e) = Unit {0}
Selected acked s (ok (s', d)) =
    IsQueue (after_ack acked d.acknowledged_token) s'
    × Acknowledges acked s d.acknowledged_token
    × Keeps s s'
