-- ===== src/LinkLayer/EventTx/Completing.antt =====
-- `complete_transmit` and `abort_transmit` keep the queue.
use mathlib.Core.Logic.{if_pos, if_neg}
use ch58x_hal.Base.{ℕ, zero, suc, ◌+◌, ◌≡◌, ◌≢◌, refl, ap, subst, ◌∙◌, ◌⊎◌, inl, inr, arith}
use ch58x_hal.Base.{Bool, true, false, ◌&&◌, Option, none, some, is_some, List, [], ◌∷◌, at}
use ch58x_hal.Base.{Result, ok, err, Bool-cases, get_elem?}
use ch58x_hal.LinkLayer.EventTx.State.{
  Slot, slot0, slot1, Token, Refill, Decision, TxError, completion_does_not_match_decision, Two,
  get, put, other, TxState,
}
use ch58x_hal.LinkLayer.EventTx.Select.{
  complete_transmit, abort_transmit, Decision-discrete, outstanding_matches, refill_matches,
  owner_matches, commit_refill,
}
use ch58x_hal.LinkLayer.EventTx.Queue.{
  Staged, IsOwned, IsOldest, Held, CanRefill, Repeats, Takes, Pending, IsQueue, Keeps,
}

abbrev two : Option Token → Option Token → Two (Option Token)
two a b = record { first = a; second = b }

-- A free slot takes the next payload.
put-Staged :
    (acked next : ℕ) (a b : Option Token) (x : Slot) (t : Token)
    → Staged acked next a b
    → get x (two a b) ≡ none
    → t.payload_id ≡ next
    → let p = put x (some t) (two a b) in Staged acked (next + 1) p.first p.second
put-Staged acked next none none slot0 t h e i = ground arith
put-Staged acked next none none slot1 t h e i = ground arith
put-Staged acked next none (some u) slot0 t h e i = ground arith
put-Staged acked next (some u) none slot1 t h e i = ground arith
put-Staged acked next (some u) b slot0 t h e i = cc
put-Staged acked next a (some u) slot1 t h e i = cc

put-IsOwned :
    (owners : List ℕ) (a b : Option Token) (x : Slot) (t : Token)
    → IsOwned owners a
    → IsOwned owners b
    → t.owner_token ≡ at owners t.payload_id
    → let p = put x (some t) (two a b) in IsOwned owners p.first × IsOwned owners p.second
put-IsOwned owners a b slot0 t h k e = (e, k)
put-IsOwned owners a b slot1 t h k e = (h, e)

owner_matches-at :
    (owners : List ℕ) (id owner : ℕ)
    → owner_matches (get_elem? owners id) owner ≡ true
    → owner ≡ at owners id
unfolding owner_matches
owner_matches-at [] id owner h = cc
owner_matches-at (w ∷ ws) zero owner h = ground arith
owner_matches-at (w ∷ ws) (suc id) owner h = owner_matches-at ws id owner h

get-put-other :
    (y : Slot) (v : Option Token) (p : Two (Option Token)) → get y (put (other y) v p) ≡ get y p
get-put-other slot0 v p = refl
get-put-other slot1 v p = refl

get-put_self : (y : Slot) (v : Option Token) (p : Two (Option Token)) → get y (put y v p) ≡ v
get-put_self slot0 v p = refl
get-put_self slot1 v p = refl

-- The state once the response is on air.
abbrev pub transmitted : TxState → Decision → TxState
transmitted s d = record s {
  planned = none;
  outstanding = some (record { slot = d.response_slot; token = d.response_token });
}

Repeats-IsQueue :
    (acked : ℕ) (s : TxState) (d : Decision)
    → IsQueue acked s
    → Repeats s d
    → IsQueue acked (transmitted s d)
Repeats-IsQueue acked s d v r = record {
  count_le = v.count_le;
  next_le = v.next_le;
  staged = v.staged;
  owned_first = v.owned_first;
  owned_second = v.owned_second;
  held = subst (Held acked s) r.0 v.held;
  pending = tt;
}

-- A fresh response is outstanding, and the other slot is refilled.
takes-IsQueue :
    (acked : ℕ) (s : TxState) (d : Decision) (refill : Option Refill)
    → IsQueue acked s
    → get d.response_slot s.slots ≡ d.response_token
    → IsOldest acked d.response_token
    → CanRefill s d.response_slot refill
    → refill_matches s refill ≡ true
    → IsQueue acked (commit_refill refill (transmitted s d))
unfolding commit_refill
takes-IsQueue acked s d none v here oldest can m = record {
  count_le = v.count_le;
  next_le = v.next_le;
  staged = v.staged;
  owned_first = v.owned_first;
  owned_second = v.owned_second;
  held = (here, oldest, can);
  pending = tt;
}
takes-IsQueue acked s d (some r) v here oldest can m = record {
  count_le = v.count_le;
  next_le = omega (arith, can.0);
  staged =
      put-Staged acked s.next_payload_id s.slots.first s.slots.second r.slot r.token v.staged can.2
        facts.0;
  owned_first = owned.0;
  owned_second = owned.1;
  held = (still ∙ here, oldest, inl filled);
  pending = tt;
}
  where
    facts :
        (r.token.payload_id ≡ s.next_payload_id)
        × (owner_matches (get_elem? s.owner_tokens r.token.payload_id) r.token.owner_token ≡ true)
    facts = unfold refill_matches in ground arith

    owned :
        IsOwned s.owner_tokens (put r.slot (some r.token) s.slots).first
        × IsOwned s.owner_tokens (put r.slot (some r.token) s.slots).second
    owned =
        put-IsOwned s.owner_tokens s.slots.first s.slots.second r.slot r.token v.owned_first
          v.owned_second
          (owner_matches-at s.owner_tokens r.token.payload_id r.token.owner_token facts.1)

    still : get d.response_slot (put r.slot (some r.token) s.slots) ≡ get d.response_slot s.slots
    still =
        ap (λ (x : Slot). get d.response_slot (put x (some r.token) s.slots)) can.1
        ∙ get-put-other d.response_slot (some r.token) s.slots

    filled : is_some (get (other d.response_slot) (put r.slot (some r.token) s.slots)) ≡ true
    filled =
        ap (λ (x : Slot). is_some (get (other d.response_slot) (put x (some r.token) s.slots)))
          can.1
        ∙ ap is_some (get-put_self (other d.response_slot) (some r.token) s.slots)

pending-IsQueue :
    (acked : ℕ) (s : TxState) (d : Decision)
    → IsQueue acked s
    → Repeats s d ⊎ Takes acked s d
    → refill_matches s d.refill_after_transmit ≡ true
    → IsQueue acked (commit_refill d.refill_after_transmit (transmitted s d))
pending-IsQueue acked s d v (inl r) m =
    rw r.1 (unfold commit_refill in Repeats-IsQueue acked s d v r)
pending-IsQueue acked s d v (inr t) m =
    takes-IsQueue acked s d d.refill_after_transmit v t.1 t.2 t.3 m

abbrev pub Completed : ℕ → TxState → Decision → Result TxState TxError → Type 0
Completed acked s d (err e) = Unit {0}
Completed acked s d (ok s') =
    IsQueue acked s'
    × Keeps s s'
    × (s.planned ≡ some d)
    × (s'.outstanding ≡ some (record { slot = d.response_slot; token = d.response_token }))

commit_refill-Keeps :
    (r : Option Refill) (s : TxState)
    → Keeps s (commit_refill r s) × ((commit_refill r s).outstanding ≡ s.outstanding)
unfolding commit_refill
commit_refill-Keeps none s = ((refl, refl), refl)
commit_refill-Keeps (some r) s = ((refl, refl), refl)

abbrev pub is_expected : TxState → Decision → Bool
is_expected s d = outstanding_matches s.outstanding d && refill_matches s d.refill_after_transmit

and_right : (a b : Bool) → (a && b) ≡ true → b ≡ true
and_right a b h = ground arith

pub complete_committed :
    (s : TxState) (d : Decision)
    → s.planned ≡ some d
    → is_expected s d ≡ true
    → complete_transmit s d ≡ ok (commit_refill d.refill_after_transmit (transmitted s d))
unfolding complete_transmit
complete_committed s d p m = rw (if_pos (Decision-discrete s.planned (some d)) p, m) refl

complete_mismatch :
    (s : TxState) (d : Decision)
    → s.planned ≡ some d
    → is_expected s d ≡ false
    → complete_transmit s d ≡ err completion_does_not_match_decision
unfolding complete_transmit
complete_mismatch s d p m = rw (if_pos (Decision-discrete s.planned (some d)) p, m) refl

pub complete_stale :
    (s : TxState) (d : Decision)
    → s.planned ≢ some d
    → complete_transmit s d ≡ err completion_does_not_match_decision
unfolding complete_transmit
complete_stale s d n = if_neg (Decision-discrete s.planned (some d)) n _ _

-- A completion that is accepted is that of the pending decision, and keeps the queue.
pub complete_transmit-Completed :
    (acked : ℕ) (s : TxState) (d : Decision)
    → IsQueue acked s
    → Completed acked s d (complete_transmit s d)
complete_transmit-Completed acked s d v = elim (Decision-discrete s.planned (some d)) [
  | yes p ↦ elim (Bool-cases (is_expected s d)) [
    | inl m ↦ rw (complete_committed s d p m) (
      pending-IsQueue acked s d v (subst (Pending acked s) p v.pending)
          (and_right (outstanding_matches s.outstanding d) _ m),
      (commit_refill-Keeps d.refill_after_transmit (transmitted s d)).0,
      p,
      (commit_refill-Keeps d.refill_after_transmit (transmitted s d)).1,
    )
    | inr m ↦ rw (complete_mismatch s d p m) tt
  ]
  | no n ↦ rw (complete_stale s d n) tt
]

abbrev pub Aborted : ℕ → TxState → Decision → Result TxState TxError → Type 0
Aborted acked s d (err e) = Unit {0}
Aborted acked s d (ok s') = IsQueue acked s' × Keeps s s' × (s.planned ≡ some d)

pub abort_transmit-Aborted :
    (acked : ℕ) (s : TxState) (d : Decision)
    → IsQueue acked s
    → Aborted acked s d (abort_transmit s d)
unfolding abort_transmit
abort_transmit-Aborted acked s d v = elim (Decision-discrete s.planned (some d)) [
  | yes p ↦ rw (if_pos (Decision-discrete s.planned (some d)) p) (cleared, (refl, refl), p)
  | no n ↦ rw (if_neg (Decision-discrete s.planned (some d)) n) tt
]
  where
    cleared : IsQueue acked (record s { planned = none })
    cleared = record {
      count_le = v.count_le;
      next_le = v.next_le;
      staged = v.staged;
      owned_first = v.owned_first;
      owned_second = v.owned_second;
      held = v.held;
      pending = tt;
    }
