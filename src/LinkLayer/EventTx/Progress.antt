-- ===== src/LinkLayer/EventTx/Progress.antt =====
-- `ConnectionEventTxState` does not get stuck: what an acknowledgment makes possible.
use ch58x_hal.Base.{ℕ, zero, suc, ◌≤◌, ◌<◌, ◌≡◌, inl, inr, refl, sym, subst, arith}
use ch58x_hal.Base.{true, Option, none, some, is_some, List, [], ◌∷◌, at, length, get_elem?, ltb}
use ch58x_hal.Base.{ok, ==_refl, Bool-cases}
use ch58x_hal.LinkLayer.EventTx.State.{
  Slot, slot0, slot1, Token, Refill, Decision, Outstanding, Two, get, put, other, TxState,
}
use ch58x_hal.LinkLayer.EventTx.Select.{
  select, choose, complete_transmit, staged_slot, refill_of, released_or_free, response_slot_of,
  refill_matches, owner_matches, outstanding_matches, commit_refill,
}
use ch58x_hal.LinkLayer.EventTx.Branches.{select_advance}
use ch58x_hal.LinkLayer.EventTx.Queue.{Staged, Held, IsQueue, after_ack}
use ch58x_hal.LinkLayer.EventTx.Completing.{complete_committed, is_expected, transmitted}

owner_at : (xs : List ℕ) (n : ℕ) → n < length xs → owner_matches (get_elem? xs n) (at xs n) ≡ true
unfolding owner_matches
owner_at [] n lt = absurd (omega arith)
owner_at (x ∷ xs) zero lt = ==_refl x
owner_at (x ∷ xs) (suc n) lt = owner_at xs n (omega arith)

get-put : {A : Type 0} (slot : Slot) (a : A) (p : Two A) → get slot (put slot a p) ≡ a
get-put slot0 a p = refl
get-put slot1 a p = refl

-- What is selected once the response of `o` is acknowledged, and the state that it leaves.
abbrev pub next_decision : TxState → Outstanding → Decision
next_decision s o = choose s (put o.slot none s.slots) o.slot (some o.slot) true o.token

abbrev pub next_state : TxState → Outstanding → TxState
next_state s o = record s {
  outstanding = none;
  slots = put o.slot none s.slots;
  last_released_slot = o.slot;
  planned = some (next_decision s o);
}

module _ (acked : ℕ) (s : TxState) (o : Outstanding) (v : IsQueue acked s)
    (e : s.outstanding ≡ some o) where
  next_expected :
      s.payload_count ≤ length s.owner_tokens
      → is_expected (next_state s o) (next_decision s o) ≡ true
  unfolding outstanding_matches refill_matches choose refill_of released_or_free
  next_expected le = elim (Bool-cases (ltb s.next_payload_id s.payload_count)) [
    | inl more ↦ simp (
      more,
      get-put o.slot none s.slots,
      ==_refl,
      owner_at s.owner_tokens s.next_payload_id (ground arith),
    )
    | inr no_more ↦ simp no_more
  ]

beside-Staged :
    (acked next : ℕ) (slot : Slot) (a b : Option Token)
    → Staged acked next a b
    → after_ack acked (get slot (record { first = a; second = b })) < next
    → is_some (get (other slot) (record { first = a; second = b })) ≡ true
beside-Staged acked next slot0 (some t) (some u) st lt = refl
beside-Staged acked next slot1 (some t) (some u) st lt = refl
beside-Staged acked next slot0 (some t) none st lt = absurd (omega (arith, st.1))
beside-Staged acked next slot1 (some t) none st lt = refl
beside-Staged acked next slot0 none (some u) st lt = refl
beside-Staged acked next slot1 none (some u) st lt = absurd (omega (arith, st.1))
beside-Staged acked next slot0 none none st lt = absurd (omega (arith, st))
beside-Staged acked next slot1 none none st lt = absurd (omega (arith, st))

chosen_staged :
    (slot last : Slot) (a b : Option Token)
    → is_some (get (other slot) (record { first = a; second = b })) ≡ true
    → let left = put slot none (record { first = a; second = b }) in
      is_some (get (response_slot_of (staged_slot left.first left.second) last) left) ≡ true
unfolding staged_slot response_slot_of
chosen_staged slot0 last a (some u) h = refl
chosen_staged slot1 last (some t) b h = refl
chosen_staged slot0 last a none h = absurd (ground arith)
chosen_staged slot1 last none b h = absurd (ground arith)

module _ (acked : ℕ) (s : TxState) (o : Outstanding) (v : IsQueue acked s)
    (e : s.outstanding ≡ some o) where
  held : Held acked s (some o)
  held = subst (Held acked s) e v.held

  remaining_staged :
      after_ack acked o.token < s.payload_count → is_some (get (other o.slot) s.slots) ≡ true
  remaining_staged lt = elim held.2 [
    | inl staged ↦ staged
    | inr all ↦ beside-Staged acked s.next_payload_id o.slot s.slots.first s.slots.second v.staged (
        subst (λ (t : Option Token). after_ack acked t < s.next_payload_id) (sym held.0)
          (omega (arith, all)))
  ]

  -- An acknowledged response is released, and the response selected next is accepted when it
  -- completes and is then the outstanding one; while payloads remain it carries one of them. The array of the owner tokens holds all payloads.
  pub acknowledgment_progress :
      s.planned ≡ none
      → s.payload_count ≤ length s.owner_tokens
      → let d = next_decision s o in
        (select s true ≡ ok (next_state s o, d))
        × (d.acknowledged_token ≡ o.token)
        × ((s' : TxState) × (complete_transmit (next_state s o) d ≡ ok s')
            × (s'.planned ≡ none)
            × (s'.outstanding ≡ some (record { slot = d.response_slot; token = d.response_token })))
        × (after_ack acked o.token < s.payload_count → is_some d.response_token ≡ true)
  unfolding choose commit_refill
  acknowledgment_progress free le = (
    select_advance s free o e,
    refl,
    (
      commit_refill (next_decision s o).refill_after_transmit
          (transmitted (next_state s o) (next_decision s o)),
      complete_committed (next_state s o) (next_decision s o) refl (next_expected acked s o v e le),
      (committed (next_decision s o).refill_after_transmit).0,
      (committed (next_decision s o).refill_after_transmit).1,
    ),
    (λ lt. chosen_staged o.slot o.slot s.slots.first s.slots.second (remaining_staged lt)),
  )
    where
      response : Outstanding
      response = record {
        slot = (next_decision s o).response_slot;
        token = (next_decision s o).response_token;
      }

      committed :
          (r : Option Refill)
          → ((commit_refill r (transmitted (next_state s o) (next_decision s o))).planned ≡ none)
            × ((commit_refill r (transmitted (next_state s o) (next_decision s o))).outstanding
                ≡ some response)
      committed none = (refl, refl)
      committed (some r) = (refl, refl)
