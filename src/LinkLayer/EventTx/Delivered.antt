-- ===== src/LinkLayer/EventTx/Delivered.antt =====
-- A run of `ConnectionEventTxState` in which every response is acknowledged.
use ch58x_hal.Base.{ℕ, zero, suc, ◌+◌, ◌≤◌, ◌<◌, ◌≡◌, inl, inr, refl, sym, ap, subst, ◌∙◌, arith}
use ch58x_hal.Base.{
  true, Option, none, some, is_some, List, [], ◌∷◌, length, length-append, ok, Option-cases,
}
use ch58x_hal.LinkLayer.EventTx.State.{
  slot0, with_empty_retry, new_with_owner_tokens, from_owner_tokens, Token, Outstanding, TxState,
}
use ch58x_hal.LinkLayer.EventTx.Select.{complete_transmit}
use ch58x_hal.LinkLayer.EventTx.Queue.{IsQueue, Selected, after_ack}
use ch58x_hal.LinkLayer.EventTx.Selecting.{select-Selected}
use ch58x_hal.LinkLayer.EventTx.Completing.{Completed, complete_transmit-Completed}
use ch58x_hal.LinkLayer.EventTx.Progress.{next_decision, next_state, acknowledgment_progress}
use ch58x_hal.Base.{replicate, take, ◌-◌}
use ch58x_hal.LinkLayer.EventTx.Order.Created.{resumed-IsRun}
use ch58x_hal.LinkLayer.EventTx.Order.Acknowledged.{acknowledged_in_order}
use ch58x_hal.LinkLayer.EventTx.Order.Runs.{
  Call, selects, completes, Run, log, step, run, step-selects, step-completes,
}

-- A response is in flight, no decision is pending, and the array of the owner tokens is long enough.
pub record InFlight (acked : ℕ) (s : TxState) (o : Outstanding) : Type 0 where
  pub queue : IsQueue acked s
  pub outstanding : s.outstanding ≡ some o
  pub free : s.planned ≡ none
  pub owners : s.payload_count ≤ length s.owner_tokens

next_outstanding : TxState → Outstanding → Outstanding
next_outstanding s o = record {
  slot = (next_decision s o).response_slot;
  token = (next_decision s o).response_token;
}

two_calls : TxState → Outstanding → List Call
two_calls s o = selects true ∷ completes (next_decision s o) ∷ []

module _ (acked : ℕ) (s : TxState) (o : Outstanding) (f : InFlight acked s o) where
  after_round :
      (s' : TxState) × (complete_transmit (next_state s o) (next_decision s o) ≡ ok s')
      × InFlight (after_ack acked o.token) s' (next_outstanding s o)
      × (s'.payload_count ≡ s.payload_count)
  unfolding next_outstanding
  after_round =
      let p = acknowledgment_progress acked s o f.queue f.outstanding f.free f.owners in
      let done = p.2 in
      let selected = subst (Selected acked s) p.0 (select-Selected acked s true f.queue) in
      let queue =
        subst (λ (t : Option Token). IsQueue (after_ack acked t) (next_state s o)) p.1 selected.0 in
      let completed =
        subst (Completed (after_ack acked o.token) (next_state s o) (next_decision s o)) done.1 (
          complete_transmit-Completed (after_ack acked o.token) (next_state s o) (next_decision s o)
            queue) in
      (
        done.0,
        done.1,
        record {
          queue = completed.0;
          outstanding = done.3;
          free = done.2;
          owners =
              omega (arith, ap (λ (xs : List ℕ). length xs) completed.1.0, completed.1.1, f.owners);
        },
        completed.1.1,
      )

-- The two calls of a round, in a run.
round_run :
    (acked : ℕ) (s : TxState) (o : Outstanding) (owners : List ℕ) (f : InFlight acked s o)
    → (cs : List Call)
    → run
        (record { state = s; acknowledged = owners })
        (selects true ∷ completes (next_decision s o) ∷ cs)
      ≡ run (record { state = (after_round acked s o f).0; acknowledged = log o.token owners }) cs
unfolding run
round_run acked s o owners f cs =
    let p = acknowledgment_progress acked s o f.queue f.outstanding f.free f.owners in
    let start : Run = record { state = s; acknowledged = owners } in
    let selected : Run = record { state = next_state s o; acknowledged = log o.token owners } in
    ap (λ (r : Run). run (step r (completes (next_decision s o))) cs)
      (step-selects start true (next_state s o) (next_decision s o) p.0
        ∙ ap (λ (t : Option Token). record { state = next_state s o; acknowledged = log t owners })
            p.1)
    ∙ ap (λ (r : Run). run r cs)
        (step-completes selected (next_decision s o) (after_round acked s o f).0
          (after_round acked s o f).1)

-- From a state with a payload in flight there are calls that acknowledge all that remain.
remaining_acknowledged :
    (k acked : ℕ) (s : TxState) (o : Outstanding) (owners : List ℕ)
    → InFlight acked s o
    → acked + k ≡ s.payload_count
    → (1 ≤ k → is_some o.token ≡ true)
    → (cs : List Call) × (length (run (record { state = s; acknowledged = owners }) cs).acknowledged
        ≡ length owners + k)
unfolding run
remaining_acknowledged zero acked s o owners f sum h = ([], omega arith)
remaining_acknowledged (suc k) acked s o owners f sum h = elim (Option-cases o.token) [
  | inl e ↦ absurd (ground (arith, h (omega arith)))
  | inr (t, e) ↦
      let next = after_round acked s o f in
      let p = acknowledgment_progress acked s o f.queue f.outstanding f.free f.owners in
      let flight =
        subst (λ (u : Option Token). InFlight (after_ack acked u) next.0 (next_outstanding s o)) e
          next.2 in
      let rest =
        remaining_acknowledged k (suc acked) next.0 (next_outstanding s o) (log (some t) owners)
          flight (omega (arith, next.3))
          (λ le.
            unfold next_outstanding in
            p.3 (
              subst (λ (u : Option Token). after_ack acked u < s.payload_count) (sym e)
                (omega arith))) in
      (
        selects true ∷ completes (next_decision s o) ∷ rest.0,
        ap (λ (r : Run). length r.acknowledged)
              (round_run acked s o owners f rest.0
                ∙ ap
                    (λ (u : Option Token).
                      run (record { state = next.0; acknowledged = log u owners }) rest.0)
                    e)
            ∙ rest.1
            ∙ omega (arith, length-append owners (t.owner_token ∷ [])),
      )
]

resumed_state :
    (owners : List ℕ) (s : TxState)
    → with_empty_retry owners ≡ ok s
    → (s.outstanding ≡ some (record { slot = slot0; token = none })) × (s.planned ≡ none)
unfolding with_empty_retry new_with_owner_tokens from_owner_tokens
resumed_state owners s e = ground arith

resumed-InFlight :
    (owners : List ℕ) (s : TxState)
    → with_empty_retry owners ≡ ok s
    → InFlight 0 s (record { slot = slot0; token = none })
resumed-InFlight owners s e =
    let v = resumed-IsRun owners s e in
    let r = resumed_state owners s e in
    record {
      queue = v.queue;
      outstanding = r.0;
      free = r.1;
      owners = omega (
        arith,
        v.count,
        ap (λ (xs : List ℕ). length xs) v.tokens,
        length-append owners (replicate (8 - length owners) 0),
      );
    }

resumed_acknowledged :
    (owners : List ℕ) (s : TxState)
    → with_empty_retry owners ≡ ok s
    → (cs : List Call) × (length (run (record { state = s; acknowledged = [] }) cs).acknowledged
        ≡ length owners)
resumed_acknowledged owners s e =
    let o : Outstanding = record { slot = slot0; token = none } in
    let f = resumed-InFlight owners s e in
    let v = resumed-IsRun owners s e in
    let next = after_round 0 s o f in
    let p = acknowledgment_progress 0 s o f.queue f.outstanding f.free f.owners in
    let rest =
      remaining_acknowledged (length owners) 0 next.0 (next_outstanding s o) [] next.2
        (omega (arith, next.3, v.count))
        (λ le. unfold next_outstanding in p.3 (omega (arith, v.count, le))) in
    (
      selects true ∷ completes (next_decision s o) ∷ rest.0,
      ap (λ (r : Run). length r.acknowledged) (round_run 0 s o [] f rest.0) ∙ rest.1 ∙ omega arith,
    )

take_all : (n : ℕ) (xs : List ℕ) → n ≡ length xs → take n xs ≡ xs
take_all zero [] e = refl
take_all zero (x ∷ xs) e = absurd (omega arith)
take_all (suc n) [] e = absurd (omega arith)
take_all (suc n) (x ∷ xs) e = ap (◌∷◌ x) (take_all n xs (omega arith))

-- From an event that resumes with an outstanding Empty PDU there are calls, rounds of a selection
-- with an acknowledgment and of the completion of its decision, after which exactly the given owners
-- are acknowledged, in their order.
pub every_payload_acknowledged :
    (owners : List ℕ) (s : TxState)
    → with_empty_retry owners ≡ ok s
    → (cs : List Call) × ((run (record { state = s; acknowledged = [] }) cs).acknowledged ≡ owners)
every_payload_acknowledged owners s e =
    let r = resumed_acknowledged owners s e in
    (
      r.0,
      acknowledged_in_order owners s r.0 (inr e)
          ∙ take_all (length (run (record { state = s; acknowledged = [] }) r.0).acknowledged)
              owners r.1,
    )
