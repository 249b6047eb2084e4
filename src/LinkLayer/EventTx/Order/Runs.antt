-- ===== src/LinkLayer/EventTx/Order/Runs.antt =====
-- Sequences of calls of `ConnectionEventTxState`, and what they keep.
use ch58x_hal.Base.{ℕ, zero, suc, ◌-◌, ◌<◌, ◌≡◌, refl, sym, ap, subst, ◌∙◌, arith}
use ch58x_hal.Base.{Bool, Option, none, some, List, [], ◌∷◌, ◌++◌, at, length, take}
use ch58x_hal.Base.{replicate, Result, ok, err, length-append}
use ch58x_hal.LinkLayer.EventTx.State.{Token, Decision, TxError, TxState, max_payloads}
use ch58x_hal.LinkLayer.EventTx.Select.{select, complete_transmit, abort_transmit}
use ch58x_hal.LinkLayer.EventTx.Queue.{IsQueue, after_ack, Acknowledges, Selected}
use ch58x_hal.LinkLayer.EventTx.Selecting.{select-Selected}
use ch58x_hal.LinkLayer.EventTx.Completing.{
  complete_transmit-Completed, abort_transmit-Aborted, Completed, Aborted,
}

-- The calls of a backend; a completion or an abort may come with any decision, also a stale one.
pub data Call : Type 0 where
  selects : Bool → Call
  completes aborts : Decision → Call

-- The state and the owner tokens that have been acknowledged so far, the oldest first.
pub record Run : Type 0 where
  pub state : TxState
  pub acknowledged : List ℕ

abbrev pub log : Option Token → List ℕ → List ℕ
log none owners = owners
log (some t) owners = owners ++ (t.owner_token ∷ [])

after_select : Run → Result (TxState × Decision) TxError → Run
after_select r (err e) = r
after_select r (ok (s, d)) = record {
  state = s;
  acknowledged = log d.acknowledged_token r.acknowledged;
}

after : Run → Result TxState TxError → Run
after r (err e) = r
after r (ok s) = record r { state = s }

-- A call that fails leaves the state as it was.
pub step : Run → Call → Run
unfolding after_select after
step r (selects ack) = after_select r (select r.state ack)
step r (completes d) = after r (complete_transmit r.state d)
step r (aborts d) = after r (abort_transmit r.state d)

unfoldable pub run : Run → List Call → Run
run r [] = r
run r (c ∷ cs) = run (step r c) cs

-- What the caller of `new_with_owner_tokens` gave, with the zeros behind it.
abbrev pub padded : List ℕ → List ℕ
padded owners = owners ++ replicate (max_payloads - length owners) 0

pub record IsRun (owners : List ℕ) (r : Run) : Type 0 where
  pub queue : IsQueue (length r.acknowledged) r.state
  pub in_order : r.acknowledged ≡ take (length r.acknowledged) owners
  pub count : r.state.payload_count ≡ length owners
  pub tokens : r.state.owner_tokens ≡ padded owners

take-suc :
    (n : ℕ) (xs ys : List ℕ) → n < length xs → take n xs ++ (at (xs ++ ys) n ∷ []) ≡ take (suc n) xs
take-suc n [] ys h = absurd (omega arith)
take-suc zero (x ∷ xs) ys h = refl
take-suc (suc n) (x ∷ xs) ys h = ap (◌∷◌ x) (take-suc n xs ys (omega arith))

after_select-IsRun :
    (owners : List ℕ) (r : Run) (result : Result (TxState × Decision) TxError)
    → IsRun owners r
    → Selected (length r.acknowledged) r.state result
    → IsRun owners (after_select r result)
unfolding after_select
after_select-IsRun owners r (err e) v h = v
after_select-IsRun owners r (ok (s, d)) v h = logged d.acknowledged_token h.0 h.1
  where
    logged :
        (t : Option Token)
        → IsQueue (after_ack (length r.acknowledged) t) s
        → Acknowledges (length r.acknowledged) r.state t
        → IsRun owners (record { state = s; acknowledged = log t r.acknowledged })
    logged none q a = record {
      queue = q;
      in_order = v.in_order;
      count = h.2.1 ∙ v.count;
      tokens = h.2.0 ∙ v.tokens;
    }
    logged (some t) q a = record {
      queue = subst (λ n. IsQueue n s) (sym longer) q;
      in_order = ordered;
      count = h.2.1 ∙ v.count;
      tokens = h.2.0 ∙ v.tokens;
    }
      where
        longer : length (r.acknowledged ++ (t.owner_token ∷ [])) ≡ suc (length r.acknowledged)
        longer = omega (arith, length-append r.acknowledged (t.owner_token ∷ []))

        owner : t.owner_token ≡ at (padded owners) (length r.acknowledged)
        owner = a.1 ∙ ap (λ (ws : List ℕ). at ws (length r.acknowledged)) v.tokens

        ordered :
            r.acknowledged ++ (t.owner_token ∷ [])
            ≡ take (length (r.acknowledged ++ (t.owner_token ∷ []))) owners
        ordered =
            ap (λ (ws : List ℕ). ws ++ (t.owner_token ∷ [])) v.in_order
            ∙ ap (λ (w : ℕ). take (length r.acknowledged) owners ++ (w ∷ [])) owner
            ∙ take-suc (length r.acknowledged) owners _ (omega (arith, a.2, v.count))
            ∙ ap (λ (n : ℕ). take n owners) (sym longer)

Completed-IsRun :
    (owners : List ℕ) (r : Run) (d : Decision) (result : Result TxState TxError)
    → IsRun owners r
    → Completed (length r.acknowledged) r.state d result
    → IsRun owners (after r result)
unfolding after
Completed-IsRun owners r d (err e) v h = v
Completed-IsRun owners r d (ok s) v h = record {
  queue = h.0;
  in_order = v.in_order;
  count = h.1.1 ∙ v.count;
  tokens = h.1.0 ∙ v.tokens;
}

Aborted-IsRun :
    (owners : List ℕ) (r : Run) (d : Decision) (result : Result TxState TxError)
    → IsRun owners r
    → Aborted (length r.acknowledged) r.state d result
    → IsRun owners (after r result)
unfolding after
Aborted-IsRun owners r d (err e) v h = v
Aborted-IsRun owners r d (ok s) v h = record {
  queue = h.0;
  in_order = v.in_order;
  count = h.1.1 ∙ v.count;
  tokens = h.1.0 ∙ v.tokens;
}

step-IsRun : (owners : List ℕ) (r : Run) (c : Call) → IsRun owners r → IsRun owners (step r c)
unfolding step
step-IsRun owners r (selects ack) v =
    after_select-IsRun owners r (select r.state ack) v
      (select-Selected (length r.acknowledged) r.state ack v.queue)
step-IsRun owners r (completes d) v =
    Completed-IsRun owners r d (complete_transmit r.state d) v
      (complete_transmit-Completed (length r.acknowledged) r.state d v.queue)
step-IsRun owners r (aborts d) v =
    Aborted-IsRun owners r d (abort_transmit r.state d) v
      (abort_transmit-Aborted (length r.acknowledged) r.state d v.queue)

pub run-IsRun :
    (owners : List ℕ) (calls : List Call) (r : Run) → IsRun owners r → IsRun owners (run r calls)
unfolding run
run-IsRun owners [] r v = v
run-IsRun owners (c ∷ cs) r v = run-IsRun owners cs (step r c) (step-IsRun owners r c v)

-- What a call that succeeds does to a run.
pub step-selects :
    (r : Run) (ack : Bool) (s : TxState) (d : Decision)
    → select r.state ack ≡ ok (s, d)
    → step r (selects ack)
      ≡ record { state = s; acknowledged = log d.acknowledged_token r.acknowledged }
unfolding step after_select
step-selects r ack s d e = simp e

pub step-completes :
    (r : Run) (d : Decision) (s : TxState)
    → complete_transmit r.state d ≡ ok s
    → step r (completes d) ≡ record r { state = s }
unfolding step after
step-completes r d s e = simp e
