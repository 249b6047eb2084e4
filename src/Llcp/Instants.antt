-- ===== src/Llcp/Instants.antt =====
-- The instants of the control procedures, over consecutive connection events.
use ch58x_hal.Base.{ℕ, zero, suc, ◌+◌, ◌%◌, ◌^◌, ◌≤◌, ◌<◌, ◌≡◌, refl, sym, ap, subst, ◌∙◌}
use ch58x_hal.Base.{arith, some}
use ch58x_hal.LinkLayer.Timing.{current, future, classify_instant}
use ch58x_hal.LinkLayer.Timing.Relation.{classify_instant_distance}
use ch58x_hal.Llcp.Procedure.{awaiting_instant, complete, ProcedureContext, ProcedureManager}
use ch58x_hal.Llcp.Timers.{on_some, event_context, on_connection_event}

-- The connection events number `counter`, `counter + 1` and so on, `n` of them; the counter wraps.
abbrev pub events : ℕ → ℕ → ℕ → ProcedureManager → ProcedureManager
events zero counter error m = m
events (suc n) counter error m =
    events n (suc counter) error (on_connection_event m (counter % 2 ^ 16) error)

abbrev context_events : ℕ → ℕ → ℕ → ProcedureContext → ProcedureContext
context_events zero counter error c = c
context_events (suc n) counter error c =
    context_events n (suc counter) error (event_context (counter % 2 ^ 16) error c)

events_remote :
    (n counter error : ℕ) (m : ProcedureManager) (c : ProcedureContext)
    → m.remote ≡ some c
    → (events n counter error m).remote ≡ some (context_events n counter error c)
unfolding on_connection_event
events_remote zero counter error m c h = h
events_remote (suc n) counter error m c h =
    events_remote n (suc counter) error (on_connection_event m (counter % 2 ^ 16) error)
      (event_context (counter % 2 ^ 16) error c)
      (ap (on_some (event_context (counter % 2 ^ 16) error)) h)

-- The context waits for the instant `distance` events after the counter.
pub record Waits (c : ProcedureContext) (counter distance : ℕ) : Type 0 where
  pub phase : c.phase ≡ awaiting_instant
  pub instant : c.instant ≡ some ((counter + distance) % 2 ^ 16)

relation_at :
    (counter distance : ℕ)
    → distance < 2 ^ 16
    → (distance ≡ 0 → classify_instant (counter % 2 ^ 16) ((counter + distance) % 2 ^ 16) ≡ current)
      × (1 ≤ distance
          → distance ≤ 32_766
          → classify_instant (counter % 2 ^ 16) ((counter + distance) % 2 ^ 16) ≡ future distance)
relation_at counter distance lt =
    let r = classify_instant_distance (counter % 2 ^ 16) distance (omega arith) lt in
    ((λ z. at_same ∙ r.0 z), (λ p q. at_same ∙ r.1 p q))
  where
    at_same :
        classify_instant (counter % 2 ^ 16) ((counter + distance) % 2 ^ 16)
        ≡ classify_instant (counter % 2 ^ 16) ((counter % 2 ^ 16 + distance) % 2 ^ 16)
    at_same = ap (classify_instant (counter % 2 ^ 16)) (omega arith)

event-Waits :
    (counter distance error : ℕ) (c : ProcedureContext)
    → Waits c counter (suc distance)
    → suc distance ≤ 32_766
    → event_context (counter % 2 ^ 16) error c ≡ c
unfolding event_context
event-Waits counter distance error c w le =
    simp (w.phase, w.instant, (relation_at counter (suc distance) (omega arith)).1 (omega arith) le)

event_completes :
    (counter error : ℕ) (c : ProcedureContext)
    → Waits c counter 0
    → ((event_context (counter % 2 ^ 16) error c).phase ≡ complete)
      × ((event_context (counter % 2 ^ 16) error c).response_deadline_us ≡ 0)
unfolding event_context
event_completes counter error c w =
    let r = (relation_at counter 0 (omega arith)).0 refl in
    (simp (w.phase, w.instant, r), simp (w.phase, w.instant, r))

Waits-next :
    (counter distance : ℕ) (c : ProcedureContext)
    → Waits c counter (suc distance)
    → Waits c (suc counter) distance
Waits-next counter distance c w = record {
  phase = w.phase;
  instant = w.instant ∙ ap some (omega arith);
}

context-Waits :
    (n counter distance error : ℕ) (c : ProcedureContext)
    → Waits c counter distance
    → n ≤ distance
    → distance ≤ 32_766
    → context_events n counter error c ≡ c
context-Waits zero counter distance error c w le small = refl
context-Waits (suc n) counter zero error c w le small = absurd (omega arith)
context-Waits (suc n) counter (suc distance) error c w le small =
    ap (context_events n (suc counter) error) (event-Waits counter distance error c w small)
    ∙ context-Waits n (suc counter) distance error c (Waits-next counter distance c w) (omega arith)
        (omega arith)

abbrev IsDone : ProcedureContext → Type 0
IsDone c = (c.phase ≡ complete) × (c.response_deadline_us ≡ 0)

context_completes :
    (counter distance error : ℕ) (c : ProcedureContext)
    → Waits c counter distance
    → distance ≤ 32_766
    → IsDone (context_events (suc distance) counter error c)
context_completes counter zero error c w small = event_completes counter error c w
context_completes counter (suc distance) error c w small =
    subst (λ (d : ProcedureContext). IsDone (context_events (suc distance) (suc counter) error d))
      (sym (event-Waits counter distance error c w small))
      (context_completes (suc counter) distance error c (Waits-next counter distance c w)
        (omega arith))

-- A remote context that waits for an instant at most 32766 events ahead, over the wrap of the counter
-- as well, stays as it is in every event before, and is complete, its timer disarmed, at that event.
pub instant_completes :
    (m : ProcedureManager) (c : ProcedureContext) (counter distance error : ℕ)
    → m.remote ≡ some c
    → Waits c counter distance
    → distance ≤ 32_766
    → ((n : ℕ) → n ≤ distance → (events n counter error m).remote ≡ some c)
      × ((d : ProcedureContext) × ((events (suc distance) counter error m).remote ≡ some d)
          × (d.phase ≡ complete)
          × (d.response_deadline_us ≡ 0))
instant_completes m c counter distance error h w small =
    let done = context_completes counter distance error c w small in
    (
      (λ (n : ℕ) le.
          events_remote n counter error m c h
          ∙ ap some (context-Waits n counter distance error c w le small)),
      (
        context_events (suc distance) counter error c,
        events_remote (suc distance) counter error m c h,
        done.0,
        done.1,
      ),
    )
