-- ===== src/Llcp/Calls.antt =====
-- Sequences of calls of a `ProcedureManager`.
use ch58x_hal.Base.{ℕ, ◌≡◌, ◌≢◌, ◌⊎◌, inl, inr, refl, sym, ap, subst}
use ch58x_hal.Base.{arith, true, false, Option, none, some, List, [], ◌∷◌, is_some}
use ch58x_hal.Base.{ok}
use ch58x_hal.Llcp.Transmit.{
  on_slot, plan_context, done_context, ack_context, response_context, response_instant_context,
  respond_context, on_context, tx_planned, tx_done, nesn_ack, expected_response,
  expected_response_with_instant, response_queued,
}
use ch58x_hal.Llcp.Start.{admit, remote_guard, local_guard, start_local, start_remote, placed}
use ch58x_hal.Llcp.Procedure.{
  ProcedureKind, ProcedureInitiator, local_initiator, remote_initiator, awaiting_instant,
  ProcedureToken, ProcedureContext, new_context, ProcedureError, ProcedureManager, new, Outcome,
  active,
}
use ch58x_hal.Llcp.Timers.{
  fail_context, event_context, timed_out, on_some, check_timeouts, fail, on_connection_event,
}
use ch58x_hal.Llcp.Invariant

-- The arguments of `ProcedureContext::new` after the initiator.
pub record Request : Type 0 where
  pub kind : ProcedureKind
  pub token : ProcedureToken
  pub tx_opcode : ℕ
  pub expected_response_opcode : Option ℕ
  pub instant : Option ℕ
  pub response_timeout_us : Option ℕ

abbrev pub context_of : ProcedureInitiator → Request → ProcedureContext
context_of initiator r =
    new_context r.kind initiator r.token r.tx_opcode r.expected_response_opcode r.instant
      r.response_timeout_us

pub data Call : Type 0 where
  call_start_local call_start_remote : ProcedureInitiator → Request → Call
  call_tx_planned call_tx_done : ProcedureInitiator → ProcedureToken → Call
  call_nesn_ack : ProcedureInitiator → ProcedureToken → ℕ → Call
  call_expected_response : ProcedureInitiator → ℕ → Call
  call_expected_response_with_instant : ProcedureInitiator → ℕ → ℕ → Call
  call_response_queued : ProcedureToken → ℕ → Call
  call_fail : ProcedureInitiator → ℕ → Call
  call_check_timeouts call_on_connection_event : ℕ → ℕ → Call

unfoldable pub perform : ProcedureManager → Call → Outcome ProcedureManager
perform m (call_start_local i r) = start_local m (context_of i r)
perform m (call_start_remote i r) = start_remote m (context_of i r)
perform m (call_tx_planned i token) = tx_planned m i token
perform m (call_tx_done i token) = tx_done m i token
perform m (call_nesn_ack i token now) = nesn_ack m i token now
perform m (call_expected_response i opcode) = expected_response m i opcode
perform m (call_expected_response_with_instant i opcode instant) =
    expected_response_with_instant m i opcode instant
perform m (call_response_queued token opcode) = response_queued m token opcode
perform m (call_fail i error) = fail m i error
perform m (call_check_timeouts now error) = ((check_timeouts m now error).0, ok tt)
perform m (call_on_connection_event counter error) = (on_connection_event m counter error, ok tt)

abbrev pub after : ProcedureManager → List Call → ProcedureManager
after m [] = m
after m (c ∷ cs) = after (perform m c).0 cs

abbrev pub IsSlot : Option ProcedureContext → Type 0
IsSlot none = Unit
IsSlot (some c) = Invariant.IsContext c

pub record IsManager (m : ProcedureManager) : Type 0 where
  pub local : IsSlot m.local
  pub remote : IsSlot m.remote

abbrev Keeps : (ProcedureContext → ProcedureContext) → Type 0
Keeps f = (c : ProcedureContext) → Invariant.IsContext c → Invariant.IsContext (f c)

on_slot-IsSlot :
    (o : Option ProcedureContext) (f : ProcedureContext → Outcome ProcedureContext)
    → Keeps (λ c. (f c).0)
    → IsSlot o
    → IsSlot (on_slot o f).0
on_slot-IsSlot none f keep h = tt
on_slot-IsSlot (some c) f keep h = keep c h

on_context-IsManager :
    (m : ProcedureManager) (i : ProcedureInitiator)
    (f : ProcedureContext → Outcome ProcedureContext)
    → Keeps (λ c. (f c).0)
    → IsManager m
    → IsManager (on_context m i f).0
on_context-IsManager m local_initiator f keep h = record {
  local = on_slot-IsSlot m.local f keep h.local;
  remote = h.remote;
}
on_context-IsManager m remote_initiator f keep h = record {
  local = h.local;
  remote = on_slot-IsSlot m.remote f keep h.remote;
}

on_some-IsSlot :
    (f : ProcedureContext → ProcedureContext) (o : Option ProcedureContext)
    → Keeps f
    → IsSlot o
    → IsSlot (on_some f o)
on_some-IsSlot f none keep h = tt
on_some-IsSlot f (some c) keep h = keep c h

-- A context is refused, and the manager stays, or it takes its slot.
pub start_local_cases :
    (m : ProcedureManager) (c : ProcedureContext)
    → (((start_local m c).0 ≡ m) × ((start_local m c).1 ≢ ok tt))
      ⊎ (start_local m c ≡ (record m { local = some c }, ok tt))
unfolding start_local
start_local_cases m c = ground arith

admit_cases :
    (a b : Option ProcedureError) (m : ProcedureManager) (c : ProcedureContext)
    → (((admit a b m c).0 ≡ m) × ((admit a b m c).1 ≢ ok tt))
      ⊎ (admit a b m c ≡ (record m { remote = some (placed c) }, ok tt))
admit_cases (some e) b m c = ground arith
admit_cases none (some e) m c = ground arith
admit_cases none none m c = inr refl

pub start_remote_cases :
    (m : ProcedureManager) (c : ProcedureContext)
    → (((start_remote m c).0 ≡ m) × ((start_remote m c).1 ≢ ok tt))
      ⊎ (start_remote m c ≡ (record m { remote = some (placed c) }, ok tt))
unfolding start_remote
start_remote_cases m c =
    ground (arith, admit_cases (remote_guard m.remote c.kind) (local_guard m.local c.kind) m c)

started : (i : ProcedureInitiator) (r : Request) → Invariant.IsContext (context_of i r)
unfolding new_context
started i r = refl

placed-IsContext :
    (i : ProcedureInitiator) (r : Request) → Invariant.IsContext (placed (context_of i r))
unfolding new_context
placed-IsContext i r = ground arith

start_local-IsManager :
    (m : ProcedureManager) (i : ProcedureInitiator) (r : Request)
    → IsManager m
    → IsManager (start_local m (context_of i r)).0
start_local-IsManager m i r h = elim (start_local_cases m (context_of i r)) [
  | inl refused ↦ subst IsManager (sym refused.0) h
  | inr taken ↦
      subst IsManager (sym (ap (λ (o : Outcome ProcedureManager). o.0) taken))
        (record { local = started i r; remote = h.remote })
]

start_remote-IsManager :
    (m : ProcedureManager) (i : ProcedureInitiator) (r : Request)
    → IsManager m
    → IsManager (start_remote m (context_of i r)).0
start_remote-IsManager m i r h = elim (start_remote_cases m (context_of i r)) [
  | inl refused ↦ subst IsManager (sym refused.0) h
  | inr taken ↦
      subst IsManager (sym (ap (λ (o : Outcome ProcedureManager). o.0) taken))
        (record { local = h.local; remote = placed-IsContext i r })
]

pub perform-IsManager : (m : ProcedureManager) (c : Call) → IsManager m → IsManager (perform m c).0
unfolding perform tx_planned tx_done nesn_ack expected_response expected_response_with_instant
    response_queued fail check_timeouts on_connection_event
perform-IsManager m (call_start_local i r) h = start_local-IsManager m i r h
perform-IsManager m (call_start_remote i r) h = start_remote-IsManager m i r h
perform-IsManager m (call_tx_planned i token) h =
    on_context-IsManager m i (plan_context token)
      (λ c k. Invariant.plan_context-IsContext c k token) h
perform-IsManager m (call_tx_done i token) h =
    on_context-IsManager m i (done_context token)
      (λ c k. Invariant.done_context-IsContext c k token) h
perform-IsManager m (call_nesn_ack i token now) h =
    on_context-IsManager m i (ack_context token now)
      (λ c k. Invariant.ack_context-IsContext c k token now) h
perform-IsManager m (call_expected_response i opcode) h =
    on_context-IsManager m i (response_context opcode)
      (λ c k. Invariant.response_context-IsContext c k opcode) h
perform-IsManager m (call_expected_response_with_instant i opcode instant) h =
    on_context-IsManager m i (response_instant_context opcode instant)
      (λ c k. Invariant.response_instant_context-IsContext c k opcode instant) h
perform-IsManager m (call_response_queued token opcode) h =
    on_context-IsManager m remote_initiator (respond_context token opcode)
      (λ c k. Invariant.respond_context-IsContext c k token opcode) h
perform-IsManager m (call_fail i error) h =
    on_context-IsManager m i (fail_context error)
      (λ c k. Invariant.fail_context-IsContext c k error) h
perform-IsManager m (call_check_timeouts now error) h = record {
  local =
      on_some-IsSlot (timed_out now error) m.local
        (λ c k. Invariant.timed_out-IsContext c k now error) h.local;
  remote =
      on_some-IsSlot (timed_out now error) m.remote
        (λ c k. Invariant.timed_out-IsContext c k now error) h.remote;
}
perform-IsManager m (call_on_connection_event counter error) h = record {
  local =
      on_some-IsSlot (event_context counter error) m.local
        (λ c k. Invariant.event_context-IsContext c k counter error) h.local;
  remote =
      on_some-IsSlot (event_context counter error) m.remote
        (λ c k. Invariant.event_context-IsContext c k counter error) h.remote;
}

after-IsManager : (cs : List Call) (m : ProcedureManager) → IsManager m → IsManager (after m cs)
after-IsManager [] m h = h
after-IsManager (c ∷ cs) m h = after-IsManager cs (perform m c).0 (perform-IsManager m c h)

-- What the invariant says of a context that is over and of one that waits for its instant.
abbrev pub IsSettled : ProcedureContext → Type 0
IsSettled c =
    (active c ≡ false → (c.response_deadline_us ≡ 0) × (c.pending_response ≡ false))
    × (c.phase ≡ awaiting_instant → is_some c.instant ≡ true)
    × (c.response_deadline_us ≢ 0 → is_some c.expected_response_opcode ≡ true)

abbrev pub HoldsSettled : Option ProcedureContext → Type 0
HoldsSettled none = Unit
HoldsSettled (some c) = IsSettled c

IsContext→IsSettled : (c : ProcedureContext) → Invariant.IsContext c → IsSettled c
IsContext→IsSettled c h = ((λ a. ground arith), (λ e. ground arith), (λ a. ground arith))

IsSlot→HoldsSettled : (o : Option ProcedureContext) → IsSlot o → HoldsSettled o
IsSlot→HoldsSettled none h = tt
IsSlot→HoldsSettled (some c) h = IsContext→IsSettled c h

new-IsManager : IsManager new
unfolding new
new-IsManager = record { local = tt; remote = tt }

-- After any calls of a new manager, whose contexts are made by `ProcedureContext::new`: a context
-- that is complete or failed has no deadline and no pending response, one that awaits its instant has
-- an instant, and one with a deadline expects a response.
pub contexts_settled :
    (cs : List Call) → HoldsSettled (after new cs).local × HoldsSettled (after new cs).remote
contexts_settled cs =
    let h = after-IsManager cs new new-IsManager in
    (
      IsSlot→HoldsSettled (after new cs).local h.local,
      IsSlot→HoldsSettled (after new cs).remote h.remote,
    )
