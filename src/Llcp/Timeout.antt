-- ===== src/Llcp/Timeout.antt =====
-- The response timer of the control procedures.
use ch58x_hal.Base.{ℕ, ◌≤◌, ◌≡◌, ◌≢◌, ◌↔◌, ◌⊎◌, inl, inr, refl}
use ch58x_hal.Base.{arith, true, ◌||◌, Option, none, some, Bool-cases}
use ch58x_hal.Llcp.Procedure.{
  awaiting_response, awaiting_instant, failed, ProcedureContext, ProcedureManager,
}
use ch58x_hal.Llcp.Timers.{is_expired, timed_out, on_some, slot_is_expired, check_timeouts}

-- The timer of the context is armed and the time has come.
pub record IsDue (now_us : ℕ) (c : ProcedureContext) : Type 0 where
  pub waits : (c.phase ≡ awaiting_response) ⊎ (c.phase ≡ awaiting_instant)
  pub armed : c.response_deadline_us ≢ 0
  pub reached : c.response_deadline_us ≤ now_us

is_expired_iff : (now_us : ℕ) (c : ProcedureContext) → (is_expired now_us c ≡ true) ↔ IsDue now_us c
is_expired_iff now_us c = (there, back)
  where
    there : is_expired now_us c ≡ true → IsDue now_us c
    there h = ground arith

    back : IsDue now_us c → is_expired now_us c ≡ true
    back h = ground (arith, h.waits, h.armed, h.reached)

abbrev pub IsSlotDue : ℕ → Option ProcedureContext → Type 0
IsSlotDue now_us none = ⊥
IsSlotDue now_us (some c) = IsDue now_us c

-- What becomes of a slot: a context that is due has failed, any other is left alone.
abbrev pub TimedOut : ℕ → ℕ → Option ProcedureContext → Option ProcedureContext → Type 0
TimedOut now_us error none after = after ≡ none
TimedOut now_us error (some c) none = ⊥
TimedOut now_us error (some c) (some d) =
    (IsDue now_us c × (d.phase ≡ failed) × (d.error ≡ some error) × (d.response_deadline_us ≡ 0))
    ⊎ ((IsDue now_us c → ⊥) × (d ≡ c))

slot_timed_out :
    (now_us error : ℕ) (o : Option ProcedureContext)
    → TimedOut now_us error o (on_some (timed_out now_us error) o)
unfolding timed_out
slot_timed_out now_us error none = refl
slot_timed_out now_us error (some c) = elim (Bool-cases (is_expired now_us c)) [
  | inl e ↦ inl ((is_expired_iff now_us c).0 e, simp e, simp e, simp e)
  | inr e ↦ inr ((λ due. ground (arith, (is_expired_iff now_us c).1 due)), simp e)
]

slot_is_expired_iff :
    (now_us : ℕ) (o : Option ProcedureContext)
    → (slot_is_expired now_us o ≡ true) ↔ IsSlotDue now_us o
slot_is_expired_iff now_us none = ((λ h. absurd (ground arith)), (λ h. absurd h))
slot_is_expired_iff now_us (some c) = is_expired_iff now_us c

-- `check_timeouts` fails exactly the contexts whose timer is armed and has run out while they wait
-- for a response or an instant, disarms them, and says whether there was one.
pub check_timeouts_due :
    (m : ProcedureManager) (now_us error : ℕ)
    → TimedOut now_us error m.local (check_timeouts m now_us error).0.local
      × TimedOut now_us error m.remote (check_timeouts m now_us error).0.remote
      × (((check_timeouts m now_us error).1 ≡ true)
          ↔ (IsSlotDue now_us m.local ⊎ IsSlotDue now_us m.remote))
unfolding check_timeouts
check_timeouts_due m now_us error =
    (slot_timed_out now_us error m.local, slot_timed_out now_us error m.remote, (there, back))
  where
    ours : (slot_is_expired now_us m.local ≡ true) ↔ IsSlotDue now_us m.local
    ours = slot_is_expired_iff now_us m.local

    theirs : (slot_is_expired now_us m.remote ≡ true) ↔ IsSlotDue now_us m.remote
    theirs = slot_is_expired_iff now_us m.remote

    there :
        (slot_is_expired now_us m.local || slot_is_expired now_us m.remote) ≡ true
        → IsSlotDue now_us m.local ⊎ IsSlotDue now_us m.remote
    there h = elim (Bool-cases (slot_is_expired now_us m.local)) [
      | inl e ↦ inl (ours.0 e)
      | inr e ↦ inr (theirs.0 (ground arith))
    ]

    back :
        IsSlotDue now_us m.local ⊎ IsSlotDue now_us m.remote
        → (slot_is_expired now_us m.local || slot_is_expired now_us m.remote) ≡ true
    back (inl d) = ground (arith, ours.1 d)
    back (inr d) = ground (arith, theirs.1 d)
