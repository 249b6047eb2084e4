-- ===== src/Llcp/Starting.antt =====
-- When a procedure of the peer may start, and which error refuses it.
use ch58x_hal.Base.{◌≡◌, ◌↔◌, ◌⊎◌, refl, ap}
use ch58x_hal.Base.{arith, true, false, Option, none, some, is_some, ok}
use ch58x_hal.LinkLayer.ControlPdu.{InstantProcedure, procedure_collision_error}
use ch58x_hal.LinkLayer.ControlPdu
use ch58x_hal.Llcp.Procedure.{
  ProcedureKind, ProcedureContext, ProcedureError, ProcedureManager, instant_procedure, active,
  is_local, holds_active, Outcome,
}
use ch58x_hal.Llcp.Start.{start_remote, placed, admit, remote_guard, local_guard}

-- A procedure with an instant of the given kind is under way.
abbrev pub HoldsInstant : Option ProcedureContext → Type 0
HoldsInstant none = ⊥
HoldsInstant (some c) = (active c ≡ true) × (is_some (instant_procedure c.kind) ≡ true)

pub record MayStart (m : ProcedureManager) (c : ProcedureContext) : Type 0 where
  pub from_peer : is_local c.initiator ≡ false
  pub free : holds_active m.remote ≡ false
  pub no_collision : is_some (instant_procedure c.kind) ≡ true → HoldsInstant m.local → ⊥

remote_guard_free :
    (o : Option ProcedureContext) (kind : ProcedureKind)
    → (remote_guard o kind ≡ none) ↔ (holds_active o ≡ false)
remote_guard_free none kind = ((λ h. refl), (λ h. refl))
remote_guard_free (some c) kind = ((λ h. ground arith), (λ h. ground arith))

local_guard_free :
    (o : Option ProcedureContext) (kind : ProcedureKind)
    → (local_guard o kind ≡ none) ↔ (is_some (instant_procedure kind) ≡ true → HoldsInstant o → ⊥)
local_guard_free none kind = ((λ h i none_held. none_held), (λ h. refl))
local_guard_free (some c) kind = ((λ h i held. ground (arith, held.0, held.1)), (λ h. back h))
  where
    back :
        (is_some (instant_procedure kind) ≡ true → HoldsInstant (some c) → ⊥)
        → local_guard (some c) kind ≡ none
    back h = ground (
      arith,
      λ (i : is_some (instant_procedure kind) ≡ true) (a : active c ≡ true)
            (k : is_some (instant_procedure c.kind) ≡ true).
          h i (a, k),
    )

admit_free :
    (a b : Option ProcedureError) (m : ProcedureManager) (c : ProcedureContext)
    → (admit a b m c).1 ≡ ok tt
    → (a ≡ none) × (b ≡ none)
admit_free (some e) b m c h = absurd (ground arith)
admit_free none (some e) m c h = absurd (ground arith)
admit_free none none m c h = (refl, refl)

start_allowed :
    (m : ProcedureManager) (c : ProcedureContext)
    → MayStart m c
    → start_remote m c ≡ (record m { remote = some (placed c) }, ok tt)
unfolding start_remote
start_allowed m c h = simp (
  h.from_peer,
  (remote_guard_free m.remote c.kind).1 h.free,
  (local_guard_free m.local c.kind).1 h.no_collision,
)

start_admitted :
    (m : ProcedureManager) (c : ProcedureContext)
    → (start_remote m c).1 ≡ ok tt
    → (is_local c.initiator ≡ false)
      × ((admit (remote_guard m.remote c.kind) (local_guard m.local c.kind) m c).1 ≡ ok tt)
unfolding start_remote
start_admitted m c h = ground arith

start_forth :
    (m : ProcedureManager) (c : ProcedureContext) → (start_remote m c).1 ≡ ok tt → MayStart m c
start_forth m c h =
    let s = start_admitted m c h in
    let free = admit_free (remote_guard m.remote c.kind) (local_guard m.local c.kind) m c s.1 in
    record {
      from_peer = s.0;
      free = (remote_guard_free m.remote c.kind).0 free.0;
      no_collision = (local_guard_free m.local c.kind).0 free.1;
    }

-- The error code of a collision: the procedures are the same, or update and request of the
-- connection parameters.
abbrev pub IsSameTransaction : InstantProcedure → InstantProcedure → Type 0
IsSameTransaction ours theirs =
    (ours ≡ theirs)
    ⊎ ((ours ≡ ControlPdu.connection_update) × (theirs ≡ ControlPdu.connection_parameters_request))
    ⊎ ((ours ≡ ControlPdu.connection_parameters_request) × (theirs ≡ ControlPdu.connection_update))

-- Two colliding procedures are refused with 0x23 exactly if they are the same transaction, and
-- otherwise with 0x2a.
pub procedure_collision_error_iff :
    (ours theirs : InstantProcedure)
    → ((procedure_collision_error ours theirs ≡ 0x23) ↔ IsSameTransaction ours theirs)
      × ((procedure_collision_error ours theirs ≡ 0x23)
          ⊎ (procedure_collision_error ours theirs ≡ 0x2a))
unfolding procedure_collision_error
procedure_collision_error_iff ours theirs =
    (((λ h. ground arith), (λ h. ground arith)), ground arith)

-- A procedure of the peer starts exactly when it comes from the peer, none of the peer is under way,
-- and it does not collide with one of ours, both with an instant; it then takes the peer's slot, and
-- waits for its instant if it has one.
pub start_remote_iff :
    (m : ProcedureManager) (c : ProcedureContext)
    → (((start_remote m c).1 ≡ ok tt) ↔ MayStart m c)
      × (MayStart m c → start_remote m c ≡ (record m { remote = some (placed c) }, ok tt))
start_remote_iff m c = (
  (
    (λ h. start_forth m c h),
    (λ may. ap (λ (o : Outcome ProcedureManager). o.1) (start_allowed m c may)),
  ),
  (λ may. start_allowed m c may),
)
