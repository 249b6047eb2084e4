-- ===== src/Llcp/Start.antt =====
-- How a procedure starts: `start_local` and `start_remote` of crates/ble-controller/src/llcp.rs. A method
-- that takes `&mut self` gives the manager afterwards together with what it returns.
use ch58x_hal.Base.{not, ◌&&◌, Option, none, some}
use ch58x_hal.Base.{if◌then◌else◌, is_some, ok, err}
use ch58x_hal.LinkLayer.ControlPdu.{InstantProcedure, procedure_collision_error}
use ch58x_hal.Llcp.Procedure.{
  ProcedureKind, instant_procedure, awaiting_instant, ProcedureContext, active, ProcedureError,
  busy, invalid_phase, collision_error, ProcedureManager, Outcome, is_local, holds_active,
}

unfoldable pub start_local : ProcedureManager → ProcedureContext → Outcome ProcedureManager
start_local m context =
    if not (is_local context.initiator)
    then (m, err invalid_phase)
    else if holds_active m.local
    then (m, err busy)
    else (record m { local = some context }, ok tt)

abbrev collision_of : Option InstantProcedure → Option InstantProcedure → ProcedureError
collision_of (some ours) (some theirs) = collision_error (procedure_collision_error ours theirs)
collision_of _ _ = busy

unfoldable pub collision : ProcedureKind → ProcedureKind → ProcedureError
collision ours theirs = collision_of (instant_procedure ours) (instant_procedure theirs)

-- The two guards of `start_remote` that look at the contexts in place.
abbrev pub remote_guard : Option ProcedureContext → ProcedureKind → Option ProcedureError
remote_guard none kind = none
remote_guard (some remote) kind = if active remote then some (collision remote.kind kind) else none

abbrev pub local_guard : Option ProcedureContext → ProcedureKind → Option ProcedureError
local_guard none kind = none
local_guard (some ours) kind =
    if active ours && (is_some (instant_procedure ours.kind) && is_some (instant_procedure kind))
    then some (collision ours.kind kind)
    else none

-- A remote indication with an instant waits for it at once.
abbrev pub placed : ProcedureContext → ProcedureContext
placed context =
    if is_some context.instant then record context { phase = awaiting_instant } else context

abbrev pub admit :
    Option ProcedureError
    → Option ProcedureError
    → ProcedureManager
    → ProcedureContext
    → Outcome ProcedureManager
admit (some e) guard m context = (m, err e)
admit none (some e) m context = (m, err e)
admit none none m context = (record m { remote = some (placed context) }, ok tt)

unfoldable pub start_remote : ProcedureManager → ProcedureContext → Outcome ProcedureManager
start_remote m context =
    if is_local context.initiator
    then (m, err invalid_phase)
    else admit (remote_guard m.remote context.kind) (local_guard m.local context.kind) m context
