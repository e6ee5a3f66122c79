-- ===== src/Runtime/Supervisor.antt =====
-- internal/runtime/supervisor/supervisor.go. A component is its name, with the error that its Start
-- and its Stop would return, if any. The calls that reach the components are a trace.
pub mod Rollback
use piccolod.Common.{
  String, Bool, true, false, Option, none, some, List, [], ◌∷◌, ◌++◌, Result, ok, err, reverse,
  if◌then◌else◌,
}

pub record Component : Type 0 where
  pub name : String
  pub start_error : Option String
  pub stop_error : Option String

pub data Event : Type 0 where
  starts stops : Component → Event

pub record Supervisor : Type 0 where
  pub components : List Component
  pub started : Bool

new_supervisor : Supervisor
new_supervisor = record { components = []; started = false }

-- Nothing stands for the panic of a registration after the start.
pub register : Supervisor → Component → Option Supervisor
register s c = if s.started then none else some (record s { components = s.components ++ c ∷ [] })

-- The components are stopped as listed; what they return is dropped.
pub stop_each : List Component → List Event
stop_each [] = []
stop_each (c ∷ cs) = stops c ∷ stop_each cs

-- `up` are the components that were started, the last one first.
pub start_each : List Component → List Component → Option String × List Event
start_each up [] = (none, [])
start_each up (c ∷ cs) =
    let (e, trace) = start_each (c ∷ up) cs in
    elim c.start_error [
      | none ↦ (e, starts c ∷ trace)
      | some error ↦ (some error, starts c ∷ stop_each up)
    ]

pub start : Supervisor → Option String × List Event × Supervisor
start s =
    let (e, trace) = start_each [] s.components in
    if s.started then (none, [], s) else (e, trace, record s { started = true })

first_error : Option String → Option String → Option String
first_error none e = e
first_error (some x) e = some x

stop_all : List Component → Option String × List Event
unfolding first_error
stop_all [] = (none, [])
stop_all (c ∷ cs) = let (e, trace) = stop_all cs in (first_error c.stop_error e, stops c ∷ trace)

-- Every component is stopped, the last registered one first, whatever the others return.
pub stop : Supervisor → Option String × List Event × Supervisor
unfolding stop_all
stop s =
    let (e, trace) = stop_all (reverse s.components) in (e, trace, record s { started = false })
