-- ===== src/Runtime/Supervisor/Rollback.antt =====
-- supervisor.go: the calls that reach the components in a Start and a Stop.
use piccolod.Common.{
  ◌≡◌, refl, ap, ◌∙◌, sym, String, false, none, some, List, [], ◌∷◌, ◌++◌, map, reverse, All, arith,
  append_assoc, append-nil,
}
use mathlib.Core.List.{reverse-cons}
use piccolod.Runtime.Supervisor.{
  Component, starts, stops, Supervisor, start, start_each, stop_each, stop_all, stop,
}

-- The components that come up before the first that does not, that one, and those after it.
abbrev pub ComesUp : Component → Type 0
ComesUp c = c.start_error ≡ none

stop_each-map : (cs : List Component) → stop_each cs ≡ map stops cs
unfolding stop_each
stop_each-map [] = refl
stop_each-map (c ∷ cs) = ap (◌∷◌ (stops c)) (stop_each-map cs)

stop_all-trace : (cs : List Component) → (stop_all cs).1 ≡ map stops cs
unfolding stop_all
stop_all-trace [] = refl
stop_all-trace (c ∷ cs) = ap (◌∷◌ (stops c)) (stop_all-trace cs)

start_each_up :
    (up before : List Component)
    → All ComesUp before
    → start_each up before ≡ (none, map starts before)
unfolding start_each
start_each_up up [] h = refl
start_each_up up (c ∷ cs) h = ground (arith, h.0, start_each_up (c ∷ up) cs h.1)

reverse-onto :
    (c : Component) (before up : List Component)
    → reverse before ++ c ∷ up ≡ (reverse before ++ c ∷ []) ++ up
reverse-onto c before up = sym (append_assoc (reverse before) (c ∷ []) up)

start_each_fails :
    (up before : List Component) (bad : Component) (after : List Component) (e : String)
    → All ComesUp before
    → bad.start_error ≡ some e
    → start_each up (before ++ bad ∷ after)
      ≡ (some e, map starts before ++ starts bad ∷ stop_each (reverse before ++ up))
unfolding start_each
start_each_fails up [] bad after e h q = ground (arith, q)
start_each_fails up (c ∷ cs) bad after e h q = ground (
  arith,
  h.0,
  start_each_fails (c ∷ up) cs bad after e h.1 q,
  reverse-cons c cs,
  reverse-onto c cs up,
)

append-nil_reverse : (cs : List Component) → reverse cs ++ [] ≡ reverse cs
append-nil_reverse cs = append-nil (reverse cs)

-- A Start in which a component fails, after those before it came up: the error is returned; the
-- components are started in the order of registration up to that one, and those before it are
-- stopped, the last one first. The supervisor counts as started all the same, so a second Start
-- returns no error and starts nothing.
pub start_rolls_back :
    (s : Supervisor) (before : List Component) (bad : Component) (after : List Component)
    (e : String)
    → s.started ≡ false
    → s.components ≡ before ++ bad ∷ after
    → All ComesUp before
    → bad.start_error ≡ some e
    → let (error, trace, s') = start s in
      (error ≡ some e)
      × (trace ≡ map starts before ++ starts bad ∷ map stops (reverse before))
      × (start s' ≡ (none, [], s'))
unfolding start
start_rolls_back s before bad after e idle comps h q =
    let run = ap (start_each []) comps ∙ start_each_fails [] before bad after e h q in
    let stopped = ap stop_each (append-nil_reverse before) ∙ stop_each-map (reverse before) in
    (ground (arith, idle, run), ground (arith, idle, run, stopped), ground (arith, idle))

-- A Start in which every component comes up starts them in the order of registration, and a Stop
-- after it stops them in the opposite order, all of them, also where one of them returns an error.
pub start_stop :
    (s : Supervisor)
    → s.started ≡ false
    → All ComesUp s.components
    → let (error, trace, s') = start s in
      (error ≡ none)
      × (trace ≡ map starts s.components)
      × ((stop s').1 ≡ map stops (reverse s.components))
      × ((stop s').2 ≡ s)
unfolding start stop
start_stop s idle h =
    let run = start_each_up [] s.components h in
    (
      ground (arith, idle, run),
      ground (arith, idle, run),
      ground (arith, idle, stop_all-trace (reverse s.components)),
      ground (arith, idle),
    )
