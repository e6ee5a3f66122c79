-- ===== src/Tests/Parts.antt =====
-- The supervisor, dispatcher, bus, health tracker and router of internal/runtime, events, health and
-- router.
use piccolod.Common.{
  ℕ, suc, String, ◌≡◌, refl, Option, none, some, List, [], ◌∷◌, false, ok, Eq-string,
}
use piccolod.Runtime.Supervisor.{Component, starts, stops, Supervisor, start}
use piccolod.Runtime.Supervisor.Rollback.{start_rolls_back}
use piccolod.Runtime.Dispatcher.{Dispatcher, Handler, Middleware}
use piccolod.Runtime.Bus.{Bus, new_bus, subscribe, publish}
use piccolod.Runtime.Bus
use piccolod.Runtime.Bus.Sending.{IsLive}
use piccolod.Runtime.Bus.Delivery.{
  Act, subscribing, publishing, closing, receiving, act_all, act_all-no_panic,
}
use piccolod.Runtime.Health.{Tracker}

abbrev component : String → Option String → Component
component name error = record { name = name; start_error = error; stop_error = none }

abbrev failing : Supervisor
failing = record {
  components = component "a" none ∷ component "b" (some "no") ∷ component "c" none ∷ [];
  started = false;
}

start_rolls_back_example :
    let (error, trace, s') = start failing in
    (error ≡ some "no")
    × (trace
        ≡ starts (component "a" none)
          ∷ starts (component "b" (some "no"))
          ∷ stops (component "a" none)
          ∷ [])
    × (start s' ≡ (none, [], s'))
start_rolls_back_example =
    start_rolls_back failing (component "a" none ∷ []) (component "b" (some "no"))
      (component "c" none ∷ []) "no" refl refl (refl, tt) refl

-- Commands are their names, the world counts the calls.
abbrev command_name : String → String
command_name cmd = cmd

abbrev counting : Handler ℕ String ℕ String command_name
counting cmd w = (ok w, w)

abbrev once_more : Middleware ℕ String ℕ String command_name
once_more h cmd w = h cmd (suc w)

abbrev handlers : Dispatcher ℕ String ℕ String command_name
handlers = record { handlers = ("ping", counting) ∷ []; middleware = once_more ∷ [] }

abbrev locked : Bus.Event String
locked = record { topic = "locks"; payload = "locked" }

abbrev acts : List (Act String)
acts =
    subscribing "locks" 1
    ∷ publishing locked
    ∷ receiving 0
    ∷ closing
    ∷ publishing locked
    ∷ closing
    ∷ []

act_all-no_panic_example :
    (b : Bus String) × (act_all String (some (new_bus String)) acts ≡ some b) × IsLive String b
act_all-no_panic_example = act_all-no_panic String acts

abbrev tracker : Tracker
tracker =
    ("disk", record { level = 1; message = "full" })
    ∷ ("net", record { level = 0; message = "" })
    ∷ []
