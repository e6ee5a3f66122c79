-- ===== src/Persistence/Interleaving.antt =====
-- internal/persistence/service.go: what the goroutines of the module do in between one another. A step is
-- what is done under one mutex (commitMu, lockStateMu), or one call of Publish, which no mutex joins to the
-- step before it: an event waits in `pending` from the one to the other, and any of them may be next.
pub mod Once
use piccolod.Common.{
  ℕ, zero, suc, ◌+◌, String, Bool, true, false, Option, none, some, List, [], ◌∷◌, nat_eq, leb,
  if◌then◌else◌,
}
use piccolod.Persistence.Leadership.{Role, Registry, kernel, set}
use piccolod.Persistence.Service.{Module, Event, lock_state_changed, control_store_commit, publish}
use piccolod.Persistence.Startup.{new_module}
use piccolod.Persistence.Commit.{record_commit}
use piccolod.Persistence.Lock.{with_lock_state}

pub record System : Type 0 where
  pub core : Module
  pub pending : List Event

-- `publishing i` is the call of Publish with the event that waits behind `i` others.
pub data Move : Type 0 where
  committing : Role → ℕ → String → Move
  setting : Bool → Move
  publishing : ℕ → Move
  leading : Role → Move

unfoldable pub waiting : Option Event × Module → List Event → System
waiting (none, m) events = record { core = m; pending = events }
waiting (some event, m) events = record { core = m; pending = event ∷ events }

unfoldable pub behind : Event → Option (Event × List Event) → Option (Event × List Event)
behind event none = none
behind event (some (x, rest)) = some (x, event ∷ rest)

-- With too high a number nothing is published.
unfoldable pub pick : ℕ → List Event → Option (Event × List Event)
unfolding behind
pick i [] = none
pick zero (event ∷ events) = some (event, events)
pick (suc i) (event ∷ events) = behind event (pick i events)

unfoldable pub publish_picked : Option (Event × List Event) → System → System
unfolding publish
publish_picked none s = s
publish_picked (some (event, rest)) s = record { core = publish event s.core; pending = rest }

unfoldable pub move : Move → System → System
unfolding record_commit waiting publish_picked
move (committing role rev checksum) s = waiting (record_commit role rev checksum s.core) s.pending
move (setting locked) s = record {
  core = with_lock_state locked s.core;
  pending = lock_state_changed locked ∷ s.pending;
}
move (publishing i) s = publish_picked (pick i s.pending) s
move (leading role) s = record s { core = record s.core { roles = set kernel role s.core.roles } }

unfoldable pub run : List Move → System → System
run [] s = s
run (x ∷ xs) s = run xs (move x s)

abbrev pub started : Registry → System
started roles = record { core = new_module roles; pending = [] }

-- How many events of a kind there are.
pub tally : (Event → ℕ) → List Event → ℕ
tally f [] = 0
tally f (event ∷ events) = f event + tally f events

-- Those that were published and those that wait.
abbrev pub total : (Event → ℕ) → System → ℕ
total f s = tally f s.core.published + tally f s.pending

pub of_revision : ℕ → Event → ℕ
of_revision rev (lock_state_changed locked) = 0
of_revision rev (control_store_commit rev' checksum role) = if nat_eq rev' rev then 1 else 0

pub of_lock : Bool → Event → ℕ
of_lock locked (control_store_commit rev checksum role) = 0
of_lock true (lock_state_changed true) = 1
of_lock false (lock_state_changed false) = 1
of_lock _ (lock_state_changed _) = 0

-- What the moves set and read, by their list alone.
pub sets : Move → Bool → ℕ
sets (setting true) true = 1
sets (setting false) false = 1
sets _ _ = 0

pub settings : Bool → List Move → ℕ
unfolding sets
settings locked [] = 0
settings locked (x ∷ xs) = sets x locked + settings locked xs

pub larger : ℕ → ℕ → ℕ
larger a b = if leb a b then b else a

pub highest : List Move → ℕ
unfolding larger
highest [] = 0
highest (committing role rev checksum ∷ xs) = larger rev (highest xs)
highest (_ ∷ xs) = highest xs
