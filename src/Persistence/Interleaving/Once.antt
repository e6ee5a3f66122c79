-- ===== src/Persistence/Interleaving/Once.antt =====
-- internal/persistence/service.go: in whatever order the goroutines take their steps, what is announced.
use piccolod.Common.{ℕ, ◌+◌, ◌≤◌, ◌<◌, ◌≡◌, Bool, Option, none, some, List, ◌⊎◌}
use piccolod.Persistence.Service.{Event}
use piccolod.Persistence.Interleaving.{
  System, Move, tally, total, of_revision, of_lock, settings, highest,
}

-- What `pick` takes out.
abbrev Taken : (Event → ℕ) → List Event → Option (Event × List Event) → Type 0
Taken f events none = Unit
Taken f events (some (x, rest)) = tally f events ≡ f x + tally f rest

-- Of a revision there is one event at most, and none above the last; of the last there is one.
abbrev Counted : ℕ → ℕ → ℕ → Type 0
Counted rev last n = (n ≡ 0) ⊎ ((n ≡ 1) × (0 < rev) × (rev ≤ last))

abbrev IsOnce : ℕ → (ℕ → ℕ) → Type 0
IsOnce last n = ((rev : ℕ) → Counted rev last (n rev)) × ((last ≡ 0) ⊎ (n last ≡ 1))

abbrev Once : System → Type 0
Once s = IsOnce s.core.last_commit_revision (λ rev. total (of_revision rev) s)

-- What holds after the moves `xs`, with `rev` any revision and `locked` any state of the lock.
abbrev pub Announced : List Move → ℕ → Bool → System → Type 0
Announced xs rev locked s =
    (s.core.last_commit_revision ≡ highest xs)
    × ((highest xs ≡ 0) ⊎ (total (of_revision (highest xs)) s ≡ 1))
    × ((total (of_revision rev) s ≡ 0)
        ⊎ ((total (of_revision rev) s ≡ 1) × (0 < rev) × (rev ≤ highest xs)))
    × (total (of_lock locked) s ≡ settings locked xs)
