-- ===== src/Persistence/Mounts/Waiting.antt =====
-- internal/persistence/file_volume_manager.go: waitForMountReady. The polls are counted; `poll` is what
-- isMountPoint finds in each and `clock` the time in milliseconds after it.
use piccolod.Common.{
  ℕ, zero, suc, ◌+◌, ◌*◌, ◌/◌, ◌≤◌, ◌<◌, ◌≡◌, refl, ◌∙◌, Bool, true, false, Option, none, some,
  Result, ok, err, ltb, if◌then◌else◌, Bool-cases, inl, inr, if_true, if_false, arith,
}

pub data WaitError (E : Type 0) : Type 0 where
  system : E → WaitError E
  timeout : WaitError E

module _ {E : Type 0} (poll : ℕ → Result E Bool) (clock : ℕ → ℕ) (deadline : ℕ) where
  -- The last argument is what comes after the pause.
  polled :
      Result E Bool
      → ℕ
      → Option (Result (WaitError E) (Unit {0}))
      → Option (Result (WaitError E) (Unit {0}))
  polled (err e) i rest = some (err (system e))
  polled (ok true) i rest = some (ok tt)
  polled (ok false) i rest = if ltb deadline (clock i) then some (err timeout) else rest

  -- The loop from poll `i` on, with fuel; nothing if that runs out.
  pub wait_from : ℕ → ℕ → Option (Result (WaitError E) (Unit {0}))
  unfolding polled
  wait_from zero i = none
  wait_from (suc fuel) i = let rest = wait_from fuel (suc i) in polled (poll i) i rest

  -- Why the loop ends: a poll that found the mount, one that failed, or one past the deadline.
  abbrev pub Reason : Result (WaitError E) (Unit {0}) → Type 0
  Reason (ok u) = (i : ℕ) × (poll i ≡ ok true)
  Reason (err (system e)) = (i : ℕ) × (poll i ≡ err e)
  Reason (err timeout) = (i : ℕ) × (poll i ≡ ok false) × (deadline < clock i)

  polled-ends :
      (p : Result E Bool) (i : ℕ) (rest : Option (Result (WaitError E) (Unit {0})))
      → poll i ≡ p
      → ((clock i ≤ deadline) → (r : Result (WaitError E) (Unit {0})) × (rest ≡ some r) × Reason r)
      → (r : Result (WaitError E) (Unit {0})) × (polled p i rest ≡ some r) × Reason r
  unfolding polled
  polled-ends (err e) i rest q k = (err (system e), refl, (i, q))
  polled-ends (ok true) i rest q k = (ok tt, refl, (i, q))
  polled-ends (ok false) i rest q k = elim (Bool-cases (ltb deadline (clock i))) [
    | inl late ↦
        (err timeout, if_true (ltb deadline (clock i)) _ rest late, (i, q, ground (arith, late)))
    | inr early ↦
        let (r, e, why) = k (ground (arith, early)) in
        (r, if_false (ltb deadline (clock i)) _ rest early ∙ e, why)
  ]

  wait_from-ends :
      (start : ℕ)
      → ((i : ℕ) → start + 50 * i ≤ clock i)
      → (fuel i : ℕ) → start + 50 * i ≤ deadline + 50
      → deadline + 50 < start + 50 * (i + fuel)
      → (r : Result (WaitError E) (Unit {0})) × (wait_from fuel i ≡ some r) × Reason r
  unfolding wait_from
  wait_from-ends start ticks zero i reached enough = absurd (omega (arith, reached, enough))
  wait_from-ends start ticks (suc fuel) i reached enough =
      polled-ends (poll i) i (wait_from fuel (suc i)) refl (λ early.
        wait_from-ends start ticks fuel (suc i) (omega (arith, early, ticks i))
          (omega (arith, enough)))

-- The time is told once before the loop, and once after each poll that found nothing.
pub wait_for_mount_ready :
    {E : Type 0}
    → (ℕ → Result E Bool)
    → (ℕ → ℕ)
    → ℕ
    → ℕ
    → ℕ
    → Option (Result (WaitError E) (Unit {0}))
unfolding wait_from
wait_for_mount_ready poll clock start limit fuel = wait_from poll clock (start + limit) fuel 0

-- If every pause takes its fifty milliseconds, the wait ends after at most a fiftieth of the limit and
-- two polls, and for one of three reasons: the mount was found, looking for it failed, or it was not there
-- and the limit was over.
pub wait_for_mount_ready-ends :
    {E : Type 0} (poll : ℕ → Result E Bool) (clock : ℕ → ℕ) (start limit : ℕ)
    → ((i : ℕ) → start + 50 * i ≤ clock i)
    → (r : Result (WaitError E) (Unit {0})) × (wait_for_mount_ready poll clock start limit
          (limit / 50 + 2)
        ≡ some r)
      × Reason poll clock (start + limit) r
unfolding wait_for_mount_ready
wait_for_mount_ready-ends poll clock start limit ticks =
    wait_from-ends poll clock (start + limit) start ticks (limit / 50 + 2) 0 (omega arith)
      (omega arith)
