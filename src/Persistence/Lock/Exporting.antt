-- ===== src/Persistence/Lock/Exporting.antt =====
-- internal/persistence/service.go: under which lock the callback of runExportWithLock runs, and what is
-- undone afterwards.
use piccolod.Common.{
  ◌≡◌, refl, sym, subst, Bool, true, false, Option, none, some, Result, ok, err, ◌⊎◌, inl, inr,
  Bool-cases, if_true, if_false, ◌∷◌,
}
use piccolod.Persistence.Service.{
  Deps, Module, ServiceError, lock_state_changed, attach_bootstrap_volume, publish_lock_state,
}
use piccolod.Persistence.Lock.{
  Artifact, recorded, announced, changes, set_lock_state, change_lock_state, first_error, restored,
  exported, run_from, run_locked, detach_bootstrap, run_export_with_lock,
}

-- The state is set and announced.
abbrev pub stepped : Bool → Module → Module
stepped locked m = record m {
  lock_state = locked;
  published = lock_state_changed locked ∷ m.published;
}

module _ (d : Deps) where
  open d use {W, E}

  abbrev Outcome : Type 0
  Outcome = Result (ServiceError E) Artifact × Module × W

  -- The first error counts.
  abbrev pub failing : Result (ServiceError E) Artifact → ServiceError E → ServiceError E
  failing (ok a) f = f
  failing (err e) f = e

  -- The lock is taken off the module `n` again, with the announcement, or that fails and `n` stays locked.
  abbrev pub Unlocked : Result (ServiceError E) Artifact → Module → W → Outcome → Type 0
  Unlocked r n w (r', m', w') =
      ((changes d false n w ≡ (none, w')) × (m' ≡ stepped false n) × (r' ≡ r))
      ⊎ ((f : ServiceError E) × (changes d false n w ≡ (some f, w'))
          × (m' ≡ n)
          × (r' ≡ err (failing r f)))

  -- The bootstrap volume is attached again, if it was detached.
  abbrev pub Reattached : Bool → Result (ServiceError E) Artifact → Module → W → Outcome → Type 0
  Reattached false r n w x = x ≡ (r, n, w)
  Reattached true r n w (r', m', w') =
      (m' ≡ n)
      × (((attach_bootstrap_volume d false n w ≡ (none, w')) × (r' ≡ r))
          ⊎ ((f : ServiceError E) × (attach_bootstrap_volume d false n w ≡ (some f, w'))
              × (r' ≡ err (failing r f))))

  abbrev pub Undone : Bool → Bool → Result (ServiceError E) Artifact → Module → W → Outcome → Type 0
  Undone true was_detached = Unlocked
  Undone false was_detached = Reattached was_detached

  -- With the module `n` locked, the callback runs on the disk that detaching leaves, unless that fails, and
  -- either way what was done for the export is undone.
  abbrev pub Ran : Bool → Bool → (W → Result E Artifact × W) → Module → W → Outcome → Type 0
  Ran by_export include fn n w x =
      ((e : ServiceError E) × (w1 : W) × (detach_bootstrap d include n w ≡ (err e, w1))
        × Undone by_export false (err e) n w1 x)
      ⊎ ((was_detached : Bool) × (w1 : W) × (detach_bootstrap d include n w ≡ (ok was_detached, w1))
          × Undone by_export was_detached (exported d (fn w1).0) n (fn w1).1 x)

  abbrev pub Exported : Bool → (W → Result E Artifact × W) → Module → W → Outcome → Type 0
  Exported include fn m w x =
      ((m.lock_state ≡ true) × Ran false include fn m w x)
      ⊎ ((m.lock_state ≡ false)
          × (((e : ServiceError E) × (w1 : W) × (changes d true m w ≡ (some e, w1))
                × (x ≡ (err e, m, w1)))
              ⊎ ((w1 : W) × (changes d true m w ≡ (none, w1))
                  × Ran true include fn (stepped true m) w1 x)))

  unlocked :
      (r : Result (ServiceError E) Artifact) (n : Module) (w : W) (x : Option (ServiceError E) × W)
      → changes d false n w ≡ x
      → Unlocked r n w (
          let (o, m', w') = announced d false (recorded d false n x) in (first_error d r o, m', w'))
  unfolding announced recorded publish_lock_state first_error
  unlocked r n w (none, w') h = inl (h, refl, refl)
  unlocked (ok a) n w (some f, w') h = inr (f, h, refl, refl)
  unlocked (err e) n w (some f, w') h = inr (f, h, refl, refl)

  attached :
      (r : Result (ServiceError E) Artifact) (n : Module) (w : W) (x : Option (ServiceError E) × W)
      → attach_bootstrap_volume d false n w ≡ x
      → Reattached true r n w (first_error d r x.0, n, x.1)
  unfolding first_error
  attached r n w (none, w') h = (refl, inl (h, refl))
  attached (ok a) n w (some f, w') h = (refl, inr (f, h, refl))
  attached (err e) n w (some f, w') h = (refl, inr (f, h, refl))

  restored-Undone :
      (by_export was_detached : Bool) (r : Result (ServiceError E) Artifact) (n : Module) (w : W)
      → Undone by_export was_detached r n w (restored d by_export was_detached r n w)
  unfolding restored change_lock_state set_lock_state
  restored-Undone true was_detached r n w = unlocked r n w (changes d false n w) refl
  restored-Undone false true r n w = attached r n w (attach_bootstrap_volume d false n w) refl
  restored-Undone false false r n w = refl

  run_from-Ran :
      (by_export include : Bool) (fn : W → Result E Artifact × W) (n : Module) (w : W)
      (x : Result (ServiceError E) Bool × W)
      → detach_bootstrap d include n w ≡ x
      → Ran by_export include fn n w (run_from d by_export fn n x)
  unfolding run_from
  run_from-Ran by_export include fn n w (ok was_detached, w1) h =
      inr (was_detached, w1, h, restored-Undone by_export was_detached _ n (fn w1).1)
  run_from-Ran by_export include fn n w (err e, w1) h =
      inl (e, w1, h, restored-Undone by_export false (err e) n w1)

  locking-Exported :
      (include : Bool) (fn : W → Result E Artifact × W) (m : Module) (w : W)
      (x : Option (ServiceError E) × W)
      → m.lock_state ≡ false
      → changes d true m w ≡ x
      → Exported include fn m w
          (run_locked d true include fn (announced d true (recorded d true m x)))
  unfolding run_locked announced recorded publish_lock_state
  locking-Exported include fn m w (some e, w1) h k = inr (h, inl (e, w1, k, refl))
  locking-Exported include fn m w (none, w1) h k = inr (
    h,
    inr (
      w1,
      k,
      run_from-Ran true include fn (stepped true m) w1
          (detach_bootstrap d include (stepped true m) w1) refl,
    ),
  )

  -- The callback of an export runs, once at most, while the module is locked, on the disk that locking and
  -- detaching the bootstrap volume leave. A module that was not locked is locked for it, which is announced;
  -- if locking fails, that error is the result and the module is as it was. Afterwards, and also if
  -- detaching failed, the lock is taken off again: it stays on only if that fails, and then the result is an
  -- error. A module that was locked stays as it is, and the volume is attached again if it was detached. The
  -- result is what the callback gave, unless an error came before or after it; the first error counts.
  -- Other goroutines do nothing meanwhile.
  pub run_export_with_lock-Exported :
      (include : Bool) (fn : W → Result E Artifact × W) (m : Module) (w : W)
      → Exported include fn m w (run_export_with_lock d include (some fn) m w)
  unfolding run_export_with_lock run_locked change_lock_state set_lock_state
  run_export_with_lock-Exported include fn m w = elim (Bool-cases m.lock_state) [
    | inl h ↦
        subst (Exported include fn m w) (sym (if_true m.lock_state _ _ h))
          (inl (h, run_from-Ran false include fn m w (detach_bootstrap d include m w) refl))
    | inr h ↦
        subst (Exported include fn m w) (sym (if_false m.lock_state _ _ h))
          (locking-Exported include fn m w (changes d true m w) h refl)
  ]
