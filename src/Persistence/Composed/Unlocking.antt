-- ===== src/Persistence/Composed/Unlocking.antt =====
-- internal/persistence: the control store is not unlocked while the crypt manager is locked.
use piccolod.Common.{
  ◌≡◌, refl, sym, ap, ◌∙◌, subst, String, Bool, true, false, not, ◌&&◌, Option, none, some, Result,
  ok, err, if◌then◌else◌, if_both, if_false, arith, Eq-string, ◌==◌,
}
use piccolod.Common.Map.{lookup}
use piccolod.Crypt.Platform.{Platform, locked}
use piccolod.Crypt.Manager.{Manager, is_locked, with_sdek}
use piccolod.Persistence.Leadership.{Role}
use piccolod.Persistence.Service.{
  VolumeHandle, Deps, Module, ServiceError, attach_control_volume, tolerated,
}
use piccolod.Persistence.Lock.{
  handle_record_lock_state, change_lock_state, set_lock_state, recorded, changes, announced,
  unlocks, with_control,
}
use piccolod.Persistence.Volumes.{
  VolumeMetadata, VolumeError, Host, Entry, Store, M, ◌>>◌, bind_from, pure, put_entry, of_result,
  fail, not_granted,
}
use piccolod.Persistence.Volumes.Keys.{
  Ensured, ensure_metadata, unwrap_volume_key, with_key, guarded_key,
}
use piccolod.Persistence.Volumes.Manager.{
  is_leader, ensured, attach, attach_mount, known, granted, attach_bypass,
}
use piccolod.Persistence.Composed.{ControlStore, error_of, volume_deps}
use piccolod.Persistence.Composed.Crypto.{then-Keeps, ensure_metadata-Keeps}

with_sdek-locked :
    (l : Platform) (m : Manager) → is_locked m ≡ true → with_sdek l (λ _. none) m ≡ some locked
unfolding with_sdek is_locked
with_sdek-locked l m h = ground (arith, h)

module _ (l : Platform) (h : Host l) where
  abbrev Fails : {A : Type 0} → Result (VolumeError l.E) A × Store l h → Type 0
  Fails (ok a, s) = ⊥
  Fails (err e, s) = Unit

  bind_from-Fails :
      {A B : Type 0} (x : Result (VolumeError l.E) A × Store l h) (f : A → M l h B)
      → ((a : A) → Fails (f a x.1))
      → Fails (bind_from x f)
  bind_from-Fails (ok a, s) f k = k a
  bind_from-Fails (err e, s) f k = tt

  failed-Fails :
      {A B : Type 0} (x : Result (VolumeError l.E) A × Store l h) (f : A → M l h B)
      → Fails x
      → Fails (bind_from x f)
  failed-Fails (ok a, s) f k = absurd k
  failed-Fails (err e, s) f k = tt

  unwrap-Fails :
      (meta : VolumeMetadata) (s : Store l h)
      → is_locked s.crypto ≡ true
      → Fails (unwrap_volume_key l h meta s)
  unfolding unwrap_volume_key with_key guarded_key
  unwrap-Fails meta s k = rw (with_sdek-locked l s.crypto k) tt

  settled :
      (id : String) (x : Result (VolumeError l.E) (Unit {0})) (entry : Entry l h) (s : Store l h)
      → ((do put_entry id entry; of_result x; pure entry) s).1.crypto ≡ s.crypto
  settled id (ok u) entry s = refl
  settled id (err e) entry s = refl

  ensured-crypto :
      (id : String) (entry : Entry l h) (s : Store l h)
      → (ensured l h id entry s).1.crypto ≡ s.crypto
  unfolding ensured
  ensured-crypto id entry s =
      then-Keeps l h {A = Ensured l h} {B = Entry l h} (ensure_metadata l h entry)
        (λ r. do put_entry id r.1; of_result r.0; pure r.1) (ensure_metadata-Keeps l h entry)
        (λ r. settled id r.0 r.1) s

  attach_mount-Fails :
      (handle : VolumeHandle) (entry : Entry l h) (role : Role) (s : Store l h)
      → is_locked s.crypto ≡ true
      → Fails (attach_mount l h handle entry role s)
  unfolding attach_mount
  attach_mount-Fails handle entry role s k = bind_from-Fails (ensured l h handle.id entry s) _ (λ e.
      let t = (ensured l h handle.id entry s).1 in
      failed-Fails (unwrap_volume_key l h e.metadata t) _
        (unwrap-Fails e.metadata t (ap is_locked (ensured-crypto handle.id entry s) ∙ k)))

  gate-Fails :
      (b : Bool) (e : VolumeError l.E) (s : Store l h) (f : Unit {0} → M l h (Unit {0}))
      → Fails (f tt s)
      → Fails (bind_from ((if b then fail e else pure tt) s) f)
  gate-Fails true e s f k = tt
  gate-Fails false e s f k = k

  granted-Fails :
      (id : String) (role : Role) (s : Store l h) (f : Unit {0} → M l h (Unit {0}))
      → Fails (f tt s)
      → Fails (bind_from (granted l h id role s) f)
  unfolding granted
  granted-Fails id role s f k =
      gate-Fails (is_leader role && not (h.role_checker id role)) (not_granted id) s f k

  attach-Fails :
      (handle : VolumeHandle) (role : Role) (s : Store l h)
      → h.bypass_mount ≡ false
      → is_locked s.crypto ≡ true
      → Fails (attach l h handle role s)
  unfolding attach known
  attach-Fails handle role s b k = after_known (lookup handle.id s.volumes)
    where
      after_known :
          (o : Option (Entry l h))
          → Fails (
              bind_from (known l h handle.id o s) (λ entry.
                granted l h handle.id role
                >> (if h.bypass_mount
                    then attach_bypass l h handle entry role
                    else attach_mount l h handle entry role)))
      after_known none = tt
      after_known (some entry) = granted-Fails handle.id role s _ (
          subst (λ (m : M l h (Unit {0})). Fails (m s)) (sym (if_false h.bypass_mount _ _ b))
            (attach_mount-Fails handle entry role s k))

module _ (l : Platform) (h : Host l) (c : ControlStore l h) where
  -- An error, and the module as it was.
  abbrev pub Refused :
      Module → Option (ServiceError (VolumeError l.E)) × Module × Store l h → Type 0
  Refused m (none, m', s) = ⊥
  Refused m (some e, m', s) = m' ≡ m

  abbrev Errs : Option (ServiceError (VolumeError l.E)) × Store l h → Type 0
  Errs (none, s) = ⊥
  Errs (some e, s) = Unit

  tolerated-Errs :
      (x : Result (VolumeError l.E) (Unit {0}) × Store l h)
      → Fails l h x
      → Errs (tolerated (volume_deps l h c) (λ e. false) (error_of l h c x))
  unfolding tolerated
  tolerated-Errs (ok u, s) k = absurd k
  tolerated-Errs (err e, s) k = tt

  attach_control_volume-Errs :
      (m : Module) (s : Store l h)
      → h.bypass_mount ≡ false
      → is_locked s.crypto ≡ true
      → Errs (attach_control_volume (volume_deps l h c) m s)
  unfolding attach_control_volume
  attach_control_volume-Errs m s b k =
      if_both Errs (m.control_handle.id == "") _ _ (λ _. tt)
        (λ _. tolerated-Errs _ (attach-Fails l h m.control_handle _ s b k))

  unlocks-Errs :
      (m : Module) (x : Option (ServiceError (VolumeError l.E)) × Store l h)
      → Errs x
      → Errs (with_control (volume_deps l h c) m x)
  unfolding with_control
  unlocks-Errs m (none, s) k = absurd k
  unlocks-Errs m (some e, s) k = tt

  recorded-Refused :
      (m : Module) (x : Option (ServiceError (VolumeError l.E)) × Store l h)
      → Errs x
      → Refused m (announced (volume_deps l h c) false (recorded (volume_deps l h c) false m x))
  unfolding announced recorded
  recorded-Refused m (none, s) k = absurd k
  recorded-Refused m (some e, s) k = refl

  -- While the crypt manager is locked, the command that unlocks the module fails, and the module stays as
  -- it was: its lock state, and what was announced. Volumes are really mounted (no test mode).
  pub handle_record_lock_state-Refused :
      (m : Module) (s : Store l h)
      → h.bypass_mount ≡ false
      → is_locked s.crypto ≡ true
      → Refused m (handle_record_lock_state (volume_deps l h c) (some false) m s)
  unfolding handle_record_lock_state change_lock_state set_lock_state changes unlocks
  handle_record_lock_state-Refused m s b k = recorded-Refused m _ (
      if_both Errs (Deps.lockable (volume_deps l h c)) _ _
        (λ _. unlocks-Errs m _ (attach_control_volume-Errs m s b k)) (λ _. tt))
