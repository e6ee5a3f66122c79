-- ===== src/Crypt/Refusing.antt =====
-- internal/crypt/manager.go: what a call that fails leaves behind.
use piccolod.Common.{
  ℕ, ◌≡◌, refl, String, Bool, true, false, not, ◌||◌, Option, none, some, List, length, nat_eq,
  Result, ok, err, ◌⊎◌, inl, inr, if◌then◌else◌, Eq-string, ◌==◌,
}
use piccolod.Crypt.Platform.{
  FileState, Platform, CryptError, system, saved, write_error, password_required, not_initialized,
  already_initialized, locked,
}
use piccolod.Crypt.Manager.{
  Manager, no_key, keep_key, saved_from, set_up_result, unlock_key, lock, unlock, setup, rewrap,
  rewrap_unlocked,
}
use piccolod.Crypt.Recovery.{
  recovery_key, recovery_saved, worded, generate_recovery_key, generate_recovery_key_with_password,
  unlock_with_recovery_key,
}
use piccolod.Crypt.Locking.{
  Act, setting_up, locking, unlocking, recovering, rewrapping, rewrapping_unlocked, wording,
  wording_with_password, perform, failure,
}

module _ (l : Platform) where
  open l use {W, E}

  -- Where there is an error, the disk is the one before, unless the error is one of the system.
  abbrev pub Leaves : W → Option (CryptError E) × W → Type 0
  Leaves w (none, w') = Unit
  Leaves w (some e, w') = (w' ≡ w) ⊎ ((x : E) × (e ≡ system x))

  write_error-Leaves : (w : W) (r : Option E × W) → Leaves w (write_error l r)
  unfolding write_error
  write_error-Leaves w (none, w') = tt
  write_error-Leaves w (some x, w') = inr (x, refl)

  saved_from-Leaves : (r : Result (CryptError E) FileState) (w : W) → Leaves w (saved_from l r w)
  unfolding saved_from saved
  saved_from-Leaves (err e) w = inl refl
  saved_from-Leaves (ok st) w = write_error-Leaves w (l.write_file (l.marshal st) w)

  guarded-Leaves :
      (a : Bool) (e : CryptError E) (w : W) (x : Option (CryptError E) × W)
      → Leaves w x
      → Leaves w (if a then (some e, w) else x)
  guarded-Leaves true e w x h = inl refl
  guarded-Leaves false e w x h = h

  -- The same of a call that also returns the manager, which an error leaves as it was.
  abbrev pub LeavesAll : Manager → W → Option (CryptError E) × Manager × W → Type 0
  LeavesAll m w (none, m', w') = Unit
  LeavesAll m w (some e, m', w') = (m' ≡ m) × ((w' ≡ w) ⊎ ((x : E) × (e ≡ system x)))

  set_up-LeavesAll :
      (m : Manager) (w : W) (r : Option (CryptError E) × W)
      → Leaves w r
      → LeavesAll m w (set_up_result l m r)
  unfolding set_up_result
  set_up-LeavesAll m w (none, w') h = tt
  set_up-LeavesAll m w (some e, w') h = (refl, h)

  with_manager :
      (m : Manager) (w : W) (r : Option (CryptError E) × W)
      → Leaves w r
      → LeavesAll m w (r.0, m, r.1)
  with_manager m w (none, w') h = tt
  with_manager m w (some e, w') h = (refl, h)

  worded-LeavesAll :
      (m : Manager) (w : W) (words : List String) (r : Option (CryptError E) × W)
      → Leaves w r
      → LeavesAll m w (failure l (worded l words r).0, m, (worded l words r).1)
  unfolding worded failure
  worded-LeavesAll m w words (none, w') h = tt
  worded-LeavesAll m w words (some e, w') h = (refl, h)

  recovery_saved-LeavesAll :
      (m : Manager) (w : W) (r : Result (CryptError E) (List String × FileState))
      → LeavesAll m w (failure l (recovery_saved l r w).0, m, (recovery_saved l r w).1)
  unfolding recovery_saved failure saved
  recovery_saved-LeavesAll m w (err e) = (refl, inl refl)
  recovery_saved-LeavesAll m w (ok (words, st)) =
      worded-LeavesAll m w words _ (write_error-Leaves w (l.write_file (l.marshal st) w))

  -- Guards of a call that returns words.
  refused-LeavesAll :
      (a : Bool) (e : CryptError E) (m : Manager) (w : W)
      (x : Result (CryptError E) (List String) × W)
      → LeavesAll m w (failure l x.0, m, x.1)
      → LeavesAll m w
          (failure l (if a then (err e, w) else x).0, m, (if a then (err e, w) else x).1)
  unfolding failure
  refused-LeavesAll true e m w x h = (refl, inl refl)
  refused-LeavesAll false e m w x h = h

  guarded-LeavesAll :
      (a : Bool) (e : CryptError E) (m : Manager) (w : W) (x : Option (CryptError E) × Manager × W)
      → LeavesAll m w x
      → LeavesAll m w (if a then (some e, m, w) else x)
  guarded-LeavesAll true e m w x h = (refl, inl refl)
  guarded-LeavesAll false e m w x h = h

  unlocks-LeavesAll :
      (a b : Bool) (e f : CryptError E) (m : Manager) (w : W) (r : Result (CryptError E) (List ℕ))
      → LeavesAll m w (
        (if a then (some e, m) else if b then (some f, m) else keep_key l m r).0,
        (if a then (some e, m) else if b then (some f, m) else keep_key l m r).1,
        w,
      )
  unfolding keep_key
  unlocks-LeavesAll true b e f m w r = (refl, inl refl)
  unlocks-LeavesAll false true e f m w r = (refl, inl refl)
  unlocks-LeavesAll false false e f m w (err x) = (refl, inl refl)
  unlocks-LeavesAll false false e f m w (ok k) = tt

  -- A call that fails leaves the manager as it was. It leaves the file as it was too, unless the error
  -- is one of the system.
  pub perform-LeavesAll : (a : Act l) (m : Manager) (w : W) → LeavesAll m w (perform l a m w)
  unfolding perform lock unlock unlock_with_recovery_key setup rewrap rewrap_unlocked
      generate_recovery_key generate_recovery_key_with_password
  perform-LeavesAll (setting_up salt sdek nonce password) m w =
      guarded-LeavesAll (password == "") password_required m w _ (
        guarded-LeavesAll m.inited already_initialized m w _
          (set_up-LeavesAll m w _ (saved_from-Leaves _ w)))
  perform-LeavesAll locking m w = tt
  perform-LeavesAll (unlocking password) m w =
      unlocks-LeavesAll (password == "") (not m.inited) _ _ m w (unlock_key l password w)
  perform-LeavesAll (recovering words) m w =
      unlocks-LeavesAll (nat_eq (length words) 0) (not m.inited) _ _ m w (recovery_key l words w)
  perform-LeavesAll (rewrapping salt nonce old new) m w = with_manager m w _ (
      guarded-Leaves (old == "" || new == "") password_required w _
        (guarded-Leaves (not m.inited) not_initialized w _ (saved_from-Leaves _ w)))
  perform-LeavesAll (rewrapping_unlocked salt nonce new) m w = with_manager m w _ (
      guarded-Leaves (new == "") password_required w _ (
        guarded-Leaves (not m.inited) not_initialized w _
          (guarded-Leaves (no_key m) locked w _ (saved_from-Leaves _ w))))
  perform-LeavesAll (wording bytes salt nonce force) m w =
      refused-LeavesAll (not m.inited) not_initialized m w _ (recovery_saved-LeavesAll m w _)
  perform-LeavesAll (wording_with_password bytes salt nonce password force) m w =
      refused-LeavesAll (password == "") password_required m w _
        (refused-LeavesAll (not m.inited) not_initialized m w _ (recovery_saved-LeavesAll m w _))
