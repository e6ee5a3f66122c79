-- ===== src/Crypt/Locking.antt =====
-- internal/crypt/manager.go: when the manager is locked, and what it refuses.
use piccolod.Common.{
  ℕ, ◌≡◌, refl, sym, ap, ◌∙◌, String, Bool, true, false, not, Option, none, some, List, length,
  nat_eq, Result, ok, err, if_both, if_true, if◌then◌else◌, arith, Eq-string, ◌==◌,
}
use piccolod.Crypt.Platform.{Platform, CryptError}
use piccolod.Crypt.Manager.{
  Manager, unlock_key, keep_key, is_locked, unlock, lock, setup, rewrap, rewrap_unlocked,
}
use piccolod.Crypt.Recovery.{
  recovery_key, generate_recovery_key, generate_recovery_key_with_password,
  unlock_with_recovery_key,
}

module _ (l : Platform) where
  open l use {W, E}

  -- A call, with the random bytes that it gets.
  pub data Act : Type 0 where
    setting_up : Result E (List ℕ) → Result E (List ℕ) → Result E (List ℕ) → String → Act
    locking : Act
    unlocking : String → Act
    recovering : List String → Act
    rewrapping : Result E (List ℕ) → Result E (List ℕ) → String → String → Act
    rewrapping_unlocked : Result E (List ℕ) → Result E (List ℕ) → String → Act
    wording : Result E (List ℕ) → Result E (List ℕ) → Result E (List ℕ) → Bool → Act
    wording_with_password : Result E (List ℕ) → List ℕ → List ℕ → String → Bool → Act

  unfoldable pub failure : {A : Type 0} → Result (CryptError E) A → Option (CryptError E)
  failure (ok a) = none
  failure (err e) = some e

  unfoldable pub perform : Act → Manager → W → Option (CryptError E) × Manager × W
  unfolding failure
  perform (setting_up salt sdek nonce password) m w = setup l salt sdek nonce password m w
  perform locking m w = (none, lock m, w)
  perform (unlocking password) m w = let (o, m') = unlock l password m w in (o, m', w)
  perform (recovering words) m w = let (o, m') = unlock_with_recovery_key l words m w in (o, m', w)
  perform (rewrapping salt nonce old new) m w =
      let (o, w') = rewrap l salt nonce old new m w in (o, m, w')
  perform (rewrapping_unlocked salt nonce new) m w =
      let (o, w') = rewrap_unlocked l salt nonce new m w in (o, m, w')
  perform (wording bytes salt nonce force) m w =
      let (r, w') = generate_recovery_key l bytes salt nonce force m w in (failure r, m, w')
  perform (wording_with_password bytes salt nonce password force) m w =
      let (r, w') = generate_recovery_key_with_password l bytes salt nonce password force m w in
      (failure r, m, w')

  -- The call presents a password or the words of a recovery key that opens the key.
  abbrev pub Presents : Act → W → List ℕ → Type 0
  Presents (unlocking password) w k = unlock_key l password w ≡ ok k
  Presents (recovering words) w k = recovery_key l words w ≡ ok k
  Presents _ w k = ⊥

  locked-inited : (m : Manager) → is_locked m ≡ true → m.inited ≡ true
  unfolding is_locked
  locked-inited m h = ground (arith, h)

  relocked : (m : Manager) → is_locked m ≡ true → is_locked (lock m) ≡ false → ⊥
  unfolding is_locked lock
  relocked m h k = ground (arith, h, k)

  keep_key-opens :
      (m : Manager) (r : Result (CryptError E) (List ℕ))
      → is_locked m ≡ true
      → is_locked (keep_key l m r).1 ≡ false
      → r ≡ ok (keep_key l m r).1.sdek
  unfolding keep_key
  keep_key-opens m (err e) h k = cc (sym h ∙ k)
  keep_key-opens m (ok x) h k = refl

  guarded-opens :
      (a b : Bool) (e f : CryptError E) (m : Manager) (r : Result (CryptError E) (List ℕ))
      → is_locked m ≡ true
      → is_locked (if a then (some e, m) else if b then (some f, m) else keep_key l m r).1 ≡ false
      → r ≡ ok (if a then (some e, m) else if b then (some f, m) else keep_key l m r).1.sdek
  guarded-opens true b e f m r h k = cc (sym h ∙ k)
  guarded-opens false true e f m r h k = cc (sym h ∙ k)
  guarded-opens false false e f m r h k = keep_key-opens m r h k

  setup-inited :
      (salt sdek nonce : Result E (List ℕ)) (password : String) (m : Manager) (w : W)
      → m.inited ≡ true
      → (setup l salt sdek nonce password m w).1 ≡ m
  unfolding setup
  setup-inited salt sdek nonce password m w i =
      if_both (λ (p : Option (CryptError E) × Manager × W). p.1 ≡ m) (password == "") _ _
        (λ _. refl) (λ _. ap (λ (p : Option (CryptError E) × Manager × W). p.1) (if_true _ _ _ i))

  -- A locked manager is unlocked only by a call that presents a password or words, and holds what they
  -- open.
  pub perform-Presents :
      (a : Act) (m : Manager) (w : W)
      → is_locked m ≡ true
      → is_locked (perform a m w).1 ≡ false
      → Presents a w (perform a m w).1.sdek
  unfolding perform lock unlock unlock_with_recovery_key
  perform-Presents (setting_up salt sdek nonce password) m w h k = cc (
      sym h
      ∙ ap is_locked (sym (setup-inited salt sdek nonce password m w (locked-inited m h)))
      ∙ k)
  perform-Presents locking m w h k = absurd (relocked m h k)
  perform-Presents (unlocking password) m w h k =
      guarded-opens (password == "") (not m.inited) _ _ m (unlock_key l password w) h k
  perform-Presents (recovering words) m w h k =
      guarded-opens (nat_eq (length words) 0) (not m.inited) _ _ m (recovery_key l words w) h k
  perform-Presents (rewrapping salt nonce old new) m w h k = cc (sym h ∙ k)
  perform-Presents (rewrapping_unlocked salt nonce new) m w h k = cc (sym h ∙ k)
  perform-Presents (wording bytes salt nonce force) m w h k = cc (sym h ∙ k)
  perform-Presents (wording_with_password bytes salt nonce password force) m w h k = cc (sym h ∙ k)
