-- ===== src/Crypt/History.antt =====
-- internal/crypt/manager.go: the manager over a history of calls.
use piccolod.Common.{
  ℕ, ok_injective, ◌≡◌, refl, sym, ap, ◌∙◌, subst, String, Bool, true, false, Option, none, some,
  List, [], length, Result, ok, err, ◌⊎◌, inl, inr, Eq-string, ◌==◌, nat_eq, not, if◌then◌else◌,
}
use piccolod.Crypt.Platform.{
  Platform, CryptError, password_required, not_initialized, recovery_key_required,
}
use piccolod.Crypt.Manager.{
  Manager, unlock_key, keep_key, unlock, lock, setup, rewrap, rewrap_unlocked,
}
use piccolod.Crypt.Recovery.{
  recovery_key, generate_recovery_key, generate_recovery_key_with_password,
  unlock_with_recovery_key,
}
use piccolod.Crypt.Laws.{IsLawful, Fills}
use piccolod.Crypt.SettingUp.{setup-unlock}
use piccolod.Crypt.Rewrapping.{
  Rewraps, rewrap-Rewraps, rewrap_unlocked-Rewraps, rewrap_unlocked-key,
}
use piccolod.Crypt.Recovering.{
  Recovers, generate_recovery_key-key, generate_recovery_key-Recovers,
  generate_recovery_key_with_password-Recovers,
}

some_injective : {A : Type 0} {a b : A} → ◌≡◌ {A = Option A} (some a) (some b) → a ≡ b
some_injective h = cc h

module _ (l : Platform) where
  open l use {W, E}

  -- What the admin knows, the password and the words of a recovery key, beside the manager and the
  -- disk.
  pub record System : Type 0 where
    pub password : String
    pub words : Option (List String)
    pub manager : Manager
    pub disk : W

  -- The calls that succeed, each with the password or the words that the admin knows.
  pub data Call : System → System → Type 0 where
    locking : (s : System) → Call s (record s { manager = lock s.manager })
    unlocking :
        (s : System) (m' : Manager)
        → unlock l s.password s.manager s.disk ≡ (none, m')
        → Call s (record s { manager = m' })
    recovering :
        (s : System) (words : List String) (m' : Manager)
        → s.words ≡ some words
        → unlock_with_recovery_key l words s.manager s.disk ≡ (none, m')
        → Call s (record s { manager = m' })
    rewrapping :
        (s : System) (salt nonce : Result E (List ℕ)) (new : String) (w' : W)
        → Fills 12 nonce
        → rewrap l salt nonce s.password new s.manager s.disk ≡ (none, w')
        → Call s (record s { password = new; disk = w' })
    rewrapping_unlocked :
        (s : System) (salt nonce : Result E (List ℕ)) (new : String) (w' : W)
        → Fills 12 nonce
        → rewrap_unlocked l salt nonce new s.manager s.disk ≡ (none, w')
        → Call s (record s { password = new; disk = w' })
    wording :
        (s : System) (bytes salt nonce : Result E (List ℕ)) (force : Bool) (words : List String)
        (w' : W)
        → Fills 12 nonce
        → generate_recovery_key l bytes salt nonce force s.manager s.disk ≡ (ok words, w')
        → Call s (record s { words = some words; disk = w' })
    wording_with_password :
        (s : System) (bytes : Result E (List ℕ)) (salt nonce : List ℕ) (force : Bool)
        (words : List String) (w' : W)
        → length nonce ≡ 12
        → generate_recovery_key_with_password l bytes salt nonce s.password force s.manager s.disk
          ≡ (ok words, w')
        → Call s (record s { words = some words; disk = w' })

  pub data Calls (s : System) : System → Type 0 where
    here : Calls s s
    next : {t u : System} → Calls s t → Call t u → Calls s u

  -- The password and the words open `k`, and a manager that is not locked holds it.
  pub record Keeps (k : List ℕ) (s : System) : Type 0 where
    pub by_password : unlock_key l s.password s.disk ≡ ok k
    pub by_words : (words : List String) → s.words ≡ some words → recovery_key l words s.disk ≡ ok k
    pub in_memory : (s.manager.sdek ≡ []) ⊎ (s.manager.sdek ≡ k)

  in_memory_key :
      (k sdek : List ℕ) → (sdek ≡ []) ⊎ (sdek ≡ k) → nat_eq (length sdek) 0 ≡ false → sdek ≡ k
  in_memory_key k sdek (inr e) h = e
  in_memory_key k sdek (inl e) h = cc (sym (ap (λ (x : List ℕ). nat_eq (length x) 0) e) ∙ h)

  -- A key that a call keeps is the one that it was given.
  kept :
      (m : Manager) (r : Result (CryptError E) (List ℕ)) (k : List ℕ) {m' : Manager}
      → ((x : List ℕ) → r ≡ ok x → x ≡ k)
      → keep_key l m r ≡ (none, m')
      → m'.sdek ≡ k
  unfolding keep_key
  kept m (err e) k same h = cc (ap (λ (p : Option (CryptError E) × Manager). p.0) h)
  kept m (ok x) k same h =
      sym (ap (λ (p : Option (CryptError E) × Manager). p.1.sdek) h) ∙ same x refl

  passes :
      (b : Bool) (e : CryptError E) (m : Manager) (x : Option (CryptError E) × Manager)
      {m' : Manager}
      → (if b then (some e, m) else x) ≡ (none, m')
      → x ≡ (none, m')
  passes true e m x h = cc (ap (λ (p : Option (CryptError E) × Manager). p.0) h)
  passes false e m x h = h

  unlock-sdek :
      (password : String) (m : Manager) (w : W) (k : List ℕ) {m' : Manager}
      → unlock_key l password w ≡ ok k
      → unlock l password m w ≡ (none, m')
      → m'.sdek ≡ k
  unfolding unlock
  unlock-sdek password m w k u h =
      kept m (unlock_key l password w) k (λ x p. ok_injective (sym p ∙ u))
        (passes (not m.inited) not_initialized m _
          (passes (password == "") password_required m _ h))

  unlock_with_recovery_key-sdek :
      (words : List String) (m : Manager) (w : W) (k : List ℕ) {m' : Manager}
      → recovery_key l words w ≡ ok k
      → unlock_with_recovery_key l words m w ≡ (none, m')
      → m'.sdek ≡ k
  unfolding unlock_with_recovery_key
  unlock_with_recovery_key-sdek words m w k u h =
      kept m (recovery_key l words w) k (λ x p. ok_injective (sym p ∙ u))
        (passes (not m.inited) not_initialized m _
          (passes (nat_eq (length words) 0) recovery_key_required m _ h))

module _ (l : Platform) (laws : IsLawful l) (k : List ℕ) where
  open l use {W, E}

  Rewraps-Keeps :
      (s : System l) (new : String) (w' : W)
      → Keeps l k s
      → Rewraps l laws k new s.disk w'
      → Keeps l k (record s { password = new; disk = w' })
  Rewraps-Keeps s new w' h r = record {
    by_password = r.0;
    by_words = λ words p. r.1 words ∙ h.by_words words p;
    in_memory = h.in_memory;
  }

  Recovers-Keeps :
      (s : System l) (words : List String) (w' : W)
      → Keeps l k s
      → Recovers l laws k words s.disk w'
      → Keeps l k (record s { words = some words; disk = w' })
  Recovers-Keeps s words w' h r = record {
    by_password = r.2 s.password ∙ h.by_password;
    by_words =
        λ words' p. subst (λ (x : List String). recovery_key l x w' ≡ ok k) (some_injective p) r.0;
    in_memory = h.in_memory;
  }

  Call-Keeps : {s t : System l} → Call l s t → Keeps l k s → Keeps l k t
  unfolding lock
  Call-Keeps (locking s) h = record {
    by_password = h.by_password;
    by_words = h.by_words;
    in_memory = inl refl;
  }
  Call-Keeps (unlocking s m' u) h = record {
    by_password = h.by_password;
    by_words = h.by_words;
    in_memory = inr (unlock-sdek l s.password s.manager s.disk k h.by_password u);
  }
  Call-Keeps (recovering s words m' p u) h = record {
    by_password = h.by_password;
    by_words = h.by_words;
    in_memory =
        inr (unlock_with_recovery_key-sdek l words s.manager s.disk k (h.by_words words p) u);
  }
  Call-Keeps (rewrapping s salt nonce new w' fills r) h =
      Rewraps-Keeps s new w' h (
        rewrap-Rewraps l laws salt nonce s.password new s.manager s.disk w' k fills h.by_password r)
  Call-Keeps (rewrapping_unlocked s salt nonce new w' fills r) h = Rewraps-Keeps s new w' h (
      subst (λ x. Rewraps l laws x new s.disk w')
        (in_memory_key l k s.manager.sdek h.in_memory
          (rewrap_unlocked-key l laws salt nonce new s.manager s.disk r))
        (rewrap_unlocked-Rewraps l laws salt nonce new s.manager s.disk w' fills r))
  Call-Keeps (wording s bytes salt nonce force words w' fills r) h = Recovers-Keeps s words w' h (
      subst (λ x. Recovers l laws x words s.disk w')
        (in_memory_key l k s.manager.sdek h.in_memory
          (generate_recovery_key-key l laws bytes salt nonce force s.manager s.disk r))
        (generate_recovery_key-Recovers l laws bytes salt nonce force s.manager s.disk w' words
          fills r))
  Call-Keeps (wording_with_password s bytes salt nonce force words w' size r) h =
      Recovers-Keeps s words w' h (
        generate_recovery_key_with_password-Recovers l laws bytes salt nonce s.password force
          s.manager s.disk w' words k size h.by_password r)

  -- Whatever calls succeed, in any order, the key never changes: the last password and the last words
  -- open it, and the manager holds it or nothing.
  pub Calls-Keeps : {s t : System l} → Calls l s t → Keeps l k s → Keeps l k t
  Calls-Keeps here h = h
  Calls-Keeps (next cs c) h = Call-Keeps c (Calls-Keeps cs h)

module _ (l : Platform) (laws : IsLawful l) where
  open l use {W, E}

  -- From the setup on, whatever calls succeed and in whatever order, the key that was drawn never
  -- changes: the password that was set last and the words that were given last open it, and the
  -- manager holds it or nothing. The library calls obey their laws, and random bytes fill their buffer.
  pub setup-Calls :
      (random_salt random_sdek random_nonce : Result E (List ℕ)) (password : String)
      (m m' : Manager) (w w' : W) (t : System l)
      → Fills 12 random_nonce
      → setup l random_salt random_sdek random_nonce password m w ≡ (none, m', w')
      → Calls l (record { password = password; words = none; manager = m'; disk = w' }) t
      → (k : List ℕ) × (random_sdek ≡ ok k) × Keeps l k t
  setup-Calls random_salt random_sdek random_nonce password m m' w w' t fills h cs =
      let (blank, k, drawn, opens, _) =
        setup-unlock l laws random_salt random_sdek random_nonce password m m' w w' fills h in
      (
        k,
        drawn,
        Calls-Keeps l laws k cs
            (record { by_password = opens; by_words = λ words p. cc p; in_memory = inl blank }),
      )
