-- ===== src/Crypt/SettingUp.antt =====
-- internal/crypt/manager.go: Setup and the first Unlock.
use piccolod.Common.{
  ℕ, ◌≡◌, refl, sym, ap, ◌∙◌, subst, String, Bool, true, false, Option, none, some, List, [],
  length, Result, ok, >>=-elim, if_false, if◌then◌else◌, Eq-string, ◌==◌, not,
}
use piccolod.Crypt.Platform.{
  FileState, Platform, CryptError, checked, derive_key, read_state, password_required,
  already_initialized,
}
use piccolod.Crypt.Manager.{
  Manager, resealed, sealed_new, set_up_state, set_up_result, fresh_params, unlock_key, setup,
  unlock, keep_key,
}
use piccolod.Crypt.Laws.{IsLawful, Fills}
use piccolod.Crypt.Sealing.{saved_from-none, password_key-resealed, checked-ok}
use piccolod.Crypt.Made.{read_supported-true}

-- A guard that did not refuse, with three results.
passes :
    {E M W : Type 0} (b : Bool) (e : E) (m : M) (w : W) (x : Option E × M × W) {m' : M} {w' : W}
    → (if b then (some e, m, w) else x) ≡ (none, m', w')
    → (b ≡ false) × (x ≡ (none, m', w'))
passes {E} {M} {W} true e m w x h = cc (ap (λ (p : Option E × M × W). p.0) h)
passes false e m w x h = (refl, h)

module _ (l : Platform) where
  open l use {W, E}

  abbrev blank_state : FileState
  blank_state = record {
    sdek = [];
    salt = [];
    nonce = [];
    kdf = fresh_params l;
    rk_salt = [];
    rk_nonce = [];
    sdek_rk = [];
  }

  set_up-none :
      (m : Manager) (r : Option (CryptError E) × W) {m' : Manager} {w' : W}
      → set_up_result l m r ≡ (none, m', w')
      → (r ≡ (none, w')) × (m' ≡ record m { inited = true; sdek = [] })
  unfolding set_up_result
  set_up-none m (some e, w) h = cc (ap (λ (p : Option (CryptError E) × Manager × W). p.0) h)
  set_up-none m (none, w) h = (
    ap (λ (p : Option (CryptError E) × Manager × W). (p.0, p.2)) h,
    sym (ap (λ (p : Option (CryptError E) × Manager × W). p.1) h),
  )

  pub unlock_lem :
      (password : String) (m : Manager) (w : W) (k : List ℕ)
      → (password == "") ≡ false
      → m.inited ≡ true
      → unlock_key l password w ≡ ok k
      → unlock l password m w ≡ (none, record m { sdek = k })
  unfolding unlock keep_key
  unlock_lem password m w k p i u =
      if_false _ _ _ p ∙ if_false (not m.inited) _ _ (ap not i) ∙ ap (keep_key l m) u

module _ (l : Platform) (laws : IsLawful l) where
  open l use {W, E}

  set_up_state-opens :
      (random_salt random_sdek random_nonce : Result E (List ℕ)) (password : String) (w' : W)
      {st : FileState}
      → Fills 12 random_nonce
      → set_up_state l random_salt random_sdek random_nonce password ≡ ok st
      → read_state l w' ≡ ok st
      → (k : List ℕ) × (random_sdek ≡ ok k) × (unlock_key l password w' ≡ ok k)
  unfolding set_up_state unlock_key sealed_new resealed fresh_params
  set_up_state-opens random_salt random_sdek random_nonce password w' fills h r =
      >>=-elim (checked l random_salt) _ h λ salt h0 k0.
        >>=-elim (checked l random_sdek) _ k0 λ sdek h1 k1.
          >>=-elim (checked l (l.new_gcm (derive_key l password salt (fresh_params l)))) _ k1
            λ a h2 k2. >>=-elim (checked l random_nonce) _ k2 λ nonce h3 k3.
              let size : length nonce ≡ 12 = subst (Fills 12) (checked-ok l _ h3) fills in
              (
                sdek,
                checked-ok l _ h1,
                rw (read_supported-true l w' _ (r ∙ sym k3) refl) (
                    password_key-resealed l laws password (blank_state l) salt sdek a nonce
                      (checked-ok l _ h2) size),
              )

  -- A manager that was set up holds no key, and its password unlocks the key that was drawn, where the
  -- library calls obey their laws and the random bytes of the nonce fill its buffer.
  pub setup-unlock :
      (random_salt random_sdek random_nonce : Result E (List ℕ)) (password : String)
      (m m' : Manager) (w w' : W)
      → Fills 12 random_nonce
      → setup l random_salt random_sdek random_nonce password m w ≡ (none, m', w')
      → (m'.sdek ≡ [])
        × (k : List ℕ) × (random_sdek ≡ ok k)
        × (unlock_key l password w' ≡ ok k)
        × (unlock l password m' w' ≡ (none, record { sdek = k; inited = true }))
  unfolding setup
  setup-unlock random_salt random_sdek random_nonce password m m' w w' fills h =
      let (p, h1) = passes (password == "") password_required m w _ h in
      let (_, h2) = passes m.inited already_initialized m w _ h1 in
      let (h3, q) = set_up-none l m _ h2 in
      let (st, h4, r) =
        saved_from-none l laws (set_up_state l random_salt random_sdek random_nonce password) w
          h3 in
      let (k, drawn, opens) =
        set_up_state-opens random_salt random_sdek random_nonce password w' fills h4 r in
      (
        ap (λ (x : Manager). x.sdek) q,
        k,
        drawn,
        opens,
        subst (λ x. unlock l password x w' ≡ (none, record { sdek = k; inited = true })) (sym q)
            (unlock_lem l password (record { sdek = []; inited = true }) w' k p refl opens),
      )
