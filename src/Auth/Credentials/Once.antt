-- ===== src/Auth/Credentials/Once.antt =====
-- Histories of calls of the Manager of internal/auth/manager.go, from one that has an admin.
use piccolod.Common.{
  ℕ, ◌≡◌, inl, inr, refl, ap, ◌∙◌, sym, subst, String, Bool, true, false, ◌||◌, not, Option, none,
  some, List, [], ◌∷◌, Result, ok, err, is_blank, if◌then◌else◌, arith, Bool-cases, if_both,
  if_true, if_false, ◌==◌, Eq-string,
}
use piccolod.Auth.Password.{verify_argon2id}
use piccolod.Auth.Credentials.{
  State, Manager, AuthError, already_set_up, ensure_loaded, read_state, get_state, initialized_in,
  is_initialized, saved, changed, update_from, update_state, hashed, set_up, setup, change,
  change_password, recover, change_password_with_recovery, verified, verify,
}

module _ (W E : Type 0) (load : W → Result E State) (save : State → W → Option E × W)
    (id_key : String → List ℕ → ℕ → ℕ → ℕ → ℕ → List ℕ) (encode : List ℕ → List ℕ)
    (decode : List ℕ → Option (List ℕ)) (cores : ℕ) where
  -- The state was loaded, and there is an admin.
  pub record IsSetUp (m : Manager) : Type 0 where
    pub loaded : m.loaded ≡ true
    pub initialized : m.state.initialized ≡ true

  -- What the server calls.
  pub data Act : Type 0 where
    setting_up : Option (List ℕ) → String → Act
    changing : Option (List ℕ) → String → String → Act
    recovering : Option (List ℕ) → String → Act
    verifying : String → String → Act
    asking : Act

  pub act : Act → Manager × W → Manager × W
  act (setting_up salt password) (m, w) =
      let r = setup W E load save id_key encode decode cores salt password m w in (r.1, r.2)
  act (changing salt old new) (m, w) =
      let r = change_password W E load save id_key encode decode cores salt old new m w in
      (r.1, r.2)
  act (recovering salt new) (m, w) =
      let r = change_password_with_recovery W E load save id_key encode decode cores salt new m w in
      (r.1, r.2)
  act (verifying username password) (m, w) =
      ((verify W E load save id_key encode decode cores username password m w).1, w)
  act asking (m, w) = ((is_initialized W E load save id_key encode decode cores m w).1, w)

  pub act_all : List Act → Manager × W → Manager × W
  act_all [] s = s
  act_all (a ∷ acts) s = act_all acts (act a s)

  -- A change of the state that does not take the admin away.
  Keeps : (State → Result (AuthError E) State) → Type 0
  Keeps f = (s s' : State) → s.initialized ≡ true → f s ≡ ok s' → s'.initialized ≡ true

  pub saved-manager :
      (m : Manager) (r : Option E × W) → (saved W E load save id_key encode decode cores m r).1 ≡ m
  unfolding saved
  saved-manager m (none, w) = refl
  saved-manager m (some e, w) = refl

  changed-IsSetUp :
      (m : Manager) (w : W) (r : Result (AuthError E) State)
      → IsSetUp m
      → ((s' : State) → r ≡ ok s' → s'.initialized ≡ true)
      → IsSetUp (changed W E load save id_key encode decode cores m w r).1
  unfolding changed
  changed-IsSetUp m w (err e) up keeps = up
  changed-IsSetUp m w (ok s) up keeps =
      subst IsSetUp (sym (saved-manager (record m { state = s }) (save s w)))
        (record { loaded = up.loaded; initialized = keeps s refl })

  ensure_loaded-loaded :
      (m : Manager) (w : W)
      → m.loaded ≡ true
      → ensure_loaded W E load save id_key encode decode cores m w ≡ ok m
  unfolding ensure_loaded
  ensure_loaded-loaded m w e = if_true m.loaded (ok m) _ e

  pub update_state-loaded :
      (f : State → Result (AuthError E) State) (m : Manager) (w : W)
      → m.loaded ≡ true
      → update_state W E load save id_key encode decode cores f m w
        ≡ changed W E load save id_key encode decode cores m w (f m.state)
  unfolding update_state update_from
  update_state-loaded f m w e =
      ap (λ r. update_from W E load save id_key encode decode cores f m w r)
        (ensure_loaded-loaded m w e)

  update_state-IsSetUp :
      (f : State → Result (AuthError E) State) (m : Manager) (w : W)
      → Keeps f
      → IsSetUp m
      → IsSetUp (update_state W E load save id_key encode decode cores f m w).1
  unfolding Keeps
  update_state-IsSetUp f m w keeps up =
      subst (λ r. IsSetUp r.1) (sym (update_state-loaded f m w up.loaded))
        (changed-IsSetUp m w (f m.state) up (λ s' e. keeps m.state s' up.initialized e))

  hashed-initialized :
      (s s' : State) (ref : Option (List ℕ))
      → hashed W E load save id_key encode decode cores s ref ≡ ok s'
      → s'.initialized ≡ s.initialized
  unfolding hashed
  hashed-initialized s s' none e = absurd (ground (arith, e))
  hashed-initialized s s' (some ref) e = ground (arith, e)

  set_up-Keeps :
      (salt : Option (List ℕ)) (password : String)
      → Keeps (set_up W E load save id_key encode decode cores salt password)
  unfolding set_up Keeps
  set_up-Keeps salt password s s' up e = absurd (ground (arith, up, e))

  recover-Keeps :
      (salt : Option (List ℕ)) (new : String)
      → Keeps (recover W E load save id_key encode decode cores salt new)
  unfolding recover Keeps
  recover-Keeps salt new s s' up e =
      hashed-initialized (record s { initialized = true }) s' _ (rw (up, if◌then◌else◌) at e)

  change-Keeps :
      (salt : Option (List ℕ)) (old new : String)
      → Keeps (change W E load save id_key encode decode cores salt old new)
  unfolding change Keeps
  change-Keeps salt old new s s' up e =
      elim (Bool-cases (verify_argon2id id_key encode decode s.password_hash old)) [
        | inl v ↦
            hashed-initialized (record s { initialized = true }) s' _
              (rw (up, v, if◌then◌else◌) at e)
        | inr v ↦ absurd (ground (arith, up, v, e))
      ]

  pub get_state-IsSetUp :
      (m : Manager) (w : W)
      → IsSetUp m
      → get_state W E load save id_key encode decode cores m w ≡ (ok m.state, m)
  unfolding get_state read_state
  get_state-IsSetUp m w up =
      ap (λ r. read_state W E load save id_key encode decode cores m r)
        (ensure_loaded-loaded m w up.loaded)

  act-IsSetUp : (a : Act) (m : Manager) (w : W) → IsSetUp m → IsSetUp (act a (m, w)).0
  unfolding act setup change_password change_password_with_recovery verify verified is_initialized
      initialized_in
  act-IsSetUp (setting_up salt password) m w up =
      if_both {A = Option (AuthError E) × Manager × W} (λ r. IsSetUp r.1) (is_blank password) _ _
        (λ e. up)
        (λ e.
          update_state-IsSetUp (set_up W E load save id_key encode decode cores salt password) m w
            (set_up-Keeps salt password) up)
  act-IsSetUp (changing salt old new) m w up =
      if_both {A = Option (AuthError E) × Manager × W} (λ r. IsSetUp r.1)
        (is_blank old || is_blank new) _ _ (λ e. up)
        (λ e.
          update_state-IsSetUp (change W E load save id_key encode decode cores salt old new) m w
            (change-Keeps salt old new) up)
  act-IsSetUp (recovering salt new) m w up =
      if_both {A = Option (AuthError E) × Manager × W} (λ r. IsSetUp r.1) (is_blank new) _ _
        (λ e. up)
        (λ e.
          update_state-IsSetUp (recover W E load save id_key encode decode cores salt new) m w
            (recover-Keeps salt new) up)
  act-IsSetUp (verifying username password) m w up =
      if_both {A = Result E Bool × Manager} (λ r. IsSetUp r.1) (not (username == "admin")) _ _
        (λ e. up)
        (λ e.
          subst (λ r. IsSetUp (verified W E load save id_key encode decode cores password r).1)
            (sym (get_state-IsSetUp m w up)) up)
  act-IsSetUp asking m w up =
      subst (λ r. IsSetUp (initialized_in W E load save id_key encode decode cores r).1)
        (sym (get_state-IsSetUp m w up)) up

  act_all-IsSetUp :
      (acts : List Act) (m : Manager) (w : W) → IsSetUp m → IsSetUp (act_all acts (m, w)).0
  unfolding act_all
  act_all-IsSetUp [] m w up = up
  act_all-IsSetUp (a ∷ acts) m w up =
      act_all-IsSetUp acts (act a (m, w)).0 (act a (m, w)).1 (act-IsSetUp a m w up)

  setup-refused :
      (salt : Option (List ℕ)) (password : String) (m : Manager) (w : W)
      → IsSetUp m
      → is_blank password ≡ false
      → setup W E load save id_key encode decode cores salt password m w
        ≡ (some already_set_up, m, w)
  unfolding setup changed set_up
  setup-refused salt password m w up named =
      if_false (is_blank password) _ _ named
      ∙ (update_state-loaded (set_up W E load save id_key encode decode cores salt password) m w
            up.loaded
          ∙ ap (changed W E load save id_key encode decode cores m w)
              (if_true m.state.initialized _ _ up.initialized))

  -- Once the admin is set up, a second Setup is refused and changes nothing, after any history of
  -- calls, whether the storage could save or not.
  pub setup-once :
      (salt : Option (List ℕ)) (password : String) (acts : List Act) (m : Manager) (w : W)
      → IsSetUp m
      → is_blank password ≡ false
      → let (m', w') = act_all acts (m, w) in
        setup W E load save id_key encode decode cores salt password m' w'
        ≡ (some already_set_up, m', w')
  setup-once salt password acts m w up named =
      let (m', w') = act_all acts (m, w) in
      setup-refused salt password m' w' (act_all-IsSetUp acts m w up) named
