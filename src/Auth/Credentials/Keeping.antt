-- ===== src/Auth/Credentials/Keeping.antt =====
-- Setup and ChangePassword against Verify: internal/auth/manager.go.
use piccolod.Common.{
  ℕ, ◌≡◌, refl, ap, ◌∙◌, sym, subst, String, true, false, ◌||◌, not, Option, none, some, List,
  length, Result, ok, is_blank, if_true, if_false, Eq-string,
}
use mathlib.Core.Option
use piccolod.Auth.Password.{hash_argon2id, verify_argon2id}
use piccolod.Auth.Password.Encoding.{lacks, verify-hash, hash-some}
use piccolod.Auth.Credentials.{
  State, Manager, AuthError, storage_error, invalid_credentials, saved, changed, hashed, set_up,
  setup, change, change_password, verified, verify,
}
use piccolod.Auth.Credentials.Once.{IsSetUp, saved-manager, update_state-loaded, get_state-IsSetUp}

module _ (W E : Type 0) (load : W → Result E State) (save : State → W → Option E × W)
    (id_key : String → List ℕ → ℕ → ℕ → ℕ → ℕ → List ℕ) (encode : List ℕ → List ℕ)
    (decode : List ℕ → Option (List ℕ)) (cores : ℕ) where
  -- The laws of the libraries: base64 decodes what it encoded and writes no "$", and argon2 returns
  -- as many bytes as it is asked for.
  pub record AreLawful : Type 0 where
    pub decodes : (bytes : List ℕ) → decode (encode bytes) ≡ some bytes
    pub no_dollar : (bytes : List ℕ) → lacks b'$' (encode bytes) ≡ true
    pub sized : (p : String) (s : List ℕ) (t m c n : ℕ) → length (id_key p s t m c n) ≡ n

  verify-set :
      (password : String) (m : Manager) (w : W) (salt : List ℕ)
      → AreLawful
      → m.loaded ≡ true
      → m.state.initialized ≡ true
      → hash_argon2id id_key encode decode cores (some salt) password ≡ some m.state.password_hash
      → (verify W E load save id_key encode decode cores "admin" password m w).0 ≡ ok true
  unfolding verify verified
  verify-set password m w salt laws loaded initialized made =
      let good =
        verify-hash id_key encode decode cores salt password m.state.password_hash laws.decodes
          laws.no_dollar laws.sized made in
      subst (λ r. (verified W E load save id_key encode decode cores password r).0 ≡ ok true)
        (sym (
          get_state-IsSetUp W E load save id_key encode decode cores m w
            (record { loaded = loaded; initialized = initialized })))
        (ap ok (if_true m.state.initialized _ _ initialized ∙ good))

  saved-error :
      (m : Manager) (r : Option E × W)
      → (saved W E load save id_key encode decode cores m r).0 ≡ Option.map storage_error r.0
  unfolding saved
  saved-error m (none, w) = refl
  saved-error m (some e, w) = refl

  -- What is left after a change of a loaded manager that hashed the password.
  abbrev Kept : String → W → W → Option (AuthError E) × Manager × W → Type 0
  Kept password w v r =
      (r.0 ≡ Option.map storage_error (save r.1.state w).0)
      × ((verify W E load save id_key encode decode cores "admin" password r.1 v).0 ≡ ok true)

  saved-Kept :
      (password : String) (m : Manager) (w v : W) (salt : List ℕ)
      → AreLawful
      → m.loaded ≡ true
      → m.state.initialized ≡ true
      → hash_argon2id id_key encode decode cores (some salt) password ≡ some m.state.password_hash
      → Kept password w v (saved W E load save id_key encode decode cores m (save m.state w))
  saved-Kept password m w v salt laws loaded initialized made =
      let same = sym (saved-manager W E load save id_key encode decode cores m (save m.state w)) in
      (
        saved-error m (save m.state w)
            ∙ ap (λ (x : Manager). Option.map storage_error (save x.state w).0) same,
        subst
            (λ (x : Manager).
              (verify W E load save id_key encode decode cores "admin" password x v).0 ≡ ok true)
            same (verify-set password m v salt laws loaded initialized made),
      )

  setup-saves :
      (salt : List ℕ) (password : String) (m : Manager) (w : W) (ref : List ℕ)
      → m.loaded ≡ true
      → m.state.initialized ≡ false
      → is_blank password ≡ false
      → hash_argon2id id_key encode decode cores (some salt) password ≡ some ref
      → let s : State = record { initialized = true; password_hash = ref } in
        setup W E load save id_key encode decode cores (some salt) password m w
        ≡ saved W E load save id_key encode decode cores (record m { state = s }) (save s w)
  unfolding setup set_up changed hashed
  setup-saves salt password m w ref loaded empty named made =
      if_false (is_blank password) _ _ named
      ∙ (update_state-loaded W E load save id_key encode decode cores
            (set_up W E load save id_key encode decode cores (some salt) password) m w loaded
          ∙ ap (changed W E load save id_key encode decode cores m w) (
              if_false m.state.initialized _ _ empty
              ∙ ap
                  (hashed W E load save id_key encode decode cores
                    (record m.state { initialized = true }))
                  made))

  -- A Setup of a loaded manager without an admin returns what the storage returned. The password
  -- verifies afterwards also if the storage failed to save it, if the laws of the libraries hold.
  pub setup-kept :
      (salt : List ℕ) (password : String) (m : Manager) (w v : W)
      → AreLawful
      → m.loaded ≡ true
      → m.state.initialized ≡ false
      → is_blank password ≡ false
      → let (error, m', w') =
          setup W E load save id_key encode decode cores (some salt) password m w in
        (error ≡ Option.map storage_error (save m'.state w).0)
        × ((verify W E load save id_key encode decode cores "admin" password m' v).0 ≡ ok true)
  setup-kept salt password m w v laws loaded empty named =
      let (ref, made) = hash-some id_key encode decode cores salt password in
      let m' : Manager = record m { state = record { initialized = true; password_hash = ref } } in
      subst (Kept password w v) (sym (setup-saves salt password m w ref loaded empty named made))
        (saved-Kept password m' w v salt laws loaded refl made)

  change-saves :
      (salt : List ℕ) (old new : String) (m : Manager) (w : W) (ref : List ℕ)
      → IsSetUp W E load save id_key encode decode cores m
      → (is_blank old || is_blank new) ≡ false
      → verify_argon2id id_key encode decode m.state.password_hash old ≡ true
      → hash_argon2id id_key encode decode cores (some salt) new ≡ some ref
      → let s : State = record m.state { password_hash = ref } in
        change_password W E load save id_key encode decode cores (some salt) old new m w
        ≡ saved W E load save id_key encode decode cores (record m { state = s }) (save s w)
  unfolding change_password change changed hashed
  change-saves salt old new m w ref up named known made =
      if_false (is_blank old || is_blank new) _ _ named
      ∙ (update_state-loaded W E load save id_key encode decode cores
            (change W E load save id_key encode decode cores (some salt) old new) m w up.loaded
          ∙ ap (changed W E load save id_key encode decode cores m w) (
              if_false (not m.state.initialized) _ _ (ap not up.initialized)
              ∙ (if_false (not (verify_argon2id id_key encode decode m.state.password_hash old)) _ _
                    (ap not known)
                  ∙ ap (hashed W E load save id_key encode decode cores m.state) made)))

  -- With the right old password, a change of the password returns what the storage returned, and
  -- the new password verifies afterwards, if the laws of the libraries hold.
  pub change_password-kept :
      (salt : List ℕ) (old new : String) (m : Manager) (w v : W)
      → AreLawful
      → IsSetUp W E load save id_key encode decode cores m
      → (is_blank old || is_blank new) ≡ false
      → verify_argon2id id_key encode decode m.state.password_hash old ≡ true
      → let (error, m', w') =
          change_password W E load save id_key encode decode cores (some salt) old new m w in
        (error ≡ Option.map storage_error (save m'.state w).0)
        × ((verify W E load save id_key encode decode cores "admin" new m' v).0 ≡ ok true)
  change_password-kept salt old new m w v laws up named known =
      let (ref, made) = hash-some id_key encode decode cores salt new in
      let m' : Manager = record m { state = record m.state { password_hash = ref } } in
      subst (Kept new w v) (sym (change-saves salt old new m w ref up named known made))
        (saved-Kept new m' w v salt laws up.loaded up.initialized made)

  -- With a wrong old password, a change of the password is refused and nothing changes.
  pub change_password-refused :
      (salt : Option (List ℕ)) (old new : String) (m : Manager) (w : W)
      → IsSetUp W E load save id_key encode decode cores m
      → (is_blank old || is_blank new) ≡ false
      → verify_argon2id id_key encode decode m.state.password_hash old ≡ false
      → change_password W E load save id_key encode decode cores salt old new m w
        ≡ (some invalid_credentials, m, w)
  unfolding change_password change changed
  change_password-refused salt old new m w up named wrong =
      if_false (is_blank old || is_blank new) _ _ named
      ∙ (update_state-loaded W E load save id_key encode decode cores
            (change W E load save id_key encode decode cores salt old new) m w up.loaded
          ∙ ap (changed W E load save id_key encode decode cores m w) (
              if_false (not m.state.initialized) _ _ (ap not up.initialized)
              ∙ if_true (not (verify_argon2id id_key encode decode m.state.password_hash old)) _ _
                  (ap not wrong)))
