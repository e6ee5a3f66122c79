-- ===== src/Persistence/Volumes/State/Keeping.antt =====
-- internal/persistence/file_volume_manager.go: steps that leave the file of a state as it is.
use piccolod.Common.{◌≡◌, refl, ap, ◌∙◌, String, Option, none, some, Result, ok, err, ◌⊎◌, inl, inr}
use piccolod.Crypt.Platform.{Platform}
use piccolod.Persistence.Volumes.{
  VolumeState, VolumeError, Host, Store, M, ◌>>=◌, bind_from, effect, effect_from, read_from,
}
use piccolod.Persistence.Volumes.State.{state_dir, state_path, after_error, on_error, parsed}

-- The name of a temporary file that os.CreateTemp once made for a volume.
abbrev pub IsTemp : (l : Platform) (h : Host l) → String → String → Type 0
IsTemp l h id tmp = (w : h.W) × ((h.create_temp (state_dir l h id) w).0 ≡ ok tmp)

-- What the file system promises of the state file of a volume and of the temporary files beside it: what
-- is read of the state file does not change when its directory or a temporary file is made, written or
-- removed; a temporary file, "state-*.tmp", is not the state file; a new one that is written without an
-- error is read as it was written; syncing and closing change no contents; and a temporary file that is
-- moved takes the place of the state file, or, with an error, does not.
pub record IsQuiet (l : Platform) (h : Host l) : Type 0 where
  pub mkdir :
      (id : String) (w : h.W)
      → h.read_file (state_path l h id) (h.mkdir_all (state_dir l h id) w).1
        ≡ h.read_file (state_path l h id) w
  pub create :
      (id : String) (w : h.W)
      → h.read_file (state_path l h id) (h.create_temp (state_dir l h id) w).1
        ≡ h.read_file (state_path l h id) w
  pub encode :
      (id tmp : String) (st : VolumeState) (w : h.W)
      → IsTemp l h id tmp
      → h.read_file (state_path l h id) (h.encode_to tmp st w).1 ≡ h.read_file (state_path l h id) w
  pub encoded :
      (id tmp : String) (st : VolumeState) (w : h.W)
      → let made = h.create_temp (state_dir l h id) w in
        made.0 ≡ ok tmp
        → (h.encode_to tmp st made.1).0 ≡ none
        → parsed l h (h.read_file tmp (h.encode_to tmp st made.1).1) ≡ ok st
  pub sync : (f g : String) (w : h.W) → h.read_file f (h.sync g w).1 ≡ h.read_file f w
  pub close : (f g : String) (w : h.W) → h.read_file f (h.close g w).1 ≡ h.read_file f w
  pub remove :
      (id tmp : String) (w : h.W)
      → IsTemp l h id tmp
      → h.read_file (state_path l h id) (h.remove tmp w).1 ≡ h.read_file (state_path l h id) w
  pub sync_dir : (f dir : String) (w : h.W) → h.read_file f (h.sync_dir dir w).1 ≡ h.read_file f w
  pub renamed :
      (id tmp : String) (w : h.W)
      → IsTemp l h id tmp
      → (h.rename tmp (state_path l h id) w).0 ≡ none
      → h.read_file (state_path l h id) (h.rename tmp (state_path l h id) w).1 ≡ h.read_file tmp w
  pub not_renamed :
      (id tmp : String) (w : h.W) {e : l.E}
      → IsTemp l h id tmp
      → (h.rename tmp (state_path l h id) w).0 ≡ some e
      → h.read_file (state_path l h id) (h.rename tmp (state_path l h id) w).1
        ≡ h.read_file (state_path l h id) w

module _ (l : Platform) (h : Host l) where
  -- The step leaves the file as it is, whatever its outcome.
  abbrev pub Keeps : {A : Type 0} → String → M l h A → Type 0
  Keeps f m = (s : Store l h) → h.read_file f (m s).1.disk ≡ h.read_file f s.disk

  pub effect_from-disk :
      (wrap : l.E → VolumeError l.E) (s : Store l h) (r : Option l.E × h.W)
      → (effect_from wrap s r).1.disk ≡ r.1
  effect_from-disk wrap s (none, w) = refl
  effect_from-disk wrap s (some e, w) = refl

  pub read_from-disk :
      {A : Type 0} (s : Store l h) (r : Result l.E A × h.W) → (read_from s r).1.disk ≡ r.1
  read_from-disk s (ok a, w) = refl
  read_from-disk s (err e, w) = refl

  pub effect-Keeps :
      (f : String) (wrap : l.E → VolumeError l.E) (g : h.W → Option l.E × h.W)
      → ((w : h.W) → h.read_file f (g w).1 ≡ h.read_file f w)
      → Keeps f (effect wrap g)
  effect-Keeps f wrap g k s = ap (h.read_file f) (effect_from-disk wrap s (g s.disk)) ∙ k s.disk

  bound-Keeps :
      {A B : Type 0} (f : String) (g : A → M l h B) (s : Store l h)
      (r : Result (VolumeError l.E) A × Store l h)
      → ((a : A) → Keeps f (g a))
      → h.read_file f r.1.disk ≡ h.read_file f s.disk
      → h.read_file f (bind_from r g).1.disk ≡ h.read_file f s.disk
  bound-Keeps f g s (ok a, s1) k e = k a s1 ∙ e
  bound-Keeps f g s (err x, s1) k e = e

  pub bind-Keeps :
      {A B : Type 0} (f : String) (m : M l h A) (g : A → M l h B)
      → Keeps f m
      → ((a : A) → Keeps f (g a))
      → Keeps f (m >>= g)
  bind-Keeps f m g k kg s = bound-Keeps f g s (m s) kg (k s)

  clean-Keeps :
      {A : Type 0} (f : String) (clean : M l h (Unit {0}))
      → Keeps f clean
      → (r : Result (VolumeError l.E) A) → Keeps f (after_error l h clean r)
  unfolding after_error
  clean-Keeps f clean k (ok a) s = refl
  clean-Keeps f clean k (err e) s = k s

  pub on_error-Keeps :
      {A : Type 0} (f : String) (clean : M l h (Unit {0})) (m : M l h A)
      → Keeps f clean
      → Keeps f m
      → Keeps f (on_error l h clean m)
  unfolding on_error
  on_error-Keeps f clean m k km s = clean-Keeps f clean k (m s).0 (m s).1 ∙ km s

  -- After a success the file has the new state; after an error the old contents or the new state.
  abbrev pub Replaces :
      {A : Type 0}
      → String
      → VolumeState
      → Store l h
      → Result (VolumeError l.E) A × Store l h
      → Type 0
  Replaces f st s (ok a, s') = parsed l h (h.read_file f s'.disk) ≡ ok st
  Replaces f st s (err e, s') =
      (h.read_file f s'.disk ≡ h.read_file f s.disk) ⊎ (parsed l h (h.read_file f s'.disk) ≡ ok st)

  Replaces-from :
      {A : Type 0} (f : String) (st : VolumeState) (s s1 : Store l h)
      (r : Result (VolumeError l.E) A × Store l h)
      → h.read_file f s1.disk ≡ h.read_file f s.disk
      → Replaces f st s1 r
      → Replaces f st s r
  Replaces-from f st s s1 (ok a, s') e p = p
  Replaces-from f st s s1 (err x, s') e (inl p) = inl (p ∙ e)
  Replaces-from f st s s1 (err x, s') e (inr p) = inr p

  bound-Replaces :
      {A B : Type 0} (f : String) (st : VolumeState) (m : M l h A) (g : A → M l h B) (s : Store l h)
      (r : Result (VolumeError l.E) A × Store l h)
      → m s ≡ r
      → h.read_file f r.1.disk ≡ h.read_file f s.disk
      → ((a : A) (s1 : Store l h) → m s ≡ (ok a, s1) → Replaces f st s1 (g a s1))
      → Replaces f st s (bind_from r g)
  bound-Replaces f st m g s (ok a, s1) q e k = Replaces-from f st s s1 (g a s1) e (k a s1 q)
  bound-Replaces f st m g s (err x, s1) q e k = inl e

  -- A step that keeps the file may come first.
  pub bind-Replaces :
      {A B : Type 0} (f : String) (st : VolumeState) (m : M l h A) (g : A → M l h B) (s : Store l h)
      → Keeps f m
      → ((a : A) (s1 : Store l h) → m s ≡ (ok a, s1) → Replaces f st s1 (g a s1))
      → Replaces f st s ((m >>= g) s)
  bind-Replaces f st m g s keep k = bound-Replaces f st m g s (m s) refl (keep s) k

  -- Once the state is there, steps that keep the file may follow.
  pub end-Replaces :
      {A : Type 0} (f : String) (st : VolumeState) (s0 s : Store l h)
      (r : Result (VolumeError l.E) A × Store l h)
      → parsed l h (h.read_file f s.disk) ≡ ok st
      → h.read_file f r.1.disk ≡ h.read_file f s.disk
      → Replaces f st s0 r
  end-Replaces f st s0 s (ok a, s') p e = ap (parsed l h) e ∙ p
  end-Replaces f st s0 s (err x, s') p e = inr (ap (parsed l h) e ∙ p)
