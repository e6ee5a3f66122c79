-- ===== src/Persistence/Volumes/State/Recording.antt =====
-- internal/persistence/file_volume_manager.go: recordVolumeState.
use piccolod.Common.{
  ◌≡◌, refl, sym, ap, ◌∙◌, subst, String, false, Option, none, some, List, [], ◌∷◌, Result, ok, err,
  ◌⊎◌, inl, inr, if_false, Eq-string, ◌==◌,
}
use piccolod.Crypt.Platform.{Platform}
use piccolod.Persistence.Leadership.{Role}
use piccolod.Persistence.Volumes.{
  VolumeState, VolumeEvent, VolumeError, Host, Store, M, pure, bind_from, of_result,
}
use piccolod.Persistence.Volumes.State.{
  state_path, parsed, read_volume_state, or_zero, next_state, write_volume_state,
  publish_volume_event, record_state, record_named, record_volume_state,
}
use piccolod.Persistence.Volumes.State.Keeping.{IsQuiet, Replaces}
use piccolod.Persistence.Volumes.State.Replacing.{write_volume_state-Replaces}

-- The event that was published last.
abbrev pub last_event : List VolumeEvent → Option VolumeEvent
last_event [] = none
last_event (e ∷ events) = some e

module _ (l : Platform) (h : Host l) where
  -- After a success the new state is on the disk and was published last; after an error the disk has the
  -- old state or the new one.
  abbrev pub Records :
      String → VolumeState → Store l h → Result (VolumeError l.E) (Unit {0}) × Store l h → Type 0
  Records id st s (ok u, s') =
      (read_volume_state l h id s'.disk ≡ ok st)
      × (last_event s'.published ≡ some (record { id = id; state = st }))
  Records id st s (err e, s') =
      (read_volume_state l h id s'.disk ≡ read_volume_state l h id s.disk)
      ⊎ (read_volume_state l h id s'.disk ≡ ok st)

  published-Records :
      (id : String) (st : VolumeState) (s : Store l h)
      (r : Result (VolumeError l.E) (Unit {0}) × Store l h)
      → Replaces l h (state_path l h id) st s r
      → Records id st s (bind_from r (λ _. publish_volume_event l h id st))
  unfolding publish_volume_event read_volume_state
  published-Records id st s (ok u, s') p = (p, refl)
  published-Records id st s (err e, s') (inl p) = inl (ap (parsed l h) p)
  published-Records id st s (err e, s') (inr p) = inr p

  -- Of a named volume whose old state is readable or missing, the next state is on the disk and was
  -- published last after a success; after an error the disk has the old state or the next one, and never
  -- anything else. The file system changes no file but the ones that it is told to.
  pub record_volume_state-Records :
      (laws : IsQuiet l h) (id desired observed : String) (role : Role) (cause : Option String)
      (prev : VolumeState) (s : Store l h)
      → (id == "") ≡ false
      → or_zero l h (read_volume_state l h id s.disk) ≡ ok prev
      → Records id
          (next_state prev desired observed role cause (h.now s.disk))
          s
          (record_volume_state l h id desired observed role cause s)
  unfolding record_volume_state record_named record_state
  record_volume_state-Records laws id desired observed role cause prev s named old =
      let st = next_state prev desired observed role cause (h.now s.disk) in
      subst (Records id st s)
        (sym (
          ap (λ (m : M l h (Unit {0})). m s)
            (if_false (id == "") (pure tt) (record_named l h id desired observed role cause) named)
          ∙ ap
              (λ (r : Result (VolumeError l.E) VolumeState).
                bind_from (of_result r s) (λ (p : VolumeState).
                  record_state l h id (next_state p desired observed role cause (h.now s.disk))))
              old))
        (published-Records id st s (write_volume_state l h id st s)
          (write_volume_state-Replaces l h laws id st s))
