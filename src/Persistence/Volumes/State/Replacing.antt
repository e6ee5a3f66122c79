-- ===== src/Persistence/Volumes/State/Replacing.antt =====
-- internal/persistence/file_volume_manager.go: writeVolumeState replaces the file in one step.
use piccolod.Common.{
  ok_injective, ◌≡◌, refl, sym, ap, subst, ◌∙◌, String, Option, none, some, Result, ok, err, inl,
}
use piccolod.Crypt.Platform.{Platform}
use piccolod.Persistence.Volumes.{
  VolumeState, VolumeError, system, Host, Store, M, ◌>>◌, bind_from, attempt, effect, effect_from,
  reading, read_from,
}
use piccolod.Persistence.Volumes.State.{
  state_root, state_dir, state_path, after_error, on_error, remove_temp, close_and_remove,
  write_volume_state, parsed,
}
use piccolod.Persistence.Volumes.State.Keeping.{
  IsQuiet, IsTemp, Keeps, Replaces, effect_from-disk, read_from-disk, effect-Keeps, bind-Keeps,
  on_error-Keeps, bind-Replaces, end-Replaces,
}

module _ (l : Platform) (h : Host l) (laws : IsQuiet l h) where
  renamed-Replaces :
      (id tmp : String) (st : VolumeState) (rest : M l h (Unit {0})) (s : Store l h)
      (r : Option l.E × h.W)
      → h.rename tmp (state_path l h id) s.disk ≡ r
      → IsTemp l h id tmp
      → Keeps l h (state_path l h id) rest
      → parsed l h (h.read_file tmp s.disk) ≡ ok st
      → Replaces l h (state_path l h id) st s (
          bind_from
            (after_error l h
              (remove_temp l h tmp)
              (effect_from system s r).0
              (effect_from system s r).1)
            (λ _. rest))
  unfolding after_error remove_temp
  renamed-Replaces id tmp st rest s (none, w) q temp keep p =
      let f = state_path l h id in
      end-Replaces l h f st s (record s { disk = w }) (rest (record s { disk = w }))
        (ap (λ (x : Option l.E × h.W). parsed l h (h.read_file f x.1)) (sym q)
          ∙ ap (parsed l h) (laws.renamed id tmp s.disk temp (ap (λ (x : Option l.E × h.W). x.0) q))
          ∙ p)
        (keep (record s { disk = w }))
  renamed-Replaces id tmp st rest s (some e, w) q temp keep p =
      let f = state_path l h id in
      inl (
        ap (h.read_file f) (effect_from-disk l h system (record s { disk = w }) (h.remove tmp w))
        ∙ laws.remove id tmp w temp
        ∙ ap (λ (x : Option l.E × h.W). h.read_file f x.1) (sym q)
        ∙ laws.not_renamed id tmp s.disk temp (ap (λ (x : Option l.E × h.W). x.0) q))

  created :
      (s : Store l h) (r : Result l.E String × h.W) {tmp : String} {s1 : Store l h}
      → read_from s r ≡ (ok tmp, s1)
      → (r.0 ≡ ok tmp) × (s1.disk ≡ r.1)
  created s (ok a, w) q = (
    ap (λ (a : String). ok a)
        (ok_injective (ap (λ (x : Result (VolumeError l.E) String × Store l h). x.0) q)),
    sym (ap (λ (x : Result (VolumeError l.E) String × Store l h). x.1.disk) q),
  )
  created s (err e, w) q = cc (ap (λ (x : Result (VolumeError l.E) String × Store l h). x.0) q)

  -- A step with an effect that succeeded leaves the disk that the effect left.
  effected :
      (clean : M l h (Unit {0})) (s : Store l h) (r : Option l.E × h.W) {u : Unit {0}}
      {s1 : Store l h}
      → after_error l h clean (effect_from system s r).0 (effect_from system s r).1 ≡ (ok u, s1)
      → (r.0 ≡ none) × (s1.disk ≡ r.1)
  unfolding after_error
  effected clean s (none, w) q =
      (refl, sym (ap (λ (x : Result (VolumeError l.E) (Unit {0}) × Store l h). x.1.disk) q))
  effected clean s (some e, w) q =
      cc (ap (λ (x : Result (VolumeError l.E) (Unit {0}) × Store l h). x.0) q)

  remove_temp-Keeps :
      (id tmp : String) → IsTemp l h id tmp → Keeps l h (state_path l h id) (remove_temp l h tmp)
  unfolding remove_temp
  remove_temp-Keeps id tmp temp =
      effect-Keeps l h (state_path l h id) system (h.remove tmp) (λ w. laws.remove id tmp w temp)

  close_and_remove-Keeps :
      (id tmp : String)
      → IsTemp l h id tmp
      → Keeps l h (state_path l h id) (close_and_remove l h tmp)
  unfolding close_and_remove
  close_and_remove-Keeps id tmp temp =
      let f = state_path l h id in
      bind-Keeps l h f (attempt (effect system (h.close tmp))) (λ _. remove_temp l h tmp)
        (effect-Keeps l h f system (h.close tmp) (λ w. laws.close f tmp w))
        (λ _. remove_temp-Keeps id tmp temp)

  -- The steps from the encoded file on.
  placed-Replaces :
      (id tmp : String) (st : VolumeState) (s : Store l h)
      → IsTemp l h id tmp
      → parsed l h (h.read_file tmp s.disk) ≡ ok st
      → Replaces l h (state_path l h id) st s (
          (do
            on_error l h (close_and_remove l h tmp) (effect system (h.sync tmp))
            on_error l h (remove_temp l h tmp) (effect system (h.close tmp))
            on_error l h (remove_temp l h tmp) (effect system (h.rename tmp (state_path l h id)))
            effect system (h.sync_dir (state_dir l h id))
            effect system (h.sync_dir (state_root l h)))
            s)
  unfolding on_error
  placed-Replaces id tmp st s temp p =
      let f = state_path l h id in
      bind-Replaces l h f st (on_error l h (close_and_remove l h tmp) (effect system (h.sync tmp)))
        _ s
        (on_error-Keeps l h f (close_and_remove l h tmp) _ (close_and_remove-Keeps id tmp temp)
          (effect-Keeps l h f system (h.sync tmp) (λ w. laws.sync f tmp w)))
        λ _ s1 q1.
          bind-Replaces l h f st (on_error l h (remove_temp l h tmp) (effect system (h.close tmp)))
            _ s1
            (on_error-Keeps l h f (remove_temp l h tmp) _ (remove_temp-Keeps id tmp temp)
              (effect-Keeps l h f system (h.close tmp) (λ w. laws.close f tmp w)))
            λ _ s2 q2.
              renamed-Replaces id tmp st _ s2 (h.rename tmp f s2.disk) refl temp
                (bind-Keeps l h f (effect system (h.sync_dir (state_dir l h id)))
                  (λ _. effect system (h.sync_dir (state_root l h)))
                  (effect-Keeps l h f system (h.sync_dir (state_dir l h id))
                    (λ w. laws.sync_dir f _ w))
                  (λ _.
                    effect-Keeps l h f system (h.sync_dir (state_root l h))
                      (λ w. laws.sync_dir f _ w)))
                (ap (parsed l h) (
                    ap (h.read_file tmp)
                      (effected (remove_temp l h tmp) s1 (h.close tmp s1.disk) q2).1
                    ∙ laws.close tmp tmp s1.disk
                    ∙ ap (h.read_file tmp)
                        (effected (close_and_remove l h tmp) s (h.sync tmp s.disk) q1).1
                    ∙ laws.sync tmp tmp s.disk)
                  ∙ p)

  -- Whatever fails on the way, the state on the disk is the old one or the new one, and it is the new one
  -- where nothing failed.
  pub write_volume_state-Replaces :
      (id : String) (st : VolumeState) (s : Store l h)
      → Replaces l h (state_path l h id) st s (write_volume_state l h id st s)
  unfolding write_volume_state on_error
  write_volume_state-Replaces id st s =
      let f = state_path l h id in
      bind-Replaces l h f st (effect system (h.mkdir_all (state_dir l h id))) _ s
        (effect-Keeps l h f system (h.mkdir_all (state_dir l h id)) (λ w. laws.mkdir id w))
        λ _ s1 q1.
          bind-Replaces l h f st (reading (h.create_temp (state_dir l h id))) _ s1
            (λ s'.
              ap (h.read_file f) (read_from-disk l h s' (h.create_temp (state_dir l h id) s'.disk))
              ∙ laws.create id s'.disk)
            λ tmp s2 q2.
              let (drawn, there) = created s1 (h.create_temp (state_dir l h id) s1.disk) q2 in
              let temp : IsTemp l h id tmp = (s1.disk, drawn) in
              bind-Replaces l h f st
                (on_error l h (close_and_remove l h tmp) (effect system (h.encode_to tmp st))) _ s2
                (on_error-Keeps l h f (close_and_remove l h tmp) _
                  (close_and_remove-Keeps id tmp temp)
                  (effect-Keeps l h f system (h.encode_to tmp st)
                    (λ w. laws.encode id tmp st w temp)))
                λ _ s3 q3.
                  let (fine, left) =
                    effected (close_and_remove l h tmp) s2 (h.encode_to tmp st s2.disk) q3 in
                  placed-Replaces id tmp st s3 temp (
                    ap (λ w. parsed l h (h.read_file tmp w)) left
                    ∙ subst
                        (λ w.
                          (h.encode_to tmp st w).0 ≡ none
                          → parsed l h (h.read_file tmp (h.encode_to tmp st w).1) ≡ ok st)
                        (sym there) (laws.encoded id tmp st s1.disk drawn) fine)
