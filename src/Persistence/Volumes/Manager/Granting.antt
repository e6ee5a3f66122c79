-- ===== src/Persistence/Volumes/Manager/Granting.antt =====
-- internal/persistence/file_volume_manager.go: who may mount a volume to write it.
use piccolod.Common.{
  ◌≡◌, refl, ap, String, false, not, Option, none, some, Result, err, if_true, if◌then◌else◌, ◌⊎◌,
  inl, inr, Eq-string,
}
use piccolod.Common.Map.{lookup}
use piccolod.Crypt.Platform.{Platform}
use piccolod.Persistence.Leadership.{leader}
use piccolod.Persistence.Service.{VolumeHandle}
use piccolod.Persistence.Volumes.{
  VolumeError, unknown_volume, not_granted, Host, Entry, Store, M, ◌>>◌, bind_from,
}
use piccolod.Persistence.Volumes.Manager.{known, granted, attach_bypass, attach_mount, attach}

module _ (l : Platform) (h : Host l) where
  granted-false :
      (id : String) (s : Store l h)
      → h.role_checker id leader ≡ false
      → granted l h id leader s ≡ (err (not_granted id), s)
  unfolding granted
  granted-false id s c =
      ap (λ (m : M l h (Unit {0})). m s) (if_true (not (h.role_checker id leader)) _ _ (ap not c))

  -- Where the volume is known or not, the rest of the call is not reached.
  known-refused :
      (id : String) (o : Option (Entry l h)) (rest : Entry l h → M l h (Unit {0})) (s : Store l h)
      → h.role_checker id leader ≡ false
      → (bind_from (known l h id o s) (λ entry. granted l h id leader >> rest entry)
          ≡ (err (unknown_volume id), s))
        ⊎ (bind_from (known l h id o s) (λ entry. granted l h id leader >> rest entry)
            ≡ (err (not_granted id), s))
  unfolding known
  known-refused id none rest s c = inl refl
  known-refused id (some entry) rest s c = inr (
      ap (λ (r : Result (VolumeError l.E) (Unit {0}) × Store l h). bind_from r (λ _. rest entry))
        (granted-false id s c))

  -- A node to which the volume is not granted cannot attach it as its leader: the call is refused, and
  -- neither the disk nor the volumes, the recorded states or the events change.
  pub attach-refused :
      (handle : VolumeHandle) (s : Store l h)
      → h.role_checker handle.id leader ≡ false
      → (attach l h handle leader s ≡ (err (unknown_volume handle.id), s))
        ⊎ (attach l h handle leader s ≡ (err (not_granted handle.id), s))
  unfolding attach
  attach-refused handle s c =
      known-refused handle.id (lookup handle.id s.volumes)
        (λ entry.
          if h.bypass_mount
          then attach_bypass l h handle entry leader
          else attach_mount l h handle entry leader)
        s c
