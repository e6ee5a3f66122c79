-- ===== src/Persistence/Composed/Crypto.antt =====
-- internal/persistence/file_volume_manager.go: ensureMetadata leaves the crypt manager as it is.
use piccolod.Common.{
  ℕ, append, codes, ◌≡◌, refl, ◌∙◌, String, false, Option, none, some, List, [], ◌∷◌, Result, ok,
  err, if_both, ◌++◌,
}
use piccolod.Crypt.Platform.{Platform, CryptError}
use piccolod.Crypt.Manager.{with_sdek}
use piccolod.Persistence.Volumes.{
  VolumeMetadata, VolumeError, system, init_failed, Host, Entry, Store, M, bind_from, effect_from,
  effect, read_from, reading,
}
use piccolod.Persistence.Volumes.Keys.{
  Ensured, generate_passphrase, new_metadata, bypass_metadata, bypass_config, create_metadata,
  metadata_from, metadata_path, metadata_of, seal_volume_key, seal_with, with_key, guarded_key,
  cipher_of, ensure_metadata,
}

module _ (l : Platform) (h : Host l) where
  abbrev pub Keeps : {A : Type 0} → M l h A → Type 0
  Keeps m = (s : Store l h) → (m s).1.crypto ≡ s.crypto

  bound :
      {A B : Type 0} (x : Result (VolumeError l.E) A × Store l h) (f : A → M l h B)
      → ((a : A) → Keeps (f a))
      → (bind_from x f).1.crypto ≡ x.1.crypto
  bound (ok a, s) f k = k a s
  bound (err e, s) f k = refl

  pub then-Keeps :
      {A B : Type 0} (m : M l h A) (f : A → M l h B)
      → Keeps m
      → ((a : A) → Keeps (f a))
      → (s : Store l h) → (bind_from (m s) f).1.crypto ≡ s.crypto
  then-Keeps m f p k s = bound (m s) f k ∙ p s

  effect-Keeps : (wrap : l.E → VolumeError l.E) (f : h.W → Option l.E × h.W) → Keeps (effect wrap f)
  effect-Keeps wrap f s = kept (f s.disk)
    where
      kept : (x : Option l.E × h.W) → (effect_from wrap s x).1.crypto ≡ s.crypto
      kept (none, w) = refl
      kept (some e, w) = refl

  read_from-crypto :
      {A : Type 0} (s : Store l h) (x : Result l.E A × h.W) → (read_from s x).1.crypto ≡ s.crypto
  read_from-crypto s (ok a, w) = refl
  read_from-crypto s (err e, w) = refl

  reading-Keeps : {A : Type 0} (f : h.W → Result l.E A × h.W) → Keeps (reading f)
  reading-Keeps f s = read_from-crypto s (f s.disk)

  cipher_of-Keeps : (x : Result l.E l.Aead) → Keeps (cipher_of l h x)
  unfolding cipher_of
  cipher_of-Keeps (ok a) s = refl
  cipher_of-Keeps (err e) s = refl

  guarded_key-Keeps : (o : Option (CryptError l.E)) → Keeps (guarded_key l h o)
  unfolding guarded_key
  guarded_key-Keeps none s = refl
  guarded_key-Keeps (some e) s = refl

  seal_volume_key-Keeps : (passphrase : List ℕ) → Keeps (seal_volume_key l h passphrase)
  unfolding seal_volume_key with_key seal_with
  seal_volume_key-Keeps passphrase s =
      then-Keeps (guarded_key l h (with_sdek l (λ _. none) s.crypto)) _ (guarded_key-Keeps _)
        (λ _. then-Keeps (cipher_of l h (l.new_gcm s.crypto.sdek)) _ (cipher_of-Keeps _) (λ a.
          then-Keeps (reading (h.random (l.nonce_size a))) _ (reading-Keeps _) (λ nonce t. refl)))
        s

  new_metadata-Keeps : (dir : String) → Keeps (new_metadata l h dir)
  unfolding new_metadata generate_passphrase
  new_metadata-Keeps dir =
      then-Keeps (generate_passphrase l h) _
        (then-Keeps (reading (h.random 32)) _ (reading-Keeps _) (λ raw t. refl))
        (λ passphrase.
          then-Keeps (seal_volume_key l h passphrase) _ (seal_volume_key-Keeps passphrase) (λ meta.
            then-Keeps (effect init_failed (h.init_gocryptfs dir (passphrase ++ 10 ∷ []))) _
              (effect-Keeps _ _)
              (λ _.
                then-Keeps
                  (effect system (h.write_file (metadata_path l h dir) (h.marshal_metadata meta))) _
                  (effect-Keeps _ _) (λ _ t. refl))))

  bypass_config-Keeps : (dir : String) (o : Option l.E) → Keeps (bypass_config l h dir o)
  unfolding bypass_config
  bypass_config-Keeps dir none s = refl
  bypass_config-Keeps dir (some e) s =
      if_both (λ (m : M l h (Unit {0})). (m s).1.crypto ≡ s.crypto) (h.is_not_exist e) _ _
        (λ _.
          effect-Keeps system (h.write_file (append dir "/gocryptfs.conf") (h.text_file "bypass"))
            s)
        (λ _. refl)

  bypass_metadata-Keeps : (dir : String) → Keeps (bypass_metadata l h dir)
  unfolding bypass_metadata
  bypass_metadata-Keeps dir =
      then-Keeps
        (effect system (
          h.write_file (metadata_path l h dir) (
            h.marshal_metadata
              (metadata_of l h (codes "piccolo-bypass-key") (codes "bypass-nonce!!")))))
        _ (effect-Keeps _ _)
        (λ _ t.
          then-Keeps (bypass_config l h dir (h.stat (append dir "/gocryptfs.conf") t.disk)) _
            (bypass_config-Keeps dir (h.stat (append dir "/gocryptfs.conf") t.disk)) (λ _ u. refl)
            t)

  create_metadata-Keeps : (entry : Entry l h) → Keeps (create_metadata l h entry)
  unfolding create_metadata
  create_metadata-Keeps entry s =
      if_both (λ (m : M l h VolumeMetadata). (m s).1.crypto ≡ s.crypto) h.bypass_mount _ _
        (λ _. bypass_metadata-Keeps entry.cipher_dir s) (λ _. new_metadata-Keeps entry.cipher_dir s)

  metadata_from-Keeps :
      (entry : Entry l h) (x : Result l.E h.File) → Keeps (metadata_from l h entry x)
  unfolding metadata_from
  metadata_from-Keeps entry (ok file) s = refl
  metadata_from-Keeps entry (err e) s =
      if_both (λ (m : M l h (Ensured l h)). (m s).1.crypto ≡ s.crypto) (h.is_not_exist e) _ _
        (λ _. create_metadata-Keeps (record entry { metadata_ready = false }) s) (λ _. refl)

  pub ensure_metadata-Keeps : (entry : Entry l h) → Keeps (ensure_metadata l h entry)
  unfolding ensure_metadata
  ensure_metadata-Keeps entry s =
      metadata_from-Keeps entry (h.read_file (metadata_path l h entry.cipher_dir) s.disk) s
