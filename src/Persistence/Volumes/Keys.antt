-- ===== src/Persistence/Volumes/Keys.antt =====
-- internal/persistence/file_volume_manager.go: the key of a volume, sealed with the key of the crypt
-- manager, and the file that holds it.
pub mod Wrapping
use piccolod.Common.{
  ℕ, append, String, Bool, true, false, not, ◌||◌, Option, none, some, List, [], ◌∷◌, ◌++◌, length,
  nat_eq, codes, Result, ok, err, if◌then◌else◌,
}
use piccolod.Crypt.Platform.{Platform, CryptError}
use piccolod.Crypt.Manager.{with_sdek}
use piccolod.Persistence.Service.{VolumeHandle}
use piccolod.Persistence.Volumes.{
  VolumeMetadata, VolumeError, system, init_failed, crypt, corrupted, Host, Entry, Store, M, ◌>>=◌,
  ◌>>◌, pure, fail, of_result, attempt, get, effect, reading,
}

unfoldable pub is_empty : List ℕ → Bool
is_empty [] = true
is_empty (c ∷ text) = false

module _ (l : Platform) (h : Host l) where
  unfoldable pub guarded_key : Option (CryptError l.E) → M l h (Unit {0})
  guarded_key none = pure tt
  guarded_key (some e) = fail (crypt e)

  -- What WithSDEK calls, with the key that the manager holds.
  unfoldable pub with_key : {A : Type 0} → (List ℕ → M l h A) → M l h A
  unfolding guarded_key
  with_key f = do s ← get; guarded_key (with_sdek l (λ _. none) s.crypto); f s.crypto.sdek

  unfoldable pub cipher_of : Result l.E l.Aead → M l h l.Aead
  cipher_of (ok a) = pure a
  cipher_of (err e) = fail (system e)

  pub or_corrupted : {A : Type 0} → Option A → M l h A
  or_corrupted none = fail corrupted
  or_corrupted (some a) = pure a

  pub metadata_of : List ℕ → List ℕ → VolumeMetadata
  metadata_of sealed nonce = record {
    version = 1;
    wrapped_key = h.encode sealed;
    nonce = h.encode nonce;
  }

  unfoldable pub seal_with : List ℕ → List ℕ → M l h VolumeMetadata
  unfolding cipher_of metadata_of
  seal_with passphrase sdek = do
    a ← cipher_of (l.new_gcm sdek)
    nonce ← reading (h.random (l.nonce_size a))
    pure (metadata_of (l.seal a nonce passphrase) nonce)

  unfoldable pub seal_volume_key : List ℕ → M l h VolumeMetadata
  unfolding with_key seal_with
  seal_volume_key passphrase = with_key (seal_with passphrase)

  pub corrupted_if : Bool → M l h (Unit {0})
  corrupted_if b = if b then fail corrupted else pure tt

  pub unwrap_with : VolumeMetadata → List ℕ → M l h (List ℕ)
  unfolding cipher_of or_corrupted corrupted_if is_empty
  unwrap_with meta sdek = do
    a ← cipher_of (l.new_gcm sdek)
    nonce ← or_corrupted (h.decode meta.nonce)
    corrupted_if (not (nat_eq (length nonce) (l.nonce_size a)))
    sealed ← or_corrupted (h.decode meta.wrapped_key)
    corrupted_if (is_empty sealed)
    or_corrupted (l.open_sealed a nonce sealed)

  unfoldable pub unwrap_volume_key : VolumeMetadata → M l h (List ℕ)
  unfolding with_key unwrap_with
  unwrap_volume_key meta = with_key (unwrap_with meta)

  unfoldable pub generate_passphrase : M l h (List ℕ)
  generate_passphrase = do raw ← reading (h.random 32); pure (l.encode raw)

  pub metadata_path : String → String
  metadata_path dir = append dir "/piccolo.volume.json"

  -- A new volume: its key is sealed before the volume is made, and written after it.
  unfoldable pub new_metadata : String → M l h VolumeMetadata
  unfolding generate_passphrase seal_volume_key metadata_path
  new_metadata dir = do
    passphrase ← generate_passphrase
    meta ← seal_volume_key passphrase
    effect init_failed (h.init_gocryptfs dir (passphrase ++ 10 ∷ []))
    effect system (h.write_file (metadata_path dir) (h.marshal_metadata meta))
    pure meta

  unfoldable pub bypass_config : String → Option l.E → M l h (Unit {0})
  bypass_config dir none = pure tt
  bypass_config dir (some e) =
      if h.is_not_exist e
      then effect system (h.write_file (append dir "/gocryptfs.conf") (h.text_file "bypass"))
      else fail (system e)

  -- The metadata where no volume is really mounted.
  unfoldable pub bypass_metadata : String → M l h VolumeMetadata
  unfolding metadata_path bypass_config metadata_of
  bypass_metadata dir = do
    let meta = metadata_of (codes "piccolo-bypass-key") (codes "bypass-nonce!!")
    effect system (h.write_file (metadata_path dir) (h.marshal_metadata meta))
    s ← get
    bypass_config dir (h.stat (append dir "/gocryptfs.conf") s.disk)
    pure meta

  -- The outcome, and the entry as it is left, also after an error.
  abbrev pub Ensured : Type 0
  Ensured = Result (VolumeError l.E) (Unit {0}) × Entry l h

  pub made : Entry l h → Result (VolumeError l.E) VolumeMetadata → Ensured
  made entry (ok meta) = (ok tt, record entry { metadata = meta; metadata_ready = true })
  made entry (err e) = (err e, entry)

  unfoldable pub create_metadata : Entry l h → M l h Ensured
  unfolding new_metadata bypass_metadata made
  create_metadata entry = do
    r ←
        attempt (
          if h.bypass_mount
          then bypass_metadata entry.cipher_dir
          else new_metadata entry.cipher_dir)
    pure (made entry r)

  pub found_metadata : Entry l h → Option VolumeMetadata → Ensured
  unfolding is_empty
  found_metadata entry none = (err corrupted, entry)
  found_metadata entry (some meta) =
      if is_empty meta.wrapped_key || is_empty meta.nonce
      then (err corrupted, entry)
      else (ok tt, record entry { metadata = meta; metadata_ready = true })

  unfoldable pub metadata_from : Entry l h → Result l.E h.File → M l h Ensured
  unfolding found_metadata create_metadata
  metadata_from entry (ok file) = pure (found_metadata entry (h.unmarshal_metadata file))
  metadata_from entry (err e) =
      if h.is_not_exist e
      then create_metadata (record entry { metadata_ready = false })
      else pure (err (system e), entry)

  unfoldable pub ensure_metadata : Entry l h → M l h Ensured
  unfolding metadata_from metadata_path
  ensure_metadata entry = do
    s ← get
    metadata_from entry (h.read_file (metadata_path entry.cipher_dir) s.disk)
