-- ===== src/Persistence/Volumes/Keys/Wrapping.antt =====
-- internal/persistence/file_volume_manager.go: a sealed key of a volume is unwrapped again, also after
-- the password was changed and the crypt manager was locked and unlocked.
use piccolod.Common.{
  ℕ, ok_injective, ◌≡◌, refl, sym, ap, ◌∙◌, subst, true, false, not, Option, none, some, List, [],
  length, nat_eq, nat_eq_iff, Result, ok, err, ◌⊎◌, inl, inr, if_false,
}
use piccolod.Crypt.Platform.{Platform, CryptError}
use piccolod.Crypt.Manager.{Manager, with_sdek}
use piccolod.Crypt.Laws.{IsLawful}
use piccolod.Crypt.History.{System, Calls, Keeps, Calls-Keeps}
use piccolod.Persistence.Volumes.{
  VolumeMetadata, VolumeError, Host, Store, M, ◌>>=◌, pure, bind_from, reading, read_from,
}
use piccolod.Persistence.Volumes.Keys.{
  is_empty, guarded_key, with_key, cipher_of, metadata_of, seal_with, seal_volume_key, unwrap_with,
  unwrap_volume_key,
}

-- What the manager relies on: base64 gives back what it was given, random bytes fill their buffer, and
-- what is sealed is not empty.
pub record IsFaithful (l : Platform) (h : Host l) : Type 0 where
  pub base64 : (b : List ℕ) → h.decode (h.encode b) ≡ some b
  pub random : (n : ℕ) (w : h.W) {b : List ℕ} → (h.random n w).0 ≡ ok b → length b ≡ n
  pub sealed : (a : l.Aead) (nonce pt : List ℕ) → is_empty (l.seal a nonce pt) ≡ false

-- The manager is set up and holds a key.
abbrev pub IsOpen : Manager → Type 0
IsOpen m = (m.inited ≡ true) × (nat_eq (length m.sdek) 0 ≡ false)

-- An open manager that holds `k` or nothing holds `k`.
key_of : (k : List ℕ) (m n : Manager) → n ≡ m → IsOpen m → (n.sdek ≡ []) ⊎ (n.sdek ≡ k) → m.sdek ≡ k
key_of k m n e o (inr p) = ap (λ (x : Manager). x.sdek) (sym e) ∙ p
key_of k m n e o (inl p) = cc (
    sym (ap (λ (x : List ℕ). nat_eq (length x) 0) (ap (λ (x : Manager). x.sdek) (sym e) ∙ p)) ∙ o.1)

module _ (l : Platform) (h : Host l) where
  with_sdek-IsOpen : (m : Manager) → IsOpen m → with_sdek l (λ _. none) m ≡ none
  unfolding with_sdek
  with_sdek-IsOpen m (i, k) =
      if_false (not m.inited) _ _ (ap not i) ∙ if_false (nat_eq (length m.sdek) 0) _ _ k

  -- An open manager hands its key on.
  with_key-IsOpen :
      {A : Type 0} (f : List ℕ → M l h A) (s : Store l h)
      → IsOpen s.crypto
      → with_key l h f s ≡ f s.crypto.sdek s
  unfolding with_key guarded_key
  with_key-IsOpen f s o =
      ap (λ (x : Option (CryptError l.E)). bind_from (guarded_key l h x s) (λ _. f s.crypto.sdek))
        (with_sdek-IsOpen s.crypto o)

  pub record SealedBy (key passphrase : List ℕ) (meta : VolumeMetadata) : Type 0 where
    pub a : l.Aead
    pub nonce : List ℕ
    pub cipher : l.new_gcm key ≡ ok a
    pub size : length nonce ≡ l.nonce_size a
    pub result : meta ≡ metadata_of l h (l.seal a nonce passphrase) nonce

  sealed_with :
      (faithful : IsFaithful l h) (key passphrase : List ℕ) (a : l.Aead) (s : Store l h)
      (r : Result l.E (List ℕ) × h.W) {meta : VolumeMetadata} {s1 : Store l h}
      → l.new_gcm key ≡ ok a
      → h.random (l.nonce_size a) s.disk ≡ r
      → bind_from
          (read_from s r)
          (λ nonce. pure (metadata_of l h (l.seal a nonce passphrase) nonce))
        ≡ (ok meta, s1)
      → SealedBy key passphrase meta
  sealed_with faithful key passphrase a s (err e, w) c q m =
      cc (ap (λ (x : Result (VolumeError l.E) VolumeMetadata × Store l h). x.0) m)
  sealed_with faithful key passphrase a s (ok nonce, w) c q m = record {
    a = a;
    nonce = nonce;
    cipher = c;
    size = faithful.random (l.nonce_size a) s.disk (ap (λ (x : Result l.E (List ℕ) × h.W). x.0) q);
    result =
        sym
          (ok_injective (ap (λ (x : Result (VolumeError l.E) VolumeMetadata × Store l h). x.0) m));
  }

  sealed_from :
      (faithful : IsFaithful l h) (key passphrase : List ℕ) (s : Store l h) (r : Result l.E l.Aead)
      {meta : VolumeMetadata} {s1 : Store l h}
      → l.new_gcm key ≡ r
      → bind_from (cipher_of l h r s) (λ a. do
        nonce ← reading (h.random (l.nonce_size a))
        pure (metadata_of l h (l.seal a nonce passphrase) nonce))
        ≡ (ok meta, s1)
      → SealedBy key passphrase meta
  unfolding cipher_of
  sealed_from faithful key passphrase s (err e) c m =
      cc (ap (λ (x : Result (VolumeError l.E) VolumeMetadata × Store l h). x.0) m)
  sealed_from faithful key passphrase s (ok a) c m =
      sealed_with faithful key passphrase a s (h.random (l.nonce_size a) s.disk) c refl m

  pub seal_volume_key-SealedBy :
      (faithful : IsFaithful l h) (passphrase : List ℕ) (s : Store l h) {meta : VolumeMetadata}
      {s1 : Store l h}
      → IsOpen s.crypto
      → seal_volume_key l h passphrase s ≡ (ok meta, s1)
      → SealedBy s.crypto.sdek passphrase meta
  unfolding seal_volume_key seal_with
  seal_volume_key-SealedBy faithful passphrase s o m =
      sealed_from faithful s.crypto.sdek passphrase s (l.new_gcm s.crypto.sdek) refl
        (sym (with_key-IsOpen (seal_with l h passphrase) s o) ∙ m)

  unwrap_with_lem :
      (meta : VolumeMetadata) (sdek nonce sealed passphrase : List ℕ) (a : l.Aead) (t : Store l h)
      → l.new_gcm sdek ≡ ok a
      → h.decode meta.nonce ≡ some nonce
      → nat_eq (length nonce) (l.nonce_size a) ≡ true
      → h.decode meta.wrapped_key ≡ some sealed
      → is_empty sealed ≡ false
      → l.open_sealed a nonce sealed ≡ some passphrase
      → unwrap_with l h meta sdek t ≡ (ok passphrase, t)
  unfolding unwrap_with
  unwrap_with_lem meta sdek nonce sealed passphrase a t c n size w e o =
      rw (c, n, size, w, e, o) refl

module _ (l : Platform) (h : Host l) (laws : IsLawful l) (faithful : IsFaithful l h) where
  SealedBy-unwrap :
      (passphrase : List ℕ) (meta : VolumeMetadata) (t : Store l h)
      → IsOpen t.crypto
      → SealedBy l h t.crypto.sdek passphrase meta
      → unwrap_volume_key l h meta t ≡ (ok passphrase, t)
  unfolding unwrap_volume_key metadata_of
  SealedBy-unwrap passphrase meta t o b =
      with_key-IsOpen l h (unwrap_with l h meta) t o
      ∙ unwrap_with_lem l h meta t.crypto.sdek b.nonce (l.seal b.a b.nonce passphrase) passphrase
          b.a t b.cipher
          (ap (λ (x : VolumeMetadata). h.decode x.nonce) b.result ∙ faithful.base64 b.nonce)
          ((nat_eq_iff (length b.nonce) (l.nonce_size b.a)).1 b.size)
          (ap (λ (x : VolumeMetadata). h.decode x.wrapped_key) b.result ∙ faithful.base64 _)
          (faithful.sealed b.a b.nonce passphrase)
          (laws.aead b.a b.nonce passphrase (b.size ∙ laws.sizes b.a))

  -- Where a volume's key was sealed by an unlocked manager in which the password opens `k`, every later
  -- manager that is unlocked unwraps it, whatever calls succeeded in between. The library calls obey their
  -- laws, and random bytes fill their buffer.
  pub seal-unwrap :
      (passphrase k : List ℕ) (s s1 t : Store l h) (meta : VolumeMetadata) (x y : System l)
      → Keeps l k x
      → x.manager ≡ s.crypto
      → IsOpen s.crypto
      → seal_volume_key l h passphrase s ≡ (ok meta, s1)
      → Calls l x y
      → y.manager ≡ t.crypto
      → IsOpen t.crypto
      → unwrap_volume_key l h meta t ≡ (ok passphrase, t)
  seal-unwrap passphrase k s s1 t meta x y keeps xs o sealed calls yt ot =
      let before = key_of k s.crypto x.manager xs o keeps.in_memory in
      let after = key_of k t.crypto y.manager yt ot (Calls-Keeps l laws k calls keeps).in_memory in
      SealedBy-unwrap passphrase meta t ot (
        subst (λ key. SealedBy l h key passphrase meta) (before ∙ sym after)
          (seal_volume_key-SealedBy l h faithful passphrase s o sealed))
