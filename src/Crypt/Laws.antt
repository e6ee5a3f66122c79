-- ===== src/Crypt/Laws.antt =====
-- What internal/crypt/manager.go relies on of the libraries that it calls.
use piccolod.Common.{ℕ, ◌≡◌, true, none, some, List, length, Result, ok, err}
use piccolod.Crypt.Platform.{FileState, Platform}
use piccolod.Crypt.Recovery.{is_set}

-- What was written is read; JSON and base64 give back what they were given; what a cipher has
-- sealed, the same cipher opens with the same nonce, which has 12 bytes, and it is never empty.
pub record IsLawful (l : Platform) : Type 0 where
  pub file : (f : l.File) (w w' : l.W) → l.write_file f w ≡ (none, w') → l.read_file w' ≡ ok f
  pub json : (st : FileState) → l.unmarshal (l.marshal st) ≡ ok st
  pub base64 : (b : List ℕ) → l.decode (l.encode b) ≡ (b, none)
  pub sizes : (a : l.Aead) → l.nonce_size a ≡ 12
  pub aead :
      (a : l.Aead) (nonce pt : List ℕ)
      → length nonce ≡ 12
      → l.open_sealed a nonce (l.seal a nonce pt) ≡ some pt
  pub sealed : (a : l.Aead) (nonce pt : List ℕ) → is_set (l.encode (l.seal a nonce pt)) ≡ true

-- Random bytes, where there are any, fill their buffer.
abbrev pub Fills : {E : Type 0} → ℕ → Result E (List ℕ) → Type 0
Fills n (ok b) = length b ≡ n
Fills n (err e) = Unit
