-- ===== src/Crypt/Words.antt =====
-- internal/crypt/manager.go: the words of a recovery key, and the number of threads.
use piccolod.Common.{
  ℕ, zero, suc, ◌%◌, ◌≤◌, ◌<◌, ◌≡◌, refl, ap, String, List, [], ◌∷◌, length, arith, Occurs, inl,
  inr, All,
}
use piccolod.Crypt.Mnemonic.{wordlist, word_at, words_of}
use piccolod.Crypt.Platform.{Platform, select_crypto_parallelism}
use piccolod.Crypt.Manager.{fresh_params}

word_at-Occurs : (ws : List String) (i : ℕ) → i < length ws → Occurs (word_at ws i) ws
unfolding word_at
word_at-Occurs [] i h = elim h [ ]
word_at-Occurs (w ∷ ws) zero h = inl refl
word_at-Occurs (w ∷ ws) (suc i) h = inr (word_at-Occurs ws i (omega arith))

-- There is one word for each random byte, and every word is of the list, whatever the byte.
pub words_of-Occurs :
    (bytes : List ℕ)
    → (length (words_of bytes) ≡ length bytes) × All (λ w. Occurs w wordlist) (words_of bytes)
unfolding words_of
words_of-Occurs [] = (refl, tt)
words_of-Occurs (b ∷ bytes) = (
  ap suc (words_of-Occurs bytes).0,
  (word_at-Occurs wordlist (b % 26) (omega arith), (words_of-Occurs bytes).1),
)

-- The key is derived with one to eight threads, a number that the byte of the parameters holds.
pub fresh_params-bounds :
    (l : Platform)
    → (1 ≤ (fresh_params l).threads)
      × ((fresh_params l).threads ≤ 8)
      × ((fresh_params l).threads ≡ select_crypto_parallelism l.num_cpu)
unfolding fresh_params select_crypto_parallelism
fresh_params-bounds l = (ground arith, ground arith, ground arith)
