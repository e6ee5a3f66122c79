-- ===== src/App/Regex.antt =====
-- Go's package regexp, as far as parser.go and podman.go use it: a text as a whole against classes of
-- characters, repeated classes, optional parts, sequences and alternatives. A choice is tried with all
-- that follows it.
use piccolod.Common.{ℕ, Bool, true, false, ◌&&◌, ◌||◌, List, [], ◌∷◌}

pub data Regex : Type 0 where
  one many : (ℕ → Bool) → Regex
  maybe : Regex → Regex
  seq alt : Regex → Regex → Regex

-- The class as often as it goes, or less often, and then `k`.
unfoldable pub accepts_many : (ℕ → Bool) → List ℕ → (List ℕ → Bool) → Bool
accepts_many p [] k = k []
accepts_many p (c ∷ s) k = k (c ∷ s) || (p c && accepts_many p s k)

unfoldable pub accepts : Regex → List ℕ → (List ℕ → Bool) → Bool
unfolding accepts_many
accepts (one p) [] k = false
accepts (one p) (c ∷ s) k = p c && k s
accepts (many p) s k = accepts_many p s k
accepts (seq a b) s k = accepts a s (λ s'. accepts b s' k)
accepts (alt a b) s k = accepts a s k || accepts b s k
accepts (maybe a) s k = accepts a s k || k s

abbrev pub is_end : List ℕ → Bool
is_end [] = true
is_end (c ∷ s) = false

-- ^(r)$
unfoldable pub full_match : Regex → List ℕ → Bool
unfolding accepts
full_match r s = accepts r s is_end
