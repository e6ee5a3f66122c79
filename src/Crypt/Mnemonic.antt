-- ===== src/Crypt/Mnemonic.antt =====
-- internal/crypt/manager.go: the words of a recovery key and the text that they make.
use piccolod.Common.{ℕ, zero, suc, ◌%◌, String, List, [], ◌∷◌, length}
use Prim.Native.String.{◌++◌}

abbrev pub wordlist : List String
wordlist =
    "alpha" ∷ "bravo" ∷ "charlie" ∷ "delta" ∷ "echo" ∷ "foxtrot" ∷ "golf" ∷ "hotel" ∷ "india"
    ∷ "juliet" ∷ "kilo" ∷ "lima" ∷ "mike" ∷ "november" ∷ "oscar" ∷ "papa" ∷ "quebec" ∷ "romeo"
    ∷ "sierra" ∷ "tango" ∷ "uniform" ∷ "victor" ∷ "whiskey" ∷ "xray" ∷ "yankee" ∷ "zulu" ∷ []

-- wordlist[i], for an index in range.
unfoldable pub word_at : List String → ℕ → String
word_at [] i = ""
word_at (w ∷ ws) zero = w
word_at (w ∷ ws) (suc i) = word_at ws i

-- A word for each random byte.
unfoldable pub words_of : List ℕ → List String
unfolding word_at
words_of [] = []
words_of (b ∷ bytes) = word_at wordlist (b % length wordlist) ∷ words_of bytes

-- A space stands before each word but the first.
joined : String → List String → String
joined text [] = text
joined text (w ∷ ws) = joined ((text ++ " ") ++ w) ws

unfoldable pub mnemonic : List String → String
unfolding joined
mnemonic [] = ""
mnemonic (w ∷ ws) = joined ("" ++ w) ws
