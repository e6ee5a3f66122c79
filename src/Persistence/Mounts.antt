-- ===== src/Persistence/Mounts.antt =====
-- internal/persistence/file_volume_manager.go: isMountPoint and decodeMountPoint, which read the
-- kernel's table of mounts. A text is the list of its bytes; the path looked for is clean already.
pub mod Escapes
pub mod Waiting
use piccolod.Common.{
  ℕ, zero, suc, Bool, true, false, ◌||◌, Option, none, some, List, [], ◌∷◌, nat_eq, text_eq, codes,
  if◌then◌else◌, Result, ok, err,
}
use piccolod.Auth.Password.{split}

-- What one of the four patterns at the head of the text stands for.
pub escaped : List ℕ → Option ℕ
escaped (a ∷ b ∷ c ∷ d ∷ rest) =
    if text_eq (a ∷ b ∷ c ∷ d ∷ []) (codes "\\040")
    then some 32
    else if text_eq (a ∷ b ∷ c ∷ d ∷ []) (codes "\\011")
    then some 9
    else if text_eq (a ∷ b ∷ c ∷ d ∷ []) (codes "\\012")
    then some 10
    else if text_eq (a ∷ b ∷ c ∷ d ∷ []) (codes "\\134")
    then some 92
    else none
escaped _ = none

-- The first argument counts the bytes that are still of a pattern that was replaced.
pub decode_from : ℕ → List ℕ → List ℕ
unfolding escaped
decode_from k [] = []
decode_from (suc k) (c ∷ s) = decode_from k s
decode_from zero (c ∷ s) = elim (escaped (c ∷ s)) [
  | none ↦ c ∷ decode_from 0 s
  | some d ↦ d ∷ decode_from 3 s
]

pub decode_mount_point : List ℕ → List ℕ
unfolding decode_from
decode_mount_point raw = decode_from 0 raw

-- The fifth field of a line that has so many.
pub mount_of : List (List ℕ) → Option (List ℕ)
unfolding decode_mount_point
mount_of (a ∷ b ∷ c ∷ d ∷ path ∷ rest) = some (decode_mount_point path)
mount_of _ = none

pub is_target : List ℕ → Option (List ℕ) → Bool
is_target target none = false
is_target target (some path) = text_eq path target

pub line_matches : List ℕ → List ℕ → Bool
unfolding is_target mount_of
line_matches target [] = false
line_matches target (c ∷ line) = is_target target (mount_of (split b' ' (c ∷ line)))

pub any_line : List ℕ → List (List ℕ) → Bool
unfolding line_matches
any_line target [] = false
any_line target (line ∷ lines) = if line_matches target line then true else any_line target lines

-- The contents of /proc/self/mountinfo are the outcome of reading the file.
unfoldable pub is_mount_point : {E : Type 0} → Result E (List ℕ) → List ℕ → Result E Bool
unfolding any_line
is_mount_point (err e) target = err e
is_mount_point (ok table) target = ok (any_line target (split 10 table))
