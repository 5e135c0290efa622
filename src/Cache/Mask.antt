-- ===== src/Cache/Mask.antt =====
-- `IsMatchingWithMask` (Steam/steam/CacheSystem/CCacheSystem.h): a file's full name against a pattern
-- with `*` and `?`. Both are C strings, the lists of the bytes before the first NUL.
pub mod Star
use revive_emu.Base.{ℕ, Bool, true, false, not, ◌&&◌, ◌||◌, List, [], ◌∷◌, ◌==◌, if◌then◌else◌}

-- '*', '?', '.' and '\\'
abbrev pub star : ℕ
star = 0x2A

abbrev pub question : ℕ
question = 0x3F

abbrev pub dot : ℕ
dot = 0x2E

abbrev pub backslash : ℕ
backslash = 0x5C

-- Whether the mask's next byte is this one.
abbrev pub starts_with : ℕ → List ℕ → Bool
starts_with x [] = false
starts_with x (c ∷ m) = x == c

-- The inner loop: the string moves on to the byte that follows `*` in the mask, or to a backslash, or
-- to its end.
unfoldable pub skip : List ℕ → List ℕ → List ℕ
skip [] m = []
skip (x ∷ s) m = let rest = skip s m in if starts_with x m || x == backslash then x ∷ s else rest

-- `if (*szMask == c) szMask++`
unfoldable pub drop_if : ℕ → List ℕ → List ℕ
drop_if c [] = []
drop_if c (x ∷ m) = if x == c then m else x ∷ m

-- `*szMask == 0`
abbrev pub is_empty : List ℕ → Bool
is_empty [] = true
is_empty (x ∷ m) = false

-- `IsMatchingWithMask`
unfoldable pub is_matching : List ℕ → List ℕ → Bool
is_matching s [] = is_empty s
is_matching [] (c ∷ m) =
    let rest = is_matching [] m in
    if c == star then rest else is_empty (drop_if star (drop_if dot (c ∷ m)))
is_matching (x ∷ s) (c ∷ m) =
    let here = is_matching s m in
    if c == star
    then is_matching (skip (x ∷ s) m) m
    else (if c == question || x == c then here else false)
