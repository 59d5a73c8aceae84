-- ===== src/Net/Text.antt =====
-- The string methods that net/ and config.ts use, on lists of character codes.
use the_room_backend.Base.{
  ℕ, Bool, true, false, ◌&&◌, Option, none, some, List, [], ◌∷◌, eqb, if◌then◌else◌, length, drop,
}

abbrev pub Chars : Type 0
Chars = List ℕ

abbrev pub slash : ℕ
slash = 47

abbrev pub colon : ℕ
colon = 58

abbrev pub star : ℕ
star = 42

abbrev pub dot : ℕ
dot = 46

abbrev pub comma : ℕ
comma = 44

-- `s === t`
unfoldable pub equal : Chars → Chars → Bool
equal [] [] = true
equal [] (d ∷ t) = false
equal (c ∷ s) [] = false
equal (c ∷ s) (d ∷ t) = eqb c d && equal s t

-- `s.startsWith(prefix)`
unfoldable pub is_prefix : Chars → Chars → Bool
is_prefix [] s = true
is_prefix (p ∷ ps) [] = false
is_prefix (p ∷ ps) (c ∷ s) = eqb p c && is_prefix ps s

-- The text before the first separator, and the text after it where there is one.
unfoldable pub cut : (sep : Chars) → Chars → Chars × Option Chars
cut sep [] = ([], none)
cut sep (c ∷ s) =
    let (head, rest) = cut sep s in
    if is_prefix sep (c ∷ s) then ([], some (drop (length sep) (c ∷ s))) else (c ∷ head, rest)

abbrev first_part : Chars → Option Chars → Option Chars
first_part sep none = none
first_part sep (some rest) = some (cut sep rest).0

-- The first two parts of `s.split(sep)`.
unfoldable pub first_two : (sep : Chars) → Chars → Chars × Option Chars
unfolding cut
first_two sep s = let (head, rest) = cut sep s in (head, first_part sep rest)

abbrev pub onto_head : ℕ → List Chars → List Chars
onto_head c [] = (c ∷ []) ∷ []
onto_head c (l ∷ ls) = (c ∷ l) ∷ ls

-- `s.split(sep)` for a separator of one character: never empty.
unfoldable pub split_on : (sep : ℕ) → Chars → List Chars
split_on sep [] = [] ∷ []
split_on sep (c ∷ s) =
    let rest = split_on sep s in if eqb c sep then [] ∷ rest else onto_head c rest

abbrev pub is_empty : Chars → Bool
is_empty [] = true
is_empty (c ∷ s) = false

-- `s.replace(/\/+$/, "")`
unfoldable pub strip_slashes : Chars → Chars
strip_slashes [] = []
strip_slashes (c ∷ s) =
    let rest = strip_slashes s in if is_empty rest && eqb c slash then [] else c ∷ rest
