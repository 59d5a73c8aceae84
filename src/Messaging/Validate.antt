-- ===== src/Messaging/Validate.antt =====
-- messaging/validate.ts: server-side text normalisation. A text is the list of its code points; a
-- surrogate that stands alone is a code point of its own, as in JavaScript's string iterator.
pub mod Accepted
pub mod Trimmed
use the_room_backend.Base.{
  ℕ, suc, ◌-◌, Bool, false, not, ◌&&◌, ◌||◌, List, [], ◌∷◌, ◌++◌, map, reverse, ltb, leb, eqb,
  if◌then◌else◌, length, take, drop, keep, any,
}

-- The tables of the Unicode database and NFC, which the language's library brings.
pub record Unicode : Type 0 where
  pub nfc : List ℕ → List ℕ
  pub is_mark : ℕ → Bool
  pub is_visible : ℕ → Bool
  pub lower : List ℕ → List ℕ

pub data Reason : Type 0 where
  too_long invalid : Reason

pub data ValidationResult : Type 0 where
  accepts : List ℕ → ValidationResult
  refuses : Reason → ValidationResult

pub record TextLimits : Type 0 where
  pub max_length : ℕ
  pub max_lines : ℕ

abbrev pub between : ℕ → ℕ → ℕ → Bool
between lo hi c = leb lo c && leb c hi

abbrev pub newline : ℕ
newline = 10

abbrev pub blank : ℕ
blank = 32

-- A class of characters: single code points and ranges.
abbrev pub in_ranges : List (ℕ × ℕ) → ℕ → Bool
in_ranges [] c = false
in_ranges ((lo, hi) ∷ rest) c = between lo hi c || in_ranges rest c

unfoldable pub is_control : ℕ → Bool
is_control = in_ranges ((0, 9) ∷ (0x0b, 0x1f) ∷ (0x7f, 0x9f) ∷ [])

unfoldable pub is_invisible : ℕ → Bool
is_invisible = in_ranges (
    (0xad, 0xad)
    ∷ (0x61c, 0x61c)
    ∷ (0x115f, 0x1160)
    ∷ (0x17b4, 0x17b5)
    ∷ (0x180e, 0x180e)
    ∷ (0x200b, 0x200c)
    ∷ (0x200e, 0x200f)
    ∷ (0x202a, 0x202e)
    ∷ (0x2060, 0x2064)
    ∷ (0x2066, 0x206f)
    ∷ (0x3164, 0x3164)
    ∷ (0xfeff, 0xfeff)
    ∷ (0xffa0, 0xffa0)
    ∷ (0xfff9, 0xfffb)
    ∷ [])

unfoldable pub is_surrogate : ℕ → Bool
is_surrogate = between 0xd800 0xdfff

-- `\s`, which is also what `trim` removes.
unfoldable pub is_space : ℕ → Bool
is_space = in_ranges (
    (9, 13)
    ∷ (32, 32)
    ∷ (160, 160)
    ∷ (0x1680, 0x1680)
    ∷ (0x2000, 0x200a)
    ∷ (0x2028, 0x2029)
    ∷ (0x202f, 0x202f)
    ∷ (0x205f, 0x205f)
    ∷ (0x3000, 0x3000)
    ∷ (0xfeff, 0xfeff)
    ∷ [])

-- `replace(/\r\n?/g, "\n")`; the flag says that a carriage return stands just before.
fold_returns : Bool → List ℕ → List ℕ
fold_returns after [] = []
fold_returns after (c ∷ s) =
    let rest = fold_returns (eqb c 13) s in
    if eqb c 13 then newline ∷ rest else if eqb c newline && after then rest else c ∷ rest

-- `replace(SPACING, …)`
space_out : ℕ → ℕ
space_out c =
    if between 0x2028 0x2029 c then newline else if eqb c 9 || between 0x0b 0x0c c then blank else c

-- `replace(MARK_FLOOD, "$1")`: of a run of marks the first three stay. `run` counts the marks just
-- before.
cap_marks : (ℕ → Bool) → (run : ℕ) → List ℕ → List ℕ
cap_marks is_mark run [] = []
cap_marks is_mark run (c ∷ s) =
    let rest = cap_marks is_mark (if is_mark c then suc run else 0) s in
    if is_mark c && leb 3 run then rest else c ∷ rest

unfoldable pub strip : Unicode → List ℕ → List ℕ
unfolding fold_returns space_out cap_marks
strip u raw = cap_marks u.is_mark 0 (
    keep (λ c. not (is_invisible c))
      (keep (λ c. not (is_control c))
        (map space_out (fold_returns false (u.nfc (keep (λ c. not (is_surrogate c)) raw))))))

-- `s.split("\n")`: never empty.
add_to_head : ℕ → List (List ℕ) → List (List ℕ)
add_to_head c [] = (c ∷ []) ∷ []
add_to_head c (l ∷ ls) = (c ∷ l) ∷ ls

unfoldable pub split_lines : List ℕ → List (List ℕ)
unfolding add_to_head
split_lines [] = [] ∷ []
split_lines (c ∷ s) =
    let rest = split_lines s in if eqb c newline then [] ∷ rest else add_to_head c rest

-- `ls.join(sep)`
unfoldable pub join : ℕ → List (List ℕ) → List ℕ
join sep [] = []
join sep (l ∷ []) = l
join sep (l ∷ (m ∷ ls)) = l ++ (sep ∷ join sep (m ∷ ls))

trim_start : List ℕ → List ℕ
trim_start [] = []
trim_start (c ∷ s) = let rest = trim_start s in if is_space c then rest else c ∷ s

-- `replace(/\s+$/u, "")`
trim_end : List ℕ → List ℕ
unfolding trim_start
trim_end s = reverse (trim_start (reverse s))

unfoldable pub trim : List ℕ → List ℕ
unfolding trim_start trim_end
trim s = trim_end (trim_start s)

-- `replace(/\n{3,}/g, "\n\n")`: of a run of newlines the first two stay.
cap_newlines : (run : ℕ) → List ℕ → List ℕ
cap_newlines run [] = []
cap_newlines run (c ∷ s) =
    let rest = cap_newlines (if eqb c newline then suc run else 0) s in
    if eqb c newline && leb 2 run then rest else c ∷ rest

unfoldable pub tidy : List ℕ → List ℕ
unfolding split_lines join trim_end cap_newlines trim
tidy s = trim (cap_newlines 0 (join newline (map trim_end (split_lines s))))

-- Too many lines: the first ones stay, and the others are folded into the last.
unfoldable pub fold_lines : (max_lines : ℕ) → List ℕ → List ℕ
unfolding split_lines join
fold_lines max_lines s =
    let lines = split_lines s in
    if ltb max_lines (length lines)
    then join newline (take (max_lines - 1) lines ++ join blank (drop (max_lines - 1) lines) ∷ [])
    else s

judge : Unicode → TextLimits → List ℕ → ValidationResult
judge u limits s =
    if eqb (length s) 0 || not (any u.is_visible s)
    then refuses invalid
    else if ltb limits.max_length (length s)
    then refuses too_long
    else accepts s

unfoldable pub normalize_text : Unicode → TextLimits → (raw : List ℕ) → ValidationResult
unfolding strip tidy fold_lines judge
normalize_text u limits raw = judge u limits (fold_lines limits.max_lines (tidy (strip u raw)))

-- `replace(/\s+/g, " ")`; the flag says that a space stands just before.
squeeze : Bool → List ℕ → List ℕ
squeeze after [] = []
squeeze after (c ∷ s) =
    let rest = squeeze (is_space c) s in
    if is_space c then (if after then rest else blank ∷ rest) else c ∷ rest

unfoldable pub fingerprint : Unicode → List ℕ → List ℕ
unfolding squeeze trim
fingerprint u text = trim (squeeze false (u.lower text))
