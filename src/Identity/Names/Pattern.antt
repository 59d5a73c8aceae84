-- ===== src/Identity/Names/Pattern.antt =====
-- identity/names.ts: each name that `generatePublicName` makes is one that `PUBLIC_NAME_RE` takes.
use package.text.Mathlib.TextLemmas.{cons-append, nil-append}
use Prim.Native.Char.{Char, code}
use the_room_backend.Base.{
  ℕ, zero, suc, ◌+◌, ◌-◌, ◌/◌, ◌%◌, ◌≤◌, ◌<◌, ◌≡◌, refl, ◌∙◌, ap, Bool, true, false, ◌&&◌, List, [],
  ◌∷◌, String, ltb, eqb, arith, length, All,
}
use the_room_backend.Base.Text.{◌^^◌, decimal, digits_before, digit, nth_of}
use the_room_backend.Identity.Names.{
  is_digit, some_lower, capitalised, digits, number_after, is_public_name, word, adjectives,
  animals, generate_public_name,
}

-- A word of the lists.
unfoldable is_end : String → Bool
is_end String.[] = true
is_end (String.◌∷◌ c s) = false

abbrev IsWord : String → Type 0
IsWord w = capitalised is_end w ≡ true

some_lower-append :
    (onward : String → Bool) (w rest : String)
    → some_lower is_end w ≡ true
    → onward rest ≡ true
    → some_lower onward (w ^^ rest) ≡ true
unfolding some_lower is_end
some_lower-append onward String.[] rest h k = absurd (cc h)
some_lower-append onward (String.◌∷◌ c String.[]) rest h k =
    rw (cons-append c "" rest, nil-append rest, k) (ground (arith, h))
some_lower-append onward (String.◌∷◌ c (String.◌∷◌ d s)) rest h k =
    let later = some_lower-append onward (String.◌∷◌ d s) rest (ground (arith, h)) k in
    rw (cons-append c (String.◌∷◌ d s) rest, later) (ground (arith, h))

capitalised-append :
    (onward : String → Bool) (w rest : String)
    → IsWord w
    → onward rest ≡ true
    → capitalised onward (w ^^ rest) ≡ true
unfolding capitalised
capitalised-append onward String.[] rest h k = absurd (cc h)
capitalised-append onward (String.◌∷◌ c s) rest h k =
    rw (cons-append c s rest, some_lower-append onward s rest (ground (arith, h)) k)
      (ground (arith, h))

word-IsWord : (ws : List String) (i : ℕ) → All IsWord ws → i < length ws → IsWord (word ws i)
unfolding word
word-IsWord [] i h lt = absurd (omega (arith, lt))
word-IsWord (w ∷ ws) zero h lt = h.0
word-IsWord (w ∷ ws) (suc i) h lt = word-IsWord ws i h.1 (omega (arith, lt))

all_words : List String → Bool
all_words [] = true
all_words (w ∷ ws) = capitalised is_end w && all_words ws

All-IsWord : (ws : List String) → all_words ws ≡ true → All IsWord ws
unfolding all_words
All-IsWord [] h = tt
All-IsWord (w ∷ ws) h = (ground (arith, h), All-IsWord ws (ground (arith, h)))

adjectives-IsWord : all_words adjectives ≡ true
unfolding all_words capitalised some_lower is_end adjectives
adjectives-IsWord = refl

animals-IsWord : all_words animals ≡ true
unfolding all_words capitalised some_lower is_end animals
animals-IsWord = refl

-- A text of one digit.
abbrev IsDigit : String → Type 0
IsDigit s = (n : ℕ) (rest : String) → digits (suc n) (s ^^ rest) ≡ digits n rest

one_char : (c : Char) → is_digit c ≡ true → IsDigit (String.◌∷◌ c "")
unfolding digits
one_char c h n rest = rw (cons-append c "" rest, nil-append rest) (ground (arith, h))

nth_of-IsDigit :
    (s : String) (others : List String) (n : ℕ)
    → IsDigit s
    → All IsDigit others
    → IsDigit (nth_of s others n)
unfolding nth_of
nth_of-IsDigit s [] n h hs = h
nth_of-IsDigit s (next ∷ others) zero h hs = h
nth_of-IsDigit s (next ∷ others) (suc n) h hs = nth_of-IsDigit next others n hs.0 hs.1

digit-IsDigit : (d : ℕ) → IsDigit (digit d)
unfolding digit
digit-IsDigit d =
    nth_of-IsDigit "0" ("1" ∷ "2" ∷ "3" ∷ "4" ∷ "5" ∷ "6" ∷ "7" ∷ "8" ∷ "9" ∷ []) d
      (one_char "0" refl)
      (
        one_char "1" refl,
        (
          one_char "2" refl,
          (
            one_char "3" refl,
            (
              one_char "4" refl,
              (
                one_char "5" refl,
                (
                  one_char "6" refl,
                  (one_char "7" refl, (one_char "8" refl, (one_char "9" refl, tt))),
                ),
              ),
            ),
          ),
        ),
      )

digits_before_more :
    (f n : ℕ) (rest : String)
    → 10 ≤ n
    → digits_before (suc f) n rest ≡ digits_before f (n / 10) (digit (n % 10) ^^ rest)
unfolding digits_before
digits_before_more f n rest h = let more : ltb n 10 ≡ false = ground (arith, h) in rw more refl

digits_before_last :
    (f n : ℕ) (rest : String) → n < 10 → digits_before (suc f) n rest ≡ digit n ^^ rest
unfolding digits_before
digits_before_last f n rest h = let last : ltb n 10 ≡ true = ground (arith, h) in rw last refl

digits-digits_before :
    (f n : ℕ) (rest : String)
    → 1000 ≤ n
    → n < 10000
    → digits 4 (digits_before (suc (suc (suc (suc f)))) n rest) ≡ digits 0 rest
digits-digits_before f n rest h lt = rw (
  digits_before_more (suc (suc (suc f))) n rest (omega (arith, h)),
  digits_before_more (suc (suc f)) (n / 10) _ (omega (arith, h)),
  digits_before_more (suc f) (n / 10 / 10) _ (omega (arith, h)),
  digits_before_last f (n / 10 / 10 / 10) _ (omega (arith, lt)),
  digit-IsDigit (n / 10 / 10 / 10),
  digit-IsDigit (n / 10 / 10 % 10),
  digit-IsDigit (n / 10 % 10),
  digit-IsDigit (n % 10),
)

number_after-mark :
    (mark : Char) (s : String)
    → number_after (String.◌∷◌ mark "" ^^ s) ≡ (eqb (code mark) 95 && digits 4 s)
unfolding number_after
number_after-mark mark s = rw (cons-append mark "" s, nil-append s) refl

digits-decimal : (n : ℕ) → 1000 ≤ n → n < 10000 → digits 4 (decimal n) ≡ true
unfolding decimal digits
digits-decimal n h lt =
    let enough : suc n ≡ suc (suc (suc (suc (n - 3)))) = omega (arith, h) in
    ap (λ f. digits 4 (digits_before f n "")) enough ∙ digits-digits_before (n - 3) n "" h lt

number_after-decimal :
    (number : ℕ) → number < 9000 → number_after ("_" ^^ decimal (1000 + number)) ≡ true
number_after-decimal number lt =
    number_after-mark "_" (decimal (1000 + number))
    ∙ digits-decimal (1000 + number) (omega arith) (omega (arith, lt))

-- With draws within the bounds of `randomInt`, the name is one that the pattern accepts.
pub is_public_name-generate_public_name :
    (adj animal number : ℕ)
    → adj < 67
    → animal < 69
    → number < 9000
    → is_public_name (generate_public_name adj animal number) ≡ true
unfolding is_public_name generate_public_name
is_public_name-generate_public_name adj animal number a b n =
    capitalised-append (capitalised number_after) (word adjectives adj) _
      (word-IsWord adjectives adj (All-IsWord adjectives adjectives-IsWord) a)
      (capitalised-append number_after (word animals animal) _
        (word-IsWord animals animal (All-IsWord animals animals-IsWord) b)
        (number_after-decimal number n))
