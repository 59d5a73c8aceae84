-- ===== src/Base/Text.antt =====
-- Text: template strings and decimal numbers.
use Prim.Native.Nat.{ℕ, zero, suc, ◌/◌, ◌%◌}
use Prim.Native.String.{String}
use Prim.Native.String
use the_room_backend.Base.Tests.{ltb, if◌then◌else◌}
use mathlib.Core.List.{List, [], ◌∷◌}

infixr 66 ◌^^◌
abbrev pub ◌^^◌ : String → String → String
s ^^ t = String.◌++◌ s t

-- The text at a position of a list, and the last one past its end.
unfoldable pub nth_of : String → List String → ℕ → String
nth_of s [] n = s
nth_of s (next ∷ others) zero = s
nth_of s (next ∷ others) (suc n) = nth_of next others n

unfoldable pub digit : ℕ → String
unfolding nth_of
digit = nth_of "0" ("1" ∷ "2" ∷ "3" ∷ "4" ∷ "5" ∷ "6" ∷ "7" ∷ "8" ∷ "9" ∷ [])

-- The digits of `n`, before `rest`; a number has fewer digits than its successor counts.
unfoldable pub digits_before : ℕ → ℕ → String → String
digits_before zero n rest = rest
digits_before (suc f) n rest =
    let more = digits_before f (n / 10) (digit (n % 10) ^^ rest) in
    if ltb n 10 then digit n ^^ rest else more

-- `String(n)`
unfoldable pub decimal : ℕ → String
unfolding digit digits_before
decimal n = digits_before (suc n) n ""
