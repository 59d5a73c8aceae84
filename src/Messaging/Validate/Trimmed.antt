-- ===== src/Messaging/Validate/Trimmed.antt =====
-- messaging/validate.ts: a text without white space is trimmed already.
use mathlib.Core.List.{reverse-reverse, reverse_aux}
use the_room_backend.Base.{ℕ, ◌≡◌, refl, false, List, [], ◌∷◌, reverse, All}
use the_room_backend.Messaging.Validate.{is_space, trim, trim_start, trim_end}

abbrev pub NoSpace : List ℕ → Type 0
NoSpace s = All (λ c. is_space c ≡ false) s

trim_start-plain : (s : List ℕ) → NoSpace s → trim_start s ≡ s
unfolding trim_start
trim_start-plain [] h = refl
trim_start-plain (c ∷ s) h = rw h.0

NoSpace-reverse_aux : (s r : List ℕ) → NoSpace s → NoSpace r → NoSpace (reverse_aux s r)
NoSpace-reverse_aux [] r hs hr = hr
NoSpace-reverse_aux (c ∷ s) r hs hr = NoSpace-reverse_aux s (c ∷ r) hs.1 (hs.0, hr)

pub trim-plain : (s : List ℕ) → NoSpace s → trim s ≡ s
unfolding trim trim_end
trim-plain s h =
    rw (trim_start-plain s h, trim_start-plain (reverse s) (NoSpace-reverse_aux s [] h tt))
      (reverse-reverse s)
