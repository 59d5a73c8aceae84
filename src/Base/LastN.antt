-- ===== src/Base/LastN.antt =====
-- The last elements of a list.
use Prim.Native.Nat.{ℕ, zero, suc, ◌+◌, ◌-◌, ◌≤◌, min}
use mathlib.Core.Path.{◌≡◌, refl, ap, sym, ◌∙◌}
use mathlib.Core.List.{List, [], ◌∷◌, ◌++◌}
use native.Mathlib.Omega.{arith}
use the_room_backend.Base.Lists.{length, drop, last_n, length-append, length-drop}

module _ {ℓ} {A : Type ℓ} where
  drop-nil : (n : ℕ) → drop {A = A} n [] ≡ []
  drop-nil zero = refl
  drop-nil (suc n) = refl

  drop-drop : (a b : ℕ) (xs : List A) → drop a (drop b xs) ≡ drop (b + a) xs
  drop-drop a zero xs = ap (λ n. drop n xs) (omega arith)
  drop-drop a (suc b) [] = drop-nil a ∙ sym (drop-nil (suc b + a))
  drop-drop a (suc b) (x ∷ xs) = drop-drop a b xs ∙ ap (λ n. drop n (x ∷ xs)) shift
    where
      shift : suc (b + a) ≡ suc b + a
      shift = omega arith

  drop-append : (n : ℕ) (xs ys : List A) → n ≤ length xs → drop n xs ++ ys ≡ drop n (xs ++ ys)
  drop-append zero xs ys h = refl
  drop-append (suc n) [] ys h = absurd (omega arith)
  drop-append (suc n) (x ∷ xs) ys h = drop-append n xs ys (omega arith)

  -- Cutting before an append changes nothing where the result is cut again.
  pub last_n-append : (c : ℕ) (xs ys : List A) → last_n c (last_n c xs ++ ys) ≡ last_n c (xs ++ ys)
  last_n-append c xs ys =
      let d = length xs - c in
      ap (last_n c) (drop-append d xs ys (omega arith))
      ∙ drop-drop (length (drop d (xs ++ ys)) - c) d (xs ++ ys)
      ∙ ap (λ n. drop n (xs ++ ys)) (omega (arith, length-drop d (xs ++ ys), length-append xs ys))

  pub last_n-last_n : (l c : ℕ) (xs : List A) → last_n l (last_n c xs) ≡ last_n (min l c) xs
  last_n-last_n l c xs =
      drop-drop (length (last_n c xs) - l) (length xs - c) xs
      ∙ ap (λ n. drop n xs) (omega (arith, length-drop (length xs - c) xs))

  pub last_n_all : (c : ℕ) (xs : List A) → length xs ≤ c → last_n c xs ≡ xs
  last_n_all c xs h = ap (λ n. drop n xs) (let e : length xs - c ≡ 0 = omega arith in e)

  drop-length : (xs : List A) → drop (length xs) xs ≡ []
  drop-length [] = refl
  drop-length (x ∷ xs) = drop-length xs

  pub last_n_zero : (xs : List A) → last_n 0 xs ≡ []
  last_n_zero xs =
      ap (λ n. drop n xs) (let e : length xs - 0 ≡ length xs = omega arith in e) ∙ drop-length xs
