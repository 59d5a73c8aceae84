-- ===== src/Base/Dict.antt =====
-- A JavaScript `Map` with string keys: an association list in insertion order. `set` on a key that
-- is there keeps its place; on a new key it appends.
use Prim.Native.Nat.{◌+◌, ◌≤◌}
use Prim.Native.String.{String}
use mathlib.Core.Path.{◌≡◌, refl, ap}
use mathlib.Core.Bool.{Bool}
use mathlib.Core.Logic.{inl, inr}
use mathlib.Core.Option.{Option, none, some}
use mathlib.Core.List.{List, [], ◌∷◌}
use native.Mathlib.Omega.{arith}
use text.Mathlib.Text.{◌==◌}
use text.Mathlib.TextEquality.{eq_iff}
use the_room_backend.Base.Tests.{Bool-cases, if◌then◌else◌}
use the_room_backend.Base.Lists.{length}

abbrev pub Dict {ℓ} : Type ℓ → Type ℓ
Dict V = List (String × V)

module _ {ℓ} {V : Type ℓ} where
  unfoldable pub lookup : String → Dict V → Option V
  lookup k [] = none
  lookup k ((j, v) ∷ m) = if j == k then some v else lookup k m

  unfoldable pub insert : String → V → Dict V → Dict V
  insert k v [] = (k, v) ∷ []
  insert k v ((j, w) ∷ m) = if j == k then (j, v) ∷ m else (j, w) ∷ insert k v m

  unfoldable pub delete : String → Dict V → Dict V
  delete k [] = []
  delete k ((j, w) ∷ m) = let rest = delete k m in if j == k then rest else (j, w) ∷ rest

  -- Deletes every key that passes the test.
  unfoldable pub delete_if : (String → Bool) → Dict V → Dict V
  delete_if p [] = []
  delete_if p ((j, w) ∷ m) = let rest = delete_if p m in if p j then rest else (j, w) ∷ rest

  pub lookup-insert :
      (key asked : String) (x : V) (d : Dict V)
      → lookup asked (insert key x d) ≡ (if key == asked then some x else lookup asked d)
  unfolding lookup insert
  lookup-insert key asked x [] = refl
  lookup-insert key asked x ((first, y) ∷ rest) =
      let later = lookup-insert key asked x rest in
      ground (arith, later, eq_iff first key, eq_iff first asked, eq_iff key asked)

  pub lookup-delete :
      (k j : String) (m : Dict V) → lookup j (delete k m) ≡ (if k == j then none else lookup j m)
  unfolding lookup delete
  lookup-delete k j [] = ground arith
  lookup-delete k j ((i, w) ∷ m) =
      ground (arith, eq_iff k j, eq_iff i k, eq_iff i j, lookup-delete k j m)

module _ {ℓ} {V : Type ℓ} where
  pub lookup-delete_if :
      (p : String → Bool) (j : String) (m : Dict V)
      → lookup j (delete_if p m) ≡ (if p j then none else lookup j m)
  unfolding lookup delete_if
  lookup-delete_if p j [] = ground arith
  lookup-delete_if p j ((i, w) ∷ m) = elim (Bool-cases (i == j)) [
    | inl e ↦ ground (arith, ap p ((eq_iff i j).0 e), lookup-delete_if p j m)
    | inr e ↦ ground (arith, lookup-delete_if p j m)
  ]

  pub length-insert-le : (k : String) (v : V) (m : Dict V) → length (insert k v m) ≤ length m + 1
  unfolding insert
  length-insert-le k v [] = omega arith
  length-insert-le k v ((j, w) ∷ m) = ground (arith, length-insert-le k v m)

pub ruleset dict_laws = (lookup-insert, lookup-delete, lookup-delete_if)
