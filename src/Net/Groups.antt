-- ===== src/Net/Groups.antt =====
-- net/ip.ts: how the groups of an IPv6 address come out of its text.
use the_room_backend.Base.{
  ℕ, ◌≡◌, refl, sym, ap, false, false≢true, none, some, List, [], ◌∷◌, ◌++◌, eqb, arith, All, subst,
}
use the_room_backend.Messaging.Validate.{join}
use the_room_backend.Net.Text.{Chars, colon, split_on, is_empty, is_prefix, cut, first_two}
use the_room_backend.Net.Ip.{groups_in}
use the_room_backend.Net.Proxies.{split_on-append, split_on-single}

abbrev pub NoColon : Chars → Type 0
NoColon s = All (λ c. eqb c colon ≡ false) s

abbrev pub IsGroup : Chars → Type 0
IsGroup g = (is_empty g ≡ false) × NoColon g

pub split_on-join :
    (g : Chars) (gs : List Chars)
    → All NoColon (g ∷ gs)
    → split_on colon (join colon (g ∷ gs)) ≡ g ∷ gs
unfolding join
split_on-join g [] h = split_on-single colon g h.0
split_on-join g (m ∷ gs) h = rw (
  split_on-append colon g (join colon (m ∷ gs)),
  split_on-single colon g h.0,
  split_on-join m gs h.1,
)

-- Before "::", the text of groups is one part; the rest is cut as it is without them.
abbrev twice : Chars
twice = colon ∷ colon ∷ []

flip : (a b : ℕ) → eqb a b ≡ false → eqb b a ≡ false
flip a b h = ground (arith, h)

cut-append :
    (g s : Chars) → NoColon g → cut twice (g ++ s) ≡ (g ++ (cut twice s).0, (cut twice s).1)
unfolding cut is_prefix
cut-append [] s h = refl
cut-append (c ∷ g) s h = rw (flip c colon h.0, cut-append g s h.1)

cut-colon :
    (c : ℕ) (s : Chars)
    → eqb c colon ≡ false
    → cut twice (colon ∷ c ∷ s) ≡ (colon ∷ (cut twice (c ∷ s)).0, (cut twice (c ∷ s)).1)
unfolding cut is_prefix
cut-colon c s h = rw (flip c colon h)

append_assoc : (s t u : Chars) → (s ++ t) ++ u ≡ s ++ (t ++ u)
append_assoc [] t u = refl
append_assoc (c ∷ s) t u = ap (λ x. c ∷ x) (append_assoc s t u)

pub append_nil : {A : Type 0} (s : List A) → s ++ [] ≡ s
append_nil [] = refl
append_nil (c ∷ s) = ap (λ x. c ∷ x) (append_nil s)

-- The text of groups begins as its first group does.
pub join_begins :
    (c : ℕ) (g : Chars) (gs : List Chars) → (s : Chars) × (join colon ((c ∷ g) ∷ gs) ≡ c ∷ s)
unfolding join
join_begins c g [] = (g, refl)
join_begins c g (m ∷ gs) = (g ++ (colon ∷ join colon (m ∷ gs)), refl)

cut_past_colon :
    (m : Chars) (gs : List Chars) (s : Chars)
    → IsGroup m
    → cut twice (colon ∷ (join colon (m ∷ gs) ++ s))
      ≡ (colon ∷ (cut twice (join colon (m ∷ gs) ++ s)).0, (cut twice (join colon (m ∷ gs) ++ s)).1)
cut_past_colon [] gs s h = absurd (false≢true (sym h.0))
cut_past_colon (c ∷ m) gs s h =
    let (rest, begins) = join_begins c m gs in rw (begins) (cut-colon c (rest ++ s) h.1.0)

pub cut-join :
    (gs : List Chars) (s : Chars)
    → All IsGroup gs
    → cut twice (join colon gs ++ s) ≡ (join colon gs ++ (cut twice s).0, (cut twice s).1)
unfolding join
cut-join [] s h = refl
cut-join (g ∷ []) s h = cut-append g s h.0.1
cut-join (g ∷ (m ∷ gs)) s h =
    let later = join colon (m ∷ gs) in
    rw (
      append_assoc g (colon ∷ later) s,
      cut-append g (colon ∷ (later ++ s)) h.0.1,
      cut_past_colon m gs s h.1.0,
      cut-join (m ∷ gs) s h.1,
      append_assoc g (colon ∷ later) (cut twice s).0,
    )

no_colons : (gs : List Chars) → All IsGroup gs → All NoColon gs
no_colons [] h = tt
no_colons (g ∷ gs) h = (h.0.1, no_colons gs h.1)

pub groups_in-join : (gs : List Chars) → All IsGroup gs → groups_in (join colon gs) ≡ gs
unfolding join
groups_in-join [] h = refl
groups_in-join ([] ∷ gs) h = absurd (false≢true (sym h.0.0))
groups_in-join ((c ∷ g) ∷ gs) h =
    let (rest, begins) = join_begins c g gs in
    let splits = split_on-join (c ∷ g) gs (no_colons ((c ∷ g) ∷ gs) h) in
    rw begins (subst (λ s. split_on colon s ≡ (c ∷ g) ∷ gs) begins splits)

cut-full : (gs : List Chars) → All IsGroup gs → cut twice (join colon gs) ≡ (join colon gs, none)
unfolding cut
cut-full gs h =
    let with_nil = cut-join gs [] h in
    let nil = append_nil (join colon gs) in subst (λ s. cut twice s ≡ (s, none)) nil (with_nil)

-- A text with "::" between its groups, and one without.
pub first_two-compressed :
    (h t : List Chars)
    → All IsGroup h
    → All IsGroup t
    → first_two twice (join colon h ++ (colon ∷ (colon ∷ join colon t)))
      ≡ (join colon h, some (join colon t))
unfolding first_two cut is_prefix
first_two-compressed h t hh ht =
    rw (cut-join h (colon ∷ (colon ∷ join colon t)) hh, append_nil (join colon h), cut-full t ht)

pub first_two-full :
    (gs : List Chars) → All IsGroup gs → first_two twice (join colon gs) ≡ (join colon gs, none)
unfolding first_two cut
first_two-full gs h = rw (cut-full gs h)
