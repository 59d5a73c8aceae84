-- ===== src/Messaging/Validate/Accepted.antt =====
-- messaging/validate.ts: what holds of a text that `normalizeText` accepts.
use mathlib.Core.List.{reverse_aux}
use the_room_backend.Base.{
  ℕ, zero, suc, ◌+◌, ◌-◌, ◌≤◌, ◌<◌, ◌≡◌, refl, subst, Bool, true, false, not, List, [], ◌∷◌, ◌++◌,
  map, arith, ltb, eqb, if◌then◌else◌, length, take, drop, keep, any, All, All-keep, All-drop,
  All-append, length-append, Bool-cases, inl, inr,
}
use the_room_backend.Messaging.Validate.{
  Unicode, TextLimits, accepts, newline, blank, is_control, is_invisible, is_surrogate, cap_marks,
  fold_returns, space_out, strip, split_lines, add_to_head, join, trim_start, trim_end, trim,
  cap_newlines, tidy, fold_lines, judge, normalize_text,
}

-- A step that adds nothing but newlines and blanks keeps what holds of every character.
module _ (P : ℕ → Type 0) where
  All-split_lines : (s : List ℕ) → All P s → All (All P) (split_lines s)
  unfolding split_lines add_to_head
  All-split_lines [] h = (tt, tt)
  All-split_lines (c ∷ s) h = by_head (split_lines s) (All-split_lines s h.1)
    where
      by_head :
          (ls : List (List ℕ))
          → All (All P) ls
          → All (All P) (if eqb c newline then [] ∷ ls else add_to_head c ls)
      by_head [] hs = ground (arith, h)
      by_head (l ∷ ls) hs = ground (arith, h, hs)

  All-join : (sep : ℕ) (ls : List (List ℕ)) → P sep → All (All P) ls → All P (join sep ls)
  unfolding join
  All-join sep [] p h = tt
  All-join sep (l ∷ []) p h = h.0
  All-join sep (l ∷ (m ∷ ls)) p h = All-append P l _ h.0 (p, All-join sep (m ∷ ls) p h.1)

  All-trim_start : (s : List ℕ) → All P s → All P (trim_start s)
  unfolding trim_start
  All-trim_start [] h = tt
  All-trim_start (c ∷ s) h = ground (arith, All-trim_start s h.1, h)

  All-reverse_aux : (s t : List ℕ) → All P s → All P t → All P (reverse_aux s t)
  All-reverse_aux [] t h ht = ht
  All-reverse_aux (c ∷ s) t h ht = All-reverse_aux s (c ∷ t) h.1 (h.0, ht)

  All-trim_end : (s : List ℕ) → All P s → All P (trim_end s)
  unfolding trim_end
  All-trim_end s h = All-reverse_aux _ [] (All-trim_start _ (All-reverse_aux s [] h tt)) tt

  All-cap_newlines : (run : ℕ) (s : List ℕ) → All P s → All P (cap_newlines run s)
  unfolding cap_newlines
  All-cap_newlines run [] h = tt
  All-cap_newlines run (c ∷ s) h =
      ground (arith, All-cap_newlines (if eqb c newline then suc run else 0) s h.1, h)

  All-map-trim_end : (ls : List (List ℕ)) → All (All P) ls → All (All P) (map trim_end ls)
  All-map-trim_end [] h = tt
  All-map-trim_end (l ∷ ls) h = (All-trim_end l h.0, All-map-trim_end ls h.1)

  All-tidy : (s : List ℕ) → P newline → All P s → All P (tidy s)
  unfolding tidy trim
  All-tidy s of_newline h = All-trim_end _ (
      All-trim_start _ (
        All-cap_newlines 0 _
          (All-join newline _ of_newline (All-map-trim_end _ (All-split_lines s h)))))

  All-take : {A : Type 0} (Q : A → Type 0) (n : ℕ) (xs : List A) → All Q xs → All Q (take n xs)
  All-take Q zero xs h = tt
  All-take Q (suc n) [] h = tt
  All-take Q (suc n) (x ∷ xs) h = (h.0, All-take Q n xs h.1)

  All-fold_lines :
      (most : ℕ) (s : List ℕ) → P newline → P blank → All P s → All P (fold_lines most s)
  unfolding fold_lines
  All-fold_lines most s of_newline of_blank h =
      let lines = All-split_lines s h in
      let tail =
        All-join blank (drop (most - 1) (split_lines s)) of_blank (All-drop (All P) _ _ lines) in
      let folded =
        All-join newline
          (take (most - 1) (split_lines s) ++ join blank (drop (most - 1) (split_lines s)) ∷ [])
          of_newline
          (All-append (All P) (take (most - 1) (split_lines s)) _ (All-take (All P) _ _ lines)
            (tail, tt)) in
      elim (Bool-cases (ltb most (length (split_lines s)))) [ inl e ↦ rw e folded | inr e ↦ rw e h ]

  All-cap_marks :
      (is_mark : ℕ → Bool) (run : ℕ) (s : List ℕ) → All P s → All P (cap_marks is_mark run s)
  unfolding cap_marks
  All-cap_marks is_mark run [] h = tt
  All-cap_marks is_mark run (c ∷ s) h =
      ground (arith, All-cap_marks is_mark (if is_mark c then suc run else 0) s h.1, h)

-- A character that normalisation leaves in a text.
pub record IsPlain (c : ℕ) : Type 0 where
  pub not_control : is_control c ≡ false
  pub not_invisible : is_invisible c ≡ false

All-keep-not : (p : ℕ → Bool) (s : List ℕ) → All (λ c. p c ≡ false) (keep (λ c. not (p c)) s)
All-keep-not p [] = tt
All-keep-not p (c ∷ s) = elim (Bool-cases (p c)) [
  | inl e ↦ rw e (All-keep-not p s)
  | inr e ↦ rw e (e, All-keep-not p s)
]

All-both : (P Q : ℕ → Type 0) (s : List ℕ) → All P s → All Q s → All (λ c. P c × Q c) s
All-both P Q [] hp hq = tt
All-both P Q (c ∷ s) hp hq = ((hp.0, hq.0), All-both P Q s hp.1 hq.1)

plain :
    (s : List ℕ) → All (λ c. (is_control c ≡ false) × (is_invisible c ≡ false)) s → All IsPlain s
plain [] h = tt
plain (c ∷ s) h = (record { not_control = h.0.0; not_invisible = h.0.1 }, plain s h.1)

strip-IsPlain : (u : Unicode) (raw : List ℕ) → All IsPlain (strip u raw)
unfolding strip
strip-IsPlain u raw =
    let s = map space_out (fold_returns false (u.nfc (keep (λ c. not (is_surrogate c)) raw))) in
    let printable = keep (λ c. not (is_control c)) s in
    All-cap_marks IsPlain u.is_mark 0 (keep (λ c. not (is_invisible c)) printable) (
      plain _ (
        All-both _ _ (keep (λ c. not (is_invisible c)) printable)
          (All-keep (λ c. is_control c ≡ false) (λ c. not (is_invisible c)) printable
            (All-keep-not is_control s))
          (All-keep-not is_invisible printable)))

-- The newlines of a text.
abbrev pub newlines : List ℕ → ℕ
newlines [] = 0
newlines (c ∷ s) = (if eqb c newline then 1 else 0) + newlines s

newlines-append : (s t : List ℕ) → newlines (s ++ t) ≡ newlines s + newlines t
newlines-append [] t = omega arith
newlines-append (c ∷ s) t = omega (arith, newlines-append s t)

length-split_lines : (s : List ℕ) → length (split_lines s) ≡ suc (newlines s)
unfolding split_lines add_to_head
length-split_lines [] = refl
length-split_lines (c ∷ s) = by_head (split_lines s) (length-split_lines s)
  where
    by_head :
        (ls : List (List ℕ))
        → length ls ≡ suc (newlines s)
        → length (if eqb c newline then [] ∷ ls else add_to_head c ls) ≡ suc (newlines (c ∷ s))
    by_head [] h = absurd (omega (arith, h))
    by_head (l ∷ ls) h = ground (arith, h)

abbrev InLine : ℕ → Type 0
InLine c = eqb c newline ≡ false

split_lines-InLine : (s : List ℕ) → All (All InLine) (split_lines s)
unfolding split_lines add_to_head
split_lines-InLine [] = (tt, tt)
split_lines-InLine (c ∷ s) = by_head (split_lines s) (split_lines-InLine s)
  where
    by_head :
        (ls : List (List ℕ))
        → All (All InLine) ls
        → All (All InLine) (if eqb c newline then [] ∷ ls else add_to_head c ls)
    by_head [] hs = ground arith
    by_head (l ∷ ls) hs = ground (arith, hs)

newlines-InLine : (s : List ℕ) → All InLine s → newlines s ≡ 0
newlines-InLine [] h = refl
newlines-InLine (c ∷ s) h = ground (arith, h, newlines-InLine s h.1)

newlines-join :
    (ls : List (List ℕ)) → All (All InLine) ls → newlines (join newline ls) ≡ length ls - 1
unfolding join
newlines-join [] h = refl
newlines-join (l ∷ []) h = omega (arith, newlines-InLine l h.0)
newlines-join (l ∷ (m ∷ ls)) h = omega (
  arith,
  newlines-append l (newline ∷ join newline (m ∷ ls)),
  newlines-InLine l h.0,
  newlines-join (m ∷ ls) h.1,
)

length-take : {A : Type 0} (n : ℕ) (xs : List A) → length (take n xs) ≤ n
length-take zero xs = omega arith
length-take (suc n) [] = omega arith
length-take (suc n) (x ∷ xs) = omega (arith, length-take n xs)

newlines-fold_lines : (most : ℕ) (s : List ℕ) → newlines (fold_lines most s) ≤ most - 1
unfolding fold_lines
newlines-fold_lines most s =
    let lines = split_lines-InLine s in
    let first = take (most - 1) (split_lines s) in
    let rest = drop (most - 1) (split_lines s) in
    let tail = All-join InLine blank rest refl (All-drop (All InLine) _ _ lines) in
    let folded =
      newlines-join (first ++ join blank rest ∷ [])
        (All-append (All InLine) first _ (All-take InLine (All InLine) _ _ lines) (tail, tt)) in
    elim (Bool-cases (ltb most (length (split_lines s)))) [
      | inl e ↦ rw e (
          omega (
            arith,
            folded,
            length-append first (join blank rest ∷ []),
            length-take (most - 1) (split_lines s),
          ))
      | inr e ↦ rw e (ground (arith, e, length-split_lines s))
    ]

-- Of every text that validation accepts: it is not empty and not too long, something in it is
-- visible, it has at most the allowed lines, and no control or invisible character is left.
pub record IsAcceptable (u : Unicode) (limits : TextLimits) (text : List ℕ) : Type 0 where
  pub some_text : 0 < length text
  pub short : length text ≤ limits.max_length
  pub visible : any u.is_visible text ≡ true
  pub few_lines : newlines text ≤ limits.max_lines - 1
  pub all_plain : All IsPlain text

judge_lem :
    (u : Unicode) (limits : TextLimits) (s text : List ℕ)
    → judge u limits s ≡ accepts text
    → (s ≡ text) × (0 < length s) × (length s ≤ limits.max_length) × (any u.is_visible s ≡ true)
unfolding judge
judge_lem u limits s text h = ground (arith, h)

-- Whatever the client sends and whatever the Unicode database says: a text that validation accepts
-- is not empty and not longer than the limit, has a visible character, has at most as many lines as
-- the limit allows, and has no control character but newlines and no invisible one.
pub normalize_text-IsAcceptable :
    (u : Unicode) (limits : TextLimits) (raw text : List ℕ)
    → normalize_text u limits raw ≡ accepts text
    → IsAcceptable u limits text
unfolding normalize_text is_control is_invisible
normalize_text-IsAcceptable u limits raw text h =
    let s = fold_lines limits.max_lines (tidy (strip u raw)) in
    let (same, some_text, short, visible) = judge_lem u limits s text h in
    let plain_newline : IsPlain newline = record { not_control = refl; not_invisible = refl } in
    let plain_blank : IsPlain blank = record { not_control = refl; not_invisible = refl } in
    subst (IsAcceptable u limits) same (record {
      some_text = some_text;
      short = short;
      visible = visible;
      few_lines = newlines-fold_lines limits.max_lines (tidy (strip u raw));
      all_plain =
          All-fold_lines IsPlain limits.max_lines _ plain_newline plain_blank
            (All-tidy IsPlain _ plain_newline (strip-IsPlain u raw));
    })
