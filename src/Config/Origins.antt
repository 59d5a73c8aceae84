-- ===== src/Config/Origins.antt =====
-- config.ts: the origins that `loadConfig` lets through, and what net/origin.ts makes of them.
use the_room_backend.Base.{
  ℕ, ◌≡◌, refl, sym, Bool, true, false, false≢true, not, ◌&&◌, ◌||◌, Option, none, some, [], ◌∷◌,
  ◌++◌, eqb, eqb_iff, arith, if◌then◌else◌, All, All-append, Bool-cases, inl, inr, subst, some-none,
}
use the_room_backend.Messaging.Validate.{is_space, between}
use the_room_backend.Messaging.Validate.Trimmed.{NoSpace, trim-plain}
use the_room_backend.Net.Text.{Chars, colon, slash, is_empty, equal, strip_slashes}
use the_room_backend.Net.Origin.{normalize_origin}
use the_room_backend.Net.Pattern.{and_inv}
use the_room_backend.Net.Ip.{all_digits}
use the_room_backend.Config.{is_origin, is_host, host_after, host_char, after, https, http}

-- A character that an origin may have.
abbrev pub plain : ℕ → Bool
plain c = host_char c || (eqb c colon || eqb c slash)

abbrev pub IsPlainText : Chars → Type 0
IsPlainText s = All (λ c. plain c ≡ true) s

plain-space : (c : ℕ) → plain c ≡ true → is_space c ≡ false
unfolding is_space
plain-space c h = ground (arith, h)

plain-NoSpace : (s : Chars) → IsPlainText s → NoSpace s
plain-NoSpace [] h = tt
plain-NoSpace (c ∷ s) h = (plain-space c h.0, plain-NoSpace s h.1)

-- A character of a host or a port.
abbrev inner : ℕ → Bool
inner c = host_char c || eqb c colon

digits_inner : (s : Chars) → all_digits s ≡ true → All (λ c. inner c ≡ true) s
unfolding all_digits
digits_inner [] h = tt
digits_inner (c ∷ s) h =
    let (digit, more) = and_inv (between 48 57 c) _ h in
    (ground (arith, digit), digits_inner s more)

host_inner : (seen : Bool) (s : Chars) → is_host seen s ≡ true → All (λ c. inner c ≡ true) s
unfolding is_host
host_inner seen [] h = tt
host_inner seen (c ∷ s) h =
    let port = not (is_empty s) && all_digits s in
    let choice : Bool → Bool = λ b. if b then is_host true s else (seen && (eqb c colon && port)) in
    elim (Bool-cases (host_char c)) [
      | inl e ↦ (ground (arith, e), host_inner true s (subst (λ b. choice b ≡ true) e h))
      | inr e ↦
          let (is_colon, has_port) =
            and_inv (eqb c colon) port
              (and_inv seen (eqb c colon && port) (subst (λ b. choice b ≡ true) e h)).1 in
          (
            ground (arith, is_colon),
            digits_inner s (and_inv (not (is_empty s)) (all_digits s) has_port).1,
          )
    ]

pub host_present : (s : Chars) → is_host false s ≡ true → is_empty s ≡ false
unfolding is_host
host_present [] h = absurd (false≢true h)
host_present (c ∷ s) h = refl

after_inv : (p s rest : Chars) → after p s ≡ some rest → s ≡ p ++ rest
unfolding after
after_inv [] s rest h = cc
after_inv (c ∷ p) [] rest h = absurd (some-none rest (sym h))
after_inv (c ∷ p) (d ∷ s) rest h =
    let choice : Bool → Option Chars = λ b. if b then after p s else none in
    elim (Bool-cases (eqb c d)) [
      | inl e ↦ cc ((eqb_iff c d).0 e, after_inv p s rest (subst (λ b. choice b ≡ some rest) e h))
      | inr e ↦ absurd (some-none rest (sym (subst (λ b. choice b ≡ some rest) e h)))
    ]

inner_plain : (s : Chars) → All (λ c. inner c ≡ true) s → IsPlainText s
inner_plain [] h = tt
inner_plain (c ∷ s) h = (ground (arith, h.0), inner_plain s h.1)

-- Nothing is stripped from a text that has no slash, and so not from one that ends in such a text.
strip_slashes-inner : (s : Chars) → All (λ c. inner c ≡ true) s → strip_slashes s ≡ s
unfolding strip_slashes
strip_slashes-inner [] h = refl
strip_slashes-inner (c ∷ s) h =
    let no_slash : eqb c slash ≡ false = ground (arith, h.0) in
    elim (Bool-cases (is_empty s)) [
      | inl e ↦ rw (strip_slashes-inner s h.1, no_slash, e)
      | inr e ↦ rw (strip_slashes-inner s h.1, no_slash, e)
    ]

append_present : (p s : Chars) → is_empty s ≡ false → is_empty (p ++ s) ≡ false
append_present [] s present = present
append_present (c ∷ p) s present = refl

strip_slashes-append :
    (p s : Chars) → strip_slashes s ≡ s → is_empty s ≡ false → strip_slashes (p ++ s) ≡ p ++ s
unfolding strip_slashes
strip_slashes-append [] s same present = same
strip_slashes-append (c ∷ p) s same present =
    rw (strip_slashes-append p s same present, append_present p s present)

https_plain : IsPlainText https
https_plain = (refl, (refl, (refl, (refl, (refl, (refl, (refl, (refl, tt))))))))

http_plain : IsPlainText http
http_plain = (refl, (refl, (refl, (refl, (refl, (refl, (refl, tt)))))))

host_after_inv :
    (rest : Option Chars)
    → host_after rest ≡ true
    → (host : Chars) × (rest ≡ some host) × (is_host false host ≡ true)
host_after_inv none h = absurd (false≢true h)
host_after_inv (some host) h = (host, refl, h)

-- What stands before the host of an origin, and its host and port.
record Shape (o : Chars) : Type 0 where
  scheme : Chars
  host : Chars
  parts : o ≡ scheme ++ host
  scheme_plain : IsPlainText scheme
  host_fits : is_host false host ≡ true

after-Shape : (p o : Chars) → IsPlainText p → host_after (after p o) ≡ true → Shape o
after-Shape p o plain_p h =
    let (host, found, fits) = host_after_inv (after p o) h in
    record {
      scheme = p;
      host = host;
      parts = after_inv p o host found;
      scheme_plain = plain_p;
      host_fits = fits;
    }

is_origin-Shape : (o : Chars) → is_origin o ≡ true → Shape o
unfolding is_origin
is_origin-Shape o h = elim (Bool-cases (host_after (after https o))) [
  | inl e ↦ after-Shape https o https_plain e
  | inr e ↦ after-Shape http o http_plain (subst (λ b. (b || host_after (after http o)) ≡ true) e h)
]

pub origin_present : (o : Chars) → is_origin o ≡ true → is_empty o ≡ false
unfolding is_origin after
origin_present [] h = absurd (false≢true h)
origin_present (c ∷ o) h = refl

module _ (lower : Chars → Chars) (same : (s : Chars) → IsPlainText s → lower s ≡ s) where
  pub normalize_origin-plain : (o : Chars) → is_origin o ≡ true → normalize_origin lower o ≡ o
  unfolding normalize_origin
  normalize_origin-plain o h =
      let shape = is_origin-Shape o h in
      let inside = host_inner false shape.host shape.host_fits in
      let text = shape.scheme ++ shape.host in
      let plain_text =
        All-append (λ c. plain c ≡ true) shape.scheme shape.host shape.scheme_plain
          (inner_plain shape.host inside) in
      rw (shape.parts, trim-plain text (plain-NoSpace text plain_text), same text plain_text)
        (strip_slashes-append shape.scheme shape.host (strip_slashes-inner shape.host inside)
          (host_present shape.host shape.host_fits))

pub equal_refl : (s : Chars) → equal s s ≡ true
unfolding equal
equal_refl [] = refl
equal_refl (c ∷ s) = rw ((eqb_iff c c).1 refl) (equal_refl s)
