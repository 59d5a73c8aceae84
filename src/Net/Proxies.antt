-- ===== src/Net/Proxies.antt =====
-- net/ip.ts: what a client can make of its own address.
use the_room_backend.Base.{
  ℕ, ◌≡◌, refl, ap, Bool, true, false, not, none, some, List, [], ◌∷◌, ◌++◌, map, eqb, eqb_iff,
  arith, keep, All, Bool-cases, inl, inr,
}
use the_room_backend.Messaging.Validate.{trim}
use the_room_backend.Net.Text.{Chars, comma, split_on, onto_head, is_empty}
use the_room_backend.Net.Ip.{Headers, client_ip, forwarded, connecting_ip, last_of}

module _ {A B : Type 0} where
  map-append : (f : A → B) (xs ys : List A) → map f (xs ++ ys) ≡ map f xs ++ map f ys
  map-append f [] ys = refl
  map-append f (x ∷ xs) ys = ap (λ zs. f x ∷ zs) (map-append f xs ys)

keep-append : (p : Chars → Bool) (xs ys : List Chars) → keep p (xs ++ ys) ≡ keep p xs ++ keep p ys
keep-append p [] ys = refl
keep-append p (x ∷ xs) ys = ground (arith, keep-append p xs ys)

last_of-append : (xs : List Chars) (x : Chars) → last_of (xs ++ x ∷ []) ≡ some x
unfolding last_of
last_of-append [] x = refl
last_of-append (y ∷ []) x = refl
last_of-append (y ∷ (z ∷ xs)) x = last_of-append (z ∷ xs) x

-- A text without the separator is one part.
pub split_on-single :
    (sep : ℕ) (s : Chars) → All (λ c. eqb c sep ≡ false) s → split_on sep s ≡ s ∷ []
unfolding split_on
split_on-single sep [] h = refl
split_on-single sep (c ∷ s) h = rw (h.0, split_on-single sep s h.1)

onto_head-twice :
    (c d : ℕ) (ls more : List Chars)
    → onto_head c (onto_head d ls ++ more) ≡ onto_head c (onto_head d ls) ++ more
onto_head-twice c d [] more = refl
onto_head-twice c d (l ∷ ls) more = refl

onto_head-append :
    (c : ℕ) (s : Chars) (sep : ℕ) (more : List Chars)
    → onto_head c (split_on sep s ++ more) ≡ onto_head c (split_on sep s) ++ more
unfolding split_on
onto_head-append c [] sep more = refl
onto_head-append c (d ∷ s) sep more = elim (Bool-cases (eqb d sep)) [
  | inl e ↦ rw e
  | inr e ↦ rw e (onto_head-twice c d (split_on sep s) more)
]

-- What stands after the last separator is the last part.
pub split_on-append :
    (sep : ℕ) (s t : Chars) → split_on sep (s ++ sep ∷ t) ≡ split_on sep s ++ split_on sep t
unfolding split_on
split_on-append sep [] t = rw ((eqb_iff sep sep).1 refl)
split_on-append sep (c ∷ s) t = elim (Bool-cases (eqb c sep)) [
  | inl e ↦ rw (e, split_on-append sep s t)
  | inr e ↦ rw (e, split_on-append sep s t, onto_head-append c s sep (split_on sep t))
]

-- Behind a proxy that appends to X-Forwarded-For the address it sees, a client's address is that
-- one, whatever entries the client sends before it.
pub client_ip-rightmost :
    (is_ip : Chars → ℕ) (h : Headers) (claimed entry ip : Chars)
    → connecting_ip is_ip h.cf_connecting_ip ≡ none
    → h.x_forwarded_for ≡ some (claimed ++ comma ∷ entry)
    → All (λ c. eqb c comma ≡ false) entry
    → trim entry ≡ ip
    → is_empty ip ≡ false
    → eqb (is_ip ip) 0 ≡ false
    → client_ip is_ip h true ≡ ip
unfolding client_ip forwarded
client_ip-rightmost is_ip h claimed entry ip no_cf xff single trimmed nonempty valid = rw (
  no_cf,
  xff,
  split_on-append comma claimed entry,
  split_on-single comma entry single,
  map-append trim (split_on comma claimed) (entry ∷ []),
  trimmed,
  keep-append (λ p. not (is_empty p)) (map trim (split_on comma claimed)) (ip ∷ []),
  nonempty,
  last_of-append (keep (λ p. not (is_empty p)) (map trim (split_on comma claimed))) ip,
  valid,
)
