-- ===== src/Net/Ip.antt =====
-- net/ip.ts: the address of a client and the key of its network. `isIP` of node, which gives 4, 6
-- or 0, `toLowerCase` and the keyed hash of identity/tokens.ts are parameters.
use the_room_backend.Base.{
  ℕ, zero, suc, ◌-◌, Bool, true, false, not, ◌&&◌, ◌||◌, Option, none, some, List, [], ◌∷◌, ◌++◌,
  map, String, eqb, if◌then◌else◌, or_else, length, take, keep,
}
use the_room_backend.Messaging.Validate.{trim, between, join}
use the_room_backend.Gateway.World.{NetworkIdentity}
use the_room_backend.Net.Text.{Chars, colon, comma, dot, is_empty, first_two, split_on}

-- The headers that a proxy sets, and the address of the socket's peer. A header that is sent twice
-- is joined by commas.
pub record Headers : Type 0 where
  pub cf_connecting_ip : Option Chars
  pub x_forwarded_for : Option Chars
  pub remote_address : Option Chars

unfoldable pub last_of : List Chars → Option Chars
last_of [] = none
last_of (x ∷ []) = some x
last_of (x ∷ (y ∷ xs)) = last_of (y ∷ xs)

abbrev if_ip : (is_ip : Chars → ℕ) → Option Chars → Option Chars
if_ip is_ip none = none
if_ip is_ip (some ip) = if eqb (is_ip ip) 0 then none else some ip

-- The right-most entry that is not empty.
unfoldable pub forwarded : (is_ip : Chars → ℕ) → Option Chars → Option Chars
unfolding last_of if_ip
forwarded is_ip none = none
forwarded is_ip (some raw) =
    if_ip is_ip (last_of (keep (λ p. not (is_empty p)) (map trim (split_on comma raw))))

unfoldable pub connecting_ip : (is_ip : Chars → ℕ) → Option Chars → Option Chars
unfolding if_ip
connecting_ip is_ip none = none
connecting_ip is_ip (some cf) = if_ip is_ip (some (trim cf))

abbrev pub first_some : Option Chars → Option Chars → Option Chars
first_some none o = o
first_some (some a) o = some a

-- "0.0.0.0"
abbrev pub no_address : Chars
no_address = 48 ∷ 46 ∷ 48 ∷ 46 ∷ 48 ∷ 46 ∷ 48 ∷ []

unfoldable pub client_ip : (is_ip : Chars → ℕ) → Headers → (trust_proxy : Bool) → Chars
client_ip is_ip h trust_proxy =
    let direct = or_else h.remote_address no_address in
    if trust_proxy
    then or_else
        (first_some (connecting_ip is_ip h.cf_connecting_ip) (forwarded is_ip h.x_forwarded_for))
        direct
    else direct

unfoldable pub all_digits : Chars → Bool
all_digits [] = true
all_digits (c ∷ s) = between 48 57 c && all_digits s

-- `\d+`
abbrev is_number : Chars → Bool
is_number s = not (is_empty s) && all_digits s

-- `\d+\.\d+\.\d+\.\d+`
unfoldable pub is_quad : List Chars → Bool
unfolding all_digits
is_quad (a ∷ (b ∷ (c ∷ (d ∷ [])))) = is_number a && (is_number b && (is_number c && is_number d))
is_quad _ = false

abbrev is_f : ℕ → Bool
is_f c = eqb c 102 || eqb c 70

abbrev is_colon : ℕ → Bool
is_colon c = eqb c colon

-- What follows characters that pass the tests, where a text begins with them.
unfoldable pub after_prefix : List (ℕ → Bool) → Chars → Option Chars
after_prefix [] s = some s
after_prefix (p ∷ ps) [] = none
after_prefix (p ∷ ps) (c ∷ s) = let rest = after_prefix ps s in if p c then rest else none

-- The text after "::ffff:", in either case.
abbrev after_mapping : Chars → Option Chars
after_mapping = after_prefix (is_colon ∷ is_colon ∷ is_f ∷ is_f ∷ is_f ∷ is_f ∷ is_colon ∷ [])

abbrev if_quad : Option Chars → Option Chars
if_quad none = none
if_quad (some rest) = if is_quad (split_on dot rest) then some rest else none

unfoldable pub mapped_v4 : Chars → Option Chars
unfolding if_quad
mapped_v4 ip = if_quad (after_mapping ip)

unfoldable pub repeated : {A : Type 0} → ℕ → A → List A
repeated zero a = []
repeated (suc n) a = a ∷ repeated n a

-- `x.padStart(4, "0").toLowerCase()`
unfoldable pub group_of : (lower : Chars → Chars) → Chars → Chars
group_of lower x = lower (repeated (4 - length x) 48 ++ x)

-- `part ? part.split(":") : []`
abbrev pub groups_in : Chars → List Chars
groups_in part = if is_empty part then [] else split_on colon part

-- The groups that "::" stands for are zeros.
unfoldable pub filled : (h t : List Chars) → List Chars
filled h t = h ++ (repeated (8 - length h - length t) (48 ∷ []) ++ t)

unfoldable pub expand_v6 : (lower : Chars → Chars) → Chars → Chars
expand_v6 lower ip =
    let (head, tail) = first_two (colon ∷ colon ∷ []) ip in
    join colon (map (group_of lower) (filled (groups_in head) (groups_in (or_else tail []))))

-- "::/64"
abbrev pub prefix_end : Chars
prefix_end = 58 ∷ 58 ∷ 47 ∷ 54 ∷ 52 ∷ []

unfoldable pub network_key : (is_ip : Chars → ℕ) → (lower : Chars → Chars) → Chars → Chars
network_key is_ip lower ip = or_else (mapped_v4 ip) (
    if eqb (is_ip ip) 6
    then join colon (take 4 (split_on colon (expand_v6 lower ip))) ++ prefix_end
    else ip)

abbrev bar : ℕ
bar = 124

-- The two hashes: of the day's room and the network, and of the network.
unfoldable pub network_identity :
    (hmac : (secret : String) → Chars → String)
    → (is_ip : Chars → ℕ) → (lower : Chars → Chars) → (secret : String) → (room_id ip : Chars)
    → NetworkIdentity
network_identity hmac is_ip lower secret room_id ip =
    let net = network_key is_ip lower ip in
    record {
      daily_hash = hmac secret ((100 ∷ bar ∷ []) ++ (room_id ++ bar ∷ net));
      block_hash = hmac secret ((98 ∷ bar ∷ []) ++ net);
    }
