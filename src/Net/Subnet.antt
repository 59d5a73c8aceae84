-- ===== src/Net/Subnet.antt =====
-- net/ip.ts: the key of an IPv6 address is that of its /64 network, however it is written.
use the_room_backend.Base.{
  ℕ, zero, suc, ◌+◌, ◌-◌, ◌*◌, ◌/◌, ◌%◌, ◌<◌, ◌≤◌, ◌≡◌, refl, sym, ap, ◌∙◌, true, false, false≢true,
  ◌||◌, if◌then◌else◌, none, List, [], ◌∷◌, ◌++◌, map, leb, ltb, eqb, arith, All, All-append, take,
  length, length-append,
}
use the_room_backend.Messaging.Validate.{join, between}
use the_room_backend.Net.Text.{Chars, colon, split_on}
use the_room_backend.Net.Ip.{
  network_key, expand_v6, filled, repeated, group_of, mapped_v4, after_prefix, prefix_end,
}
use the_room_backend.Net.Groups.{
  NoColon, IsGroup, append_nil, join_begins, split_on-join, groups_in-join, first_two-compressed,
  first_two-full,
}

-- The digit that a character is in base 16, in either case.
abbrev pub digit_of : ℕ → ℕ
digit_of c = if leb 97 c then c - 87 else if leb 65 c then c - 55 else c - 48

abbrev pub IsHex : ℕ → Type 0
IsHex c = (between 48 57 c || (between 65 70 c || between 97 102 c)) ≡ true

-- One to four digits.
pub record IsHexGroup (g : Chars) : Type 0 where
  pub some_digits : 1 ≤ length g
  pub few_digits : length g ≤ 4
  pub hex : All IsHex g

-- The number that a group writes.
abbrev pub number_from : ℕ → Chars → ℕ
number_from n [] = n
number_from n (c ∷ g) = number_from (n * 16 + digit_of c) g

abbrev pub number_of : Chars → ℕ
number_of g = number_from 0 g

-- A number below 65536 in four digits, with small letters.
abbrev pub hex_char : ℕ → ℕ
hex_char d = if ltb d 10 then 48 + d else 87 + d

abbrev pub four_digits : ℕ → Chars
four_digits n =
    hex_char (n / 4096 % 16)
    ∷ hex_char (n / 256 % 16)
    ∷ hex_char (n / 16 % 16)
    ∷ hex_char (n % 16)
    ∷ []

-- The key of a network of IPv6: its first four numbers, and the mark of a /64.
unfoldable pub subnet : List ℕ → Chars
subnet ns = join colon (take 4 (map four_digits ns)) ++ prefix_end

-- What `toLowerCase` does to the digits of base 16.
abbrev pub small : ℕ → ℕ
small c = if between 65 70 c then c + 32 else c

abbrev pub Lowers : (lower : Chars → Chars) → Type 0
Lowers lower = (s : Chars) → All IsHex s → lower s ≡ map small s

digit_of-lt : (c : ℕ) → IsHex c → digit_of c < 16
digit_of-lt c h = ground (arith, h)

small-hex_char : (c : ℕ) → IsHex c → small c ≡ hex_char (digit_of c)
small-hex_char c h = ground (arith, h)

hex_char-at : (c n : ℕ) → IsHex c → n ≡ digit_of c → small c ≡ hex_char n
hex_char-at c n h e = small-hex_char c h ∙ ap hex_char (sym e)

-- The four places of a number.
small_four :
    (a b c d n : ℕ)
    → IsHex a
    → IsHex b
    → IsHex c
    → IsHex d
    → n ≡ ((digit_of a * 16 + digit_of b) * 16 + digit_of c) * 16 + digit_of d
    → map small (a ∷ b ∷ c ∷ d ∷ []) ≡ four_digits n
small_four a b c d n ha hb hc hd e =
    let lx = digit_of-lt a ha in
    let ly = digit_of-lt b hb in
    let lz = digit_of-lt c hc in
    let lw = digit_of-lt d hd in
    cc (
      hex_char-at a (n / 4096 % 16) ha (omega (arith, e, lx, ly, lz, lw)),
      hex_char-at b (n / 256 % 16) hb (omega (arith, e, lx, ly, lz, lw)),
      hex_char-at c (n / 16 % 16) hc (omega (arith, e, lx, ly, lz, lw)),
      hex_char-at d (n % 16) hd (omega (arith, e, lx, ly, lz, lw)),
    )

module _ (lower : Chars → Chars) (lowers : Lowers lower) where
  group_of-four_digits : (g : Chars) → IsHexGroup g → group_of lower g ≡ four_digits (number_of g)
  unfolding group_of repeated
  group_of-four_digits [] h = absurd (omega (arith, h.some_digits))
  group_of-four_digits (d ∷ []) h =
      lowers (48 ∷ 48 ∷ 48 ∷ d ∷ []) (refl, (refl, (refl, h.hex)))
      ∙ small_four 48 48 48 d _ refl refl refl h.hex.0 (omega arith)
  group_of-four_digits (c ∷ d ∷ []) h =
      lowers (48 ∷ 48 ∷ c ∷ d ∷ []) (refl, (refl, h.hex))
      ∙ small_four 48 48 c d _ refl refl h.hex.0 h.hex.1.0 (omega arith)
  group_of-four_digits (b ∷ c ∷ d ∷ []) h =
      lowers (48 ∷ b ∷ c ∷ d ∷ []) (refl, h.hex)
      ∙ small_four 48 b c d _ refl h.hex.0 h.hex.1.0 h.hex.1.1.0 (omega arith)
  group_of-four_digits (a ∷ b ∷ c ∷ d ∷ []) h =
      lowers (a ∷ b ∷ c ∷ d ∷ []) h.hex
      ∙ small_four a b c d _ h.hex.0 h.hex.1.0 h.hex.1.1.0 h.hex.1.1.1.0 (omega arith)
  group_of-four_digits (a ∷ b ∷ c ∷ d ∷ (e ∷ g)) h = absurd (omega (arith, h.few_digits))

  groups-four_digits :
      (gs : List Chars)
      → All IsHexGroup gs
      → map (group_of lower) gs ≡ map four_digits (map number_of gs)
  groups-four_digits [] h = refl
  groups-four_digits (g ∷ gs) h = cc (group_of-four_digits g h.0, groups-four_digits gs h.1)

IsHex-NoColon : (g : Chars) → All IsHex g → NoColon g
IsHex-NoColon [] h = tt
IsHex-NoColon (c ∷ g) h = (ground (arith, h.0), IsHex-NoColon g h.1)

IsHexGroup-IsGroup : (g : Chars) → IsHexGroup g → IsGroup g
IsHexGroup-IsGroup [] h = absurd (omega (arith, h.some_digits))
IsHexGroup-IsGroup (c ∷ g) h = (refl, IsHex-NoColon (c ∷ g) h.hex)

hex_char-NoColon : (d : ℕ) → eqb (hex_char d) colon ≡ false
hex_char-NoColon d = ground arith

four_digits-NoColon : (ns : List ℕ) → All NoColon (map four_digits ns)
four_digits-NoColon [] = tt
four_digits-NoColon (n ∷ ns) = (
  (hex_char-NoColon _, (hex_char-NoColon _, (hex_char-NoColon _, (hex_char-NoColon _, tt)))),
  four_digits-NoColon ns,
)

map-length : (f : Chars → ℕ) (gs : List Chars) → length (map f gs) ≡ length gs
map-length f [] = refl
map-length f (g ∷ gs) = omega (arith, map-length f gs)

length-repeated : {A : Type 0} (n : ℕ) (a : A) → length (repeated n a) ≡ n
unfolding repeated
length-repeated zero a = refl
length-repeated (suc n) a = omega (arith, length-repeated n a)

length-filled : (h t : List Chars) → length h + length t < 8 → length (filled h t) ≡ 8
unfolding filled
length-filled h t few = omega (
  arith,
  few,
  length-append h (repeated (8 - length h - length t) (48 ∷ []) ++ t),
  length-append (repeated (8 - length h - length t) (48 ∷ [])) t,
  length-repeated {A = Chars} (8 - length h - length t) (48 ∷ []),
)

zero_groups : (n : ℕ) → All IsHexGroup (repeated n (48 ∷ []))
unfolding repeated
zero_groups zero = tt
zero_groups (suc n) = (
  record { some_digits = omega arith; few_digits = omega arith; hex = (refl, tt) },
  zero_groups n,
)

IsGroup-all : (gs : List Chars) → All IsHexGroup gs → All IsGroup gs
IsGroup-all [] h = tt
IsGroup-all (g ∷ gs) h = (IsHexGroup-IsGroup g h.0, IsGroup-all gs h.1)

module _ (is_ip : Chars → ℕ) (lower : Chars → Chars) (lowers : Lowers lower) where
  split-groups :
      (ns : List ℕ)
      → length ns ≡ 8
      → split_on colon (join colon (map four_digits ns)) ≡ map four_digits ns
  split-groups [] n = absurd (omega (arith, n))
  split-groups (n ∷ ns) e =
      split_on-join (four_digits n) (map four_digits ns) (four_digits-NoColon (n ∷ ns))

  key_of :
      (ip : Chars) (gs : List Chars)
      → mapped_v4 ip ≡ none
      → is_ip ip ≡ 6
      → expand_v6 lower ip ≡ join colon (map (group_of lower) gs)
      → All IsHexGroup gs
      → length gs ≡ 8
      → network_key is_ip lower ip ≡ subnet (map number_of gs)
  unfolding network_key subnet
  key_of ip gs unmapped v6 expands hex eight = rw (
    unmapped,
    v6,
    expands,
    groups-four_digits lower lowers gs hex,
    split-groups (map number_of gs) (map-length number_of gs ∙ eight),
  )

  expand_v6-compressed :
      (h t : List Chars)
      → All IsGroup h
      → All IsGroup t
      → expand_v6 lower (join colon h ++ (colon ∷ (colon ∷ join colon t)))
        ≡ join colon (map (group_of lower) (filled h t))
  unfolding expand_v6
  expand_v6-compressed h t hh ht =
      rw (first_two-compressed h t hh ht, groups_in-join h hh, groups_in-join t ht)

  expand_v6-full :
      (gs : List Chars)
      → All IsGroup gs
      → length gs ≡ 8
      → expand_v6 lower (join colon gs) ≡ join colon (map (group_of lower) gs)
  unfolding expand_v6 filled repeated
  expand_v6-full gs hg eight = rw (first_two-full gs hg, groups_in-join gs hg, eight, append_nil gs)

-- An address that begins with a group is no IPv4 address in disguise.
mapped_v4-group : (c : ℕ) (s : Chars) → eqb c colon ≡ false → mapped_v4 (c ∷ s) ≡ none
unfolding mapped_v4 after_prefix
mapped_v4-group c s h = rw h

filled-groups :
    (h t : List Chars) → All IsHexGroup h → All IsHexGroup t → All IsHexGroup (filled h t)
unfolding filled
filled-groups h t hh ht = All-append IsHexGroup h _ hh (
    All-append IsHexGroup (repeated (8 - length h - length t) (48 ∷ [])) t
      (zero_groups (8 - length h - length t)) ht)

full_unmapped :
    (gs : List Chars) → All IsGroup gs → length gs ≡ 8 → mapped_v4 (join colon gs) ≡ none
full_unmapped [] h n = absurd (omega (arith, n))
full_unmapped ([] ∷ gs) h n = absurd (false≢true (sym h.0.0))
full_unmapped ((c ∷ g) ∷ gs) h n =
    let (rest, begins) = join_begins c g gs in rw begins (mapped_v4-group c rest h.0.1.0)

abbrev pub compressed : (h t : List Chars) → Chars
compressed h t = join colon h ++ (colon ∷ (colon ∷ join colon t))

-- The key of an IPv6 address that is no mapped IPv4 address is given by the first four of its eight
-- numbers alone: groups of one to four digits of base 16 may have zeros in front or not and large
-- letters or small, and "::" may stand for some zero groups or not. `lower` makes letters small.
pub network_key-subnet :
    (is_ip : Chars → ℕ) (lower : Chars → Chars) (h t : List Chars)
    → Lowers lower
    → All IsHexGroup h
    → All IsHexGroup t
    → length h + length t < 8
    → mapped_v4 (compressed h t) ≡ none
    → is_ip (compressed h t) ≡ 6
    → is_ip (join colon (filled h t)) ≡ 6
    → (network_key is_ip lower (compressed h t) ≡ subnet (map number_of (filled h t)))
      × (network_key is_ip lower (join colon (filled h t)) ≡ subnet (map number_of (filled h t)))
network_key-subnet is_ip lower h t lowers hh ht few unmapped v6 v6' =
    let gs = filled h t in
    let hex = filled-groups h t hh ht in
    let groups = IsGroup-all gs hex in
    let eight = length-filled h t few in
    (
      key_of is_ip lower lowers (compressed h t) gs unmapped v6
          (expand_v6-compressed is_ip lower lowers h t (IsGroup-all h hh) (IsGroup-all t ht)) hex
          eight,
      key_of is_ip lower lowers (join colon gs) gs (full_unmapped gs groups eight) v6'
          (expand_v6-full is_ip lower lowers gs groups eight) hex eight,
    )
