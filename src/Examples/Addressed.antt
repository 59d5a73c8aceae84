-- ===== src/Examples/Addressed.antt =====
-- The theorems on net/ at concrete values.
use the_room_backend.Base.{
  ℕ, ◌≡◌, refl, true, false, none, some, List, [], ◌∷◌, ◌++◌, String, eqb, if◌then◌else◌, arith,
  any, All, map,
}
use Prim.Native.Char.{code}
use the_room_backend.Messaging.Validate.{trim, join, is_space}
use the_room_backend.Net.Text.{
  Chars, equal, split_on, first_two, strip_slashes, comma, colon, is_prefix,
}
use the_room_backend.Net.Origin.{RegExp, origin_matcher, normalize_origin, is_label, is_plain}
use the_room_backend.Net.Pattern.{separators}
use the_room_backend.Net.Admitted.{OneOf, HasPlainScheme, entry_text, origin_matcher-separators}
use the_room_backend.Net.Ip.{
  Headers, client_ip, connecting_ip, network_key, filled, mapped_v4, after_prefix, repeated,
  expand_v6, group_of,
}
use the_room_backend.Net.Proxies.{client_ip-rightmost}
use the_room_backend.Net.Subnet.{
  subnet, compressed, number_of, small, Lowers, IsHexGroup, network_key-subnet,
}

abbrev pub codes : String → Chars
codes String.[] = []
codes (String.◌∷◌ c s) = code c ∷ codes s

abbrev pub same_case : Chars → Chars
same_case s = s

abbrev no_reg_exp : RegExp
no_reg_exp scheme host o = false

abbrev entries : List Chars
entries = codes "http://localhost:3000/" ∷ codes "https://room-*.vercel.app" ∷ []

preview_admitted :
    origin_matcher no_reg_exp same_case entries (codes "https://room-git-main.vercel.app") ≡ true
unfolding origin_matcher normalize_origin strip_slashes trim is_space equal first_two is_prefix
    is_label is_plain
preview_admitted = refl

longer_refused :
    origin_matcher no_reg_exp same_case entries (codes "https://room-x.evil.com") ≡ false
unfolding origin_matcher normalize_origin strip_slashes trim is_space equal first_two is_prefix
    is_label is_plain
longer_refused = refl

plain_entries : All (λ raw. HasPlainScheme (normalize_origin same_case raw)) entries
unfolding HasPlainScheme normalize_origin strip_slashes trim is_space first_two is_prefix is_label
    is_plain
plain_entries = (λ s. refl, (λ s. refl, tt))

origin_matcher-separators_example :
    OneOf
      (λ raw.
        separators (normalize_origin same_case (codes "https://room-git-main.vercel.app"))
        ≡ separators (entry_text (normalize_origin same_case raw)))
      entries
origin_matcher-separators_example =
    origin_matcher-separators no_reg_exp same_case entries
      (codes "https://room-git-main.vercel.app") plain_entries preview_admitted

-- Addresses with a dot are IPv4 here, and those with a colon IPv6.
abbrev kind_of_ip : Chars → ℕ
kind_of_ip s = if any (λ c. eqb c colon) s then 6 else if any (λ c. eqb c 46) s then 4 else 0

abbrev spoofed : Headers
spoofed = record {
  cf_connecting_ip = none;
  x_forwarded_for = some (codes "1.1.1.1, 2.2.2.2" ++ comma ∷ codes " 9.8.7.6");
  remote_address = some (codes "10.0.0.1");
}

client_ip-rightmost_example : client_ip kind_of_ip spoofed true ≡ codes "9.8.7.6"
unfolding connecting_ip trim is_space
client_ip-rightmost_example =
    client_ip-rightmost kind_of_ip spoofed (codes "1.1.1.1, 2.2.2.2") (codes " 9.8.7.6")
      (codes "9.8.7.6") refl refl (refl, (refl, (refl, (refl, (refl, (refl, (refl, (refl, tt))))))))
      refl refl refl

-- 2001:DB8::1
abbrev upper : List Chars
upper = codes "2001" ∷ codes "DB8" ∷ []

abbrev lower_groups : List Chars
lower_groups = codes "1" ∷ []

abbrev small_text : Chars → Chars
small_text s = map small s

small_text-Lowers : Lowers small_text
small_text-Lowers s h = refl

four : IsHexGroup (codes "2001")
four = record {
  some_digits = omega arith;
  few_digits = omega arith;
  hex = (refl, (refl, (refl, (refl, tt))));
}

three : IsHexGroup (codes "DB8")
three = record {
  some_digits = omega arith;
  few_digits = omega arith;
  hex = (refl, (refl, (refl, tt)));
}

one : IsHexGroup (codes "1")
one = record { some_digits = omega arith; few_digits = omega arith; hex = (refl, tt) }

network_key-subnet_example :
    (network_key kind_of_ip small_text (compressed upper lower_groups)
      ≡ subnet (map number_of (filled upper lower_groups)))
    × (network_key kind_of_ip small_text (join colon (filled upper lower_groups))
        ≡ subnet (map number_of (filled upper lower_groups)))
unfolding mapped_v4 after_prefix join filled repeated
network_key-subnet_example =
    network_key-subnet kind_of_ip small_text upper lower_groups small_text-Lowers
      (four, (three, tt)) (one, tt) (omega arith) refl refl refl

same_network :
    (network_key kind_of_ip small_text (codes "2001:DB8::1")
      ≡ network_key kind_of_ip small_text (codes "2001:0db8:0::2"))
    × (network_key kind_of_ip small_text (codes "2001:db8::1") ≡ codes "2001:0db8:0000:0000::/64")
unfolding network_key mapped_v4 after_prefix join split_on expand_v6 filled first_two is_prefix
    group_of repeated
same_network = (refl, refl)
