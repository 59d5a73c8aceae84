-- ===== src/Identity/Names.antt =====
-- identity/names.ts: the daily public names. `randomInt(n)` is below n and `randomInt(m, n)` between
-- m and n; the draws are arguments.
pub mod Pattern
use Prim.Native.Char.{Char, code}
use the_room_backend.Base.{
  ℕ, zero, suc, ◌+◌, Bool, true, false, ◌&&◌, ◌||◌, List, [], ◌∷◌, String, leb, eqb,
}
use the_room_backend.Base.Text.{◌^^◌, decimal}

unfoldable pub adjectives : List String
adjectives =
    "Blue" ∷ "Moon" ∷ "Red" ∷ "Quiet" ∷ "Amber" ∷ "Velvet" ∷ "Neon" ∷ "Paper" ∷ "Silver" ∷ "Wild"
    ∷ "Tiny" ∷ "Lucky" ∷ "Solar" ∷ "Misty" ∷ "Cosmic" ∷ "Golden" ∷ "Hidden" ∷ "Electric" ∷ "Mellow"
    ∷ "Frost" ∷ "Lunar" ∷ "Coral" ∷ "Echo" ∷ "Jade" ∷ "Crimson" ∷ "Sunny" ∷ "Rainy" ∷ "Swift"
    ∷ "Gentle" ∷ "Brave" ∷ "Clever" ∷ "Cozy" ∷ "Dusty" ∷ "Fuzzy" ∷ "Glass" ∷ "Honey" ∷ "Ivory"
    ∷ "Jolly" ∷ "Kind" ∷ "Lazy" ∷ "Magic" ∷ "Nimble" ∷ "Ocean" ∷ "Pixel" ∷ "Rusty" ∷ "Salty"
    ∷ "Stormy" ∷ "Sleepy" ∷ "Spicy" ∷ "Starry" ∷ "Sugar" ∷ "Thunder" ∷ "Violet" ∷ "Windy" ∷ "Zen"
    ∷ "Arctic" ∷ "Autumn" ∷ "Copper" ∷ "Maple" ∷ "Minty" ∷ "Orbit" ∷ "Plum" ∷ "Shadow" ∷ "Snowy"
    ∷ "Sonic" ∷ "Teal" ∷ "Urban" ∷ []

unfoldable pub animals : List String
animals =
    "Tiger" ∷ "Fox" ∷ "Panda" ∷ "Otter" ∷ "Heron" ∷ "Koala" ∷ "Lynx" ∷ "Moth" ∷ "Whale" ∷ "Raven"
    ∷ "Gecko" ∷ "Falcon" ∷ "Badger" ∷ "Orca" ∷ "Sparrow" ∷ "Yak" ∷ "Lemur" ∷ "Cricket" ∷ "Owl"
    ∷ "Wolf" ∷ "Bison" ∷ "Crane" ∷ "Squid" ∷ "Alpaca" ∷ "Beaver" ∷ "Camel" ∷ "Dolphin" ∷ "Eagle"
    ∷ "Ferret" ∷ "Gazelle" ∷ "Hedgehog" ∷ "Ibis" ∷ "Jaguar" ∷ "Kiwi" ∷ "Llama" ∷ "Marmot"
    ∷ "Narwhal" ∷ "Ocelot" ∷ "Penguin" ∷ "Quokka" ∷ "Rabbit" ∷ "Seal" ∷ "Toucan" ∷ "Walrus"
    ∷ "Zebra" ∷ "Bee" ∷ "Crow" ∷ "Deer" ∷ "Finch" ∷ "Goose" ∷ "Hare" ∷ "Iguana" ∷ "Kestrel" ∷ "Mole"
    ∷ "Newt" ∷ "Puffin" ∷ "Robin" ∷ "Salmon" ∷ "Tapir" ∷ "Viper" ∷ "Wren" ∷ "Stork" ∷ "Manta"
    ∷ "Hawk" ∷ "Moose" ∷ "Cobra" ∷ "Coyote" ∷ "Pelican" ∷ "Shrew" ∷ []

-- `words[i]`, for an index that is in range.
unfoldable pub word : List String → ℕ → String
word [] i = ""
word (x ∷ xs) zero = x
word (x ∷ xs) (suc i) = word xs i

-- From the draws of `randomInt`: below the lengths of the lists, and below 9000.
unfoldable pub generate_public_name : (adj animal number : ℕ) → String
unfolding adjectives animals word
generate_public_name adj animal number =
    word adjectives adj ^^ (word animals animal ^^ ("_" ^^ decimal (1000 + number)))

abbrev is_upper : Char → Bool
is_upper c = leb 65 (code c) && leb (code c) 90

abbrev is_lower : Char → Bool
is_lower c = leb 97 (code c) && leb (code c) 122

abbrev is_digit : Char → Bool
is_digit c = leb 48 (code c) && leb (code c) 57

-- `[a-z]+`, and what stands for the rest of the pattern.
unfoldable some_lower : (String → Bool) → String → Bool
some_lower onward String.[] = false
some_lower onward (String.◌∷◌ c s) =
    let later = some_lower onward s in is_lower c && (onward s || later)

-- `[A-Z][a-z]+`
unfoldable capitalised : (String → Bool) → String → Bool
capitalised onward String.[] = false
capitalised onward (String.◌∷◌ c s) = is_upper c && some_lower onward s

-- `\d{n}$`
unfoldable digits : ℕ → String → Bool
digits zero String.[] = true
digits zero (String.◌∷◌ c s) = false
digits (suc n) String.[] = false
digits (suc n) (String.◌∷◌ c s) = is_digit c && digits n s

-- `_\d{4}$`
unfoldable number_after : String → Bool
number_after String.[] = false
number_after (String.◌∷◌ c s) = eqb (code c) 95 && digits 4 s

-- `PUBLIC_NAME_RE`
unfoldable pub is_public_name : String → Bool
unfolding some_lower capitalised digits number_after
is_public_name s = capitalised (capitalised number_after) s
