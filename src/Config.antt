-- ===== src/Config.antt =====
-- config.ts: the settings. zod's reading of the single variables is not written out: the fields of
-- `Settings` are what the schema makes of them. `loadConfig` checks them together.
pub mod Origins
pub mod Checked
use the_room_backend.Base.{
  ℕ, Bool, true, false, not, ◌&&◌, ◌||◌, Option, none, some, List, [], ◌∷◌, ◌++◌, map, ltb, eqb,
  leb, if◌then◌else◌, length, keep, any, find, is_some,
}
use the_room_backend.Messaging.Validate.{trim, between}
use the_room_backend.Net.Text.{
  Chars, colon, slash, comma, dot, star, is_empty, is_prefix, split_on, strip_slashes,
}
use the_room_backend.Net.Ip.{all_digits}

pub data NodeEnv : Type 0 where
  development test production : NodeEnv

pub data ChallengeProvider : Type 0 where
  turnstile mock nothing : ChallengeProvider

pub record Settings : Type 0 where
  pub node_env : NodeEnv
  pub redis_url : Chars
  pub room_timezone : Chars
  pub server_secret : Chars
  pub allowed_origins : List Chars
  pub challenge_provider : ChallengeProvider
  pub turnstile_secret : Chars

pub data ConfigError : Type 0 where
  room_timezone_error allowed_origin secret_required redis_required mock_in_production
        turnstile_secret_required origins_required :
      ConfigError

pub data Loaded : Type 0 where
  loaded : Settings → Loaded
  invalid_config : ConfigError → Loaded

-- The transform of `ALLOWED_ORIGINS` in the schema.
unfoldable pub list_of : Chars → List Chars
list_of s = keep (λ x. not (is_empty x)) (map (λ x. strip_slashes (trim x)) (split_on comma s))

abbrev is_quote : ℕ → Bool
is_quote c = eqb c 34 || eqb c 39

strip_last : Chars → Chars
strip_last [] = []
strip_last (c ∷ s) = let rest = strip_last s in if is_empty s && is_quote c then [] else c ∷ rest

strip_first : Chars → Chars
strip_first [] = []
strip_first (c ∷ s) = if is_quote c then s else c ∷ s

-- `replace(/^["']|["']$/g, "")`
unfoldable pub strip_quotes : Chars → Chars
unfolding strip_last strip_first
strip_quotes s = strip_last (strip_first s)

abbrev scheme_end : Chars
scheme_end = colon ∷ slash ∷ slash ∷ []

abbrev is_lower : ℕ → Bool
is_lower c = between 97 122 c

-- `[a-z0-9+.-]`
abbrev scheme_char : ℕ → Bool
scheme_char c = is_lower c || (between 48 57 c || (eqb c 43 || (eqb c dot || eqb c 45)))

scheme_rest : Chars → Bool
scheme_rest [] = false
scheme_rest (c ∷ s) =
    let rest = scheme_rest s in is_prefix scheme_end (c ∷ s) || (scheme_char c && rest)

-- `/^[a-z][a-z0-9+.-]*:\/\//`
unfoldable pub has_scheme : Chars → Bool
unfolding scheme_rest
has_scheme [] = false
has_scheme (c ∷ s) = is_lower c && scheme_rest s

-- "https://"
abbrev pub https : Chars
https = 104 ∷ 116 ∷ 116 ∷ 112 ∷ 115 ∷ colon ∷ slash ∷ slash ∷ []

abbrev pub http : Chars
http = 104 ∷ 116 ∷ 116 ∷ 112 ∷ colon ∷ slash ∷ slash ∷ []

unfoldable pub tidy_origin : (lower : Chars → Chars) → Chars → Chars
tidy_origin lower o =
    let v = strip_slashes (lower (strip_quotes (trim o))) in if has_scheme v then v else https ++ v

-- `[a-z0-9.*-]`
abbrev pub host_char : ℕ → Bool
host_char c = is_lower c || (between 48 57 c || (eqb c dot || (eqb c star || eqb c 45)))

-- `[a-z0-9.*-]+(:\d+)?$`, where `seen` says that there was a character of the host before.
unfoldable pub is_host : (seen : Bool) → Chars → Bool
is_host seen [] = seen
is_host seen (c ∷ s) =
    let rest = is_host true s in
    if host_char c then rest else seen && (eqb c colon && (not (is_empty s) && all_digits s))

unfoldable pub after : Chars → Chars → Option Chars
after [] s = some s
after (p ∷ ps) [] = none
after (p ∷ ps) (c ∷ s) = let rest = after ps s in if eqb p c then rest else none

abbrev pub host_after : Option Chars → Bool
host_after none = false
host_after (some s) = is_host false s

-- `/^https?:\/\/[a-z0-9.*-]+(:\d+)?$/`
unfoldable pub is_origin : Chars → Bool
unfolding host_after
is_origin o = host_after (after https o) || host_after (after http o)

abbrev pub no_origins : List Chars → Bool
no_origins [] = true
no_origins (o ∷ os) = false

abbrev pub origins_error : Settings → Option ConfigError
origins_error c = if no_origins c.allowed_origins then some origins_required else none

unfoldable pub challenge_error : ChallengeProvider → Settings → Option ConfigError
challenge_error mock c = some mock_in_production
challenge_error turnstile c =
    if is_empty c.turnstile_secret then some turnstile_secret_required else origins_error c
challenge_error nothing c = origins_error c

-- What production needs, in the order of the checks.
unfoldable pub production_error : Settings → Option ConfigError
production_error c =
    if ltb (length c.server_secret) 32
    then some secret_required
    else if is_empty c.redis_url
    then some redis_required
    else challenge_error c.challenge_provider c

unfoldable pub env_error : NodeEnv → Settings → Option ConfigError
env_error production c = production_error c
env_error _ c = none

unfoldable pub config_error : (is_zone : Chars → Bool) → Settings → Option ConfigError
config_error is_zone c =
    if not (is_zone c.room_timezone)
    then some room_timezone_error
    else if is_some (find (λ o. not (is_origin o)) c.allowed_origins)
    then some allowed_origin
    else env_error c.node_env c

-- "dev-insecure-secret-change-me-dev-insecure"
abbrev pub dev_secret : Chars
dev_secret =
    100 ∷ 101 ∷ 118 ∷ 45 ∷ 105 ∷ 110 ∷ 115 ∷ 101 ∷ 99 ∷ 117 ∷ 114 ∷ 101 ∷ 45 ∷ 115 ∷ 101 ∷ 99 ∷ 114
    ∷ 101 ∷ 116 ∷ 45 ∷ 99 ∷ 104 ∷ 97 ∷ 110 ∷ 103 ∷ 101 ∷ 45 ∷ 109 ∷ 101 ∷ 45 ∷ 100 ∷ 101 ∷ 118 ∷ 45
    ∷ 105 ∷ 110 ∷ 115 ∷ 101 ∷ 99 ∷ 117 ∷ 114 ∷ 101 ∷ []

unfoldable pub with_secret : Settings → Settings
with_secret c = record c {
  server_secret = if is_empty c.server_secret then dev_secret else c.server_secret;
}

unfoldable pub outcome_of : Option ConfigError → Settings → Loaded
outcome_of none c = loaded (with_secret c)
outcome_of (some e) c = invalid_config e

-- From the settings that the schema read, with `ALLOWED_ORIGINS` as `list_of` splits it.
unfoldable pub load_config : (lower : Chars → Chars) → (is_zone : Chars → Bool) → Settings → Loaded
load_config lower is_zone raw =
    let c = record raw { allowed_origins = map (tidy_origin lower) raw.allowed_origins } in
    outcome_of (config_error is_zone c) c
