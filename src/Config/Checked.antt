-- ===== src/Config/Checked.antt =====
-- config.ts: what holds of the settings that `loadConfig` returns.
use the_room_backend.Base.{
  ◌≡◌, ◌≤◌, refl, sym, ap, Bool, true, false, not, ◌&&◌, ◌||◌, Option, none, some, List, [], ◌∷◌,
  map, eqb, ltb, length, arith, if◌then◌else◌, All, All-map, any, find, is_some, Bool-cases, inl,
  inr, subst, some-none,
}
use the_room_backend.Net.Text.{Chars, star, is_empty}
use the_room_backend.Net.Origin.{RegExp, normalize_origin, entry_admits, origin_matcher}
use the_room_backend.Config.{
  NodeEnv, production, ChallengeProvider, turnstile, mock, nothing, Settings, no_origins,
  challenge_error, ConfigError, Loaded, loaded, invalid_config, mock_in_production, is_origin,
  tidy_origin, production_error, env_error, config_error, with_secret, outcome_of, load_config,
}
use the_room_backend.Config.Origins.{
  IsPlainText, origin_present, normalize_origin-plain, equal_refl,
}

abbrev pub is_production : NodeEnv → Bool
is_production production = true
is_production _ = false

abbrev pub is_mock : ChallengeProvider → Bool
is_mock mock = true
is_mock _ = false

abbrev pub is_turnstile : ChallengeProvider → Bool
is_turnstile turnstile = true
is_turnstile _ = false

-- What a server that faces the internet relies on.
pub record IsFit (c : Settings) : Type 0 where
  pub long_secret : 32 ≤ length c.server_secret
  pub shared_store : is_empty c.redis_url ≡ false
  pub real_challenge : is_mock c.challenge_provider ≡ false
  pub challenge_secret : (is_turnstile c.challenge_provider && is_empty c.turnstile_secret) ≡ false
  pub some_origins : no_origins c.allowed_origins ≡ false

-- Where a check finds no error, its test does not hold and the next one finds none.
check_inv :
    (b : Bool) (e : ConfigError) (x : Option ConfigError)
    → (if b then some e else x) ≡ none
    → (b ≡ false) × (x ≡ none)
check_inv true e x h = absurd (some-none e h)
check_inv false e x h = (refl, h)

challenge_checked :
    (p : ChallengeProvider) (c : Settings)
    → challenge_error p c ≡ none
    → (is_mock p ≡ false)
      × ((is_turnstile p && is_empty c.turnstile_secret) ≡ false)
      × (no_origins c.allowed_origins ≡ false)
unfolding challenge_error
challenge_checked mock c h = absurd (some-none mock_in_production h)
challenge_checked turnstile c h =
    let (secret, next) = check_inv (is_empty c.turnstile_secret) _ _ h in
    (refl, secret, (check_inv (no_origins c.allowed_origins) _ _ next).0)
challenge_checked nothing c h = (refl, refl, (check_inv (no_origins c.allowed_origins) _ _ h).0)

present_secret : (s : Chars) → 32 ≤ length s → is_empty s ≡ false
present_secret [] h = absurd (omega (arith, h))
present_secret (c ∷ s) h = refl

production_error-IsFit : (c : Settings) → production_error c ≡ none → IsFit (with_secret c)
unfolding production_error with_secret
production_error-IsFit c h =
    let (long, h₁) = check_inv (ltb (length c.server_secret) 32) _ _ h in
    let (shared, h₂) = check_inv (is_empty c.redis_url) _ _ h₁ in
    let (real, secret, origins) = challenge_checked c.challenge_provider c h₂ in
    let enough : 32 ≤ length c.server_secret = ground (arith, long) in
    record {
      long_secret = rw (present_secret c.server_secret enough) enough;
      shared_store = shared;
      real_challenge = real;
      challenge_secret = secret;
      some_origins = origins;
    }

abbrev IsLoaded : Loaded → Type 0
IsLoaded (loaded c) = Unit {0}
IsLoaded (invalid_config e) = ⊥

abbrev settings_of : Settings → Loaded → Settings
settings_of d (loaded c) = c
settings_of d (invalid_config e) = d

loaded_inv :
    (e : Option ConfigError) (c d : Settings)
    → outcome_of e c ≡ loaded d
    → (e ≡ none) × (with_secret c ≡ d)
unfolding outcome_of
loaded_inv none c d h = (refl, ap (settings_of d) h)
loaded_inv (some e) c d h = absurd (subst IsLoaded (sym h) tt)

find_none :
    (p : Chars → Bool) (xs : List Chars)
    → is_some (find (λ x. not (p x)) xs) ≡ false
    → All (λ x. p x ≡ true) xs
find_none p [] h = tt
find_none p (x ∷ xs) h = elim (Bool-cases (p x)) [
  | inl e ↦ (e, find_none p xs (ground (arith, e, h)))
  | inr e ↦ absurd (ground (arith, e, h))
]

abbrev has_star : Chars → Bool
has_star o = any (λ x. eqb x star) o

-- The origin has a `*`, or the list admits it.
abbrev pub Admitted : RegExp → (lower : Chars → Chars) → List Chars → Chars → Type 0
Admitted regexp lower entries o = (has_star o || origin_matcher regexp lower entries o) ≡ true

later_Admitted :
    (regexp : RegExp) (lower : Chars → Chars) (x : Chars) (xs : List Chars) (o : Chars)
    → Admitted regexp lower xs o
    → Admitted regexp lower (x ∷ xs) o
unfolding origin_matcher
later_Admitted regexp lower x xs o h = elim (Bool-cases (has_star o)) [
  | inl e ↦ rw e
  | inr e ↦
      let later = subst (λ b. (b || origin_matcher regexp lower xs o) ≡ true) e h in
      elim (Bool-cases
        (entry_admits regexp (normalize_origin lower x) (normalize_origin lower o))) [
          | inl admits ↦ rw (e, admits)
          | inr refuses ↦ rw (e, refuses) later
        ]
]

module _ (regexp : RegExp) (lower : Chars → Chars)
    (same : (s : Chars) → IsPlainText s → lower s ≡ s) where
  self_Admitted :
      (o : Chars) (xs : List Chars) → is_origin o ≡ true → Admitted regexp lower (o ∷ xs) o
  unfolding origin_matcher entry_admits
  self_Admitted o xs h = elim (Bool-cases (has_star o)) [
    | inl e ↦ rw e
    | inr e ↦ rw (normalize_origin-plain lower same o h, e, origin_present o h, equal_refl o)
  ]

  admits_all :
      (xs : List Chars) → All (λ o. is_origin o ≡ true) xs → All (Admitted regexp lower xs) xs
  admits_all [] h = tt
  admits_all (o ∷ xs) h =
      (self_Admitted o xs h.0, All-map xs (later_Admitted regexp lower o xs) (admits_all xs h.1))

-- In production, settings are returned only with a secret of at least 32 characters, a shared
-- store, a list of origins, and a challenge that is not the mock and that has its secret where it is
-- Turnstile; no challenge at all is accepted.
pub load_config-IsFit :
    (lower : Chars → Chars) (is_zone : Chars → Bool) (raw c : Settings)
    → load_config lower is_zone raw ≡ loaded c
    → raw.node_env ≡ production
    → IsFit c
unfolding load_config config_error env_error
load_config-IsFit lower is_zone raw c h in_production =
    let d = record raw { allowed_origins = map (tidy_origin lower) raw.allowed_origins } in
    let (no_error, same) = loaded_inv (config_error is_zone d) d c h in
    let (zone, h₁) = check_inv (not (is_zone d.room_timezone)) _ _ no_error in
    let (origins, h₂) =
      check_inv (is_some (find (λ o. not (is_origin o)) d.allowed_origins)) _ _ h₁ in
    subst IsFit same (production_error-IsFit d (subst (λ e. env_error e d ≡ none) in_production h₂))

-- In every environment, each origin of the settings that has no `*` is one that the server admits,
-- as a browser sends it. `lower` leaves a text alone that has no capitals.
pub load_config-admits :
    (regexp : RegExp) (lower : Chars → Chars) (is_zone : Chars → Bool) (raw c : Settings)
    → ((s : Chars) → IsPlainText s → lower s ≡ s)
    → load_config lower is_zone raw ≡ loaded c
    → All (Admitted regexp lower c.allowed_origins) c.allowed_origins
unfolding load_config config_error with_secret
load_config-admits regexp lower is_zone raw c same h =
    let d = record raw { allowed_origins = map (tidy_origin lower) raw.allowed_origins } in
    let (no_error, equal_settings) = loaded_inv (config_error is_zone d) d c h in
    let (zone, h₁) = check_inv (not (is_zone d.room_timezone)) _ _ no_error in
    let (origins, h₂) =
      check_inv (is_some (find (λ o. not (is_origin o)) d.allowed_origins)) _ _ h₁ in
    subst (λ (x : Settings). All (Admitted regexp lower x.allowed_origins) x.allowed_origins)
      equal_settings
      (admits_all regexp lower same d.allowed_origins
        (find_none is_origin d.allowed_origins origins))
