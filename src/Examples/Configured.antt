-- ===== src/Examples/Configured.antt =====
-- The theorems on config.ts at concrete values.
use the_room_backend.Base.{◌≡◌, refl, true, false, [], ◌∷◌, All}
use the_room_backend.Messaging.Validate.{trim, is_space}
use the_room_backend.Net.Text.{split_on, strip_slashes, is_prefix}
use the_room_backend.Config.{
  Settings, production, turnstile, load_config, loaded, list_of, config_error, is_origin, after,
  is_host, tidy_origin, strip_quotes, has_scheme, with_secret, env_error, production_error,
  challenge_error, outcome_of,
}
use the_room_backend.Config.Checked.{IsFit, Admitted, load_config-IsFit, load_config-admits}
use the_room_backend.Examples.Addressed.{codes, same_case}

abbrev raw : Settings
raw = record {
  node_env = production;
  redis_url = codes "redis://cache";
  room_timezone = codes "UTC";
  server_secret = codes "0123456789abcdef0123456789abcdef";
  allowed_origins = codes "\"room.example\"" ∷ codes "https://room-*.vercel.app" ∷ [];
  challenge_provider = turnstile;
  turnstile_secret = codes "ts";
}

abbrev checked : Settings
checked = record raw {
  allowed_origins = codes "https://room.example" ∷ codes "https://room-*.vercel.app" ∷ [];
}

listed :
    list_of (codes " https://a.b/ ,, https://c.d") ≡ codes "https://a.b" ∷ codes "https://c.d" ∷ []
unfolding list_of split_on trim is_space strip_slashes
listed = refl

raw-loaded : load_config same_case (λ s. true) raw ≡ loaded checked
unfolding load_config config_error is_origin after is_host tidy_origin strip_quotes has_scheme
    with_secret env_error production_error challenge_error outcome_of trim is_space strip_slashes
    is_prefix
raw-loaded = refl

load_config-IsFit_example : IsFit checked
load_config-IsFit_example = load_config-IsFit same_case (λ s. true) raw checked raw-loaded refl

load_config-admits_example :
    All
      (Admitted (λ scheme host o. false) same_case checked.allowed_origins)
      checked.allowed_origins
load_config-admits_example =
    load_config-admits (λ scheme host o. false) same_case (λ s. true) raw checked (λ s h. refl)
      raw-loaded
