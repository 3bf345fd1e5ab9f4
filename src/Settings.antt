-- ===== src/Settings.antt =====
-- What the three server programs, cmd/cask-api, cmd/cask-controller and cmd/cask-model-proxy, share: the
-- default of a flag, which comes from the environment.
use agentsty.Prelude.{[], Str, str_eq, if◌then◌else◌}

-- envDefault, over os.Getenv
unfoldable pub env_default : (Str → Str) → Str → Str → Str
unfolding str_eq
env_default getenv key fallback = let v = getenv key in if str_eq v [] then fallback else v
