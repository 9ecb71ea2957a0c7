-- ===== src/Config/Tests.antt =====
-- The defaults of src/config.rs, validated.
use serica.Prelude.{◌≡◌, refl, Bool, true, none, Text, text_eq}
use serica.Config.{default_config, validate}

abbrev accepts : Text → Bool
accepts s = true

default_is_accepted : validate accepts accepts default_config ≡ none
unfolding validate text_eq
default_is_accepted = refl
