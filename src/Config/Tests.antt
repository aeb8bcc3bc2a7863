-- ===== src/Config/Tests.antt =====
-- Loading the defaults, with a queue size in the environment and without.
use pdu_session_sim.Common.{
  ◌≡◌, refl, [], negsuc, Text, text, text_eq, text_beq, Result, ok, err, ◌==◌, if◌then◌else◌,
}
use pdu_session_sim.Config.{
  Config, Environment, not_found, default_config, override_from_env, load, atoi,
}
use pdu_session_sim.Decimal.{decimal}

abbrev sized : Environment
sized name = if name == text "QUEUE_SIZE" then decimal 250 else []

abbrev no_yaml : Text → Config → Result Config
no_yaml yaml cfg = err (text "yaml: unmarshal errors")

abbrev loaded : Config
loaded = override_from_env sized default_config

sized_queue : sized (text "QUEUE_SIZE") ≡ decimal 250
unfolding text_beq
sized_queue = refl

sized_loads : load no_yaml sized not_found ≡ ok loaded
unfolding load
sized_loads = refl

-- A number that is negative is a size, too; a text that is no number is passed over.
negative : atoi (text "-3") ≡ ok (negsuc 2)
unfolding atoi
negative = refl

no_number : atoi (text "12a") ≡ err (text "invalid syntax")
unfolding atoi
no_number = refl
