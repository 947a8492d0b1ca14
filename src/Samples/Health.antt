-- ===== src/Samples/Health.antt =====
-- A probe whose checks fail, and a later one that gets the same answer.
use llm_api_gateway.Prelude.{none, some, true, false, [], ◌∷◌, List}
use llm_api_gateway.Health.{default_health_options, new_readiness_handler, serve_ready}
use llm_api_gateway.Health.Ready.{Probe}
use llm_api_gateway.Health.Fresh.{
  Event, probes, sets_ready, run, last_flag, IsFounded, run-IsFounded,
}

abbrev failing : Probe
failing = record {
  now = 100;
  later = 200;
  checks = record { name = "openai"; error = some "context canceled" } ∷ [];
}

abbrev healthy : Probe
healthy = record {
  now = 9_000_000_000;
  later = 9_000_000_001;
  checks = record { name = "openai"; error = none } ∷ [];
}

abbrev history : List Event
history = sets_ready false ∷ sets_ready true ∷ probes failing ∷ []

run-IsFounded_example :
    IsFounded history
      (run (new_readiness_handler default_health_options) history)
      (last_flag true history)
      healthy
      (serve_ready 9_000_000_000 9_000_000_001
        (record { name = "openai"; error = none } ∷ [])
        (run (new_readiness_handler default_health_options) history)).1
run-IsFounded_example = run-IsFounded default_health_options history healthy
