-- ===== src/Worker/Endpoints/Examples.antt =====
-- Two endpoints of a chain, of which one lags behind, and one of another chain.
use validator_health_check.Prelude.{false, pos, Text, text, seconds, text_eq, ◌==◌, if◌then◌else◌}
use validator_health_check.Utils.Retry.{Result, ok}
use validator_health_check.Worker.Outside.{ResultStatus}
use validator_health_check.Worker.Endpoints.Healthiest.{Healthiest}

abbrev status_of : Text → Result ResultStatus Text
status_of client = ok (record {
  network = if client == text "http://c:80" then text "osmosis-1" else text "juno-1";
  catching_up = false;
  latest_block_height = if client == text "http://a:80" then pos 90 else pos 100;
  latest_block_time = seconds 990;
})
