-- ===== src/App/Metrics.antt =====
-- The metrics of a message reach the Graphite service, and nothing else of the application.
use mqtt_sentry.Base.{ℕ, ◌^◌, ◌%◌, String, ◌≡◌, refl, List, [], ◌∷◌, ◌<>◌, to_i64}
use mqtt_sentry.Mapper.{sink_each}
use mqtt_sentry.Graphite
use mqtt_sentry.App.{Application, push_metric}

pub sink_each-gs :
    (path : String) (ts : ℕ) (values : List (String × ℕ)) (app : Application)
    → sink_each push_metric path ts values app
      ≡ record app { gs = sink_each Graphite.push path ts values app.gs }
unfolding sink_each
sink_each-gs path ts [] app = refl
sink_each-gs path ts ((name, value) ∷ rest) app =
    sink_each-gs path ts rest
      (push_metric (record { path = path <> name; value = value % 2 ^ 32; ts = to_i64 ts }) app)
