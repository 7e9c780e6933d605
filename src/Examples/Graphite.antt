-- ===== src/Examples/Graphite.antt =====
-- The theorems on src/graphiteService.cpp at concrete inputs.
use Prim.Native.String.{len}
use mqtt_sentry.Base.{to_string, int_to_string, ◌+◌, ◌≡◌, ◌≢◌, ◌<◌, ◌≤◌, refl, [], ◌∷◌, arith, ◌<>◌}
use mqtt_sentry.Graphite.{create, fill, line}
use mqtt_sentry.Graphite.Loop.{Reach, created, next, pushed, handle}
use mqtt_sentry.Graphite.Stream.{log_text, unwritten, lines, fill_bounds, Reach-unwritten}
use mqtt_sentry.Examples.Data.{metric}

one_push : Reach (metric ∷ []) [] (handle (pushed metric) create)
one_push = next (pushed metric) (created refl) tt _ _ _ refl refl refl

Reach-unwritten_example :
    log_text [] <> unwritten (handle (pushed metric) create) ≡ lines (metric ∷ [])
Reach-unwritten_example = Reach-unwritten one_push

fill_bounds_example :
    (len (fill "" (metric ∷ [])).0 < 1024 + 70)
    × ((fill "" (metric ∷ [])).1 ≢ [] → 1024 ≤ len (fill "" (metric ∷ [])).0)
unfolding line to_string int_to_string
fill_bounds_example = fill_bounds 70 "" (metric ∷ []) (omega arith) (omega arith, tt)
