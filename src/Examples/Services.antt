-- ===== src/Examples/Services.antt =====
-- The theorems on the watchdog, the Telegram service and the helpers at concrete inputs.
use Prim.Native.Nat.{◌/◌}
use mqtt_sentry.Base.{◌≡◌, refl, true, false, [], ◌∷◌, ◌++◌, map, arith, ◌<>◌, to_string, ◌%◌}
use mqtt_sentry.Utils.{split, format_time}
use mqtt_sentry.Utils.Split.{join, split-join}
use mqtt_sentry.Utils.Time.{format_time_whole}
use mqtt_sentry.Types.{offline}
use mqtt_sentry.Watchdog.{create, start_timer}
use mqtt_sentry.Watchdog.Reports.{Inv, run, petted, expired, run-Inv_new}
use mqtt_sentry.Tg.{send_alert, alert_text}
use mqtt_sentry.Tg.Sending.{send_alert_stops}
use mqtt_sentry.Examples.Toy.{toy_api}
use mqtt_sentry.Examples.Data.{cm, logic, tg, alert}

run-Inv_new_example :
    let (w, s) =
      run logic (expired true ∷ petted ∷ expired false ∷ []) (start_timer logic (create "A"), []) in
    Inv 3 w s
run-Inv_new_example =
    run-Inv_new logic (expired true ∷ petted ∷ expired false ∷ []) "A" (omega arith) (omega arith)

send_alert_stops_example :
    (send_alert cm (alert "A" offline) tg).sent
    ≡ [] ++ map (λ user. (user, alert_text (alert "A" offline))) (7 ∷ [])
send_alert_stops_example =
    send_alert_stops cm (alert "A" offline) tg (7 ∷ []) 13 (8 ∷ []) refl (refl, tt) refl

split-join_example :
    split "/" (join "/" "NordFrost" ("A" ∷ "state" ∷ [])) ≡ "NordFrost" ∷ "A" ∷ "state" ∷ []
split-join_example =
    split-join "/" "NordFrost" ("A" ∷ "state" ∷ []) (ground arith)
      (ground arith, (ground arith, tt)) (λ e. cc)

format_time_whole_example :
    format_time 3661
    ≡ to_string (3661 / 60 / 60)
      <> "г "
      <> to_string (3661 / 60 % 60)
      <> "хв "
      <> to_string (3661 % 60)
      <> "с"
format_time_whole_example = format_time_whole 3661 (omega arith)
