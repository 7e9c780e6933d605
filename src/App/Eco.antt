-- ===== src/App/Eco.antt =====
-- The suspicion of an eco unit, and the messages on the inputs: setOnMachineIn of src/application.cpp.
use mathlib.Core.List.{append-nil}
use mqtt_sentry.Base.{
  String, ◌≡◌, not, Option, none, some, List, [], ◌∷◌, ◌++◌, arith, string_eq, eq_iff,
  if◌then◌else◌, ◌<>◌, ◌&&◌, ◌||◌,
}
use mqtt_sentry.Utils.{TimeZone}
use mqtt_sentry.Types.{AlertEvents, eco_malfunction, History, update}
use mqtt_sentry.Types.ThreadSafeQueue.{push}
use mqtt_sentry.Types.ThreadSafeMap.{get, get-set}
use mqtt_sentry.Types.Messages.{MachineInNotFilter, MachineOut}
use mqtt_sentry.Settings.{ConfigManager, resolve_hmi_name}
use mqtt_sentry.Mapper.{map_in}
use mqtt_sentry.Graphite
use mqtt_sentry.Graphite.{GraphiteService}
use mqtt_sentry.App.{Application, on_machine_in, zero_in}
use mqtt_sentry.App.Metrics.{sink_each-gs}

-- What is known when a message on the inputs comes: the message before it, and the last two on the
-- outputs.
abbrev pub eco_alerts :
    ConfigManager
    → String
    → MachineInNotFilter
    → Option (History MachineInNotFilter)
    → Option (History MachineOut)
    → List AlertEvents
eco_alerts cm id m_in (some in_h) (some out) =
    if (out.current.out_eco1 || out.current.out_eco2)
      && (out.previous.out_eco1 || out.previous.out_eco2)
      && (in_h.current.in_pres_nf && not m_in.in_pres_nf)
    then record {
      state = eco_malfunction;
      machine_id = resolve_hmi_name cm id;
      message = "Підозра на некоректну роботу eco " <> (if out.current.out_eco1 then "1" else "2");
      timestamp = m_in.ts;
    }
      ∷ []
    else []
eco_alerts cm id m_in _ _ = []

abbrev pub previous_in : Option (History MachineInNotFilter) → MachineInNotFilter
previous_in none = zero_in
previous_in (some in_h) = in_h.current

module _ ⦃z : TimeZone⦄ (cm : ConfigManager) (id : String) (m_in : MachineInNotFilter) where
  abbrev pub metrics_in :
      Option (History MachineInNotFilter)
      → Option (History MachineOut)
      → GraphiteService
      → GraphiteService
  metrics_in (some _) (some _) gs = map_in cm Graphite.push id m_in gs
  metrics_in _ _ gs = gs

  -- A message on the inputs raises the one alert exactly if an eco unit runs now and ran at the
  -- message before, and the pressure that the message before reported has gone; without an earlier
  -- message on the inputs and one on the outputs there is no alert.
  pub on_machine_in-queue :
      (in_h : Option (History MachineInNotFilter)) (out : Option (History MachineOut))
      (app : Application)
      → get id app.m_in ≡ in_h
      → get id app.m_out ≡ out
      → (on_machine_in cm id m_in app).alert_queue.items
        ≡ app.alert_queue.items ++ eco_alerts cm id m_in in_h out
  unfolding on_machine_in map_in push update
  on_machine_in-queue none out app e f = rw (e, append-nil)
  on_machine_in-queue (some in_h) none app e f = rw (e, f, append-nil)
  on_machine_in-queue (some in_h) (some out) app e f =
      rw (e, f, sink_each-gs) (ground (arith, append-nil app.alert_queue.items))

  -- A message on the inputs is the current one afterwards, and its metrics go to the Graphite
  -- service only if the machine has sent a message on its inputs and one on its outputs before.
  pub on_machine_in-gs :
      (in_h : Option (History MachineInNotFilter)) (out : Option (History MachineOut))
      (app : Application)
      → get id app.m_in ≡ in_h
      → get id app.m_out ≡ out
      → ((on_machine_in cm id m_in app).gs ≡ metrics_in in_h out app.gs)
        × (get id (on_machine_in cm id m_in app).m_in
            ≡ some (record { current = m_in; previous = previous_in in_h }))
  unfolding on_machine_in map_in update
  on_machine_in-gs none out app e f =
      (rw e, rw (e, get-set id id _ app.m_in) (ground (arith, eq_iff id id)))
  on_machine_in-gs (some in_h) none app e f =
      (rw (e, f), rw (e, f, get-set id id _ app.m_in) (ground (arith, eq_iff id id)))
  on_machine_in-gs (some in_h) (some out) app e f = (
    rw (e, f, sink_each-gs) (ground arith),
    rw (e, f, sink_each-gs)
        (ground (
          arith,
          eq_iff id id,
          get-set id id (record { current = m_in; previous = in_h.current }) app.m_in,
        )),
  )
