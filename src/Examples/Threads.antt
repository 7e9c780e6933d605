-- ===== src/Examples/Threads.antt =====
-- The theorems on the threads of src/application.cpp at concrete inputs.
use mqtt_sentry.Base.{
  some, none, String, List, true, ◌<>◌, ◌+◌, ◌≤◌, ◌≡◌, ◌≢◌, refl, false, [], ◌∷◌, ◌++◌, length,
  string_eq,
}
use mqtt_sentry.Types.{offline}
use mqtt_sentry.Types.ThreadSafeQueue.{push, is_empty}
use mqtt_sentry.App.Worker.{ended, stop}
use mqtt_sentry.App.Threads.{
  System, Event, called, alerted, alarm_came, graphite_done, AllEnabled, call, stopped, tested,
  took, handle, handle_all, IsEnabled, raised, begin, Reach, started, next,
}
use mqtt_sentry.App.{on_machine_alarm}
use mqtt_sentry.Mapper.{map_alarm, sink_each}
use mqtt_sentry.Graphite.{create, do_connect, do_write, push as push_g}
use mqtt_sentry.Graphite.Loop.{written}
use mqtt_sentry.Graphite.Stream.{log_text, unwritten, lines}
use mqtt_sentry.App.Threads.Measured.{measured_all}
use mqtt_sentry.App.Threads.Measurements.{handle_all-written}
use mqtt_sentry.Mqtt.System.{timed_out, first_receive, begin as mqtt_begin}
use mqtt_sentry.Mqtt.Subscribe.{start, subscribe_to_topics, make_watchdogs, topic_hmi_id}
use mqtt_sentry.Mqtt.Ping.{ping_loop}
use mqtt_sentry.Utils.{split}
use mqtt_sentry.App.Program.{
  Step, of_mqtt, of_thread, run, expand_all, begin as begin_program,
  AllEnabled as AllEnabled_program, handle as handle_program,
}
use mqtt_sentry.App.Program.Simulation.{run-outputs}
use mqtt_sentry.App.Threads.Reachable.{reachable}
use mqtt_sentry.App.Threads.Runs.{raised_all, told_all}
use mqtt_sentry.App.Threads.Order.{Reach-queue}
use mqtt_sentry.App.Threads.Stopping.{own_step, rank, spare, taken_all, Reach-moves, stopped-bounds}
use mqtt_sentry.Examples.Toy.{toy_api}
use mqtt_sentry.Examples.Data.{json_lib, utc, cm, alert}

abbrev begun : System
begun = begin cm false

abbrev s1 : System
s1 = handle (called (alerted (alert "A" offline))) begun

r1 : Reach (raised (called (alerted (alert "A" offline))) begun) [] [] s1
r1 =
    next (called (alerted (alert "A" offline))) (started cm false refl) tt _ _ _ _ refl refl refl
      refl

Reach-queue_example :
    (raised (called (alerted (alert "A" offline))) begun ≡ [] ++ s1.app.alert_queue.items)
    × (s1.app.tg.sent ≡ [])
Reach-queue_example = Reach-queue _ [] [] s1 r1

-- The worker waits, and the program is stopped.
abbrev s2 : System
s2 = handle tested begun

abbrev s3 : System
s3 = handle stopped s2

r3 : Reach (raised stopped s2) [] [] s3
unfolding begin
r3 =
    next stopped (next tested (started cm false refl) refl [] [] [] s2 refl refl refl refl) tt _ _ _
      _ refl refl refl refl

not_running : s3.app.running ≡ false
unfolding handle stop begin
not_running = refl

not_ended : s3.worker ≢ ended
unfolding handle stop begin
not_ended e = cc

Reach-moves_example : IsEnabled (own_step s3.worker) s3
Reach-moves_example = Reach-moves _ [] [] s3 r3 not_running not_ended

has_alert : IsEnabled took s3
unfolding handle stop push begin
has_alert = (refl, λ e. cc)

stopped-bounds_example :
    (rank (handle_all (took ∷ []) s3).worker + 1 ≤ rank s3.worker)
    × (length (taken_all (took ∷ []) s3) ≤ spare s3.worker)
stopped-bounds_example = stopped-bounds (took ∷ []) s3 not_running (has_alert, tt)

-- A message with an alarm of the machine A, and the end of its write to Graphite.
abbrev measuring : List Event
measuring =
    called (alarm_came "A" (record { alarm_kod = 7; ts = "01.01.1970 00:00:05" }))
    ∷ graphite_done (written true)
    ∷ []

under_way : (text : String) → some text ≢ none
under_way text e = cc

measuring-AllEnabled : AllEnabled measuring begun
unfolding handle call on_machine_alarm map_alarm sink_each create do_connect push_g do_write
    is_empty push begin
measuring-AllEnabled = (tt, ((under_way _, refl), tt))

handle_all-written_example :
    log_text (handle_all measuring begun).log <> unwritten (handle_all measuring begun).app.gs
    ≡ lines (measured_all cm [] measuring)
handle_all-written_example = handle_all-written measuring cm false measuring-AllEnabled

-- The worker comes to wait, and the machine of the one watchdog is silent.
abbrev program_steps : List Step
program_steps = of_thread tested ∷ of_mqtt (timed_out 0) ∷ []

program_steps-AllEnabled : AllEnabled_program ⦃J = json_lib⦄ program_steps (begin_program cm false)
unfolding handle_program handle mqtt_begin first_receive start ping_loop subscribe_to_topics
    make_watchdogs topic_hmi_id split begin
program_steps-AllEnabled = (refl, ((refl, tt), tt))

run-outputs_example :
    let p = run ⦃J = json_lib⦄ program_steps (begin_program cm false) in
    let steps = expand_all ⦃J = json_lib⦄ program_steps (begin_program cm false) in
    (log_text p.log <> unwritten p.service.user.gs ≡ lines (measured_all cm [] steps))
    × (raised_all steps begun ≡ taken_all steps begun ++ p.service.user.alert_queue.items)
    × (p.service.user.tg.sent ≡ told_all steps begun)
    × (p.service.user.tg.is_connection ≡ reachable true steps)
run-outputs_example = run-outputs ⦃J = json_lib⦄ program_steps cm false program_steps-AllEnabled
