-- ===== src/App/Program.antt =====
-- The program of src/application.cpp as a whole: the event loop of src/mqttService.cpp drives the
-- callbacks, among the steps of the other threads.
pub mod Simulation
use mqtt_sentry.Base.{Bool, List, [], ◌∷◌, ◌++◌, nat_eq, string_eq}
use mqtt_sentry.Json.{JsonLib}
use mqtt_sentry.Utils.{TimeZone}
use mqtt_sentry.Settings.{ConfigManager}
use mqtt_sentry.Tg.{Api}
use mqtt_sentry.Graphite.Loop.{Log}
use mqtt_sentry.Mqtt.System as Mqtt
use mqtt_sentry.App.{Application, callbacks}
use mqtt_sentry.App.Messages.{event_calls}
use mqtt_sentry.App.Worker.{Worker}
use mqtt_sentry.App.Threads as Threads

-- The MQTT service with the application, the configuration, the place of the worker, and the writes
-- to Graphite that have ended.
pub record Program : Type 0 where
  pub cm : ConfigManager
  pub service : Mqtt.System Application
  pub worker : Worker
  pub log : Log

-- An event of the MQTT service, or a step of another thread.
pub data Step : Type 0 where
  of_mqtt : Mqtt.Event → Step
  of_thread : Threads.Event → Step

-- What the other threads see.
abbrev pub threads : Program → Threads.System
threads p = record {
  cm = p.cm;
  app = p.service.user;
  mqtt = p.service.mqtt;
  worker = p.worker;
  log = p.log;
}

-- The constructor, and start() of the MQTT service.
abbrev pub begin : ConfigManager → Bool → Program
begin cm exit =
    let s = Threads.begin cm exit in
    record { cm = cm; service = Mqtt.begin cm s.app; worker = s.worker; log = s.log }

abbrev pub with_threads : Program → Threads.System → Program
with_threads p s = record {
  cm = s.cm;
  service = record p.service { mqtt = s.mqtt; user = s.app };
  worker = s.worker;
  log = s.log;
}

abbrev pub called_each : List Threads.Callback → List Threads.Event
called_each [] = []
called_each (c ∷ cs) = Threads.called c ∷ called_each cs

module _ ⦃J : JsonLib⦄ ⦃z : TimeZone⦄ ⦃api : Api⦄ where
  unfoldable pub handle : Step → Program → Program
  handle (of_mqtt e) p = record p { service = Mqtt.handle p.cm (callbacks p.cm) e p.service }
  handle (of_thread e) p = with_threads p (Threads.handle e (threads p))

  abbrev pub IsEnabled : Step → Program → Type 0
  IsEnabled (of_mqtt e) p = Mqtt.IsEnabled e p.service
  IsEnabled (of_thread e) p = Threads.IsEnabled e (threads p)

  abbrev pub AllEnabled : List Step → Program → Type 0
  AllEnabled [] p = Unit {0}
  AllEnabled (e ∷ es) p = IsEnabled e p × AllEnabled es (handle e p)

  abbrev pub run : List Step → Program → Program
  run [] p = p
  run (e ∷ es) p = run es (handle e p)

  -- The steps of the threads in a step of the program: an event of the MQTT service is the calls
  -- that it means.
  abbrev pub expand : Step → Program → List Threads.Event
  expand (of_mqtt e) p = called_each (event_calls p.cm e p.service)
  expand (of_thread e) p = e ∷ []

  abbrev pub expand_all : List Step → Program → List Threads.Event
  expand_all [] p = []
  expand_all (e ∷ es) p = expand e p ++ expand_all es (handle e p)
