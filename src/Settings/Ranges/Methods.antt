-- ===== src/Settings/Ranges/Methods.antt =====
-- The methods of ConfigManager in src/settings.cpp keep the numbers in range.
use mqtt_sentry.Base.{
  ℕ, ◌<◌, ◌^◌, String, ◌≡◌, Bool, true, false, not, Option, none, some, List, [], ◌∷◌, ◌==◌, nat_eq,
  string_eq, Outcome, ok, lookup, insert, if_rule, throw, undefined,
}
use mqtt_sentry.Json.{JsonLib}
use mqtt_sentry.Settings.{Tg, Mqtt, Logic, Graphite, ConfigManager, topic_exists, other_topics}
use mqtt_sentry.Settings.Manager.{
  write, update_tg_config, update_mqtt_config, update_logic_config, update_graphite_config,
  remove_user, update_both, add_machine, remove_machine, add_error,
}
use mqtt_sentry.Settings.Writes.{write-config}
use mqtt_sentry.Settings.Persist.{InRange}
use mqtt_sentry.Settings.Branches.{
  add_error_new, add_error_known, remove_user_nobody, remove_user_somebody,
}
use mqtt_sentry.Settings.Ranges.{
  FitTg, FitLogic, AllInRange, All-keep, All-insert, InRange-same, tg-InRange, logic-InRange,
  fit_logic,
}

module _ ⦃J : JsonLib⦄ where
  pub write-InRange : (cm : ConfigManager) → InRange cm → InRange (write cm).0
  write-InRange cm i = InRange-same (write cm).0 cm (write-config cm) i

  pub update_tg-InRange :
      (t : Tg) (cm : ConfigManager) → InRange cm → FitTg t → InRange (update_tg_config t cm).0
  unfolding update_tg_config
  update_tg-InRange t cm i f = write-InRange (record cm { tg = t }) (tg-InRange cm t i f)

  pub update_logic-InRange :
      (l : Logic) (cm : ConfigManager)
      → InRange cm
      → FitLogic l
      → InRange (update_logic_config l cm).0
  unfolding update_logic_config
  update_logic-InRange l cm i f = write-InRange (record cm { logic = l }) (logic-InRange cm l i f)

  pub update_mqtt-InRange :
      (m : Mqtt) (cm : ConfigManager)
      → InRange cm
      → m.port < 2 ^ 16
      → InRange (update_mqtt_config m cm).0
  unfolding update_mqtt_config
  update_mqtt-InRange m cm i f =
      write-InRange (record cm { mqtt = m })
        (record {
          users = i.users;
          admins = i.admins;
          mqtt_port = f;
          graphite_port = i.graphite_port;
          timeout = i.timeout;
          timeout_limit = i.timeout_limit;
          disabled_codes = i.disabled_codes;
          code = i.code;
          poses = i.poses;
        })

  pub update_graphite-InRange :
      (g : Graphite) (cm : ConfigManager)
      → InRange cm
      → g.port < 2 ^ 16
      → InRange (update_graphite_config g cm).0
  unfolding update_graphite_config
  update_graphite-InRange g cm i f =
      write-InRange (record cm { graphite = g })
        (record {
          users = i.users;
          admins = i.admins;
          mqtt_port = i.mqtt_port;
          graphite_port = f;
          timeout = i.timeout;
          timeout_limit = i.timeout_limit;
          disabled_codes = i.disabled_codes;
          code = i.code;
          poses = i.poses;
        })

  pub update_both-InRange :
      (l : Logic) (m : Mqtt) (cm : ConfigManager)
      → InRange cm
      → FitLogic l
      → m.port < 2 ^ 16
      → InRange (update_both l m cm).0
  unfolding update_both
  update_both-InRange l m cm i f h =
      let (cm', success) = update_logic_config l cm in
      let first = update_logic-InRange l cm i f in
      if_rule {A = ConfigManager × Bool} (λ r. InRange r.0) success
        (update_mqtt-InRange m cm' first h) first

  pub remove_user-InRange :
      (u : ℕ) (users : List ℕ) (cm : ConfigManager)
      → cm.tg.users ≡ users
      → InRange cm
      → InRange (remove_user u cm).0
  remove_user-InRange u [] cm e i = rw (remove_user_nobody u cm e) i
  remove_user-InRange u (v ∷ vs) cm e i = rw (remove_user_somebody u v vs cm e) (
      update_tg-InRange _ cm i
        (All-keep _ (λ it. not (it == u)) (v ∷ vs) (rw e at i.users), i.admins))

  pub add_error-InRange :
      (code : ℕ) (des : String) (known : Option String) (cm : ConfigManager)
      → lookup code cm.logic.code ≡ known
      → InRange cm
      → code < 2 ^ 32
      → InRange (add_error code des cm).0
  add_error-InRange code des none cm e i f = rw (add_error_new code des cm e) (
      write-InRange _ (
        logic-InRange cm (record cm.logic { code = insert code des cm.logic.code }) i
          (
            i.timeout_limit,
            i.disabled_codes,
            All-insert (λ n. n < 2 ^ 32) code des cm.logic.code f i.code,
            i.poses,
            i.timeout,
          )))
  add_error-InRange code des (some name) cm e i f = rw (add_error_known code des name cm e) i

  pub add_machine-InRange :
      (mid pseudo : String) (exist : Outcome Bool) (cm : ConfigManager)
      → topic_exists mid cm.mqtt.topic ≡ exist
      → InRange cm
      → AllInRange (λ r. r.0) (add_machine mid pseudo cm)
  unfolding add_machine
  add_machine-InRange mid pseudo (ok true) cm e i = rw e i
  add_machine-InRange mid pseudo (ok false) cm e i =
      rw e (update_both-InRange _ _ cm i (fit_logic cm i) i.mqtt_port)
  add_machine-InRange mid pseudo (throw ex) cm e i = rw e tt
  add_machine-InRange mid pseudo undefined cm e i = rw e tt

  pub remove_machine-InRange :
      (mid : String) (temp : Outcome (List String)) (cm : ConfigManager)
      → other_topics mid cm.mqtt.topic ≡ temp
      → InRange cm
      → AllInRange (λ r. r.0) (remove_machine mid cm)
  unfolding remove_machine
  remove_machine-InRange mid (ok temp) cm e i =
      rw e (update_both-InRange _ _ cm i (fit_logic cm i) i.mqtt_port)
  remove_machine-InRange mid (throw ex) cm e i = rw e tt
  remove_machine-InRange mid undefined cm e i = rw e tt
