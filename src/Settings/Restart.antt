-- ===== src/Settings/Restart.antt =====
-- The program of src/application.cpp started anew after its configuration has changed: the file of
-- src/settings.cpp gives it the settings that it had.
use mqtt_sentry.Base.{
  none, [], arith, ◌<◌, ◌^◌, All, ◌≡◌, refl, sym, true, false, List, ◌==◌, string_eq, ok,
}
use mathlib.Core.Quot
use mqtt_sentry.Json.{JsonLib}
use mqtt_sentry.Settings.{ConfigManager, Graphite, WriteResult, Logic}
use mqtt_sentry.Settings.Manager.{config_json, construct, initial, load, write}
use mqtt_sentry.Settings.Persist.{JsonLaws, InRange, SameLogic, load-config, logic-back}
use mqtt_sentry.Settings.View.{View, view, view_logic, Change, revise_all}
use mqtt_sentry.Settings.Ranges.{Fits}
use mqtt_sentry.Settings.Ranges.Changes.{perform_all-InRange}
use mqtt_sentry.Settings.History.{perform_all, Saved, perform_all-view}

view_logic-same : (a b : Logic) (v : View) → SameLogic a b → view_logic b v ≡ view_logic a v
view_logic-same a b v same = sym (λ i. record v {
  timeout = same.timeout i;
  timeout_limit = same.timeout_limit i;
  disabled_codes = same.disabled_codes i;
  code = Quot.sound same.code i;
  machines = Quot.sound same.machines i;
  poses = Quot.sound same.poses i;
})

module _ ⦃J : JsonLib⦄ (L : JsonLaws J) where
  -- A manager that reads the file of another.
  Saved-construct :
      (cm : ConfigManager) (graphite : Graphite) (writes : List WriteResult)
      → Saved cm
      → InRange cm
      → J.parse (J.dump (config_json cm)) ≡ ok (config_json cm)
      → J.dump (config_json cm) == "" ≡ false
      → (cm' : ConfigManager) × (construct graphite cm.file writes ≡ ok cm') × (view cm' ≡ view cm)
  unfolding construct
  Saved-construct cm graphite writes s v parses filled =
      let (logic, back, same) =
        logic-back L cm.logic v.timeout v.timeout_limit v.disabled_codes v.code v.poses in
      let fresh = initial graphite cm.file writes in
      (
        record fresh {
          tg = cm.tg;
          mqtt = cm.mqtt;
          logic = logic;
          graphite = cm.graphite;
          loaded = true;
        },
        simp (load-config L cm fresh logic refl s.file v parses filled back),
        view_logic-same cm.logic logic (view cm) same,
      )

  -- Where the writes of a manager succeed, its file holds its configuration and the numbers are in
  -- range, the timeout in 64 bits, a sequence of calls with arguments in range that comes to an
  -- end leaves a file from which a new manager reads the settings that the same calls make of
  -- those at the start, its maps up to the order of iteration, where a machine that has a topic
  -- keeps its pseudonym, provided that the JSON library parses what it has written for them and
  -- that this is not the empty text.
  pub restart-view :
      (changes : List Change) (cm cm' : ConfigManager) (graphite : Graphite)
      (writes : List WriteResult)
      → Saved cm
      → InRange cm
      → All Fits changes
      → perform_all changes cm ≡ ok cm'
      → J.parse (J.dump (config_json cm')) ≡ ok (config_json cm')
      → J.dump (config_json cm') == "" ≡ false
      → (cm'' : ConfigManager) × (construct graphite cm'.file writes ≡ ok cm'')
        × (revise_all changes (view cm) ≡ ok (view cm''))
  restart-view changes cm cm' graphite writes s i a p parses filled =
      let (after, saved) = rw p at (perform_all-view changes cm s) in
      let range = rw p at (perform_all-InRange changes cm i a) in
      let (cm'', read, same) = Saved-construct cm' graphite writes saved range parses filled in
      (cm'', read, rw same (sym after))

  -- The first start, where there is no file: the manager writes the default configuration.
  pub construct_first :
      (graphite : Graphite)
      → graphite.port < 2 ^ 16
      → (cm : ConfigManager) × (construct graphite none [] ≡ ok cm) × Saved cm × InRange cm
  unfolding construct load write config_json
  construct_first graphite h = (
    _,
    refl,
    record { file = refl; succeed = refl },
    record {
      users = tt;
      admins = tt;
      mqtt_port = omega arith;
      graphite_port = h;
      timeout = omega arith;
      timeout_limit = omega arith;
      disabled_codes = (omega arith, tt);
      code = (omega arith, (omega arith, tt));
      poses = (omega arith, tt);
    },
  )
