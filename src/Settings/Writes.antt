-- ===== src/Settings/Writes.antt =====
-- What `_write` does to the manager and to its file.
use mqtt_sentry.Base.{◌≡◌, ◌⊎◌, refl, true, false, some, List, [], ◌∷◌, arith}
use mqtt_sentry.Json.{JsonLib}
use mqtt_sentry.Settings.{ConfigManager, WriteResult, written, cannot_open, failed, Logic, Mqtt}
use mqtt_sentry.Settings.Manager.{
  write, config_json, update_both, update_logic_config, update_mqtt_config,
}

-- The same configuration.
pub record SameConfig (a b : ConfigManager) : Type 0 where
  pub loaded : a.loaded ≡ b.loaded
  pub tg : a.tg ≡ b.tg
  pub mqtt : a.mqtt ≡ b.mqtt
  pub logic : a.logic ≡ b.logic
  pub graphite : a.graphite ≡ b.graphite

module _ ⦃J : JsonLib⦄ where
  write-config_from :
      (writes : List WriteResult) (cm : ConfigManager)
      → cm.writes ≡ writes
      → SameConfig (write cm).0 cm
  unfolding write
  write-config_from [] cm e = ground arith
  write-config_from (written ∷ rest) cm e = ground arith
  write-config_from (cannot_open ∷ rest) cm e = ground arith
  write-config_from (failed text ∷ rest) cm e = ground arith

  -- A write, whether it succeeds or not, leaves the configuration in memory as it is.
  pub write-config : (cm : ConfigManager) → SameConfig (write cm).0 cm
  write-config cm = write-config_from cm.writes cm refl

  write-file_from :
      (writes : List WriteResult) (cm : ConfigManager)
      → cm.writes ≡ writes
      → (write cm).1 ≡ true
      → (write cm).0.file ≡ some (J.dump (config_json cm))
  unfolding write config_json
  write-file_from [] cm e h = ground arith
  write-file_from (written ∷ rest) cm e h = ground arith
  write-file_from (cannot_open ∷ rest) cm e h = ground arith
  write-file_from (failed text ∷ rest) cm e h = ground arith

  -- After a write that succeeds, the file holds the configuration.
  pub write-file :
      (cm : ConfigManager)
      → (write cm).1 ≡ true
      → (write cm).0.file ≡ some (J.dump (config_json cm))
  write-file cm h = write-file_from cm.writes cm refl h

  module _ (logic : Logic) (mqtt : Mqtt) (cm : ConfigManager) where
    -- Where both writes succeed, both parts are new and the others are kept.
    pub update_both-config :
        (update_both logic mqtt cm).1 ≡ true
        → SameConfig (update_both logic mqtt cm).0 (record cm { logic = logic; mqtt = mqtt })
    unfolding update_both update_logic_config update_mqtt_config
    update_both-config h =
        let cm1 = (write (record cm { logic = logic })).0 in
        ground (
          arith,
          write-config (record cm { logic = logic }),
          write-config (record cm1 { mqtt = mqtt }),
        )

    -- The topics change only with the machines: they are new or, where the first write fails, old.
    pub update_both-logic : (update_both logic mqtt cm).0.logic ≡ logic
    unfolding update_both update_logic_config update_mqtt_config
    update_both-logic =
        let cm1 = (write (record cm { logic = logic })).0 in
        ground (
          arith,
          write-config (record cm { logic = logic }),
          write-config (record cm1 { mqtt = mqtt }),
        )

    pub update_both_torn :
        (write (record cm { logic = logic })).1 ≡ false
        → ((update_both logic mqtt cm).1 ≡ false) × ((update_both logic mqtt cm).0.mqtt ≡ cm.mqtt)
    unfolding update_both update_logic_config update_mqtt_config
    update_both_torn h = ground (arith, write-config (record cm { logic = logic }))

    -- Whether the writes succeed or not, the MQTT part is the old one or the new one.
    pub update_both-mqtt :
        ((update_both logic mqtt cm).0.mqtt ≡ cm.mqtt) ⊎ ((update_both logic mqtt cm).0.mqtt ≡ mqtt)
    unfolding update_both update_logic_config update_mqtt_config
    update_both-mqtt =
        let cm1 = (write (record cm { logic = logic })).0 in
        ground (
          arith,
          write-config (record cm { logic = logic }),
          write-config (record cm1 { mqtt = mqtt }),
        )
