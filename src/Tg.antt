-- ===== src/Tg.antt =====
-- include/tgService.hpp and src/tgService.cpp.
pub mod Sending
pub mod Polling
use mqtt_sentry.Base.{
  ℕ, String, Bool, true, false, not, List, [], ◌∷◌, ◌++◌, ◌==◌, string_eq, if◌then◌else◌, ◌<>◌,
  vs16,
}
use mqtt_sentry.Types.{
  AlertEvents, AlertState, fine, online, offline, error, pump_on, pump_off, eco_malfunction,
}
use mqtt_sentry.Settings.{ConfigManager}

-- `sent` is what the Telegram API has accepted: the chat and the text.
pub record TgService : Type 0 where
  pub exit : Bool
  pub is_connection : Bool
  pub sent : List (ℕ × String)

-- The constructor, over the value that it leaves in `_exit`.
unfoldable pub create : Bool → TgService
create exit = record { exit = exit; is_connection = true; sent = [] }

-- The API of tgbot-cpp: `accepts chat text` if sendMessage and editMessageText return, and not if
-- they throw, and `answers query` if the answer to a query with this id does.
pub record Api : Type 0 where
  pub accepts : ℕ → String → Bool
  pub answers : String → Bool

module _ ⦃api : Api⦄ where
  -- The loop over the users, inside `try`: the first exception ends it.
  unfoldable pub send_each : String → List ℕ → List (ℕ × String)
  send_each text [] = []
  send_each text (user ∷ rest) =
      if api.accepts user text then (user, text) ∷ send_each text rest else []

  unfoldable pub send : ConfigManager → String → TgService → TgService
  send cm message tg = record tg { sent = tg.sent ++ send_each message cm.tg.users }

abbrev pub sign : AlertState → String
sign fine = "✅ "
sign online = "📶 "
sign offline = "🚫 "
sign eco_malfunction = "🚨 "
sign error = "🚨 "
sign pump_on = "🟢 "
sign pump_off = "🔴 "

unfoldable pub alert_text : AlertEvents → String
alert_text alert =
    alert.machine_id
    <> " :\n"
    <> sign alert.state
    <> alert.message
    <> "\n"
    <> (if not (alert.timestamp == "NOW") then "🗓" <> vs16 <> " " <> alert.timestamp else "")

module _ ⦃api : Api⦄ where
  unfoldable pub send_alert : ConfigManager → AlertEvents → TgService → TgService
  unfolding alert_text
  send_alert cm alert tg = record tg { sent = tg.sent ++ send_each (alert_text alert) cm.tg.users }

unfoldable pub stop : TgService → TgService
stop tg = record tg { exit = true }

-- How one call of longPoll.start() ends.
pub data Poll : Type 0 where
  returned dns_error system_error api_error : Poll

-- One round of the loop; the waits are left out.
unfoldable pub poll_round : Poll → TgService → TgService
poll_round returned tg = record tg { is_connection = true }
poll_round dns_error tg = record tg { is_connection = false }
poll_round system_error tg = tg
poll_round api_error tg = tg

-- The loop, over how its coming rounds end and whether another thread calls stop() in the round.
unfoldable pub poll_loop : List (Poll × Bool) → TgService → TgService
unfolding stop
poll_loop [] tg = tg
poll_loop ((poll, stopped) ∷ rest) tg =
    let after = poll_round poll tg in
    let next = poll_loop rest (if stopped then stop after else after) in
    if tg.exit then tg else next

unfoldable pub run_long_poll : List (Poll × Bool) → TgService → TgService
run_long_poll rounds tg = poll_loop rounds (record tg { exit = false })
