-- ===== src/Mqtt/Ping.antt =====
-- _pingLoop and _sendPing of src/mqttService.cpp, with the handlers that they set.
pub mod Connection
use mqtt_sentry.Base.{◌+◌, ◌-◌, Bool, true, false, not, if◌then◌else◌}
use mqtt_sentry.Mqtt.{MqttService, Callbacks}

-- How a wait of a timer ends.
pub data TimerEnd : Type 0 where
  expired aborted timer_error : TimerEnd

-- a != b
abbrev pub differ : Bool → Bool → Bool
differ true b = not b
differ false b = b

unfoldable pub ping_loop : MqttService → MqttService
ping_loop m = record m { ping_timer = true }

unfoldable pub send_ping : MqttService → MqttService
send_ping m = if m.is_waiting_for_response then m else record m {
  is_waiting_for_response = true;
  response_timer = true;
  publishes = m.publishes + 1;
}

-- The handler of the ping timer. An aborted wait has been replaced by a new one.
unfoldable pub on_ping_timer : TimerEnd → MqttService → MqttService
unfolding ping_loop send_ping
on_ping_timer aborted m = m
on_ping_timer timer_error m = ping_loop (record m { ping_timer = false })
on_ping_timer expired m = send_ping (record m { ping_timer = false })

module _ {S : Type 0} (callbacks : Callbacks S) where
  lose_connection : MqttService → S → MqttService × S
  lose_connection m s =
      if m.is_connected
      then (record m { is_connected = false }, callbacks.on_disconnection s)
      else (m, s)

  end_wait : TimerEnd → MqttService → MqttService
  end_wait aborted m = m
  end_wait _ m = record m { response_timer = false }

  -- The handler of the response timer does not look at its error code: it runs as well when the
  -- wait is aborted.
  unfoldable pub on_response_timer : TimerEnd → MqttService × S → MqttService × S
  unfolding lose_connection end_wait ping_loop
  on_response_timer how (m, s) =
      let waited = end_wait how m in
      if waited.is_waiting_for_response
      then (let (lost, s') = lose_connection waited s in
          (ping_loop (record lost { is_waiting_for_response = false }), s'))
      else (waited, s)

  -- The handler of the publish: the wait of the response timer is aborted.
  unfoldable pub on_published : Bool → MqttService × S → MqttService × S
  unfolding ping_loop
  on_published current_status (m, s) =
      let answered = record m { response_timer = false; publishes = m.publishes - 1 } in
      (
        ping_loop
            (record answered { is_connected = current_status; is_waiting_for_response = false }),
        (if differ current_status m.is_connected
            then (if current_status
                then callbacks.on_connection s
                else callbacks.on_disconnection s)
            else s),
      )
