-- ===== src/Lib.antt =====
-- MqttSentry watches refrigeration machines over MQTT, tells Telegram users of their alerts, and
-- hands their measurements to Graphite. This library models its C++ code and proves what makes the
-- parts work.
--
-- The parts, with the module and the files of the repository:
--   * Utils: include/utils.hpp. `split`, `formatTime` and `stringToUnix`; Utils/Scan is the reading
--     of numbers by the standard library.
--   * Types: include/types.hpp. Alerts, metrics, the messages of the machines, and the containers
--     ThreadSafeQueue and ThreadSafeMap, whose methods hold a lock and are one step each.
--   * Settings: include/settings.hpp and src/settings.cpp. The state of ConfigManager is a record
--     that holds the contents of its file and the results of the coming writes; a method takes the
--     manager and returns it with the method's result. View forgets the order in which the
--     unordered maps and sets are iterated, History has the changes of a run of the program, and
--     Restart the next run, which reads the file again.
--   * Watchdog: src/topicWatchdog.cpp. The timer is the wait that is pending, and the callback a
--     function on a state of its owner. A wait that has ended is handled at once by `expire`.
--   * Mqtt: src/mqttService.cpp. Receive is the handler of a message, Subscribe the watchdogs of the
--     topics, and Ping the loop that watches the broker. The callbacks of the application are a
--     record of functions on its state. System is the event loop of the service: the handlers of
--     all its pending waits, the receive loop with its retry timer among them, in any order.
--   * Mapper: src/mapper.cpp. The metrics of a message, handed to a sink.
--   * Graphite: src/graphiteService.cpp. What the service waits for is part of its state, and
--     Graphite/Loop runs its handlers in every order that the event loop allows.
--   * Tg: src/tgService.cpp. Sending to the users, and the polling loop.
--   * Admin: src/adminController.cpp. A handler changes the controller and ends with a value or an
--     exception, after which the changes stay; Admin/Effects has the steps it is made of. Queries,
--     Commands and Search are the buttons, the commands and the inline search, and Updates hands
--     each update of the bot to its handler.
--   * App: src/application.cpp. The callbacks that join the parts, and the worker that takes the
--     alerts out of the queue. Messages has what the events of the MQTT service mean for the
--     application, State follows a message of the topic "state" to the user, and
--     Threads has the worker, the event loop and the thread of the bot, whose steps come in any
--     order, the handlers of the Graphite service among them; Threads/Notifications has what the
--     users should be told, and Threads/Measured what should be measured. Program joins them with
--     the event loop of the MQTT service.
--   * Json is the interface of nlohmann::json, which the repository has as a submodule.
--   * Base has what the parts share, and Examples has concrete inputs.
--
-- A message goes from Mqtt to the callbacks of App, which put alerts into the queue of the worker
-- and metrics into Graphite; the worker sends the alerts through Tg.
--
-- Outcomes: code that may throw returns `throw e`, and code with undefined behaviour `undefined`.
-- Numbers are natural numbers with the wrap-around of their C++ type written out. Texts are byte
-- strings. A map is an association list in its order of iteration.
--
-- Fuel: `worker_loop` counts rounds, and one more than there are alerts is enough. The digits of
-- a number are printed with 20 steps, enough for 64 bits. All other loops are structural.
--
-- Parameters: the JSON library; `mktime`, which reads the time zone, and what stringToUnix gives for
-- numbers that fit no `int`; and the Telegram API, which accepts or refuses a message.
--
-- Not modelled: src/main.cpp, which reads the path of the file and calls Application::run; the
-- MQTT client itself; logging; interleavings finer than those of App/Threads, where a callback is
-- one step; in the event loops, the handler of a wait of a watchdog that pet() or stop() comes
-- before, which Watchdog has as `run_overtaken` and App/Overtaken follows to the queue of the
-- worker; and the libraries Boost, tgbot-cpp and nlohmann::json.
pub mod Base
pub mod Utils
pub mod Json
pub mod Types
pub mod Settings
pub mod Watchdog
pub mod Mapper
pub mod Graphite
pub mod Tg
pub mod Mqtt
pub mod Admin
pub mod App
pub mod Examples
