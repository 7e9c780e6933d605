-- ===== src/Graphite.antt =====
-- include/graphiteService.hpp and src/graphiteService.cpp. What the service waits for is part of
-- its state; a handler of each operation is a function. All of it runs on one thread.
pub mod Loop
pub mod Invariant
pub mod Stream
use Prim.Native.String.{len}
use mqtt_sentry.Base.{
  String, Bool, true, false, not, ◌||◌, Option, none, some, List, [], ◌∷◌, ltb, if◌then◌else◌, ◌<>◌,
  to_string, int_to_string,
}
use mqtt_sentry.Types.{Metric}
use mqtt_sentry.Types.ThreadSafeQueue.{Queue, is_empty}
use mqtt_sentry.Types.ThreadSafeQueue

-- What the socket is being connected by: the resolver, the connection, or the timer of the next try.
pub record GraphiteService : Type 0 where
  pub buff : String
  pub queue : Queue Metric
  pub is_connecting : Bool
  pub is_writing : Bool
  pub resolve_op : Bool
  pub connect_op : Bool
  pub retry_timer : Bool
  -- The buffer that `async_write` was given.
  pub write_op : Option String

unfoldable pub do_connect : GraphiteService → GraphiteService
do_connect g = if g.is_connecting then g else record g { is_connecting = true; resolve_op = true }

-- The constructor.
unfoldable pub create : GraphiteService
unfolding do_connect
create = do_connect (record {
  buff = "";
  queue = record { items = [] };
  is_connecting = false;
  is_writing = false;
  resolve_op = false;
  connect_op = false;
  retry_timer = false;
  write_op = none;
})

-- One line of the plaintext protocol.
unfoldable pub line : Metric → String
line m = m.path <> " " <> to_string m.value <> " " <> int_to_string m.ts <> "\n"

-- The loop of _do_write: the buffer, and the metrics that are left. Its other test, that the queue
-- is empty, leads to the `break`.
unfoldable pub fill : String → List Metric → String × List Metric
fill buff [] = (buff, [])
fill buff (m ∷ ms) =
    let rest = fill (buff <> line m) ms in if ltb (len buff) 1024 then rest else (buff, m ∷ ms)

-- A buffer that was moved from is empty.
unfoldable pub do_write : GraphiteService → GraphiteService
do_write g =
    if g.is_writing || is_empty g.queue
    then g
    else (let (write_buff, rest) = fill g.buff g.queue.items in
        record g {
          buff = "";
          queue = record { items = rest };
          is_writing = true;
          write_op = some write_buff;
        })

unfoldable pub push : Metric → GraphiteService → GraphiteService
push m g =
    let queued = record g { queue = ThreadSafeQueue.push m g.queue } in
    if not queued.is_writing || is_empty queued.queue then do_write queued else queued

-- The handlers of async_resolve, async_connect, the timer and async_write; `true` is success.
unfoldable pub on_resolved : Bool → GraphiteService → GraphiteService
on_resolved true g = record g { resolve_op = false; connect_op = true }
on_resolved false g = record g { resolve_op = false; is_connecting = false }

unfoldable pub on_connected : Bool → GraphiteService → GraphiteService
on_connected true g =
    let connected = record g { connect_op = false; is_connecting = false } in
    if not (is_empty connected.queue) then do_write connected else connected
on_connected false g = record g { connect_op = false; is_connecting = false; retry_timer = true }

unfoldable pub on_retry : GraphiteService → GraphiteService
on_retry g = do_connect (record g { retry_timer = false })

unfoldable pub on_written : Bool → GraphiteService → GraphiteService
on_written true g =
    let done = record g { is_writing = false; write_op = none; buff = "" } in
    if not (is_empty done.queue) then do_write done else done
on_written false g = do_connect (record g { is_writing = false; write_op = none })
