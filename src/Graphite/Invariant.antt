-- ===== src/Graphite/Invariant.antt =====
-- What holds of the flags of the Graphite service whenever no handler runs.
use mqtt_sentry.Base.{
  ◌≡◌, sym, List, Bool, true, false, ◌||◌, ◌&&◌, none, some, Option, String, arith,
}
use mathlib.Core.Path.{subst}
use mqtt_sentry.Types.{Metric}
use mqtt_sentry.Types.ThreadSafeQueue
use mqtt_sentry.Graphite.{GraphiteService, create, do_write, do_connect}
use mqtt_sentry.Graphite.Loop.{
  Event, pushed, resolved, connected, written, retried, handle, IsPending, Log, Reach, created,
  next,
}

abbrev pub is_some : Option String → Bool
is_some none = false
is_some (some _) = true

-- A write is under way exactly if `is_writing` says so, and one of the two steps of a connection
-- exactly if `is_connecting` does; nothing stays in the buffer.
pub record Inv (g : GraphiteService) : Type 0 where
  pub writes : g.is_writing ≡ is_some g.write_op
  pub connects : g.is_connecting ≡ (g.resolve_op || g.connect_op)
  pub one : g.resolve_op && g.connect_op ≡ false
  pub empty : g.buff ≡ ""

do_write-Inv : (g : GraphiteService) → Inv g → Inv (do_write g)
unfolding do_write
do_write-Inv g v = ground arith

do_connect-Inv : (g : GraphiteService) → Inv g → Inv (do_connect g)
unfolding do_connect
do_connect-Inv g v = ground arith

pub handle-Inv : (e : Event) (g : GraphiteService) → IsPending e g → Inv g → Inv (handle e g)
unfolding handle
handle-Inv (pushed m) g p v =
    ground (arith, do_write-Inv (record g { queue = ThreadSafeQueue.push m g.queue }))
handle-Inv (resolved true) g p v = ground arith
handle-Inv (resolved false) g p v = ground arith
handle-Inv (connected true) g p v =
    ground (arith, do_write-Inv (record g { connect_op = false; is_connecting = false }))
handle-Inv (connected false) g p v = ground arith
handle-Inv (written true) g p v =
    ground (arith, do_write-Inv (record g { is_writing = false; write_op = none; buff = "" }))
handle-Inv (written false) g p v =
    ground (arith, do_connect-Inv (record g { is_writing = false; write_op = none }))
handle-Inv retried g p v = ground (arith, do_connect-Inv (record g { retry_timer = false }))

-- In every state that the event loop reaches, is_writing holds exactly while a write is under way
-- and is_connecting exactly while one of the two steps of a connection is; the buffer is empty.
pub Reach-Inv : {ms : List Metric} {log : Log} {g : GraphiteService} → Reach ms log g → Inv g
unfolding create
Reach-Inv (created e) = ground arith
Reach-Inv (next {g = g} e r p ms' log' g' _ _ q) =
    subst Inv (sym q) (handle-Inv e g p (Reach-Inv r))
