-- ===== src/Graphite/Stream.antt =====
-- What the Graphite service writes: the lines of the metrics, in the order of their pushes.
use Prim.Native.String.{len}
use text.Mathlib.TextLemmas.{nil-append, append-nil, append_assoc}
use text.Mathlib.TextPositions.{len-append}
use mqtt_sentry.Base.{
  ℕ, ◌+◌, ◌≤◌, ◌<◌, String, ◌≡◌, ◌≢◌, refl, sym, Bool, true, false, none, List, [], ◌∷◌, ◌++◌,
  arith, ◌<>◌, All, inl, inr, Bool-cases, ltb, ltb→lt,
}
use mqtt_sentry.Types.{Metric}
use mqtt_sentry.Types.ThreadSafeQueue
use mqtt_sentry.Graphite.{
  GraphiteService, create, line, fill, do_write, do_connect, push, on_written,
}
use mqtt_sentry.Graphite.Loop.{
  Event, pushed, resolved, connected, written, retried, handle, IsPending, Log, text_of, logged,
  metrics, Reach, created, next,
}
use mqtt_sentry.Graphite.Invariant.{Inv, Reach-Inv}

unfoldable pub lines : List Metric → String
lines [] = ""
lines (m ∷ ms) = line m <> lines ms

-- The text of the writes that ended.
unfoldable pub log_text : Log → String
log_text [] = ""
log_text ((success, text) ∷ log) = text <> log_text log

-- What was pushed and is not yet written: the write under way, and the queue.
abbrev pub unwritten : GraphiteService → String
unwritten g = text_of g.write_op <> lines g.queue.items

lines-append : (ms ns : List Metric) → lines (ms ++ ns) ≡ lines ms <> lines ns
unfolding lines
lines-append [] ns = simp nil-append
lines-append (m ∷ ms) ns = simp (lines-append ms ns, append_assoc)

log_text-append : (a b : Log) → log_text (a ++ b) ≡ log_text a <> log_text b
unfolding log_text
log_text-append [] b = simp nil-append
log_text-append ((success, text) ∷ a) b = simp (log_text-append a b, append_assoc)

-- Filling the buffer moves lines from the queue to its end.
fill-lines :
    (buff : String) (ms : List Metric)
    → (fill buff ms).0 <> lines (fill buff ms).1 ≡ buff <> lines ms
unfolding fill lines
fill-lines buff [] = refl
fill-lines buff (m ∷ ms) = elim (Bool-cases (ltb (len buff) 1024)) [
  | inl room ↦ rw (room, fill-lines (buff <> line m) ms) (append_assoc buff (line m) (lines ms))
  | inr full ↦ rw full
]

-- A batch that starts within the bound is shorter than 1024 bytes only if it takes the whole
-- queue, and is longer by less than one line, if every line has at most k bytes.
pub fill_bounds :
    (k : ℕ) (buff : String) (ms : List Metric)
    → len buff < 1024 + k
    → All (λ m. len (line m) ≤ k) ms
    → (len (fill buff ms).0 < 1024 + k) × ((fill buff ms).1 ≢ [] → 1024 ≤ len (fill buff ms).0)
unfolding fill
fill_bounds k buff [] h a = (h, λ ne. absurd (ne refl))
fill_bounds k buff (m ∷ ms) h a = elim (Bool-cases (ltb (len buff) 1024)) [
  | inl room ↦ rw room (
      fill_bounds k (buff <> line m) ms
        (omega (arith, len-append buff (line m), ltb→lt (len buff) 1024 room, a.0)) a.1)
  | inr full ↦ rw full (h, λ _. ground arith)
]

do_write-unwritten : (g : GraphiteService) → Inv g → unwritten (do_write g) ≡ unwritten g
unfolding do_write
do_write-unwritten g v =
    ground (arith, fill-lines g.buff g.queue.items, nil-append (lines g.queue.items))

do_connect-unwritten : (g : GraphiteService) → unwritten (do_connect g) ≡ unwritten g
unfolding do_connect
do_connect-unwritten g = ground arith

push-unwritten :
    (m : Metric) (g : GraphiteService)
    → Inv g
    → unwritten (push m g) ≡ unwritten g <> lines (m ∷ [])
unfolding push ThreadSafeQueue.push
push-unwritten m g v =
    let queued = record g { queue = ThreadSafeQueue.push m g.queue } in
    let kept : unwritten (push m g) ≡ unwritten queued =
      ground (arith, do_write-unwritten queued) in
    rw kept (rw (lines-append g.queue.items (m ∷ [])) (sym (append_assoc _ _ _)))

-- An event that ends no write and pushes nothing.
silent : {a b : String} → a ≡ b → log_text [] <> a ≡ b <> lines []
unfolding log_text lines
silent {a} {b} e = simp (nil-append, append-nil) e

-- An event that ends a write.
ended :
    (success : Bool) (g g' : GraphiteService)
    → unwritten g' ≡ lines g.queue.items
    → log_text ((success, text_of g.write_op) ∷ []) <> unwritten g' ≡ unwritten g <> lines []
unfolding log_text lines
ended success g g' e = simp (append-nil, e)

handle-unwritten :
    (e : Event) (g : GraphiteService)
    → IsPending e g
    → Inv g
    → log_text (logged e g) <> unwritten (handle e g) ≡ unwritten g <> lines (metrics e)
unfolding handle
handle-unwritten (pushed m) g p v = unfold log_text in simp nil-append (push-unwritten m g v)
handle-unwritten (resolved true) g p v = silent refl
handle-unwritten (resolved false) g p v = silent refl
handle-unwritten (connected true) g p v =
    silent
      (ground (arith, do_write-unwritten (record g { connect_op = false; is_connecting = false })))
handle-unwritten (connected false) g p v = silent refl
handle-unwritten (written true) g p v =
    let done = record g { is_writing = false; write_op = none; buff = "" } in
    ended true g (on_written true g)
      (ground (arith, do_write-unwritten done, nil-append (lines g.queue.items)))
handle-unwritten (written false) g p v =
    let done = record g { is_writing = false; write_op = none } in
    ended false g (on_written false g)
      (ground (arith, do_connect-unwritten done, nil-append (lines g.queue.items)))
handle-unwritten retried g p v = silent (do_connect-unwritten (record g { retry_timer = false }))

-- In every state that the event loop reaches, the texts of the ended writes, the write under way
-- and the lines of the queue are together the lines of all metrics pushed, in order.
pub Reach-unwritten :
    {ms : List Metric} {log : Log} {g : GraphiteService}
    → Reach ms log g
    → log_text log <> unwritten g ≡ lines ms
unfolding lines log_text create
Reach-unwritten (created e) = rw e (simp nil-append)
Reach-unwritten (next {ms = ms} {log = log} {g = g} e r p ms' log' g' em el eg) =
    rw (em, el, eg)
      (rw (log_text-append log (logged e g), lines-append ms (metrics e))
        (rw append_assoc (
          rw (handle-unwritten e g p (Reach-Inv r))
            (rw (← append_assoc) (rw (Reach-unwritten r))))))
