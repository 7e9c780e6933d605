-- ===== src/Tg/Polling.antt =====
-- The loop of runLongPoll in src/tgService.cpp, and its end.
use mqtt_sentry.Base.{◌≡◌, refl, Bool, true, false, List, [], ◌∷◌, ◌++◌, All, ◌∙◌, arith}
use mqtt_sentry.Tg.{TgService, Poll, stop, poll_round, poll_loop, run_long_poll}

-- The state after rounds that nobody interrupts.
abbrev pub after_rounds : List (Poll × Bool) → TgService → TgService
after_rounds [] tg = tg
after_rounds ((poll, _) ∷ rest) tg = after_rounds rest (poll_round poll tg)

poll_round-exit : (p : Poll) (tg : TgService) → (poll_round p tg).exit ≡ tg.exit
unfolding poll_round
poll_round-exit Poll.returned tg = refl
poll_round-exit Poll.dns_error tg = refl
poll_round-exit Poll.system_error tg = refl
poll_round-exit Poll.api_error tg = refl

exited-loop :
    (rounds : List (Poll × Bool)) (tg : TgService) → tg.exit ≡ true → poll_loop rounds tg ≡ tg
unfolding poll_loop
exited-loop [] tg e = refl
exited-loop ((p, b) ∷ rest) tg e = rw e

poll_loop-stop :
    (before : List (Poll × Bool)) (poll : Poll) (rest : List (Poll × Bool)) (tg : TgService)
    → tg.exit ≡ false
    → All (λ r. r.1 ≡ false) before
    → poll_loop (before ++ (poll, true) ∷ rest) tg ≡ stop (poll_round poll (after_rounds before tg))
unfolding poll_loop
poll_loop-stop [] poll rest tg e a =
    ground (arith, exited-loop rest (stop (poll_round poll tg)) (unfold stop in refl))
poll_loop-stop ((p, b) ∷ before) poll rest tg e a =
    simp (e, a.0) (poll_loop-stop before poll rest (poll_round p tg) (poll_round-exit p tg ∙ e) a.1)

-- The loop of runLongPoll ends with the first round in which stop() is called, and runs no round
-- after it.
pub run_long_poll-stop :
    (before : List (Poll × Bool)) (poll : Poll) (rest : List (Poll × Bool)) (tg : TgService)
    → All (λ r. r.1 ≡ false) before
    → run_long_poll (before ++ (poll, true) ∷ rest) tg
      ≡ stop (poll_round poll (after_rounds before (record tg { exit = false })))
unfolding run_long_poll
run_long_poll-stop before poll rest tg a =
    poll_loop-stop before poll rest (record tg { exit = false }) refl a
