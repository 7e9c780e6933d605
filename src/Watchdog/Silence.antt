-- ===== src/Watchdog/Silence.antt =====
-- A machine that stays silent while the broker is there.
use Prim.Native.Nat.{min}
use mqtt_sentry.Base.{
  ℕ, zero, suc, ◌+◌, ◌<◌, ◌^◌, ◌≡◌, none, some, true, arith, leb, if◌then◌else◌, Bool-cases, ltb,
  inl, inr,
}
use mqtt_sentry.Settings.{Logic}
use mqtt_sentry.Watchdog.{TopicWatchdog, WatchdogEvents, offline, expire}

-- f (f … (f s)), n times.
unfoldable pub iterate {ℓ} : {S : Type ℓ} → ℕ → (S → S) → S → S
iterate zero f s = s
iterate (suc n) f s = f (iterate n f s)

module _ {S : Type 0} (callback : WatchdogEvents → S → S) (logic : Logic) where
  -- The wait ends n times.
  unfoldable pub expire_times : ℕ → TopicWatchdog × S → TopicWatchdog × S
  expire_times n = iterate n (expire callback logic true)

  abbrev pub silent_watchdog : ℕ → TopicWatchdog → TopicWatchdog
  silent_watchdog n w = record w {
    timeouts = min n (logic.timeout_limit + 1);
    timer = if leb n logic.timeout_limit then some logic.timeout else none;
  }

  expire_silent :
      (n : ℕ) (w : TopicWatchdog) (s : S)
      → logic.timeout_limit + 1 < 2 ^ 32
      → expire callback logic true
          (silent_watchdog n w, iterate (min n logic.timeout_limit) (callback offline) s)
        ≡ (
          silent_watchdog (suc n) w,
          iterate (min (suc n) logic.timeout_limit) (callback offline) s,
        )
  unfolding expire iterate
  expire_silent n w s h = elim (Bool-cases (ltb n logic.timeout_limit)) [
    | inl more ↦
        let below : min n logic.timeout_limit ≡ n = ground arith in
        let next : min (suc n) logic.timeout_limit ≡ suc n = ground arith in
        rw (below, next) (ground arith)
    | inr no_more ↦
        let all : min n logic.timeout_limit ≡ logic.timeout_limit = ground arith in
        let still : min (suc n) logic.timeout_limit ≡ logic.timeout_limit = ground arith in
        rw (all, still) (ground arith)
  ]

  -- With a limit below 2^32 - 1, a watchdog that has just been set and has counted no timeout
  -- reports Offline at each of the first timeout_limit timeouts and never again: after one more it
  -- waits for nothing.
  pub expire_times_lem :
      (n : ℕ) (w : TopicWatchdog) (s : S)
      → logic.timeout_limit + 1 < 2 ^ 32
      → w.timeouts ≡ 0
      → w.timer ≡ some logic.timeout
      → expire_times n (w, s)
        ≡ (silent_watchdog n w, iterate (min n logic.timeout_limit) (callback offline) s)
  unfolding expire_times iterate
  expire_times_lem zero w s h t r = ground arith
  expire_times_lem (suc n) w s h t r = rw (expire_times_lem n w s h t r) (expire_silent n w s h)
