-- ===== src/Tml/Tests/Timers.antt =====
-- Concrete runs of the timers.
use android_vendor_tms.Prelude.{ℕ, true, some, none, [], ◌∷◌, ◌≡◌, refl, set, arith}
use android_vendor_tms.Prelude.Outcome.{returned, fault}
use android_vendor_tms.Tml.Timer.{
  Timer, timer_running, timer_stopped, timer_value, timer_create, timer_start, timer_delete, Timers,
  timer_expired, receive, handle,
}
use android_vendor_tms.Tml.Timer.Table.{SlotsFrom}
use android_vendor_tms.Tml.Timer.Slots.{
  create, start, expire, Steps, here, next, no_timers, receive-returned,
}
use android_vendor_tms.Tml.Timer.Late.{timer_delete-expired}

-- A timer that was created and started, with the callback 7 and the context 3.
abbrev created : Timers ℕ
created = record no_timers { timers = (timer_create true no_timers.timers).0 }

abbrev started : Timers ℕ
started = record created { timers = (timer_start true 101 (some 7) 3 created.timers).0 }

abbrev running : Timer ℕ
running = record {
  timer_id = 101;
  callback = some 7;
  context = 3;
  state = timer_running;
  defered = none;
}

started_runs : handle started.timers 0 ≡ running
unfolding timer_create timer_start
started_runs = refl

-- A restart of a timer with the longest time.
long_value : timer_value 4294967295 ≡ (4294967, 295000000)
unfolding timer_value
long_value = refl

-- The state after the expiry.
abbrev late : Timers ℕ
late = record started {
  timers = set started.timers 0 (record running { state = timer_stopped; defered = some 101 });
  queue = 0 ∷ [];
}

to_late : Steps no_timers late
unfolding timer_create timer_start timer_expired
to_late = next no_timers created late (create true no_timers) (
    next created started late (start true 101 (some 7) 3 created)
      (next started late late (expire 0 started late refl (omega arith) refl) (here late)))

receive-returned_example : (t : Timers ℕ) × (receive late ≡ returned t) × SlotsFrom 0 late.timers
receive-returned_example = receive-returned late to_late

timer_delete-expired_example :
    (t : Timers ℕ) × (timer_expired 101 started ≡ returned t)
    × (receive (record t { timers = (timer_delete true 101 t.timers).0 }) ≡ fault)
unfolding timer_create timer_start
timer_delete-expired_example = timer_delete-expired true 0 started refl (omega arith) refl refl
