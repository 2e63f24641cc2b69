-- ===== src/Tml/Timer.antt =====
-- The timers of the NFC HAL (nfc/THN31/halimpl/tml/OsalNfc_Timer.cc) and the receipt of their
-- messages by the client thread (nfc/THN31/halimpl/hal/TmsNciHal.cc). The calls of the POSIX timers
-- are arguments: whether they succeed. A callback is an element of a type `C`.
pub mod Table
pub mod Slots
pub mod Late
use android_vendor_tms.Prelude.{
  ℕ, zero, suc, ◌+◌, ◌-◌, ◌*◌, ◌/◌, ◌%◌, Bool, true, false, not, ◌&&◌, Option, none, some, List, [],
  ◌∷◌, ◌++◌, ◌==◌, ltb, leb, if◌then◌else◌, length, set, get_or, map, u32,
}
use android_vendor_tms.Prelude.Outcome.{Outcome, returned, fault, unfinished}

-- OsalNfcTimerStates_t
pub data TimerState : Type 0 where
  timer_idle timer_running timer_stopped : TimerState

abbrev pub is_running : TimerState → Bool
is_running timer_running = true
is_running _ = false

abbrev pub is_idle : TimerState → Bool
is_idle timer_idle = true
is_idle _ = false

-- OsalNfcTimerHandle_t. `defered` is the parameter of deferedCallInfo, and `none` where that holds
-- null pointers.
pub record Timer (C : Type 0) : Type 0 where
  pub timer_id : ℕ
  pub callback : Option C
  pub context : ℕ
  pub state : TimerState
  pub defered : Option ℕ

-- The statuses, without the component that PHNFCSTVAL adds.
pub data TimerStatus : Type 0 where
  nfcstatus_success nfcstatus_invalid_parameter timer_start_error timer_stop_error : TimerStatus
  timer_delete_error : TimerStatus

abbrev pub timer_id_invalid : ℕ
timer_id_invalid = 0xFFFF

-- The index of a handle, in 32 bits.
abbrev pub index_of : ℕ → ℕ
index_of timer_id = u32 (timer_id + 4294967296 - 100 - 1)

-- The time of timer_settime: seconds and nanoseconds.
unfoldable pub timer_value : ℕ → ℕ × ℕ
timer_value cnt =
    let sec = cnt / 1000 in
    let nsec = 1000000 * (cnt % 1000) in if sec == 0 && nsec == 0 then (sec, 1) else (sec, nsec)

module _ {C : Type 0} where
  -- A handle that memset has cleared.
  abbrev pub cleared : Timer C
  cleared = record {
    timer_id = 0;
    callback = none;
    context = 0;
    state = timer_idle;
    defered = none;
  }

  abbrev pub handle : List (Timer C) → ℕ → Timer C
  handle timers i = get_or timers i cleared

  -- The loop of utilNfcCheckForAvailableTimer, from an index on.
  unfoldable pub check_for_available_timer : ℕ → List (Timer C) → ℕ
  check_for_available_timer i [] = 0
  check_for_available_timer i (t ∷ ts) =
      let rest = check_for_available_timer (i + 1) ts in if t.timer_id == 0 then i + 1 else rest

  -- The loop of OsalNfcCheckTimerPresence, from an index on.
  unfoldable pub check_timer_presence : ℕ → ℕ → List (Timer C) → Bool
  check_timer_presence handle_index i [] = false
  check_timer_presence handle_index i (t ∷ ts) =
      let rest = check_timer_presence handle_index (i + 1) ts in
      if i == handle_index && not (t.timer_id == 0) then true else rest

  -- The ID of the new timer, and PH_NFC_TIMER_ID_INVALID for none.
  unfoldable pub timer_create : Bool → List (Timer C) → List (Timer C) × ℕ
  unfolding check_for_available_timer
  timer_create ok timers =
      let slot = check_for_available_timer 0 timers in
      let t : Timer C = record (handle timers (slot - 1)) {
        state = timer_idle;
        timer_id = slot + 100;
      } in
      if not (slot == 0) && leb slot 5
      then if ok then (set timers (slot - 1) t, slot + 100) else (timers, timer_id_invalid)
      else (timers, timer_id_invalid)

  -- A handle below the limit that is in use.
  abbrev pub is_valid : List (Timer C) → ℕ → Bool
  is_valid timers i = ltb i 5 && not ((handle timers i).timer_id == 0)

  -- The time that is passed to timer_settime is `timer_value`.
  unfoldable pub timer_start :
      Bool → ℕ → Option C → ℕ → List (Timer C) → List (Timer C) × TimerStatus
  timer_start ok timer_id none context timers = (timers, nfcstatus_invalid_parameter)
  timer_start ok timer_id (some c) context timers =
      let i = index_of timer_id in
      let t : Timer C = record (handle timers i) {
        callback = some c;
        context = context;
        state = timer_running;
      } in
      let status = if ok then nfcstatus_success else timer_start_error in
      if is_valid timers i then (set timers i t, status) else (timers, nfcstatus_invalid_parameter)

  unfoldable pub timer_stop : Bool → ℕ → List (Timer C) → List (Timer C) × TimerStatus
  timer_stop ok timer_id timers =
      let i = index_of timer_id in
      let t : Timer C = record (handle timers i) { state = timer_stopped } in
      if is_valid timers i && not (is_idle (handle timers i).state)
      then if is_running (handle timers i).state
        then if ok then (set timers i t, nfcstatus_success) else (timers, timer_stop_error)
        else (timers, nfcstatus_success)
      else (timers, nfcstatus_invalid_parameter)

  unfoldable pub timer_delete : Bool → ℕ → List (Timer C) → List (Timer C) × TimerStatus
  unfolding check_timer_presence
  timer_delete ok timer_id timers =
      let i = index_of timer_id in
      let status = if ok then nfcstatus_success else timer_delete_error in
      if is_valid timers i && check_timer_presence i 0 timers
      then (set timers i cleared, status)
      else (timers, nfcstatus_invalid_parameter)

  -- The loop of osalNfcTimerCleanup, where the presence of a handle in use is not looked up again.
  unfoldable pub timer_cleanup : List (Timer C) → List (Timer C)
  timer_cleanup [] = []
  timer_cleanup (t ∷ ts) =
      let rest = timer_cleanup ts in if t.timer_id == 0 then t ∷ rest else cleared ∷ rest

-- The handles, the messages in the queue of the client thread, each the handle whose
-- deferedCallInfo it points to, and the callbacks that were made, with the ID and the context.
pub record Timers (C : Type 0) : Type 0 where
  pub timers : List (Timer C)
  pub queue : List ℕ
  pub calls : List (ℕ × C × ℕ)

module _ {C : Type 0} where
  -- osalNfcTimerExpired
  unfoldable pub timer_expired : ℕ → Timers C → Outcome (Timers C)
  timer_expired timer_id s =
      let i = index_of timer_id in
      let t : Timer C = record (handle s.timers i) {
        state = timer_stopped;
        defered = some timer_id;
      } in
      if ltb i 5
      then returned (record s { timers = set s.timers i t; queue = s.queue ++ (i ∷ []) })
      else fault

  abbrev pub call_back : ℕ → Option C → ℕ → Timers C → Timers C
  call_back timer_id none context s = s
  call_back timer_id (some c) context s = record s {
    calls = s.calls ++ ((timer_id, c, context) ∷ []);
  }

  -- osalNfcDeferredCall, by the function pointer of deferedCallInfo.
  unfoldable pub deferred_call : Option ℕ → Timers C → Outcome (Timers C)
  deferred_call none s = fault
  deferred_call (some timer_id) s =
      let t = handle s.timers (index_of timer_id) in
      let called = call_back timer_id t.callback t.context s in
      let inside = if ltb (index_of timer_id) 5 then returned called else fault in
      if timer_id == 0 then returned s else inside

  abbrev pub receive_from : List ℕ → Timers C → Outcome (Timers C)
  receive_from [] s = returned s
  receive_from (i ∷ is) s = deferred_call (handle s.timers i).defered (record s { queue = is })

  -- The client thread takes a message PH_LIBNFC_DEFERREDCALL_MSG from its queue, and waits at an
  -- empty one.
  unfoldable pub receive : Timers C → Outcome (Timers C)
  unfolding deferred_call
  receive s = receive_from s.queue s
