-- ===== src/Tml/Timer/Slots.antt =====
-- Every handle carries the ID of its place, and without a deletion the client thread never calls a
-- null pointer.
use android_vendor_tms.Prelude.{
  ℕ, ◌+◌, ◌-◌, ◌*◌, ◌<◌, Bool, true, false, not, ◌&&◌, Option, none, some, List, [], ◌∷◌, ◌≡◌, ◌==◌,
  if-keeps, if-cases, inl, inr, refl, ◌∙◌, length-set, set, ltb, leb, if◌then◌else◌, arith,
  get_or-set_self,
}
use android_vendor_tms.Prelude.Outcome.{
  returned, Ensures, Ensures-returned, Returns, Returns-returned,
}
use android_vendor_tms.Tml.Timer.{
  timer_idle, timer_running, timer_stopped, Timer, is_valid, is_idle, is_running, TimerStatus,
  index_of, timer_value, check_for_available_timer, timer_create, timer_start, timer_stop, Timers,
  timer_expired, deferred_call, receive, receive_from, call_back, cleared, handle,
}
use android_vendor_tms.Tml.Timer.Table.{
  SlotsFrom, Waiting, WellFormed, SlotsFrom-set, Waiting-set, Waiting-append, WellFormed-set,
  slot_of,
}

-- The time that a timer is set to is the given one, in seconds and less than a second of
-- nanoseconds, and a nanosecond for zero, which would stop the timer.
pub timer_value-sum :
    (cnt : ℕ)
    → ((timer_value cnt).0 * 1000000000 + (timer_value cnt).1
        ≡ (if cnt == 0 then 1 else cnt * 1000000))
      × ((timer_value cnt).1 < 1000000000)
unfolding timer_value
timer_value-sum cnt = ground arith

pub index_of-id : (i : ℕ) → i < 5 → index_of (i + 101) ≡ i
index_of-id i h = omega arith

module _ {C : Type 0} where
  -- One call, one expiry of a running timer, or one receipt of a message; no deletion.
  pub data Step : Timers C → Timers C → Type 0 where
    create :
        (ok : Bool) (s : Timers C) → Step s (record s { timers = (timer_create ok s.timers).0 })
    start :
        (ok : Bool) (timer_id : ℕ) (c : Option C) (context : ℕ) (s : Timers C)
        → Step s (record s { timers = (timer_start ok timer_id c context s.timers).0 })
    stop :
        (ok : Bool) (timer_id : ℕ) (s : Timers C)
        → Step s (record s { timers = (timer_stop ok timer_id s.timers).0 })
    expire :
        (i : ℕ) (s t : Timers C)
        → (handle s.timers i).state ≡ timer_running
        → i < 5
        → timer_expired (i + 101) s ≡ returned t
        → Step s t
    take : (s t : Timers C) → receive s ≡ returned t → Step s t

  pub data Steps : Timers C → Timers C → Type 0 where
    here : (s : Timers C) → Steps s s
    next : (s t u : Timers C) → Step s t → Steps t u → Steps s u

  is_valid-lt : (ts : List (Timer C)) (i : ℕ) → is_valid ts i ≡ true → i < 5
  is_valid-lt ts i h = ground arith

  -- The handles after an operation, with its result.
  After : Timers C → List (Timer C) × TimerStatus → Type 0
  After s r = WellFormed (record s { timers = r.0 })

  timer_stop-After :
      (ok : Bool) (timer_id : ℕ) (s : Timers C)
      → WellFormed s
      → After s (timer_stop ok timer_id s.timers)
  unfolding timer_stop After
  timer_stop-After ok timer_id s v =
      if-cases (After s) (is_valid s.timers i && not (is_idle (handle s.timers i).state)) _ _
        (λ h.
          if-keeps (After s) (is_running (handle s.timers i).state) _ _
            (if-keeps (After s) ok _ _
              (WellFormed-set s i (record (handle s.timers i) { state = timer_stopped }) v
                (slot_of s i v (is_valid-lt s.timers i (ground arith))) refl)
              v)
            v)
        (λ _. v)
    where
      i : ℕ
      i = index_of timer_id

  timer_start-After :
      (ok : Bool) (timer_id : ℕ) (c : Option C) (context : ℕ) (s : Timers C)
      → WellFormed s
      → After s (timer_start ok timer_id c context s.timers)
  unfolding timer_start After
  timer_start-After ok timer_id none context s v = v
  timer_start-After ok timer_id (some c) context s v =
      if-cases (After s) (is_valid s.timers i) _ _
        (λ h.
          WellFormed-set s i
            (record (handle s.timers i) {
              callback = some c;
              context = context;
              state = timer_running;
            })
            v (slot_of s i v (is_valid-lt s.timers i h)) refl)
        (λ _. v)
    where
      i : ℕ
      i = index_of timer_id

  AfterCreate : Timers C → List (Timer C) × ℕ → Type 0
  AfterCreate s r = WellFormed (record s { timers = r.0 })

  timer_create-After :
      (ok : Bool) (s : Timers C) → WellFormed s → AfterCreate s (timer_create ok s.timers)
  unfolding timer_create AfterCreate
  timer_create-After ok s v =
      if-cases (AfterCreate s) (not (slot == 0) && leb slot 5) _ _
        (λ h.
          if-keeps (AfterCreate s) ok _ _
            (WellFormed-set s (slot - 1)
              (record (handle s.timers (slot - 1)) { state = timer_idle; timer_id = slot + 100 }) v
              (inr (ground arith)) refl)
            v)
        (λ _. v)
    where
      slot : ℕ
      slot = check_for_available_timer 0 s.timers

  timer_expired-WellFormed :
      (i : ℕ) (s : Timers C) → WellFormed s → i < 5 → Ensures WellFormed (timer_expired (i + 101) s)
  unfolding timer_expired
  timer_expired-WellFormed i s v h =
      let inside : ltb i 5 ≡ true = ground arith in
      rw (index_of-id i h, inside)
        (record {
          size = length-set s.timers i expired ∙ v.size;
          slots =
              SlotsFrom-set 0 i s.timers expired v.slots
                (let f : 0 + i ≡ i = omega arith in rw f (slot_of s i v h));
          waiting =
              Waiting-append (set s.timers i expired) s.queue i
                (Waiting-set s.timers i expired s.queue v.size (inr refl) v.waiting) h
                (rw (get_or-set_self s.timers i expired cleared (omega (arith, v.size))) refl);
        })
    where
      expired : Timer C
      expired = record (handle s.timers i) { state = timer_stopped; defered = some (i + 101) }

  call_back-WellFormed :
      (timer_id : ℕ) (c : Option C) (context : ℕ) (s : Timers C)
      → WellFormed s
      → WellFormed (call_back timer_id c context s)
  call_back-WellFormed timer_id none context s v = v
  call_back-WellFormed timer_id (some c) context s v = record {
    size = v.size;
    slots = v.slots;
    waiting = v.waiting;
  }

  receive_from-WellFormed :
      (js : List ℕ) (s : Timers C)
      → WellFormed s
      → Waiting s.timers js
      → Returns WellFormed (receive_from js s)
  unfolding deferred_call
  receive_from-WellFormed [] s v w = v
  receive_from-WellFormed (j ∷ js) s v (h, e, w) =
      let inside : ltb j 5 ≡ true = ground arith in
      let t = handle s.timers j in
      let taken : Timers C = record s { queue = js } in
      let known : (j + 101 == 0) ≡ false = ground arith in
      rw (e, index_of-id j h, inside, known)
        (call_back-WellFormed (j + 101) t.callback t.context taken
          (record { size = v.size; slots = v.slots; waiting = w }))

  Step-WellFormed : (s t : Timers C) → Step s t → WellFormed s → WellFormed t
  unfolding After AfterCreate receive
  Step-WellFormed _ _ (create ok s) v = timer_create-After ok s v
  Step-WellFormed _ _ (start ok timer_id c context s) v =
      timer_start-After ok timer_id c context s v
  Step-WellFormed _ _ (stop ok timer_id s) v = timer_stop-After ok timer_id s v
  Step-WellFormed _ _ (expire i s t running h e) v =
      Ensures-returned WellFormed (timer_expired (i + 101) s) t (timer_expired-WellFormed i s v h) e
  Step-WellFormed _ _ (take s t e) v =
      let (u, f, w) =
        Returns-returned WellFormed (receive s) (receive_from-WellFormed s.queue s v v.waiting) in
      Ensures-returned WellFormed (receive s) t (rw f w) e

  pub Steps-WellFormed : (s t : Timers C) → Steps s t → WellFormed s → WellFormed t
  Steps-WellFormed _ _ (here s) v = v
  Steps-WellFormed _ _ (next s t u e es) v = Steps-WellFormed t u es (Step-WellFormed s t e v)

  -- The handles before the first timer is created.
  abbrev pub no_timers : Timers C
  no_timers = record {
    timers = cleared ∷ cleared ∷ cleared ∷ cleared ∷ cleared ∷ [];
    queue = [];
    calls = [];
  }

  no_timers-WellFormed : WellFormed no_timers
  no_timers-WellFormed = record {
    size = refl;
    slots = (inl refl, (inl refl, (inl refl, (inl refl, (inl refl, tt)))));
    waiting = tt;
  }

  -- After any sequence of creations, starts, stops, expiries of running timers and receipts of
  -- messages, without a deletion, every handle in use has the ID of its place, and the client thread
  -- receives the next message without a call through a null pointer.
  pub receive-returned :
      (s : Timers C)
      → Steps no_timers s
      → (t : Timers C) × (receive s ≡ returned t) × SlotsFrom 0 s.timers
  unfolding receive
  receive-returned s es =
      let v = Steps-WellFormed no_timers s es no_timers-WellFormed in
      let (t, e, w) =
        Returns-returned WellFormed (receive s) (receive_from-WellFormed s.queue s v v.waiting) in
      (t, e, v.slots)
