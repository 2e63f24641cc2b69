-- ===== src/Tml/Timer/Late.antt =====
-- Creating a timer, and stopping or deleting one whose message is already in the queue.
use android_vendor_tms.Prelude.{
  ℕ, zero, suc, ◌+◌, ◌-◌, ◌<◌, Bool, true, false, some, List, [], ◌∷◌, ◌++◌, ◌≡◌, ◌≢◌, ◌==◌, ◌⊎◌,
  inl, inr, refl, sym, subst, ◌∙◌, length, length-set, set, get_or-set_self, ltb, leb, arith, ==_ne,
  Bool-cases,
}
use android_vendor_tms.Prelude.Outcome.{returned, fault}
use android_vendor_tms.Tml.Timer.{
  timer_idle, timer_stopped, Timer, nfcstatus_success, timer_id_invalid, check_for_available_timer,
  check_timer_presence, timer_create, timer_stop, timer_delete, Timers, timer_expired,
  deferred_call, receive, cleared, handle,
}
use android_vendor_tms.Tml.Timer.Slots.{index_of-id}

module _ {C : Type 0} where
  abbrev pub AllUsed : List (Timer C) → Type 0
  AllUsed [] = Unit
  AllUsed (t ∷ ts) = (t.timer_id ≢ 0) × AllUsed ts

  -- The place of a free handle.
  abbrev pub FreeAt : List (Timer C) → ℕ → Type 0
  FreeAt ts i = (i < length ts) × ((handle ts i).timer_id ≡ 0)

  check_for_available_timer-cases :
      (k : ℕ) (ts : List (Timer C))
      → (AllUsed ts × (check_for_available_timer k ts ≡ 0))
        ⊎ ((i : ℕ) × FreeAt ts i × (check_for_available_timer k ts ≡ k + i + 1))
  unfolding check_for_available_timer
  check_for_available_timer-cases k [] = inl (tt, refl)
  check_for_available_timer-cases k (t ∷ ts) = elim (Bool-cases (t.timer_id == 0)) [
    | inl b ↦ inr (0, (omega arith, ground arith), rw b (omega arith))
    | inr b ↦ elim (check_for_available_timer-cases (k + 1) ts) [
      | inl (u, e) ↦ inl (((λ z. ground arith), u), rw b e)
      | inr (i, (h, z), e) ↦ inr (suc i, (omega arith, z), rw b (omega (arith, e)))
    ]
  ]

  -- While the system gives timers, osalNfcTimerCreate fails exactly where all five handles are in
  -- use; otherwise it takes a free handle, whose place gives the ID, and changes no other.
  pub timer_create-free :
      (ts : List (Timer C))
      → length ts ≡ 5
      → (AllUsed ts × (timer_create true ts ≡ (ts, timer_id_invalid)))
        ⊎ ((i : ℕ) × FreeAt ts i
            × (timer_create true ts ≡ (
              set ts i (record (handle ts i) { state = timer_idle; timer_id = i + 101 }),
              i + 101,
            )))
  unfolding timer_create
  timer_create-free ts n = elim (check_for_available_timer-cases 0 ts) [
    | inl (u, e) ↦ inl (u, rw e refl)
    | inr (i, (h, z), e) ↦
        let slot : check_for_available_timer 0 ts ≡ suc i = omega (arith, e) in
        let place : suc i - 1 ≡ i = omega arith in
        let number : suc i + 100 ≡ i + 101 = omega arith in
        let within : leb (suc i) 5 ≡ true = ground arith in
        let some_slot : (suc i == 0) ≡ false = ground arith in
        inr (i, (h, z), rw (slot, place, number, within, some_slot) refl)
  ]

  check_timer_presence-found :
      (k i : ℕ) (ts : List (Timer C))
      → i < length ts
      → (handle ts i).timer_id ≢ 0
      → check_timer_presence (k + i) k ts ≡ true
  unfolding check_timer_presence
  check_timer_presence-found k i [] h z = elim h [ ]
  check_timer_presence-found k zero (t ∷ ts) h z =
      let same : (k == k + 0) ≡ true = ground arith in rw (same, ==_ne t.timer_id 0 z) refl
  check_timer_presence-found k (suc i) (t ∷ ts) h z =
      let other : (k == k + suc i) ≡ false = ground arith in
      let e : k + suc i ≡ k + 1 + i = omega arith in
      rw other (
        subst (λ (x : ℕ). check_timer_presence x (k + 1) ts ≡ true) (sym e)
          (check_timer_presence-found (k + 1) i ts (omega arith) z))

  abbrev pub expired_handle : ℕ → Timers C → Timer C
  expired_handle i s = record (handle s.timers i) {
    state = timer_stopped;
    defered = some (i + 101);
  }

  -- The handle and the queue after the expiry of a timer, with nothing else in the queue.
  abbrev pub expired : ℕ → Timers C → Timers C
  expired i s = record s { timers = set s.timers i (expired_handle i s); queue = i ∷ [] }

  timer_expired-first :
      (i : ℕ) (s : Timers C)
      → i < 5
      → s.queue ≡ []
      → timer_expired (i + 101) s ≡ returned (expired i s)
  unfolding timer_expired
  timer_expired-first i s h e =
      let inside : ltb i 5 ≡ true = ground arith in rw (index_of-id i h, inside, e) refl

  -- A timer that is stopped after its expiry, while its message is in the queue: osalNfcTimerStop
  -- reports a success and changes nothing, and the client thread makes the callback all the same.
  pub timer_stop-expired :
      (ok : Bool) (i : ℕ) (c : C) (s : Timers C)
      → length s.timers ≡ 5
      → i < 5
      → (handle s.timers i).timer_id ≡ i + 101
      → (handle s.timers i).callback ≡ some c
      → s.queue ≡ []
      → (t : Timers C) × (timer_expired (i + 101) s ≡ returned t)
        × (timer_stop ok (i + 101) t.timers ≡ (t.timers, nfcstatus_success))
        × (receive t
            ≡ returned (record t {
              queue = [];
              calls = s.calls ++ ((i + 101, c, (handle s.timers i).context) ∷ []);
            }))
  unfolding timer_stop receive deferred_call
  timer_stop-expired ok i c s n h z f e =
      let inside : ltb i 5 ≡ true = ground arith in
      let known : (i + 101 == 0) ≡ false = ground arith in
      let at = get_or-set_self s.timers i (expired_handle i s) cleared (omega (arith, n)) in
      (
        expired i s,
        timer_expired-first i s h e,
        rw (index_of-id i h, inside, at, z, known) refl,
        rw (at, index_of-id i h, inside, known, at, f) refl,
      )

  timer_delete-clears :
      (ok : Bool) (i : ℕ) (ts : List (Timer C))
      → length ts ≡ 5
      → i < 5
      → (handle ts i).timer_id ≡ i + 101
      → (timer_delete ok (i + 101) ts).0 ≡ set ts i cleared
  unfolding timer_delete
  timer_delete-clears ok i ts n h z =
      let inside : ltb i 5 ≡ true = ground arith in
      let known : (i + 101 == 0) ≡ false = ground arith in
      let from : 0 + i ≡ i = omega arith in
      let found =
        subst (λ (x : ℕ). check_timer_presence x 0 ts ≡ true) from
          (check_timer_presence-found 0 i ts (omega arith) (λ f. omega (arith, z))) in
      rw (index_of-id i h, inside, z, known, found) refl

  -- A timer that is deleted after its expiry, while its message is in the queue: the message leads to
  -- the deleted handle, and the client thread calls a null pointer.
  pub timer_delete-expired :
      (ok : Bool) (i : ℕ) (s : Timers C)
      → length s.timers ≡ 5
      → i < 5
      → (handle s.timers i).timer_id ≡ i + 101
      → s.queue ≡ []
      → (t : Timers C) × (timer_expired (i + 101) s ≡ returned t)
        × (receive (record t { timers = (timer_delete ok (i + 101) t.timers).0 }) ≡ fault)
  unfolding receive deferred_call
  timer_delete-expired ok i s n h z e =
      let at = get_or-set_self s.timers i (expired_handle i s) cleared (omega (arith, n)) in
      let size = length-set s.timers i (expired_handle i s) ∙ n in
      let gone = timer_delete-clears ok i (expired i s).timers size h (rw at z) in
      let empty = get_or-set_self (expired i s).timers i cleared cleared (omega (arith, size)) in
      (expired i s, timer_expired-first i s h e, rw (gone, empty) refl)
