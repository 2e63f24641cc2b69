-- ===== src/Tml/Transport/InFlight.antt =====
-- Without retransmission every request that is accepted has one completion.
use android_vendor_tms.Prelude.{
  ℕ, ◌+◌, ◌-◌, Bool, true, false, not, ◌&&◌, ◌||◌, Option, none, some, List, [], ◌∷◌, ◌≡◌, inl, inr,
  refl, sym, ap, subst, ◌∙◌, ◌==◌, ltb, leb, if_true, if_false, if-cases, if-keeps, Bool-cases,
  length, arith,
}
use android_vendor_tms.Prelude.Outcome.{
  returned, Ensures, then-Ensures, if-Ensures, Ensures-returned,
}
use android_vendor_tms.Tml.Transport.{
  NfcStatus, Deferred, read_deferred, write_deferred, Context, checked, with_write, with_read,
  tml_nfc_write, tml_nfc_read,
}
use android_vendor_tms.Tml.Transport.Pending.{
  InFlight, Served, pending_reads, pending_writes, InFlight-idle, waiting-none, free-none,
  post-write, post-read, InFlight-delivered,
}
use android_vendor_tms.Tml.Transport.Threads.{
  is_control, post, sent, start_timer, i2c_write, writer_round, i2c_read, received, reader_round,
  deferred_cb, deliver, Event, write_requested, read_requested, writer_runs, reader_runs, delivered,
  happen, happen_all,
}

checked-Served :
    (accepted : List ℕ → ℕ → Context → Context) (busy : Bool) (buffer : Option (List ℕ))
    (callback : Option ℕ) (c : Context)
    → Served c
    → ((packet : List ℕ) (k : ℕ) → busy ≡ false → Served (accepted packet k c))
    → Served (checked accepted busy buffer callback c).0
checked-Served accepted busy none callback c h k = h
checked-Served accepted busy (some buffer) none c h k = h
checked-Served accepted busy (some buffer) (some callback) c h k =
    if-cases (λ (r : Context × NfcStatus). Served r.0) (not c.dev_handle || length buffer == 0) _ _
      (λ _. h)
      (λ _.
        if-cases (λ (r : Context × NfcStatus). Served r.0) busy _ _ (λ _. h)
          (λ e. k buffer callback e))

tml_nfc_write-Served :
    (buffer : Option (List ℕ)) (callback : Option ℕ) (c : Context)
    → Served c
    → Served (tml_nfc_write buffer callback c).0
unfolding tml_nfc_write
tml_nfc_write-Served buffer callback c h =
    checked-Served with_write c.write_info.thread_busy buffer callback c h (λ packet k e.
      let (r, d, w, s) = h in
      (r, d, inr (inl (refl, refl, free-none c.write_info _ _ e w, omega arith)), s))

tml_nfc_read-Served :
    (buffer : Option (List ℕ)) (callback : Option ℕ) (c : Context)
    → Served c
    → Served (tml_nfc_read buffer callback c).0
unfolding tml_nfc_read
tml_nfc_read-Served buffer callback c h =
    checked-Served with_read c.read_info.thread_busy buffer callback c h (λ packet k e.
      let (r, d, w, s) = h in
      (r, d, w, inr (inl (refl, refl, free-none c.read_info _ _ e s, ground arith))))

-- Without retransmission a round of the writer posts a message.
pub writer_round-post :
    (w : Option ℕ) (started : Bool) (c : Context)
    → c.retrans ≡ false
    → c.dev_handle ≡ true
    → c.write_info.enabled ≡ true
    → writer_round w started c ≡ post write_deferred (sent w c)
unfolding writer_round i2c_write
writer_round-post w started c r d e =
    if_true _ _ _ e
    ∙ ap (start_timer started)
        (if_true _ _ _ d ∙ if_false _ _ _ (ap (λ b. b && is_control c.write_info.buffer) r))
    ∙ if_false _ _ _ (ap (λ b. b && is_control c.write_info.buffer) r)

-- A round of the writer takes the request, and puts a message in the queue.
writer_round-Served :
    (w : Option ℕ) (started : Bool) (c : Context) (n : ℕ)
    → Served c
    → Served (writer_round w started (record c { tx_semaphore = n }))
unfolding writer_round
writer_round-Served w started c n (r, d, wr, rd) = elim (Bool-cases c.write_info.enabled) [
  | inl f ↦
      let (busy, none_left) = waiting-none c.write_info _ _ f wr in
      let (one, same) = post-write c.messages none_left in
      let taken : Context = record c { tx_semaphore = n } in
      subst Served (sym (writer_round-post w started taken r d f)) (
        r,
        d,
        inr (inr (refl, busy, one)),
        subst (λ k. InFlight c.read_info k c.rx_semaphore) (sym same) rd,
      )
  | inr f ↦
      subst Served (sym (if_false _ _ _ f))
        (r, d, InFlight-idle c.write_info _ c.tx_semaphore n f wr, rd)
]

-- What is read completes the request.
module _ (c : Context) (stopped : Bool) (r : c.retrans ≡ false) (d : c.dev_handle ≡ true)
    (wr : InFlight c.write_info (pending_writes c.messages) c.tx_semaphore)
    (enabled : c.read_info.enabled ≡ true) (busy : c.read_info.thread_busy ≡ true)
    (none_left : pending_reads c.messages ≡ 0) where
  received-Served : (packet : List ℕ) → Served (received packet stopped c)
  received-Served packet =
      let (one, same) = post-read c.messages none_left in
      (
        r,
        d,
        subst (λ k. InFlight c.write_info k c.tx_semaphore) (sym same) wr,
        inr (inr (refl, busy, one)),
      )

  woken-Served : Served (record c { rx_semaphore = c.rx_semaphore + 1 })
  woken-Served = (r, d, wr, inr (inl (enabled, busy, none_left, omega arith)))

  i2c_read-Served : (p : Option (List ℕ)) → Ensures Served (i2c_read p stopped c)
  unfolding i2c_read
  i2c_read-Served none = woken-Served
  i2c_read-Served (some packet) =
      if-Ensures Served (ltb 260 (length packet)) _ _ (λ _. woken-Served)
        (λ _.
          if-Ensures Served (leb (length packet) (length c.read_info.buffer)) _ _
            (λ _. received-Served packet) (λ _. tt))

-- A round of the reader, with the semaphore taken.
reader_round-Served :
    (p : Option (List ℕ)) (stopped : Bool) (c : Context) (n : ℕ)
    → Served c
    → Ensures Served (reader_round p stopped (record c { rx_semaphore = n }))
unfolding reader_round
reader_round-Served p stopped c n (r, d, wr, rd) = elim (Bool-cases c.read_info.enabled) [
  | inl f ↦
      let (busy, none_left) = waiting-none c.read_info _ _ f rd in
      let taken : Context = record c { rx_semaphore = n } in
      let reads = i2c_read-Served taken stopped r d wr f busy none_left p in
      subst (Ensures Served) (sym (if_true _ _ _ (ap (λ b. b && c.dev_handle) f ∙ d))) reads
  | inr f ↦
      subst (Ensures Served) (sym (if_false _ _ _ (ap (λ b. b && c.dev_handle) f)))
        (r, d, wr, InFlight-idle c.read_info _ c.rx_semaphore n f rd)
]

deferred_cb-Served :
    (ms : List Deferred) (c : Context) → c.messages ≡ ms → Served c → Served (deferred_cb ms c).0
unfolding pending_writes pending_reads
deferred_cb-Served [] c e h = h
deferred_cb-Served (read_deferred ∷ ms) c e (r, d, wr, rd) = (
  r,
  d,
  subst (λ xs. InFlight c.write_info (pending_writes xs) c.tx_semaphore) e wr,
  InFlight-delivered c.read_info (pending_reads ms) c.rx_semaphore
      (subst (λ xs. InFlight c.read_info (pending_reads xs) c.rx_semaphore) e rd),
)
deferred_cb-Served (write_deferred ∷ ms) c e (r, d, wr, rd) = (
  r,
  d,
  InFlight-delivered c.write_info (pending_writes ms) c.tx_semaphore
      (subst (λ xs. InFlight c.write_info (pending_writes xs) c.tx_semaphore) e wr),
  subst (λ xs. InFlight c.read_info (pending_reads xs) c.rx_semaphore) e rd,
)

pub happen-Served : (e : Event) (c : Context) → Served c → Ensures Served (happen e c)
unfolding happen deliver
happen-Served (write_requested buffer callback) c h = tml_nfc_write-Served buffer callback c h
happen-Served (read_requested buffer callback) c h = tml_nfc_read-Served buffer callback c h
happen-Served (writer_runs w started) c h =
    if-keeps Served (c.tx_semaphore == 0) _ _ h
      (writer_round-Served w started c (c.tx_semaphore - 1) h)
happen-Served (reader_runs p stopped) c h =
    if-Ensures Served (c.rx_semaphore == 0) _ _ (λ _. h)
      (λ _. reader_round-Served p stopped c (c.rx_semaphore - 1) h)
happen-Served delivered c h = deferred_cb-Served c.messages c refl h

happen_all-Ensures :
    (events : List Event) (c : Context) → Served c → Ensures Served (happen_all events c)
unfolding happen_all
happen_all-Ensures [] c h = h
happen_all-Ensures (e ∷ events) c h =
    then-Ensures Served Served (happen e c) _ (happen-Served e c h)
      (λ d k. happen_all-Ensures events d k)

-- Without retransmission and with the device open: whatever the requests, the rounds of the threads
-- and the deliveries are, and in whatever order they happen, of reads and of writes there is at any
-- time at most one request under way, which waits for its thread and has its semaphore posted, or has
-- one message in the client's queue; nothing is waiting or queued exactly where the flag that
-- refuses the next request is clear.
pub happen_all-Served :
    (events : List Event) (c d : Context) → Served c → happen_all events c ≡ returned d → Served d
happen_all-Served events c d h e = Ensures-returned Served _ d (happen_all-Ensures events c h) e
