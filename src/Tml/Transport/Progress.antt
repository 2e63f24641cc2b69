-- ===== src/Tml/Transport/Progress.antt =====
-- A write that was accepted is completed when its thread runs and the client takes its messages.
use android_vendor_tms.Prelude.{
  ℕ, zero, suc, ◌+◌, ◌-◌, ◌≤◌, ◌<◌, Bool, true, false, Option, some, List, [], ◌∷◌, ◌≡◌, inl, inr,
  refl, sym, ap, subst, ◌∙◌, ◌==◌, if_true, if_false, Bool-cases, length, length-append, replicate,
  arith,
}
use android_vendor_tms.Prelude.Outcome.{returned, ◌>>=◌, Ensures}
use android_vendor_tms.Tml.Transport.{
  nfc_pending, ReadWriteInfo, Deferred, read_deferred, write_deferred, Context, tml_nfc_write,
}
use android_vendor_tms.Tml.Transport.Threads.{
  post, sent, writer_round, deferred_cb, deliver, writer_runs, delivered, happen, happen_all,
}
use android_vendor_tms.Tml.Transport.Pending.{InFlight, Served, pending_writes}
use android_vendor_tms.Tml.Transport.InFlight.{writer_round-post, happen-Served}

abbrev tail : List Deferred → List Deferred
tail [] = []
tail (m ∷ ms) = ms

deferred_cb-tail :
    (ms : List Deferred) (c : Context)
    → c.messages ≡ ms
    → ((deferred_cb ms c).0.messages ≡ tail ms)
      × ((deferred_cb ms c).0.write_info.enabled ≡ c.write_info.enabled)
deferred_cb-tail [] c e = (e, refl)
deferred_cb-tail (read_deferred ∷ ms) c e = (refl, refl)
deferred_cb-tail (write_deferred ∷ ms) c e = (refl, refl)

length-tail : (ms : List Deferred) (n : ℕ) → length ms ≤ suc n → length (tail ms) ≤ n
length-tail [] n h = omega arith
length-tail (m ∷ ms) n h = omega arith

no_messages : (ms : List Deferred) → length ms ≤ 0 → ms ≡ []
no_messages [] h = refl
no_messages (m ∷ ms) h = absurd (omega arith)

idle-free :
    (info : ReadWriteInfo) (s : ℕ)
    → info.enabled ≡ false
    → InFlight info 0 s
    → info.thread_busy ≡ false
idle-free info s e (inl (_, b, _)) = b
idle-free info s e (inr (inl (f, _, _, _))) = absurd (let clash = sym e ∙ f in ground arith)
idle-free info s e (inr (inr (_, _, p))) = absurd (ground arith)

-- After as many deliveries as there are messages no write is under way that does not wait.
deliver_all :
    (n : ℕ) (c : Context)
    → Served c
    → c.write_info.enabled ≡ false
    → length c.messages ≤ n
    → (d : Context) × (happen_all (replicate n delivered) c ≡ returned d)
      × Served d
      × (d.write_info.thread_busy ≡ false)
unfolding happen_all happen deliver pending_writes
deliver_all zero c h e k =
    let (_, _, wr, _) = h in
    let empty = no_messages c.messages k in
    (
      c,
      refl,
      h,
      idle-free c.write_info c.tx_semaphore e
          (subst (λ ms. InFlight c.write_info (pending_writes ms) c.tx_semaphore) empty wr),
    )
deliver_all (suc n) c h e k =
    let (rest, same) = deferred_cb-tail c.messages c refl in
    let next = (deferred_cb c.messages c).0 in
    deliver_all n next (happen-Served delivered c h) (same ∙ e)
      (subst (λ ms. length ms ≤ n) (sym rest) (length-tail c.messages n k))

-- The writer's round: nothing waits after it, and it adds one message at most.
writer_runs-idle :
    (w : Option ℕ) (started : Bool) (c : Context)
    → Served c
    → (d : Context) × (happen (writer_runs w started) c ≡ returned d)
      × (d.write_info.enabled ≡ false)
      × (length d.messages ≤ suc (length c.messages))
unfolding happen writer_round
writer_runs-idle w started c (r, d, inl (e, _, _), rd) = elim (Bool-cases (c.tx_semaphore == 0)) [
  | inl z ↦ (c, ap returned (if_true _ _ _ z), e, omega arith)
  | inr z ↦
      let taken : Context = record c { tx_semaphore = c.tx_semaphore - 1 } in
      (taken, ap returned (if_false _ _ _ z ∙ if_false _ _ _ e), e, omega arith)
]
writer_runs-idle w started c (r, d, inr (inr (e, _, _)), rd) =
    elim (Bool-cases (c.tx_semaphore == 0)) [
      | inl z ↦ (c, ap returned (if_true _ _ _ z), e, omega arith)
      | inr z ↦
          let taken : Context = record c { tx_semaphore = c.tx_semaphore - 1 } in
          (taken, ap returned (if_false _ _ _ z ∙ if_false _ _ _ e), e, omega arith)
    ]
writer_runs-idle w started c (r, d, inr (inl (e, _, _, s)), rd) =
    let taken : Context = record c { tx_semaphore = c.tx_semaphore - 1 } in
    let some_left : (c.tx_semaphore == 0) ≡ false = ground arith in
    (
      post write_deferred (sent w taken),
      ap returned (if_false _ _ _ some_left ∙ writer_round-post w started taken r d e),
      refl,
      omega (arith, length-append c.messages (write_deferred ∷ [])),
    )

-- A write of an idle, open layer is accepted: its packet and its callback wait for the thread, whose
-- semaphore is posted.
abbrev pub AcceptsWrite : List ℕ → ℕ → Context → Type 0
AcceptsWrite packet callback c =
    let (d, status) = tml_nfc_write (some packet) (some callback) c in
    (status ≡ nfc_pending)
    × (d.write_info.enabled ≡ true)
    × (d.write_info.buffer ≡ packet)
    × (d.write_info.callback ≡ some callback)
    × (d.tx_semaphore ≡ c.tx_semaphore + 1)

tml_nfc_write-AcceptsWrite :
    (packet : List ℕ) (callback : ℕ) (c : Context)
    → 0 < length packet
    → c.dev_handle ≡ true
    → c.write_info.thread_busy ≡ false
    → AcceptsWrite packet callback c
unfolding tml_nfc_write
tml_nfc_write-AcceptsWrite packet callback c h d b =
    let some_bytes : (length packet == 0) ≡ false = ground arith in
    rw (d, some_bytes, b) (refl, refl, refl, refl, refl)

-- Without retransmission and with the device open, where what is under way is as the events leave
-- it: whatever the bus answers, after one round of the writer and the delivery of the messages in
-- the queue tmlNfcWrite accepts any packet that is not empty: it returns NFCSTATUS_PENDING, the packet
-- and its callback wait for the writer, and the writer's semaphore is posted.
pub happen_all-accepts :
    (w : Option ℕ) (started : Bool) (packet : List ℕ) (callback : ℕ) (c : Context)
    → Served c
    → 0 < length packet
    → (d : Context) × (happen_all
          (writer_runs w started ∷ replicate (suc (length c.messages)) delivered)
          c
        ≡ returned d)
      × Served d
      × AcceptsWrite packet callback d
unfolding happen_all
happen_all-accepts w started packet callback c h size_packet =
    let (d, e, off, size) = writer_runs-idle w started c h in
    let served : Served d = subst (Ensures Served) e (happen-Served (writer_runs w started) c h) in
    let (last, f, ok, free) = deliver_all (suc (length c.messages)) d served off size in
    (
      last,
      ap (λ o. o >>= λ x. happen_all (replicate (suc (length c.messages)) delivered) x) e ∙ f,
      ok,
      (let (_, handle, _, _) = ok in
          tml_nfc_write-AcceptsWrite packet callback last size_packet handle free),
    )
