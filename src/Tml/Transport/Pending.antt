-- ===== src/Tml/Transport/Pending.antt =====
-- What is under way in the transport layer: the requests that wait for a thread and the messages in
-- the client's queue (TmlNfcReadWriteInfo with the semaphores, and the deferred calls, of
-- nfc/THN31/halimpl/tml/TmlNfc.cc).
use android_vendor_tms.Prelude.{
  ℕ, suc, ◌+◌, ◌<◌, true, false, List, [], ◌∷◌, ◌++◌, ◌≡◌, ◌⊎◌, inl, inr, refl, sym, ◌∙◌, arith,
}
use android_vendor_tms.Tml.Transport.{
  ReadWriteInfo, Deferred, read_deferred, write_deferred, Context,
}
use android_vendor_tms.Tml.Transport.Threads.{free}

unfoldable pub pending_reads : List Deferred → ℕ
pending_reads [] = 0
pending_reads (read_deferred ∷ messages) = suc (pending_reads messages)
pending_reads (write_deferred ∷ messages) = pending_reads messages

unfoldable pub pending_writes : List Deferred → ℕ
pending_writes [] = 0
pending_writes (read_deferred ∷ messages) = pending_writes messages
pending_writes (write_deferred ∷ messages) = suc (pending_writes messages)

-- Nothing is under way; or a request waits for its thread, which its semaphore wakes; or there is
-- one message for the client.
abbrev pub InFlight : ReadWriteInfo → ℕ → ℕ → Type 0
InFlight info pending semaphore =
    ((info.enabled ≡ false) × (info.thread_busy ≡ false) × (pending ≡ 0))
    ⊎ (((info.enabled ≡ true) × (info.thread_busy ≡ true) × (pending ≡ 0) × (0 < semaphore))
        ⊎ ((info.enabled ≡ false) × (info.thread_busy ≡ true) × (pending ≡ 1)))

-- The device is open, there is no retransmission, and of each kind at most one request is under way.
abbrev pub Served : Context → Type 0
Served c =
    (c.retrans ≡ false)
    × (c.dev_handle ≡ true)
    × InFlight c.write_info (pending_writes c.messages) c.tx_semaphore
    × InFlight c.read_info (pending_reads c.messages) c.rx_semaphore

pub pending_writes-append :
    (ms : List Deferred) (m : Deferred)
    → pending_writes (ms ++ m ∷ []) ≡ pending_writes ms + pending_writes (m ∷ [])
unfolding pending_writes
pending_writes-append [] m = omega arith
pending_writes-append (read_deferred ∷ ms) m = pending_writes-append ms m
pending_writes-append (write_deferred ∷ ms) m = omega (arith, pending_writes-append ms m)

pending_reads-append :
    (ms : List Deferred) (m : Deferred)
    → pending_reads (ms ++ m ∷ []) ≡ pending_reads ms + pending_reads (m ∷ [])
unfolding pending_reads
pending_reads-append [] m = omega arith
pending_reads-append (read_deferred ∷ ms) m = omega (arith, pending_reads-append ms m)
pending_reads-append (write_deferred ∷ ms) m = pending_reads-append ms m

-- A semaphore that is posted or taken while nothing waits for its thread.
pub InFlight-idle :
    (info : ReadWriteInfo) (pending s t : ℕ)
    → info.enabled ≡ false
    → InFlight info pending s
    → InFlight info pending t
InFlight-idle info pending s t e (inl h) = inl h
InFlight-idle info pending s t e (inr (inl (f, _, _, _))) =
    absurd (let clash = sym e ∙ f in ground arith)
InFlight-idle info pending s t e (inr (inr h)) = inr (inr h)

-- Where a request waits, no message of its kind does.
pub waiting-none :
    (info : ReadWriteInfo) (pending s : ℕ)
    → info.enabled ≡ true
    → InFlight info pending s
    → (info.thread_busy ≡ true) × (pending ≡ 0)
waiting-none info pending s e (inl (f, _, _)) = absurd (let clash = sym e ∙ f in ground arith)
waiting-none info pending s e (inr (inl (f, b, p, _))) = (b, p)
waiting-none info pending s e (inr (inr (f, _, _))) = absurd (let clash = sym e ∙ f in ground arith)

pub free-none :
    (info : ReadWriteInfo) (pending s : ℕ)
    → info.thread_busy ≡ false
    → InFlight info pending s
    → pending ≡ 0
free-none info pending s e (inl (_, _, p)) = p
free-none info pending s e (inr (inl (_, f, _, _))) = absurd (let clash = sym e ∙ f in ground arith)
free-none info pending s e (inr (inr (_, f, _))) = absurd (let clash = sym e ∙ f in ground arith)

-- A message of the writer, and one of the reader, at the end of the queue.
pub post-write :
    (ms : List Deferred)
    → pending_writes ms ≡ 0
    → (pending_writes (ms ++ write_deferred ∷ []) ≡ 1)
      × (pending_reads (ms ++ write_deferred ∷ []) ≡ pending_reads ms)
unfolding pending_writes pending_reads
post-write ms h = (
  omega (arith, pending_writes-append ms write_deferred),
  omega (arith, pending_reads-append ms write_deferred),
)

pub post-read :
    (ms : List Deferred)
    → pending_reads ms ≡ 0
    → (pending_reads (ms ++ read_deferred ∷ []) ≡ 1)
      × (pending_writes (ms ++ read_deferred ∷ []) ≡ pending_writes ms)
unfolding pending_writes pending_reads
post-read ms h = (
  omega (arith, pending_reads-append ms read_deferred),
  omega (arith, pending_writes-append ms read_deferred),
)

-- A message that is delivered was the one of its kind.
pub InFlight-delivered :
    (info : ReadWriteInfo) (pending s : ℕ)
    → InFlight info (suc pending) s
    → InFlight (free info) pending s
InFlight-delivered info pending s (inl (_, _, p)) = absurd (omega arith)
InFlight-delivered info pending s (inr (inl (_, _, p, _))) = absurd (omega arith)
InFlight-delivered info pending s (inr (inr (e, _, p))) = inl (e, refl, omega arith)
