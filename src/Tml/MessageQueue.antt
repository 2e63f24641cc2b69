-- ===== src/Tml/MessageQueue.antt =====
-- The message queue between the threads of the NFC HAL
-- (nfc/THN31/halimpl/tml/Dal4Nfc_messageQueueLib.cc): a doubly linked list on the heap, a semaphore
-- that counts the messages, and a mutex that makes each operation one step. Handles are never 0.
pub mod Fifo
pub mod Scenario
use android_vendor_tms.Prelude.{
  ℕ, zero, suc, ◌+◌, Bool, true, false, Option, none, some, ◌==◌, if◌then◌else◌,
}

-- Dal4NfcMessageQueueItem_t with messages of type `M`. An address is a number, and 0 is NULL.
pub record Item (M : Type 0) : Type 0 where
  pub msg : M
  pub p_prev : ℕ
  pub p_next : ℕ

-- What the heap holds at an address: `none` where nothing is allocated.
abbrev pub Heap : Type 0 → Type 0
Heap M = ℕ → Option (Item M)

-- Writing, allocating and freeing a cell.
abbrev pub put : {M : Type 0} → Heap M → ℕ → Option (Item M) → Heap M
put h p v q = if q == p then v else h q

-- The queue: the heap, pItems, and the value of the semaphore.
pub record Queue (M : Type 0) : Type 0 where
  pub heap : Heap M
  pub items : ℕ
  pub posted : ℕ

-- An operation returns, waits for the semaphore, or reads memory that is not allocated.
pub data Result (S : Type 0) (A : Type 0) : Type 0 where
  done : S → A → Result S A
  blocked : Result S A
  fault : Result S A

-- dal4NfcMsgGet, given whether malloc, pthread_mutex_init and sem_init succeed; `none` for -1.
unfoldable pub msg_get : {M : Type 0} → Bool → Bool → Bool → Heap M → Option (Queue M)
msg_get {M = M} allocated has_mutex has_semaphore h =
    let s : Queue M = record { heap = h; items = 0; posted = 0 } in
    if allocated then if has_mutex then if has_semaphore then some s else none else none else none

-- dal4NfcMsgRelease: the queue as a waiting thread finds it before it is freed, and the heap
-- afterwards, in which the items are left.
unfoldable pub msg_release : {M : Type 0} → Queue M → Queue M × Heap M
msg_release s = (record s { posted = suc s.posted }, s.heap)

abbrev last_at : {M : Type 0} → (ℕ → Option ℕ) → ℕ → Option (Item M) → Option ℕ
last_at go p none = none
last_at go p (some it) = if it.p_next == 0 then some p else go it.p_next

-- The loop that follows pNext to the last item.
unfoldable pub last : {M : Type 0} → ℕ → Heap M → ℕ → Option ℕ
last zero h p = none
last (suc fuel) h p = last_at (last fuel h) p (h p)

abbrev set_next : {M : Type 0} → ℕ → Item M → Item M
set_next a it = record it { p_next = a }

-- p->pNext = pNew; pNew->pPrev = p
abbrev link_at : {M : Type 0} → Queue M → M → ℕ → ℕ → Option (Item M) → Result (Queue M) Bool
link_at {M = M} s m a l none = fault
link_at {M = M} s m a l (some it) =
    let new : Item M = record { msg = m; p_prev = l; p_next = 0 } in
    done
      (record s {
        heap = put (put s.heap l (some (set_next a it))) a (some new);
        posted = suc s.posted;
      })
      true

abbrev link : {M : Type 0} → Queue M → M → ℕ → Option ℕ → Result (Queue M) Bool
link s m a none = fault
link s m a (some l) = link_at s m a l (s.heap l)

-- dal4NfcMsgSnd, given what malloc returned; the result is whether it is 0, not -1.
unfoldable pub msg_snd : {M : Type 0} → ℕ → Option ℕ → M → Queue M → Result (Queue M) Bool
unfolding last
msg_snd {M = M} fuel none m s = done s false
msg_snd {M = M} fuel (some a) m s =
    let new : Item M = record { msg = m; p_prev = 0; p_next = 0 } in
    let t = record s { heap = put s.heap a (some new) } in
    if s.items == 0
    then done (record t { items = a; posted = suc s.posted }) true
    else link t m a (last fuel t.heap s.items)

abbrev take_at : {M : Type 0} → Queue M → ℕ → Option (Item M) → Result (Queue M) (Option M)
take_at s n none = fault
take_at s n (some it) =
    done (record s { heap = put s.heap s.items none; items = it.p_next; posted = n }) (some it.msg)

abbrev rcv_at : {M : Type 0} → Queue M → ℕ → Result (Queue M) (Option M)
rcv_at s zero = blocked
rcv_at s (suc n) =
    if s.items == 0 then done (record s { posted = n }) none else take_at s n (s.heap s.items)

-- dal4NfcMsgRcv; `none` where it returns 0 and leaves *pMsg alone.
unfoldable pub msg_rcv : {M : Type 0} → Queue M → Result (Queue M) (Option M)
msg_rcv s = rcv_at s s.posted

-- free(p->pNext); p->pNext = NULL
abbrev cut_at :
    {M : Type 0} → (Heap M → ℕ → Option (Heap M)) → Heap M → ℕ → Option (Item M) → Option (Heap M)
cut_at go h p none = none
cut_at go h p (some it) = go (put (put h it.p_next none) p (some (set_next 0 it))) p

abbrev back_at :
    {M : Type 0} → (Heap M → ℕ → Option (Heap M)) → Heap M → ℕ → Option (Item M) → Option (Heap M)
back_at go h p none = none
back_at go h p (some it) =
    if it.p_prev == 0 then some (put h p none) else cut_at go h it.p_prev (h it.p_prev)

-- The loop that follows pPrev and frees the items, and the last free.
unfoldable pub back : {M : Type 0} → ℕ → Heap M → ℕ → Option (Heap M)
back zero h p = none
back (suc fuel) h p = back_at (back fuel) h p (h p)

abbrev free_from : {M : Type 0} → ℕ → Heap M → Option ℕ → Option (Heap M)
free_from fuel h none = none
free_from fuel h (some l) = back fuel h l

-- The heap after an operation that gives one.
abbrev freed : {M : Type 0} → Option (Heap M) → Result (Heap M) Bool
freed none = fault
freed (some h) = done h true

-- dal4NfcMsgCtl: frees the items and the queue, and leaves the heap.
unfoldable pub msg_ctl : {M : Type 0} → ℕ → Queue M → Result (Heap M) Bool
unfolding last back
msg_ctl fuel s =
    if s.items == 0
    then done s.heap true
    else freed (free_from fuel s.heap (last fuel s.heap s.items))
