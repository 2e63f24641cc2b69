-- ===== src/Tml/Tests.antt =====
-- Concrete runs of the message queue.
mod Timers
mod Transports
use android_vendor_tms.Prelude.{ℕ, true, none, some, [], ◌∷◌, ◌≡◌, refl, arith}
use android_vendor_tms.Tml.MessageQueue.{
  Item, Heap, put, Queue, done, blocked, fault, msg_get, msg_release, msg_snd, msg_rcv,
}
use android_vendor_tms.Tml.MessageQueue.Fifo.{Contents, msg_snd-Contents, msg_rcv-Contents}
use android_vendor_tms.Tml.MessageQueue.Scenario.{empty, destroyed, destroyed-fault}

abbrev no_heap : Heap ℕ
no_heap a = none

-- Two messages, 7 and 8, at the addresses 3 and 5.
abbrev item7 : Item ℕ
item7 = record { msg = 7; p_prev = 0; p_next = 5 }

abbrev item8 : Item ℕ
item8 = record { msg = 8; p_prev = 3; p_next = 0 }

abbrev two : Queue ℕ
two = record { heap = put (put no_heap 3 (some item7)) 5 (some item8); items = 3; posted = 2 }

two-Contents : Contents two (7 ∷ 8 ∷ [])
two-Contents = record {
  holds = (omega arith, item7, refl, refl, (omega arith, item8, refl, refl, refl));
  counted = refl;
}

-- A thread that waits at an empty queue goes on without a message when the queue is released.
released_wakes :
    (q : Queue ℕ) × (msg_get true true true no_heap ≡ some q)
    × (msg_rcv (msg_release q).0 ≡ done q none)
unfolding msg_get msg_release msg_rcv
released_wakes = (empty no_heap, refl, refl)

-- Receiving from an empty queue waits for the semaphore.
empty_blocks : msg_rcv (empty no_heap) ≡ blocked
unfolding msg_rcv
empty_blocks = refl

msg_snd-Contents_example :
    (t : Queue ℕ) × (msg_snd 3 (some 9) 6 two ≡ done t true) × Contents t (7 ∷ 8 ∷ 6 ∷ [])
msg_snd-Contents_example =
    msg_snd-Contents 3 9 6 two (7 ∷ 8 ∷ []) two-Contents (omega arith) (omega arith) refl

msg_rcv-Contents_example : (t : Queue ℕ) × (msg_rcv two ≡ done t (some 7)) × Contents t (8 ∷ [])
msg_rcv-Contents_example = msg_rcv-Contents two 7 (8 ∷ []) two-Contents

destroyed-fault_example : destroyed 3 no_heap 3 5 7 8 ≡ fault
destroyed-fault_example =
    destroyed-fault 2 no_heap 3 5 7 8 (omega arith) (omega arith) (omega arith)
