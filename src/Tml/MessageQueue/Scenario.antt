-- ===== src/Tml/MessageQueue/Scenario.antt =====
-- Destroying a queue from which a message was taken.
use android_vendor_tms.Prelude.{
  ℕ, sym, ap, ◌∙◌, suc, Bool, Option, none, some, ◌≡◌, ◌≢◌, refl, arith,
}
use android_vendor_tms.Tml.MessageQueue.{
  Item, Heap, put, Queue, Result, done, blocked, fault, last, back, msg_snd, msg_rcv, msg_ctl,
}
use android_vendor_tms.Tml.MessageQueue.Fifo.{
  fresh, put-other, put-same, put-middle, linked_to, snd-linked,
}

-- One operation after another.
abbrev pub after : {S T A B : Type 0} → Result S A → (S → Result T B) → Result T B
after (done s a) f = f s
after blocked f = blocked
after fault f = fault

-- The queue as dal4NfcMsgGet makes it.
abbrev pub empty : {M : Type 0} → Heap M → Queue M
empty h = record { heap = h; items = 0; posted = 0 }

-- Two messages are sent, one is received, and the queue is destroyed.
abbrev pub destroyed : {M : Type 0} → ℕ → Heap M → ℕ → ℕ → M → M → Result (Heap M) Bool
destroyed fuel h p q x y =
    after (after (after (msg_snd fuel (some p) x (empty h)) (msg_snd fuel (some q) y)) msg_rcv)
      (msg_ctl fuel)

module _ {M : Type 0} where
  rcv-first :
      (n : ℕ) (s : Queue M) (it : Item M)
      → s.posted ≡ suc n
      → s.items ≢ 0
      → s.heap s.items ≡ some it
      → msg_rcv s
        ≡ done
            (record s { heap = put s.heap s.items none; items = it.p_next; posted = n })
            (some it.msg)
  unfolding msg_rcv
  rcv-first n s it c z e = ground (arith, c, z, e)

  -- The only item left has a pPrev at which nothing is allocated.
  ctl-fault :
      (fuel : ℕ) (s : Queue M) (it : Item M)
      → s.items ≢ 0
      → s.heap s.items ≡ some it
      → it.p_next ≡ 0
      → it.p_prev ≢ 0
      → s.heap it.p_prev ≡ none
      → msg_ctl (suc fuel) s ≡ fault
  unfolding msg_ctl last back
  ctl-fault fuel s it z e n k f = ground (arith, z, e, n, k, f)

  last-first :
      (fuel : ℕ) (h : Heap M) (p : ℕ) (it : Item M)
      → h p ≡ some it
      → it.p_next ≡ 0
      → last (suc fuel) h p ≡ some p
  unfolding last
  last-first fuel h p it e n = ground (arith, e, n)

  -- With two different addresses, neither of them NULL, that malloc returns, and any number of
  -- rounds for the loops: dal4NfcMsgCtl after two messages were sent and one was received reads
  -- memory that is not allocated, since pPrev of the item left is the address of the item freed.
  pub destroyed-fault :
      (fuel : ℕ) (h : Heap M) (p q : ℕ) (x y : M)
      → p ≢ 0
      → q ≢ 0
      → q ≢ p
      → destroyed (suc fuel) h p q x y ≡ fault
  unfolding msg_snd
  destroyed-fault fuel h p q x y a b c =
      let s1 : Queue M = record { heap = put h p (some (fresh x)); items = p; posted = 1 } in
      let s2 : Queue M = linked_to s1 q y p (fresh x) in
      let s3 : Queue M = record s2 { heap = put s2.heap p none; items = q; posted = 1 } in
      let old : Item M = record (fresh x) { p_next = q } in
      let new : Item M = record { msg = y; p_prev = p; p_next = 0 } in
      let p_q : p ≢ q = λ e. c (sym e) in
      let first : put s1.heap q (some (fresh y)) p ≡ some (fresh x) =
        put-other s1.heap q p (some (fresh y)) p_q ∙ put-same h p (some (fresh x)) in
      let second : s3.heap q ≡ some new =
        put-other s2.heap p q none c
        ∙ put-same (put (put s1.heap q (some (fresh y))) p (some old)) q (some new) in
      ap (λ (r : Result (Queue M) Bool). after (after r msg_rcv) (msg_ctl (suc fuel)))
        (snd-linked (suc fuel) q y s1 p (fresh x) a
          (last-first fuel (put s1.heap q (some (fresh y))) p (fresh x) first refl) first)
      ∙ ap (λ (r : Result (Queue M) (Option M)). after r (msg_ctl (suc fuel)))
          (rcv-first 1 s2 old refl a (put-middle s1.heap q p _ _ _ p_q))
      ∙ ctl-fault fuel s3 new b second refl a (put-same s2.heap p none)
