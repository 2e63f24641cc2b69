-- ===== src/Ese/Transceive/Terminated.antt =====
-- DoReadTerminate while a command waits for a silent card: the loop sends the block for ever.
use android_vendor_tms.Prelude.{
  ℕ, zero, suc, ◌≤◌, Bool, true, false, Option, none, some, List, ◌≡◌, refl, length, arith, ltb,
  take, set, u16, if◌then◌else◌,
}
use android_vendor_tms.Prelude.Outcome.{unfinished}
use android_vendor_tms.Ese.Types.{EseStatus, success, FrameType, iframe, i_blk, T1State}
use android_vendor_tms.Ese.Epilogue.{set_epilogue}
use android_vendor_tms.Ese.Phy.{Phy}
use android_vendor_tms.Ese.Send.{
  transmit, i_pcb, send_part, send_new_part, send_either_part, send_iframe, after_abort,
}
use android_vendor_tms.Ese.Read.{Received}
use android_vendor_tms.Ese.Read.Terminated.{IsTerminated, t1_read-terminated}
use android_vendor_tms.Ese.Transceive.{
  process_block, after_read, response_process, send_frame, after_send, on_sent, round, continue,
  loop, transceive_process, init_iframe,
}

-- Waiting for the answer to an I-block.
pub record IsWaiting (s : T1State) : Type 0 where
  pub sends_iframe : s.tx_frame_type ≡ iframe
  pub state : s.next_t1_state ≡ i_blk
  pub may_send : s.recovery_cnt ≤ s.max_recovery_cnt
  pub polls : 2 ≤ s.max_read_retry_cnt
  pub room : 5 ≤ length s.data_rx

module _ {D : Type 0} (phy : Phy D) (over : IsTerminated phy) where
  abbrev Waits : Option (D × T1State × EseStatus) → Type 0
  Waits none = ⊥
  Waits (some (d, s, st)) = IsWaiting s

  after_read-Waits :
      (s : T1State) (r : Received D)
      → r.status ≡ success
      → r.data_len ≡ 0
      → length r.buf ≡ length s.data_rx
      → IsWaiting s
      → IsWaiting (after_read phy s r).1
  unfolding after_read process_block
  after_read-Waits s r e z k w = ground arith

  response-Waits : (d : D) (s : T1State) → IsWaiting s → Waits (response_process phy d s)
  unfolding response_process
  response-Waits d s w =
      let (r, read, ok, empty, size) = t1_read-terminated phy over s d w.polls w.room in
      rw read (after_read-Waits s r ok empty size w)

  module _ (heap : (d : D) → (phy.alloc d).1 ≡ true)
      (line : (d : D) (bs : List ℕ) → (phy.write d bs).1 ≡ true) where
    transmit-success :
        (d : D) (s : T1State) (buf : List ℕ) (n : ℕ) → (transmit phy d s buf n).1 ≡ success
    unfolding transmit
    transmit-success d s buf n = rw (line d (take n (set_epilogue s buf 0 (u16 n))))

    -- The block is sent, and the state still waits.
    abbrev SentAndWaits : D × T1State × EseStatus → Type 0
    SentAndWaits (d, s, st) = IsWaiting s × (st ≡ success)

    send_part-Waits :
        (d : D) (s : T1State) (buf : List ℕ) (n : ℕ)
        → IsWaiting s
        → SentAndWaits (send_part phy d s buf n)
    unfolding send_part
    send_part-Waits d s buf n w = (
      ground arith,
      transmit-success d s (set buf 1 (i_pcb s.is_device_chaining s.seq_num_device)) n,
    )

    send_new_part-Waits : (d : D) (s : T1State) → IsWaiting s → SentAndWaits (send_new_part phy d s)
    unfolding send_new_part
    send_new_part-Waits d s w = rw (heap d) (send_part-Waits _ _ _ _ (ground arith))

    send_either-Waits :
        (part : Option (List ℕ)) (d : D) (s : T1State)
        → IsWaiting s
        → SentAndWaits (send_either_part phy part d s)
    unfolding send_either_part
    send_either-Waits none d s w = send_new_part-Waits d s w
    send_either-Waits (some buf) d s w = send_part-Waits d s buf s.tx_len_part w

    -- The limit on recoveries is not passed, and the state is not that of S(ABORT response).
    pick-Waits :
        (b : Bool) (x y : D × T1State × EseStatus)
        → b ≡ false
        → SentAndWaits y
        → SentAndWaits (after_abort phy (if b then x else y))
    pick-Waits true x y e w = cc
    pick-Waits false x (d, s, st) e (w, ok) = (ground arith, ok)

    send-Waits : (d : D) (s : T1State) → IsWaiting s → SentAndWaits (send_iframe phy d s)
    unfolding send_iframe
    send-Waits d s w =
        pick-Waits (ltb s.max_recovery_cnt s.recovery_cnt) _ _ (ground arith)
          (send_either-Waits s.data_tx_part d s w)

    after_send-Waits : (r : D × T1State × EseStatus) → SentAndWaits r → Waits (after_send phy r)
    unfolding after_send
    after_send-Waits (d, s, st) (w, e) = rw e (response-Waits d _ (ground arith))

    sent-Waits :
        (t : FrameType) (d : D) (s : T1State)
        → t ≡ iframe
        → IsWaiting s
        → Waits (on_sent phy (send_frame phy t d s))
    unfolding send_frame
    sent-Waits iframe d s e w = after_send-Waits (send_iframe phy d s) (send-Waits d s w)
    sent-Waits _ d s e w = cc

    round-Waits : (d : D) (s : T1State) → IsWaiting s → Waits (round phy d s)
    unfolding round
    round-Waits d s w = sent-Waits s.tx_frame_type d s w.sends_iframe w

    continue-unfinished :
        (fuel : ℕ) (o : Option (D × T1State × EseStatus))
        → ((d : D) (s : T1State) (st : EseStatus) → IsWaiting s → loop phy fuel d s st ≡ unfinished)
        → Waits o
        → continue phy (loop phy fuel) o ≡ unfinished
    continue-unfinished fuel none ih w = absurd w
    continue-unfinished fuel (some (d, s, st)) ih w = ih d s st w

    loop-unfinished :
        (fuel : ℕ) (d : D) (s : T1State) (st : EseStatus)
        → IsWaiting s
        → loop phy fuel d s st ≡ unfinished
    unfolding loop
    loop-unfinished zero d s st w = refl
    loop-unfinished (suc fuel) d s st w =
        rw (w.state, loop)
          (continue-unfinished fuel (round phy d s) (loop-unfinished fuel) (round-Waits d s w))

    -- Once DoReadTerminate has been called, over a driver that sends every block and fails every
    -- read without an interrupt, where every allocation succeeds, at least two polls are configured
    -- and the receive buffer has at least 5 bytes, the transmission of a command never returns: the
    -- loop is unfinished after any number of rounds.
    pub transceive_process-unfinished :
        (fuel : ℕ) (cmd : List ℕ) (cmd_len : ℕ) (d : D) (s : T1State)
        → 2 ≤ s.max_read_retry_cnt
        → 5 ≤ length s.data_rx
        → transceive_process phy fuel d (init_iframe phy cmd cmd_len s) ≡ unfinished
    unfolding transceive_process init_iframe
    transceive_process-unfinished fuel cmd cmd_len d s two room =
        loop-unfinished fuel d _ success (ground arith)
