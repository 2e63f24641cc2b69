-- ===== src/Ese/Transceive/Bounds.antt =====
-- The range invariant through a whole transmission.
use android_vendor_tms.Prelude.{
  ℕ, zero, suc, Option, none, some, List, arith, Bool-cases, inl, inr, ◌<◌,
}
use android_vendor_tms.Prelude.Outcome.{Outcome, returned, fault, unfinished}
use android_vendor_tms.Ese.Types.{
  EseStatus, success, FrameType, iframe, rframe, sframe, T1State, is_idle, in_params,
}
use android_vendor_tms.Ese.Recovery.{free_tx_part_mem}
use android_vendor_tms.Ese.Phy.{Phy}
use android_vendor_tms.Ese.Send.{
  Built, frame, unsupported, overflow, send_built, send_sframe, send_iframe, send_rframe, send_part,
  send_new_part, send_either_part, build_sframe,
}
use android_vendor_tms.Ese.Read.{Received, t1_read}
use android_vendor_tms.Ese.Invariant.{Inv, undecode-Inv, decode_frame-Inv}
use android_vendor_tms.Ese.Transceive.{
  process_block, after_read, on_read, response_process, send_frame, after_send, on_sent, round,
  continue, loop, transceive_process, init_iframe,
}

-- The invariant of the state that a step leaves, where it leaves one.
abbrev pub InvAfter {ℓ} : {D : Type ℓ} → Option (D × T1State × EseStatus) → Type 0
InvAfter none = Unit
InvAfter (some (d, s, st)) = Inv s

abbrev pub InvAtEnd {ℓ} : {D : Type ℓ} → Outcome (D × T1State × EseStatus) → Type 0
InvAtEnd (returned (d, s, st)) = Inv s
InvAtEnd fault = Unit
InvAtEnd unfinished = Unit

module _ {D : Type 0} (phy : Phy D) where
  send_built-Inv : (b : Built) (d : D) (s : T1State) → Inv s → InvAfter (send_built phy d s b)
  unfolding send_built
  send_built-Inv (frame buf) d s v = ground arith
  send_built-Inv unsupported d s v = v
  send_built-Inv overflow d s v = ground arith

  send_sframe-Inv : (d : D) (s : T1State) → Inv s → InvAfter (send_sframe phy d s)
  unfolding send_sframe
  send_sframe-Inv d s v = ground (arith, send_built-Inv (build_sframe s.tx_sub_sframe s) d s)

  send_rframe-Inv : (d : D) (s : T1State) → Inv s → Inv (send_rframe phy d s).1
  unfolding send_rframe
  send_rframe-Inv d s v = ground arith

  send_iframe-Inv : (d : D) (s : T1State) → Inv s → Inv (send_iframe phy d s).1
  unfolding send_iframe send_either_part send_new_part send_part free_tx_part_mem
  send_iframe-Inv d s v = ground arith

  send_frame-Inv : (t : FrameType) (d : D) (s : T1State) → Inv s → InvAfter (send_frame phy t d s)
  unfolding send_frame
  send_frame-Inv iframe d s v = send_iframe-Inv d s v
  send_frame-Inv rframe d s v = send_rframe-Inv d s v
  send_frame-Inv sframe d s v = send_sframe-Inv d s v
  send_frame-Inv _ d s v = v

  process_block-Inv : (d : D) (s : T1State) (n : ℕ) → Inv s → Inv (process_block phy d s n).1
  unfolding process_block
  process_block-Inv d s n v =
      ground (arith, decode_frame-Inv (phy.alloc d).1 s s.data_rx n, undecode-Inv s)

  after_read-Inv : (s : T1State) (r : Received D) → Inv s → Inv (after_read phy s r).1
  unfolding after_read
  after_read-Inv s r v = ground (
    arith,
    process_block-Inv r.world (record s { data_rx = r.buf }) r.data_len,
    undecode-Inv (record s { data_rx = r.buf }),
  )

  on_read-Inv : (o : Option (Received D)) (s : T1State) → Inv s → InvAfter (on_read phy s o)
  on_read-Inv none s v = tt
  on_read-Inv (some r) s v = after_read-Inv s r v

  response-Inv : (d : D) (s : T1State) → Inv s → InvAfter (response_process phy d s)
  unfolding response_process
  response-Inv d s v = on_read-Inv (t1_read phy s d) s v

  after_send-Inv : (r : D × T1State × EseStatus) → Inv r.1 → InvAfter (after_send phy r)
  unfolding after_send
  after_send-Inv (d, s, st) v =
      ground (arith, response-Inv d (in_params (λ p. record p { blk_retry_cnt = 0 }) s))

  on_sent-Inv : (o : Option (D × T1State × EseStatus)) → InvAfter o → InvAfter (on_sent phy o)
  on_sent-Inv none v = tt
  on_sent-Inv (some r) v = after_send-Inv r v

  round-Inv : (d : D) (s : T1State) → Inv s → InvAfter (round phy d s)
  unfolding round
  round-Inv d s v =
      on_sent-Inv (send_frame phy s.tx_frame_type d s) (send_frame-Inv s.tx_frame_type d s v)

  continue-Inv :
      (k : D → T1State → EseStatus → Outcome (D × T1State × EseStatus))
      → ((d : D) (s : T1State) (st : EseStatus) → Inv s → InvAtEnd (k d s st))
      → (o : Option (D × T1State × EseStatus)) → InvAfter o
      → InvAtEnd (continue phy k o)
  continue-Inv k h none v = tt
  continue-Inv k h (some (d, s, st)) v = h d s st v

  loop-Inv :
      (fuel : ℕ) (d : D) (s : T1State) (st : EseStatus) → Inv s → InvAtEnd (loop phy fuel d s st)
  unfolding loop
  loop-Inv zero d s st v = tt
  loop-Inv (suc fuel) d s st v = elim (Bool-cases (is_idle s.next_t1_state)) [
    | inl e ↦ rw (e, loop, InvAtEnd) v
    | inr e ↦
        rw (e, loop, InvAtEnd)
          (continue-Inv (loop phy fuel) (loop-Inv fuel) (round phy d s) (round-Inv d s v))
  ]

-- What must hold of the context when a command starts.
pub record StartsOk (s : T1State) : Type 0 where
  pub recovery_limit : s.max_recovery_cnt < 256
  pub wtx_limit : s.max_wtx_cnt < 255
  pub device_bit : s.seq_num_device < 2
  pub card_bit : s.seq_num_card < 2

-- With limits that fit the counters and sequence numbers of one bit, a whole APDU exchange over
-- any driver, any card and any number of rounds, if it returns, leaves sequence numbers of one bit,
-- the counts of recoveries, of falls back to S(CIP request) and of repeats of a failed send within
-- their limits, and that of S(WTX request)s at most one above its limit.
pub transceive_process-Inv :
    {D : Type 0} (phy : Phy D) (fuel : ℕ) (cmd : List ℕ) (cmd_len : ℕ) (d : D) (s : T1State)
    → StartsOk s
    → InvAtEnd (transceive_process phy fuel d (init_iframe phy cmd cmd_len s))
unfolding transceive_process init_iframe
transceive_process-Inv phy fuel cmd cmd_len d s v = loop-Inv phy fuel d _ success (ground arith)
