-- ===== src/Ese/Transceive.antt =====
-- The transmission loop and its callers (7816-3-T1/7816/T1.c): transceiveProcess, responseProcess,
-- initIFrameFromCmdApdu, DeInitIFrameFromCmdApdu, t1TransceiveApdu, t1CIPReq, t1ATRReq,
-- t1IFSDeviceReq, t1PropEndApduReq.
pub mod Bounds
pub mod Silent
pub mod Terminated
use android_vendor_tms.Prelude.{
  ℕ, zero, suc, ◌+◌, Bool, true, false, ◌||◌, not, ◌&&◌, Option, none, some, List, ltb, leb,
  if◌then◌else◌, length, u8,
}
use android_vendor_tms.Prelude.Outcome.{Outcome, returned, fault, unfinished}
use android_vendor_tms.Ese.Types.{
  EseStatus, success, failed, invalid_parameter, mem_exception, ph_io, fatal_error, FrameType,
  iframe, rframe, sframe, SFrameType, cip_req, atr_req, ifs_req, prop_end_apdu_req, TransceiveState,
  i_blk, s_cip_req, s_atr_req, s_ifs_req, s_prop_end_apdu_req, T1Params, zero_params, T1State,
  in_ctx, in_params, go_idle, is_idle, is_success,
}
use android_vendor_tms.Ese.Epilogue.{chk_epilogue}
use android_vendor_tms.Ese.Recovery.{recovery_at_undecode}
use android_vendor_tms.Ese.Decode.{decode_frame}
use android_vendor_tms.Ese.Phy.{Phy}
use android_vendor_tms.Ese.Send.{send_sframe, send_iframe, send_rframe}
use android_vendor_tms.Ese.Read.{Received, t1_read}

abbrev pub is_fatal : EseStatus → Bool
is_fatal fatal_error = true
is_fatal _ = false

-- After a failed send the block is sent again, unless the status is another than these two.
abbrev pub is_resendable : EseStatus → Bool
is_resendable ph_io = true
is_resendable mem_exception = true
is_resendable _ = false

module _ {D : Type 0} (phy : Phy D) where
  -- A block that was read without an error.
  unfoldable pub process_block : D → T1State → ℕ → D × T1State × EseStatus
  process_block d s data_len =
      let (d', mem) = phy.alloc d in
      let (t, st) = decode_frame mem s s.data_rx data_len in
      let chk = chk_epilogue s s.data_rx 0 data_len in
      if ltb data_len 4
      then (d, s, failed)
      else if is_success chk
      then (d', t, st)
      else (d, (recovery_at_undecode s).0, chk)

  unfoldable pub after_read : T1State → Received D → D × T1State × EseStatus
  after_read s0 r =
      let s = record s0 { data_rx = r.buf } in
      if is_success r.status
      then process_block r.world s r.data_len
      else if is_fatal r.status
      then (r.world, go_idle s, r.status)
      else (r.world, (recovery_at_undecode s).0, r.status)

  abbrev pub on_read : T1State → Option (Received D) → Option (D × T1State × EseStatus)
  on_read s none = none
  on_read s (some r) = some (after_read s r)

  unfoldable pub response_process : D → T1State → Option (D × T1State × EseStatus)
  response_process d s = on_read s (t1_read phy s d)

  -- The `switch` on the type of the frame to send.
  unfoldable pub send_frame : FrameType → D → T1State → Option (D × T1State × EseStatus)
  send_frame iframe d s = some (send_iframe phy d s)
  send_frame rframe d s = some (send_rframe phy d s)
  send_frame sframe d s = send_sframe phy d s
  send_frame _ d s = some (d, s, invalid_parameter)

  -- The rest of a round after the send. The last component says that the loop is left by `break`.
  unfoldable pub after_send : D × T1State × EseStatus → Option (D × T1State × EseStatus)
  after_send (d, s, st) =
      let gives_up = not (is_resendable st) || leb s.max_blk_retry_cnt s.blk_retry_cnt in
      let s0 = in_params (λ p. record p { blk_retry_cnt = 0 }) s in
      let again = in_params (λ p. record p { blk_retry_cnt = u8 (p.blk_retry_cnt + 1) }) s in
      if is_success st
      then response_process d s0
      else some (d, if gives_up then go_idle s else again, st)

  abbrev pub on_sent : Option (D × T1State × EseStatus) → Option (D × T1State × EseStatus)
  on_sent none = none
  on_sent (some r) = after_send r

  -- One round of the loop. `break` needs no mark: it follows an assignment of STATE_IDEL.
  unfoldable pub round : D → T1State → Option (D × T1State × EseStatus)
  round d s = on_sent (send_frame s.tx_frame_type d s)

  abbrev pub continue :
      (D → T1State → EseStatus → Outcome (D × T1State × EseStatus))
      → Option (D × T1State × EseStatus)
      → Outcome (D × T1State × EseStatus)
  continue k none = fault
  continue k (some (d, s, st)) = k d s st

  unfoldable pub loop : ℕ → D → T1State → EseStatus → Outcome (D × T1State × EseStatus)
  loop zero d s st = unfinished
  loop (suc fuel) d s st = elim (is_idle s.next_t1_state) [
    | true ↦ returned (d, s, st)
    | false ↦ continue (loop fuel) (round d s)
  ]

  unfoldable pub transceive_process : ℕ → D → T1State → Outcome (D × T1State × EseStatus)
  transceive_process fuel d s =
      loop fuel d (in_ctx (λ c. record c { is_read_done = false }) s) success

  -- The parameters for a command, after calloc.
  unfoldable pub init_iframe : List ℕ → ℕ → T1State → T1State
  init_iframe cmd cmd_len s = record s {
    ctx = record s.ctx { next_t1_state = i_blk };
    params = record zero_params {
      is_device_chaining = ltb s.max_ifsc cmd_len;
      tx_frame_type = iframe;
      data_tx = some cmd;
      tx_len = cmd_len;
    };
  }

  -- The parameters are released, so nothing of them is left.
  abbrev pub deinit : Outcome (D × T1State × EseStatus) → Outcome (D × T1State × EseStatus)
  deinit (returned (d, s, st)) = returned (d, record s { params = zero_params }, st)
  deinit fault = fault
  deinit unfinished = unfinished

  unfoldable pub transceive_apdu : ℕ → List ℕ → ℕ → D → T1State → Outcome (D × T1State × EseStatus)
  unfolding transceive_process init_iframe
  transceive_apdu fuel cmd cmd_len d s =
      let (d', ok) = phy.alloc d in
      let run = deinit (transceive_process fuel d' (init_iframe cmd cmd_len s)) in
      if ok then run else returned (d', record s { params = zero_params }, mem_exception)

  -- t1CIPReq, t1ATRReq, t1IFSDeviceReq and t1PropEndApduReq differ in these two arguments only.
  unfoldable pub init_sframe : TransceiveState → SFrameType → T1State → T1State
  init_sframe next sub s = record s {
    ctx = record s.ctx { next_t1_state = next };
    params = record zero_params { tx_frame_type = sframe; tx_sub_sframe = sub };
  }

  unfoldable pub s_request :
      TransceiveState → SFrameType → ℕ → D → T1State → Outcome (D × T1State × EseStatus)
  unfolding transceive_process init_sframe
  s_request next sub fuel d s =
      let (d', ok) = phy.alloc d in
      let run = deinit (transceive_process fuel d' (init_sframe next sub s)) in
      if ok then run else returned (d', s, mem_exception)

  unfoldable pub t1_cip_req : ℕ → D → T1State → Outcome (D × T1State × EseStatus)
  unfolding s_request
  t1_cip_req = s_request s_cip_req cip_req

  unfoldable pub t1_atr_req : ℕ → D → T1State → Outcome (D × T1State × EseStatus)
  unfolding s_request
  t1_atr_req = s_request s_atr_req atr_req

  unfoldable pub t1_ifs_device_req : ℕ → D → T1State → Outcome (D × T1State × EseStatus)
  unfolding s_request
  t1_ifs_device_req = s_request s_ifs_req ifs_req

  unfoldable pub t1_prop_end_apdu_req : ℕ → D → T1State → Outcome (D × T1State × EseStatus)
  unfolding s_request
  t1_prop_end_apdu_req = s_request s_prop_end_apdu_req prop_end_apdu_req
