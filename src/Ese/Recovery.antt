-- ===== src/Ese/Recovery.antt =====
-- Error recovery of the T=1 protocol (7816-3-T1/7816/T1.c): FreeTxPartMem, ResetForResyncRsp and
-- the four functions doT1RecoveryAt...
use android_vendor_tms.Prelude.{
  ℕ, ◌+◌, bit_xor, Bool, true, false, not, ◌&&◌, ◌||◌, Option, none, some, List, ◌==◌, ltb,
  if◌then◌else◌, u8,
}
use android_vendor_tms.Ese.Types.{
  EseStatus, success, invalid_parameter, fatal_error, FrameType, iframe, rframe, sframe, SFrameType,
  resync_req, resync_rsp, ifs_rsp, cip_req, abort_rsp, sframe_type_invalid, RFrameType, rack,
  rnack_parity_error, rnack_other_error, rnack_invalid_error, r_ack, r_parity_err, r_other_err,
  s_resync_req, s_cip_req, T1State, in_ctx, in_params, go_idle, next_sframe, next_rframe,
  next_iframe, is_sframe, is_wtx_rsp, is_cip_req,
}
use android_vendor_tms.Ese.RecvList.{list_destroy}

-- `^= 0x01` on a sequence number.
unfoldable pub flip : ℕ → ℕ
flip n = bit_xor n 1

abbrev pub is_null : Option (List ℕ) → Bool
is_null none = true
is_null (some _) = false

unfoldable pub free_tx_part_mem : T1State → T1State
free_tx_part_mem = in_params (λ p. record p { data_tx_part = none })

abbrev pub clear_resync_flag : T1State → T1State
clear_resync_flag = in_ctx (λ c. record c { is_resync_recovery = false })

abbrev pub set_resync_flag : T1State → T1State
set_resync_flag = in_ctx (λ c. record c { is_resync_recovery = true })

abbrev pub count_recovery : T1State → T1State
count_recovery = in_params (λ p. record p { recovery_cnt = u8 (p.recovery_cnt + 1) })

abbrev pub count_cip_recovery : T1State → T1State
count_cip_recovery = in_params (λ p. record p { cip_recovery_cnt = u8 (p.cip_recovery_cnt + 1) })

unfoldable pub reset_for_resync_rsp : T1State → T1State
reset_for_resync_rsp s =
    let t = if s.is_card_chaining then list_destroy s else s in
    record t {
      ctx = record t.ctx { seq_num_card = 0; seq_num_device = 0 };
      params = record t.params {
        recovery_cnt = 0;
        wtx_cnt = 0;
        tx_data_offset = 0;
        data_tx_part = none;
        is_device_chaining = false;
        is_card_chaining = false;
      };
    }

-- The last frame sent is S(WTX response) or no S-block.
unfoldable pub not_s_request : T1State → Bool
not_s_request s = not (is_sframe s.tx_frame_type) || is_wtx_rsp s.tx_sub_sframe

unfoldable pub recovery_at_undecode : T1State → T1State × EseStatus
recovery_at_undecode s =
    let t = count_recovery s in
    if ltb s.recovery_cnt s.max_recovery_cnt
    then (if not_s_request t then next_rframe r_parity_err rnack_parity_error t else t, success)
    else if not_s_request s && not s.is_resync_recovery
    then (next_sframe s_resync_req resync_req (set_resync_flag s), success)
    else if s.is_resync_recovery && ltb s.cip_recovery_cnt s.max_recovery_cnt
    then (count_cip_recovery (next_sframe s_cip_req cip_req s), success)
    else if is_sframe s.tx_frame_type && is_cip_req s.tx_sub_sframe
    then (go_idle s, fatal_error)
    else (next_sframe s_cip_req cip_req s, success)

recovery_at_iframe : T1State → T1State × EseStatus
recovery_at_iframe s =
    let t = count_recovery s in
    if ltb s.recovery_cnt s.max_recovery_cnt
    then if not (t.last_rx_pcb.bit7 == t.seq_num_card)
      then (next_rframe r_other_err rnack_other_error t, success)
      else (free_tx_part_mem (clear_resync_flag (go_idle t)), invalid_parameter)
    else (next_sframe s_resync_req resync_req (set_resync_flag s), success)

by_rx_iframe : FrameType → T1State → T1State × EseStatus
by_rx_iframe iframe s = recovery_at_iframe s
by_rx_iframe _ s = (free_tx_part_mem (go_idle s), invalid_parameter)

-- Called when an I-block arrived whose sequence number is not the expected one.
unfoldable pub recovery_at_decode_iframe : T1State → T1State × EseStatus
unfolding by_rx_iframe recovery_at_iframe
recovery_at_decode_iframe s = by_rx_iframe s.last_rx_frame_type s

-- Both sub-types of the frame to send, which two branches assign together.
abbrev tx_subs : SFrameType → RFrameType → T1State → T1State
tx_subs sf rf = in_params (λ p. record p { tx_sub_sframe = sf; tx_sub_rframe = rf })

recovery_at_sframe : SFrameType → T1State → T1State
recovery_at_sframe resync_rsp s =
    tx_subs sframe_type_invalid rnack_invalid_error (next_iframe (reset_for_resync_rsp s))
recovery_at_sframe ifs_rsp s =
    if s.is_card_chaining
    then tx_subs sframe_type_invalid rack (next_rframe r_ack rack s)
    else if s.is_device_chaining
    then tx_subs sframe_type_invalid rnack_invalid_error (next_iframe s)
    else go_idle s
recovery_at_sframe _ s = go_idle s

unfoldable pub recovery_at_decode_sframe : T1State → T1State × EseStatus
unfolding recovery_at_sframe
recovery_at_decode_sframe s =
    if is_sframe s.last_rx_frame_type && not (is_null s.data_tx)
    then (recovery_at_sframe s.last_rx_sub_sframe s, success)
    else (go_idle s, invalid_parameter)

abbrev tx_sub_s : SFrameType → T1State → T1State
tx_sub_s sf = in_params (λ p. record p { tx_sub_sframe = sf })

-- Cases 8, 10 and 11: an R-block answers an I-block, or an S-block other than S(ABORT response).
recover_block : RFrameType → T1State → T1State
recover_block rack s = tx_sub_s sframe_type_invalid (next_rframe r_other_err rnack_other_error s)
recover_block rnack_parity_error s =
    if not (s.last_rx_pcb.bit5 == s.seq_num_device)
    then tx_sub_s sframe_type_invalid (next_rframe r_parity_err rnack_parity_error s)
    else next_iframe s
recover_block rnack_other_error s =
    next_iframe
      (in_ctx (λ c. record c { seq_num_device = flip c.seq_num_device; is_seq_num_dr = true }) s)
recover_block rnack_invalid_error s = clear_resync_flag (go_idle s)

abbrev is_abort_rsp : SFrameType → Bool
is_abort_rsp abort_rsp = true
is_abort_rsp _ = false

-- An R-block arrived while a command is under way, by the frame that was sent last.
recover_command : FrameType → T1State → T1State
recover_command iframe s = recover_block s.last_rx_sub_rframe s
recover_command sframe s =
    if is_abort_rsp s.tx_sub_sframe
    then clear_resync_flag (go_idle s)
    else recover_block s.last_rx_sub_rframe s
recover_command rframe s = s
recover_command _ s = clear_resync_flag (go_idle s)

recovery_at_rframe : T1State → T1State × EseStatus
unfolding recover_command recover_block
recovery_at_rframe s =
    let t = count_recovery s in
    if ltb s.recovery_cnt s.max_recovery_cnt
    then (
      if not (is_null t.data_tx)
          then recover_command t.tx_frame_type t
          else if is_sframe t.tx_frame_type
          then t
          else clear_resync_flag (go_idle t),
      success,
    )
    else if not s.is_resync_recovery && not (is_null s.data_tx)
    then (next_sframe s_resync_req resync_req (set_resync_flag s), success)
    else if s.is_resync_recovery
        && (not (is_null s.data_tx) && ltb s.cip_recovery_cnt s.max_recovery_cnt)
    then (
      count_cip_recovery (next_sframe s_cip_req cip_req (clear_resync_flag (free_tx_part_mem s))),
      success,
    )
    else (go_idle s, invalid_parameter)

by_rx_rframe : FrameType → T1State → T1State × EseStatus
by_rx_rframe rframe s = recovery_at_rframe s
by_rx_rframe _ s = (go_idle s, invalid_parameter)

unfoldable pub recovery_at_decode_rframe : T1State → T1State × EseStatus
unfolding by_rx_rframe recovery_at_rframe
recovery_at_decode_rframe s = by_rx_rframe s.last_rx_frame_type s
