-- ===== src/Ese/Decode.antt =====
-- t1DecodeFrame (7816-3-T1/7816/T1.c), one function for each kind of block. `mem` says whether
-- the allocations for a received segment succeed.
use android_vendor_tms.Prelude.{
  ℕ, ◌+◌, ◌%◌, Bool, true, false, not, ◌&&◌, ◌||◌, List, ◌==◌, leb, if◌then◌else◌, word, u8,
}
use android_vendor_tms.Ese.Types.{
  EseStatus, success, failed, invalid_parameter, parity_error, unknown_error, invalid_pcb,
  FrameType, iframe, rframe, sframe, SFrameType, resync_rsp, ifs_req, ifs_rsp, abort_req, abort_rsp,
  wtx_req, wtx_rsp, cip_rsp, prop_end_apdu_rsp, hard_reset_rsp, atr_rsp, sframe_type_invalid,
  RFrameType, rack, rnack_parity_error, rnack_other_error, rnack_invalid_error, r_ack, s_ifs_rsp,
  s_wtx_rsp, PcbBits, pcb_bits, T1State, in_ctx, in_params, go_idle, next_sframe, next_rframe,
  next_iframe, is_success, byte_at,
}
use android_vendor_tms.Ese.Frame.{header_len, get_info_len, decode_atr}
use android_vendor_tms.Ese.RecvList.{store_in_list, list_destroy}
use android_vendor_tms.Ese.Recovery.{
  flip, is_null, free_tx_part_mem, clear_resync_flag, reset_for_resync_rsp,
  recovery_at_decode_iframe, recovery_at_decode_sframe, recovery_at_decode_rframe,
}

-- What was received last, for recovery.
abbrev last_rx : FrameType → SFrameType → RFrameType → T1State → T1State
last_rx t sf rf =
    in_params
      (λ p. record p { last_rx_frame_type = t; last_rx_sub_sframe = sf; last_rx_sub_rframe = rf })

-- A chained I-block in sequence, after its segment was stored or refused.
abbrev after_chained : T1State × EseStatus → T1State × EseStatus
after_chained (s, st) =
    (if is_success st then next_rframe r_ack rack s else free_tx_part_mem (go_idle s), st)

-- The last I-block of a response.
abbrev after_last : T1State × EseStatus → T1State × EseStatus
after_last (s, st) = (
  free_tx_part_mem (
      in_ctx
        (λ c. record c {
          seq_num_device = flip c.seq_num_device;
          seq_num_card = flip c.seq_num_card;
        })
        (go_idle s)),
  st,
)

-- An I-block with the expected sequence number.
unfoldable pub iframe_in_sequence : Bool → T1State → List ℕ → ℕ → T1State × EseStatus
iframe_in_sequence mem s buf data_len =
    let info_len = get_info_len s buf data_len in
    let offset = header_len s false in
    let t = clear_resync_flag (in_params (λ p. record p { recovery_cnt = 0 }) s) in
    if s.last_rx_pcb.bit6 == 1
    then after_chained (
        store_in_list mem
          (in_ctx (λ c. record c { seq_num_card = flip c.seq_num_card })
            (in_params (λ p. record p { is_card_chaining = true }) t))
          buf offset info_len data_len)
    else after_last (
        store_in_list mem (in_params (λ p. record p { is_card_chaining = false }) t) buf offset
          info_len data_len)

-- What every I-block does first: the counters, and the sequence number to expect where the device
-- has just corrected its own.
unfoldable pub expect_iframe : T1State → T1State
expect_iframe s0 =
    let s =
      in_params (λ p. record p { wtx_cnt = 0 })
        (last_rx iframe sframe_type_invalid rnack_invalid_error s0) in
    in_ctx
      (λ c. record c {
        seq_num_card =
            if c.is_seq_num_dr && not (s.last_rx_pcb.bit7 == c.seq_num_card)
            then flip c.seq_num_card
            else c.seq_num_card;
        is_seq_num_dr = false;
      })
      s

unfoldable pub decode_iframe : Bool → T1State → List ℕ → ℕ → T1State × EseStatus
decode_iframe mem s0 buf data_len =
    let s = expect_iframe s0 in
    if s.last_rx_pcb.bit7 == s.seq_num_card
    then iframe_in_sequence mem s buf data_len
    else ((recovery_at_decode_iframe s).0, success)

-- R(N(R)) without an error.
unfoldable pub decode_rack : T1State → T1State × EseStatus
decode_rack s =
    if not (is_null s.data_tx) && s.is_device_chaining
    then if not (s.seq_num_device == s.last_rx_pcb.bit5)
      then (
        free_tx_part_mem (
            in_params (λ p. record p { tx_sub_rframe = rnack_invalid_error })
              (next_iframe (in_ctx (λ c. record c { seq_num_device = s.last_rx_pcb.bit5 }) s))),
        success,
      )
      else ((recovery_at_decode_rframe s).0, success)
    else if not (is_null s.data_tx)
    then (go_idle s, invalid_parameter)
    else (go_idle s, success)

-- The sub-type of an R-block, by its two lowest bits, and the status for one with an error.
unfoldable pub rframe_sub : PcbBits → RFrameType
rframe_sub p =
    if p.lsb == 0
    then if p.bit2 == 0 then rack else rnack_other_error
    else if p.bit2 == 0
    then rnack_parity_error
    else rnack_invalid_error

unfoldable pub rframe_status : RFrameType → EseStatus
rframe_status rnack_parity_error = parity_error
rframe_status _ = unknown_error

unfoldable pub by_rframe_sub : RFrameType → T1State → T1State × EseStatus
by_rframe_sub rack s = decode_rack s
by_rframe_sub sub s = ((recovery_at_decode_rframe s).0, rframe_status sub)

unfoldable pub decode_rframe : T1State → T1State × EseStatus
decode_rframe s =
    let sub = rframe_sub s.last_rx_pcb in
    by_rframe_sub sub (last_rx rframe sframe_type_invalid sub s)

-- The case of the `switch` that `pcb & 0x3F` selects.
unfoldable pub sframe_sub : ℕ → SFrameType
sframe_sub n =
    if n == 0x20
    then resync_rsp
    else if n == 0x01
    then ifs_req
    else if n == 0x21
    then ifs_rsp
    else if n == 0x02
    then abort_req
    else if n == 0x22
    then abort_rsp
    else if n == 0x03
    then wtx_req
    else if n == 0x24
    then cip_rsp
    else if n == 0x25
    then prop_end_apdu_rsp
    else if n == 0x26
    then hard_reset_rsp
    else if n == 0x27
    then atr_rsp
    else sframe_type_invalid

-- The information field size in S(IFS request); 0 where its INF has neither 1 nor 2 bytes.
unfoldable pub ifs_of : List ℕ → ℕ → ℕ → ℕ
ifs_of buf offset info_len =
    if info_len == 2
    then word (byte_at buf offset) (byte_at buf (offset + 1))
    else if info_len == 1
    then byte_at buf offset
    else 0

unfoldable pub decode_wtx_req : T1State → List ℕ → T1State × EseStatus
decode_wtx_req s buf =
    if leb s.wtx_cnt s.max_wtx_cnt
    then (
      next_sframe s_wtx_rsp wtx_rsp (
          in_params
            (λ p. record p {
              wtx_cnt = u8 (p.wtx_cnt + 1);
              wtx_info = byte_at buf (header_len s false);
            })
            s),
      success,
    )
    else (go_idle s, failed)

-- The IFSD in S(IFS response) is only logged.
unfoldable pub by_sframe_sub : SFrameType → T1State → List ℕ → ℕ → T1State × EseStatus
by_sframe_sub resync_rsp s buf data_len = (
  (recovery_at_decode_sframe (in_params (λ p. record p { last_rx_sub_sframe = resync_rsp }) s)).0,
  success,
)
by_sframe_sub ifs_req s buf data_len =
    let ifsc = ifs_of buf (header_len s false) (get_info_len s buf data_len) in
    (next_sframe s_ifs_rsp ifs_rsp (in_ctx (λ c. record c { max_ifsc = ifsc }) s), success)
by_sframe_sub ifs_rsp s buf data_len = (
  (recovery_at_decode_sframe (in_params (λ p. record p { last_rx_sub_sframe = ifs_rsp }) s)).0,
  success,
)
by_sframe_sub abort_req s buf data_len =
    (go_idle (if s.is_card_chaining || s.is_device_chaining then list_destroy s else s), success)
by_sframe_sub abort_rsp s buf data_len =
    (go_idle (if s.is_card_chaining || s.is_device_chaining then list_destroy s else s), success)
by_sframe_sub wtx_req s buf data_len = decode_wtx_req s buf
by_sframe_sub cip_rsp s buf data_len =
    let (t, st) = decode_atr s buf data_len true in (go_idle (reset_for_resync_rsp t), st)
by_sframe_sub prop_end_apdu_rsp s buf data_len = (go_idle s, success)
by_sframe_sub hard_reset_rsp s buf data_len = (go_idle s, success)
by_sframe_sub atr_rsp s buf data_len =
    let (t, st) = decode_atr s buf data_len false in (go_idle t, st)
by_sframe_sub _ s buf data_len = (go_idle s, success)

abbrev keeps_resync_flag : SFrameType → Bool
keeps_resync_flag resync_rsp = true
keeps_resync_flag _ = false

-- `pcb & 0x3F` is the remainder by 64. The last S-block sub-type changes in two cases only.
unfoldable pub decode_sframe : T1State → List ℕ → ℕ → T1State × EseStatus
decode_sframe s buf data_len =
    let sub = sframe_sub (byte_at buf 1 % 64) in
    let t =
      in_params
        (λ p. record p { last_rx_frame_type = sframe; last_rx_sub_rframe = rnack_invalid_error })
        s in
    by_sframe_sub sub (if keeps_resync_flag sub then t else clear_resync_flag t) buf data_len

abbrev pub set_pcb : ℕ → T1State → T1State
set_pcb pcb = in_params (λ p. record p { last_rx_pcb = pcb_bits pcb })

-- A bit is 0 or 1, so the last branch of the code, a wrong frame, is not reached.
unfoldable pub decode_frame : Bool → T1State → List ℕ → ℕ → T1State × EseStatus
decode_frame mem s0 buf data_len =
    let bits = pcb_bits (byte_at buf 1) in
    let s = set_pcb (byte_at buf 1) s0 in
    if bits.msb == 0
    then decode_iframe mem s buf data_len
    else if (bits.msb == 1) && (bits.bit7 == 0)
    then decode_rframe s
    else if (bits.msb == 1) && (bits.bit7 == 1)
    then decode_sframe s buf data_len
    else (s, invalid_pcb)
