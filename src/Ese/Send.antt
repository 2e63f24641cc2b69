-- ===== src/Ese/Send.antt =====
-- Sending a block (7816-3-T1/7816/T1.c): t1SendSFrame, t1SendIFrame, t1SendRFrame.
pub mod Block
pub mod Segments
use android_vendor_tms.Prelude.{
  ℕ, ◌+◌, ◌-◌, ◌*◌, ◌/◌, ◌%◌, bit_or, Bool, true, false, not, ◌&&◌, ◌||◌, Option, none, some, List,
  [], ◌∷◌, ◌==◌, ltb, leb, if◌then◌else◌, length, take, drop, set, replicate, write_at, u8, u16,
}
use android_vendor_tms.Ese.Types.{
  EseStatus, success, invalid_parameter, mem_exception, ph_io, fatal_error, SFrameType, resync_req,
  ifs_req, ifs_rsp, abort_req, wtx_rsp, cip_req, prop_end_apdu_req, atr_req, sframe_type_invalid,
  code, RFrameType, rack, rnack_parity_error, rnack_other_error, rnack_invalid_error, T1State,
  in_ctx, in_params, go_idle, is_cip_req, is_s_abort_rsp,
}
use android_vendor_tms.Ese.Epilogue.{set_epilogue}
use android_vendor_tms.Ese.Frame.{header_len, len_offset, set_info_len, get_info_len}
use android_vendor_tms.Ese.Recovery.{free_tx_part_mem}
use android_vendor_tms.Ese.Phy.{Phy}

abbrev pub nad_d2c : ℕ
nad_d2c = 0x5A

-- A frame buffer of `frame_len` zero bytes with the NAD and the PCB in place.
unfoldable pub blank_frame : ℕ → ℕ → List ℕ
blank_frame frame_len pcb = set (set (replicate frame_len 0) 1 pcb) 0 nad_d2c

unfoldable pub s_pcb : SFrameType → ℕ
s_pcb sub = bit_or 0xC0 (code sub)

-- What the `switch` of t1SendSFrame builds: a frame, nothing (pFramebuff stays NULL), or a write
-- past the end of the buffer.
pub data Built : Type 0 where
  frame : List ℕ → Built
  unsupported : Built
  overflow : Built

-- The frame's INF is that of the S(IFS request) received. `frameLen` and `infoLen` are uint8_t: where
-- their sum wraps, the copy and the clearing that memcpy_s does instead both leave the buffer.
ifs_rsp_frame : T1State → Built
ifs_rsp_frame s =
    let info_len = u8 (get_info_len s s.data_rx (length s.data_rx)) in
    let frame_len = u8 (header_len s true + info_len) in
    if ltb frame_len info_len
    then overflow
    else frame (
        write_at (set_info_len s (blank_frame frame_len (s_pcb ifs_req)) info_len)
          (len_offset s + 1) (take info_len (drop (len_offset s + 1) s.data_rx)))

unfoldable pub build_sframe : SFrameType → T1State → Built
unfolding ifs_rsp_frame
build_sframe resync_req s = frame (blank_frame (header_len s true) (s_pcb resync_req))
build_sframe ifs_req s = frame (
    write_at (set_info_len s (blank_frame (header_len s true + 2) (s_pcb ifs_req)) 2)
      (len_offset s + 1) (u8 (s.max_ifsd / 256) ∷ u8 s.max_ifsd ∷ []))
build_sframe ifs_rsp s = ifs_rsp_frame s
build_sframe abort_req s = frame (blank_frame (header_len s true) (s_pcb abort_req))
build_sframe wtx_rsp s = frame (
    write_at (set_info_len s (blank_frame (header_len s true + 1) (s_pcb wtx_rsp)) 1)
      (len_offset s + 1) (s.wtx_info ∷ []))
build_sframe cip_req s = frame (blank_frame (header_len s true) (s_pcb cip_req))
build_sframe prop_end_apdu_req s = frame (blank_frame (header_len s true) (s_pcb prop_end_apdu_req))
build_sframe atr_req s = frame (blank_frame (header_len s true) (s_pcb atr_req))
build_sframe _ s = unsupported

abbrev is_invalid_sframe : SFrameType → Bool
is_invalid_sframe sframe_type_invalid = true
is_invalid_sframe _ = false

abbrev is_invalid_rframe : RFrameType → Bool
is_invalid_rframe rnack_invalid_error = true
is_invalid_rframe _ = false

-- Sending S(CIP request) falls back to LEN fields of one byte.
abbrev drop_ext_hdr : T1State → T1State
drop_ext_hdr s =
    if is_cip_req s.tx_sub_sframe then in_ctx (λ c. record c { is_t1_ext_hdr_len = false }) s else s

-- The PCB of an R-block; the sub-type RNACK_INVALID_ERROR is refused before.
unfoldable pub r_pcb : RFrameType → ℕ → ℕ
r_pcb rnack_parity_error seq = bit_or 0x81 (u8 (seq * 16))
r_pcb rnack_other_error seq = bit_or 0x82 (u8 (seq * 16))
r_pcb _ seq = bit_or 0x80 (u8 (seq * 16))

unfoldable pub i_pcb : Bool → ℕ → ℕ
i_pcb chaining seq = bit_or (if chaining then 0x20 else 0x00) (u8 (seq * 64))

-- txLen - txDataOffset is computed in 32 bits.
unfoldable pub left_to_send : T1State → ℕ
left_to_send s = (s.tx_len + 4294967296 - s.tx_data_offset) % 4294967296

unfoldable pub chains : T1State → Bool
chains s = ltb s.max_ifsc (left_to_send s)

unfoldable pub send_len : T1State → ℕ
send_len s = if chains s then s.max_ifsc else left_to_send s

unfoldable pub or_empty : Option (List ℕ) → List ℕ
or_empty none = []
or_empty (some bs) = bs

-- The part of the command that the next I-block carries.
unfoldable pub segment : T1State → List ℕ
segment s = take (send_len s) (drop s.tx_data_offset (or_empty s.data_tx))

-- The new I-block, without its PCB and epilogue.
unfoldable pub new_iframe : T1State → List ℕ
new_iframe s =
    let hdr = if s.is_t1_ext_hdr_len then 4 else 3 in
    let epi = if s.atr.checksum == 0 then 1 else 2 in
    write_at (set_info_len s (set (replicate (hdr + epi + send_len s) 0) 0 nad_d2c) (send_len s))
      (len_offset s + 1) (segment s)

module _ {D : Type 0} (phy : Phy D) where
  -- The end of the three functions: the epilogue and the write.
  unfoldable pub transmit : D → T1State → List ℕ → ℕ → D × EseStatus
  transmit d s buf frame_len =
      let (d', sent) = phy.write d (take frame_len (set_epilogue s buf 0 (u16 frame_len))) in
      (d', if sent then success else ph_io)

  unfoldable pub send_built : D → T1State → Built → Option (D × T1State × EseStatus)
  send_built d s unsupported = some (d, s, mem_exception)
  send_built d s overflow =
      let (d', ok) = phy.alloc d in if ok then none else some (d', s, mem_exception)
  send_built d s (frame buf) =
      let (d1, ok) = phy.alloc d in
      let t = drop_ext_hdr s in
      let (d2, st) = transmit d1 t buf (length buf) in
      if ok then some (d2, t, st) else some (d1, s, mem_exception)

  unfoldable pub send_sframe : D → T1State → Option (D × T1State × EseStatus)
  send_sframe d s =
      if is_invalid_sframe s.tx_sub_sframe
      then some (d, s, invalid_parameter)
      else send_built d s (build_sframe s.tx_sub_sframe s)

  unfoldable pub send_rframe : D → T1State → D × T1State × EseStatus
  send_rframe d s =
      let (d1, ok) = phy.alloc d in
      let buf = blank_frame (header_len s true) (r_pcb s.tx_sub_rframe s.seq_num_card) in
      let (d2, st) = transmit d1 s buf (length buf) in
      if is_invalid_rframe s.tx_sub_rframe
      then (d, s, invalid_parameter)
      else if ok
      then (d2, s, st)
      else (d1, s, mem_exception)

  -- The label retry_send_part: the PCB, the epilogue and the write. The buffer is kept for a retry.
  unfoldable pub send_part : D → T1State → List ℕ → ℕ → D × T1State × EseStatus
  send_part d s buf frame_len =
      let buf' = set buf 1 (i_pcb s.is_device_chaining s.seq_num_device) in
      let t =
        in_params (λ p. record p { data_tx_part = some (set_epilogue s buf' 0 (u16 frame_len)) })
          s in
      let (d', st) = transmit d s buf' frame_len in (d', t, st)

  -- A new part. Where calloc fails the status stays ESESTATUS_SUCCESS.
  unfoldable pub send_new_part : D → T1State → D × T1State × EseStatus
  send_new_part d s =
      let t = in_params (λ p. record p { is_device_chaining = chains s }) s in
      let buf = new_iframe s in
      let u =
        in_params
          (λ p. record p {
            tx_data_offset = u16 (p.tx_data_offset + send_len s);
            data_tx_part = some buf;
            tx_len_part = u16 (length buf);
          })
          t in
      let (d', ok) = phy.alloc d in if ok then send_part d' u buf (length buf) else (d', t, success)

  unfoldable pub send_either_part : Option (List ℕ) → D → T1State → D × T1State × EseStatus
  send_either_part none d s = send_new_part d s
  send_either_part (some buf) d s = send_part d s buf s.tx_len_part

  -- The label cleanup.
  abbrev pub after_abort : D × T1State × EseStatus → D × T1State × EseStatus
  after_abort (d, s, st) =
      (d, if is_s_abort_rsp s.next_t1_state then free_tx_part_mem (go_idle s) else s, st)

  unfoldable pub send_iframe : D → T1State → D × T1State × EseStatus
  send_iframe d s = after_abort (
      if ltb s.max_recovery_cnt s.recovery_cnt
      then (d, s, fatal_error)
      else send_either_part s.data_tx_part d s)
