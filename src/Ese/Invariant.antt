-- ===== src/Ese/Invariant.antt =====
-- The counters and sequence numbers of the T=1 layer stay in range, whatever the card sends.
use android_vendor_tms.Prelude.{
  ℕ, zero, suc, ◌+◌, ◌≤◌, ◌<◌, Bool, true, false, List, arith, if◌then◌else◌,
}
use android_vendor_tms.Ese.Types.{
  SFrameType, resync_rsp, ifs_req, ifs_rsp, abort_req, abort_rsp, wtx_req, cip_rsp,
  prop_end_apdu_rsp, hard_reset_rsp, atr_rsp, RFrameType, rack, EseStatus, T1State, pcb_bits,
  byte_at,
}
use android_vendor_tms.Ese.RecvList.{store_in_list, list_destroy}
use android_vendor_tms.Ese.Recovery.{
  flip, free_tx_part_mem, reset_for_resync_rsp, recovery_at_undecode, recovery_at_decode_iframe,
  recovery_at_decode_sframe, recovery_at_decode_rframe,
}
use android_vendor_tms.Ese.Decode.{
  iframe_in_sequence, expect_iframe, decode_iframe, decode_rack, by_rframe_sub, decode_rframe,
  decode_wtx_req, by_sframe_sub, decode_sframe, set_pcb, decode_frame,
}
use android_vendor_tms.Ese.Frame.{apply_atr, decode_atr}

-- What holds of the state of a transmission between two frames. The configured limits are those
-- that 8-bit counters can reach.
pub record Inv (s : T1State) : Type 0 where
  pub recovery_limit : s.max_recovery_cnt < 256
  pub wtx_limit : s.max_wtx_cnt < 255
  pub recovery_bounded : s.recovery_cnt ≤ s.max_recovery_cnt
  pub cip_bounded : s.cip_recovery_cnt ≤ s.max_recovery_cnt
  pub blk_bounded : s.blk_retry_cnt ≤ s.max_blk_retry_cnt
  pub wtx_bounded : s.wtx_cnt ≤ s.max_wtx_cnt + 1
  pub device_bit : s.seq_num_device < 2
  pub card_bit : s.seq_num_card < 2

pub flip-lt : (n : ℕ) → n < 2 → flip n < 2
unfolding flip
flip-lt zero h = omega arith
flip-lt (suc zero) h = omega arith
flip-lt (suc (suc n)) h = absurd (omega arith)

pub reset-Inv : (s : T1State) → Inv s → Inv (reset_for_resync_rsp s)
unfolding reset_for_resync_rsp list_destroy
reset-Inv s v = ground arith

pub undecode-Inv : (s : T1State) → Inv s → Inv (recovery_at_undecode s).0
unfolding recovery_at_undecode
undecode-Inv s v = ground arith

iframe-Inv : (s : T1State) → Inv s → Inv (recovery_at_decode_iframe s).0
unfolding recovery_at_decode_iframe free_tx_part_mem
iframe-Inv s v = ground arith

sframe-Inv : (s : T1State) → Inv s → Inv (recovery_at_decode_sframe s).0
unfolding recovery_at_decode_sframe reset_for_resync_rsp list_destroy
sframe-Inv s v = ground arith

rframe-Inv : (s : T1State) → Inv s → Inv (recovery_at_decode_rframe s).0
unfolding recovery_at_decode_rframe free_tx_part_mem
rframe-Inv s v = ground (arith, flip-lt s.seq_num_device)

store-Inv :
    (mem : Bool) (s : T1State) (buf : List ℕ) (offset data_len total_len : ℕ)
    → Inv s
    → Inv (store_in_list mem s buf offset data_len total_len).0
unfolding store_in_list
store-Inv mem s buf offset data_len total_len v = ground arith

decode_atr-Inv :
    (s : T1State) (buf : List ℕ) (data_len : ℕ) (is_cip : Bool)
    → Inv s
    → Inv (decode_atr s buf data_len is_cip).0
unfolding decode_atr apply_atr
decode_atr-Inv s buf data_len is_cip v = ground arith

pcb_bits-lt : (pcb : ℕ) → ((pcb_bits pcb).bit5 < 2) × ((pcb_bits pcb).bit7 < 2)
unfolding pcb_bits
pcb_bits-lt pcb = omega arith

-- What the bits of the last PCB satisfy once they are set.
abbrev BitsOk : T1State → Type 0
BitsOk s = (s.last_rx_pcb.bit5 < 2) × (s.last_rx_pcb.bit7 < 2)

in_sequence-Inv :
    (mem : Bool) (s : T1State) (buf : List ℕ) (data_len : ℕ)
    → Inv s
    → Inv (iframe_in_sequence mem s buf data_len).0
unfolding iframe_in_sequence free_tx_part_mem store_in_list
in_sequence-Inv mem s buf data_len v =
    ground (arith, flip-lt s.seq_num_card, flip-lt s.seq_num_device)

expect-Inv : (s : T1State) → Inv s → Inv (expect_iframe s)
unfolding expect_iframe
expect-Inv s v = ground (arith, flip-lt s.seq_num_card)

if-Inv : (b : Bool) (x y : T1State × EseStatus) → Inv x.0 → Inv y.0 → Inv (if b then x else y).0
if-Inv true x y p q = p
if-Inv false x y p q = q

decode_iframe-Inv :
    (mem : Bool) (s : T1State) (buf : List ℕ) (data_len : ℕ)
    → Inv s
    → Inv (decode_iframe mem s buf data_len).0
unfolding decode_iframe
decode_iframe-Inv mem s buf data_len v =
    let w = expect-Inv s v in
    if-Inv _ _ _ (in_sequence-Inv mem (expect_iframe s) buf data_len w)
      (iframe-Inv (expect_iframe s) w)

decode_rack-Inv : (s : T1State) → BitsOk s → Inv s → Inv (decode_rack s).0
unfolding decode_rack free_tx_part_mem
decode_rack-Inv s b v = ground (arith, rframe-Inv s)

by_rframe_sub-Inv :
    (sub : RFrameType) (s : T1State) → BitsOk s → Inv s → Inv (by_rframe_sub sub s).0
unfolding by_rframe_sub
by_rframe_sub-Inv rack s b v = decode_rack-Inv s b v
by_rframe_sub-Inv _ s b v = rframe-Inv s v

decode_wtx-Inv : (s : T1State) (buf : List ℕ) → Inv s → Inv (decode_wtx_req s buf).0
unfolding decode_wtx_req
decode_wtx-Inv s buf v = ground arith

by_sframe_sub-Inv :
    (sub : SFrameType) (s : T1State) (buf : List ℕ) (data_len : ℕ)
    → Inv s
    → Inv (by_sframe_sub sub s buf data_len).0
unfolding by_sframe_sub list_destroy
by_sframe_sub-Inv resync_rsp s buf n v = sframe-Inv _ (ground arith)
by_sframe_sub-Inv ifs_req s buf n v = ground arith
by_sframe_sub-Inv ifs_rsp s buf n v = sframe-Inv _ (ground arith)
by_sframe_sub-Inv abort_req s buf n v = ground arith
by_sframe_sub-Inv abort_rsp s buf n v = ground arith
by_sframe_sub-Inv wtx_req s buf n v = decode_wtx-Inv s buf v
by_sframe_sub-Inv cip_rsp s buf n v =
    ground (arith, reset-Inv (decode_atr s buf n true).0, decode_atr-Inv s buf n true)
by_sframe_sub-Inv prop_end_apdu_rsp s buf n v = ground arith
by_sframe_sub-Inv hard_reset_rsp s buf n v = ground arith
by_sframe_sub-Inv atr_rsp s buf n v = ground (arith, decode_atr-Inv s buf n false)
by_sframe_sub-Inv _ s buf n v = ground arith

decode_sframe-Inv : (s : T1State) (buf : List ℕ) (n : ℕ) → Inv s → Inv (decode_sframe s buf n).0
unfolding decode_sframe
decode_sframe-Inv s buf n v = by_sframe_sub-Inv _ _ buf n (ground arith)

decode_rframe-Inv : (s : T1State) → BitsOk s → Inv s → Inv (decode_rframe s).0
unfolding decode_rframe
decode_rframe-Inv s b v = by_rframe_sub-Inv _ _ b (ground arith)

pub decode_frame-Inv :
    (mem : Bool) (s : T1State) (buf : List ℕ) (data_len : ℕ)
    → Inv s
    → Inv (decode_frame mem s buf data_len).0
unfolding decode_frame
decode_frame-Inv mem s buf n v = if-Inv _ _ _ (decode_iframe-Inv mem t buf n w) (
    if-Inv _ _ _ (decode_rframe-Inv t (pcb_bits-lt (byte_at buf 1)) w)
      (if-Inv _ _ _ (decode_sframe-Inv t buf n w) w))
  where
    t : T1State
    t = set_pcb (byte_at buf 1) s

    w : Inv t
    w = ground arith
