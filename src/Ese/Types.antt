-- ===== src/Ese/Types.antt =====
-- The data of the T=1 stack: tms-utils/include/tmsCommon.h, 7816-3-T1/include/T1.h and common.h
-- (all under vnd/opensource/halimpl/tms_extns). A C enum is a data type; where the code compares
-- or masks its numeric value, `code` gives it. `SEContext` and the `T1Params` that it points to are
-- two records of one state, with the ATR, the receive buffer and the received segments.
use android_vendor_tms.Prelude.{ℕ, Bool, true, false, Option, none, List, bit, get_or}

-- ESESTATUS
pub data EseStatus : Type 0 where
  success failed invalid_parameter not_initialised already_initialised : EseStatus
  feature_not_supported connection_success connection_failed busy closed opened : EseStatus
  mem_exception ph_io ph_ior_invalid_data res_exception parity_error invalid_pcb : EseStatus
  invalid_t1_len fatal_error cos_rcv_success cos_rcv_failed download_excess : EseStatus
  unknown_error : EseStatus

-- T1FrameTypes
pub data FrameType : Type 0 where
  frame_type_invalid_min iframe rframe sframe frame_type_invalid_max : FrameType

-- SFrameTypes
pub data SFrameType : Type 0 where
  resync_req resync_rsp ifs_req ifs_rsp abort_req abort_rsp wtx_req wtx_rsp : SFrameType
  cip_req cip_rsp prop_end_apdu_req prop_end_apdu_rsp hard_reset_req hard_reset_rsp : SFrameType
  atr_req atr_rsp sframe_type_invalid : SFrameType

-- RFrameTypes
pub data RFrameType : Type 0 where
  rack rnack_parity_error rnack_other_error rnack_invalid_error : RFrameType

-- T1TransceiveState
pub data TransceiveState : Type 0 where
  state_idle i_blk r_ack r_parity_err r_other_err s_resync_req s_ifs_req s_ifs_rsp : TransceiveState
  s_abort_req s_abort_rsp s_wtx_req s_wtx_rsp s_cip_req s_prop_end_apdu_req : TransceiveState
  s_atr_req : TransceiveState

-- The values of SFrameTypes.
unfoldable pub code : SFrameType → ℕ
code resync_req = 0x00
code resync_rsp = 0x20
code ifs_req = 0x01
code ifs_rsp = 0x21
code abort_req = 0x02
code abort_rsp = 0x22
code wtx_req = 0x03
code wtx_rsp = 0x23
code cip_req = 0x04
code cip_rsp = 0x24
code prop_end_apdu_req = 0x05
code prop_end_apdu_rsp = 0x25
code hard_reset_req = 0x06
code hard_reset_rsp = 0x26
code atr_req = 0x07
code atr_rsp = 0x27
code sframe_type_invalid = 0x28

-- The comparisons with one enumerator that the code makes.
abbrev pub is_idle : TransceiveState → Bool
is_idle state_idle = true
is_idle _ = false

abbrev pub is_s_abort_rsp : TransceiveState → Bool
is_s_abort_rsp s_abort_rsp = true
is_s_abort_rsp _ = false

abbrev pub is_sframe : FrameType → Bool
is_sframe sframe = true
is_sframe _ = false

abbrev pub is_wtx_rsp : SFrameType → Bool
is_wtx_rsp wtx_rsp = true
is_wtx_rsp _ = false

abbrev pub is_cip_req : SFrameType → Bool
is_cip_req cip_req = true
is_cip_req _ = false

abbrev pub is_cip_rsp : SFrameType → Bool
is_cip_rsp cip_rsp = true
is_cip_rsp _ = false

abbrev pub is_success : EseStatus → Bool
is_success success = true
is_success _ = false

-- AtrInfo: byte arrays of fixed size are lists of that length.
pub record AtrInfo : Type 0 where
  pub len : ℕ
  pub vendor_id : List ℕ
  pub dll_ic : ℕ
  pub bgt : List ℕ
  pub bwt : List ℕ
  pub max_freq : List ℕ
  pub checksum : ℕ
  pub default_ifsc : ℕ
  pub num_channels : ℕ
  pub max_ifsc : List ℕ
  pub capbilities : List ℕ

-- T1PcbBits, whose bit-fields start at the lowest bit.
pub record PcbBits : Type 0 where
  pub lsb : ℕ
  pub bit2 : ℕ
  pub bit3 : ℕ
  pub bit4 : ℕ
  pub bit5 : ℕ
  pub bit6 : ℕ
  pub bit7 : ℕ
  pub msb : ℕ

unfoldable pub pcb_bits : ℕ → PcbBits
pcb_bits pcb = record {
  lsb = bit pcb 0;
  bit2 = bit pcb 1;
  bit3 = bit pcb 2;
  bit4 = bit pcb 3;
  bit5 = bit pcb 4;
  bit6 = bit pcb 5;
  bit7 = bit pcb 6;
  msb = bit pcb 7;
}

-- T1Params. A data pointer is the data, or `none` for NULL.
pub record T1Params : Type 0 where
  pub is_device_chaining : Bool
  pub is_card_chaining : Bool
  pub recovery_cnt : ℕ
  pub cip_recovery_cnt : ℕ
  pub blk_retry_cnt : ℕ
  pub wtx_cnt : ℕ
  pub wtx_info : ℕ
  pub tx_frame_type : FrameType
  pub tx_sub_sframe : SFrameType
  pub tx_sub_rframe : RFrameType
  pub last_rx_frame_type : FrameType
  pub last_rx_sub_sframe : SFrameType
  pub last_rx_sub_rframe : RFrameType
  pub last_rx_pcb : PcbBits
  pub data_tx : Option (List ℕ)
  pub tx_len : ℕ
  pub data_tx_part : Option (List ℕ)
  pub tx_len_part : ℕ
  pub tx_data_offset : ℕ

-- What calloc(1, sizeof(T1Params)) gives.
abbrev pub zero_params : T1Params
zero_params = record {
  is_device_chaining = false;
  is_card_chaining = false;
  recovery_cnt = 0;
  cip_recovery_cnt = 0;
  blk_retry_cnt = 0;
  wtx_cnt = 0;
  wtx_info = 0;
  tx_frame_type = frame_type_invalid_min;
  tx_sub_sframe = resync_req;
  tx_sub_rframe = rack;
  last_rx_frame_type = frame_type_invalid_min;
  last_rx_sub_sframe = resync_req;
  last_rx_sub_rframe = rack;
  last_rx_pcb = record {
    lsb = 0;
    bit2 = 0;
    bit3 = 0;
    bit4 = 0;
    bit5 = 0;
    bit6 = 0;
    bit7 = 0;
    msb = 0;
  };
  data_tx = none;
  tx_len = 0;
  data_tx_part = none;
  tx_len_part = 0;
  tx_data_offset = 0;
}

-- SEContext, without the pointer to the parameters.
pub record SeContext : Type 0 where
  pub ese_lib_status : EseStatus
  pub dev_open : Bool  -- devHandle is not -1
  pub is_read_done : Bool
  pub max_write_retry_cnt : ℕ
  pub write_retry_time : ℕ
  pub max_read_retry_cnt : ℕ
  pub read_retry_time : ℕ
  pub read_timeout : ℕ
  pub max_recovery_cnt : ℕ
  pub max_blk_retry_cnt : ℕ
  pub max_wtx_cnt : ℕ
  pub is_resync_recovery : Bool
  pub max_ifsd : ℕ
  pub max_ifsc : ℕ
  pub is_t1_ext_hdr_len : Bool
  pub seq_num_device : ℕ
  pub seq_num_card : ℕ
  pub is_seq_num_dr : Bool
  pub next_t1_state : TransceiveState

-- The state of the T=1 layer: the context, the parameters of the transmission under way, gAtr,
-- the segments of the list gHead, oldest first, gRecvTotalLen, and the buffer gpDataRx.
pub record T1State : Type 0 where
  pub ctx : SeContext
  pub open ctx use *
  pub params : T1Params
  pub open params use *
  pub atr : AtrInfo
  pub recv : List (List ℕ)
  pub recv_total : ℕ
  pub data_rx : List ℕ

-- Updates of one of the two records inside the state.
abbrev pub in_ctx : (SeContext → SeContext) → T1State → T1State
in_ctx f s = record s { ctx = f s.ctx }

abbrev pub in_params : (T1Params → T1Params) → T1State → T1State
in_params f s = record s { params = f s.params }

-- The triples of assignments that choose the next frame.
abbrev pub go_idle : T1State → T1State
go_idle = in_ctx (λ c. record c { next_t1_state = state_idle })

abbrev pub next_sframe : TransceiveState → SFrameType → T1State → T1State
next_sframe st sub s = record s {
  ctx = record s.ctx { next_t1_state = st };
  params = record s.params { tx_frame_type = sframe; tx_sub_sframe = sub };
}

abbrev pub next_rframe : TransceiveState → RFrameType → T1State → T1State
next_rframe st sub s = record s {
  ctx = record s.ctx { next_t1_state = st };
  params = record s.params { tx_frame_type = rframe; tx_sub_rframe = sub };
}

abbrev pub next_iframe : T1State → T1State
next_iframe s = record s {
  ctx = record s.ctx { next_t1_state = i_blk };
  params = record s.params { tx_frame_type = iframe };
}

-- Byte `i` of a buffer.
abbrev pub byte_at : List ℕ → ℕ → ℕ
byte_at buf i = get_or buf i 0
