-- ===== src/Ese/Api.antt =====
-- The SE API over the T=1 layer (7816-3-T1/7816/SEApi.c). Each function holds the mutex g_mutex
-- while it runs, so a call is one step on the state.
pub mod Sessions
use android_vendor_tms.Prelude.{
  ℕ, ◌+◌, ◌-◌, Bool, true, false, not, ◌&&◌, Option, none, some, List, [], ◌∷◌, ◌++◌, ◌==◌, ltb,
  leb, if◌then◌else◌, replicate, u8, u16,
}
use android_vendor_tms.Prelude.Outcome.{Outcome, returned, fault, unfinished, ◌>>=◌}
use android_vendor_tms.Ese.Types.{
  EseStatus, success, failed, invalid_parameter, not_initialised, busy, closed, opened,
  mem_exception, state_idle, AtrInfo, SeContext, zero_params, T1State, is_success,
}
use android_vendor_tms.Ese.Frame.{sizeof_atr}
use android_vendor_tms.Ese.RecvList.{recv_data_get}
use android_vendor_tms.Ese.Phy.{Phy}
use android_vendor_tms.Ese.Transceive.{
  transceive_apdu, t1_cip_req, t1_atr_req, t1_ifs_device_req, t1_prop_end_apdu_req,
}

-- SeInitMode
pub data InitMode : Type 0 where
  normal nfcc_dl ese_dl ese_pth_dl : InitMode

-- The values that the configuration gives, with the defaults of the code where it names none.
pub record Config : Type 0 where
  pub write_retry_cnt : ℕ
  pub write_time_gap : ℕ
  pub read_retry_cnt : ℕ
  pub read_time_gap : ℕ
  pub read_timeout : ℕ
  pub ifsd : ℕ
  pub blk_retry_cnt : ℕ
  pub wtx_cnt : ℕ

-- The global variables. An empty `data_rx` of the T=1 state is gpDataRx = NULL.
pub record Se : Type 0 where
  pub t1 : T1State
  pub is_initialized : Bool
  pub opened_cnt : ℕ
  pub init_mode : InitMode
  pub data_rx_len : ℕ

-- The node, opened and closed; DL stands for one of the three download modes.
pub record Node (D : Type 0) : Type 0 where
  pub open_node : D → InitMode → D × Bool
  pub close_node : D → D

abbrev pub is_dl : InitMode → Bool
is_dl normal = false
is_dl _ = true

-- The two modes in which seDeInit sends nothing.
abbrev pub is_bl_dl : InitMode → Bool
is_bl_dl nfcc_dl = true
is_bl_dl ese_dl = true
is_bl_dl _ = false

abbrev pub is_opened : EseStatus → Bool
is_opened opened = true
is_opened _ = false

abbrev pub is_closed : EseStatus → Bool
is_closed closed = true
is_closed _ = false

abbrev pub is_empty : List ℕ → Bool
is_empty [] = true
is_empty (_ ∷ _) = false

-- The context after memset and InitSECtxFromConfig. The fields maxBlkRetryCnt and maxWTXCnt have
-- 8 and 16 bits, maxIFSD has 16.
unfoldable pub init_ctx : Config → EseStatus → Bool → SeContext
init_ctx c st dev = record {
  ese_lib_status = st;
  dev_open = dev;
  is_read_done = false;
  max_write_retry_cnt = c.write_retry_cnt;
  write_retry_time = c.write_time_gap;
  max_read_retry_cnt = c.read_retry_cnt;
  read_retry_time = c.read_time_gap;
  read_timeout = c.read_timeout;
  max_recovery_cnt = 3;
  max_blk_retry_cnt = u8 c.blk_retry_cnt;
  max_wtx_cnt = u16 c.wtx_cnt;
  is_resync_recovery = false;
  max_ifsd = u16 c.ifsd;
  max_ifsc = 0;
  is_t1_ext_hdr_len = false;
  seq_num_device = 0;
  seq_num_card = 0;
  is_seq_num_dr = false;
  next_t1_state = state_idle;
}

-- The context that memset clears in seClose.
abbrev pub zero_config : Config
zero_config = record {
  write_retry_cnt = 0;
  write_time_gap = 0;
  read_retry_cnt = 0;
  read_time_gap = 0;
  read_timeout = 0;
  ifsd = 0;
  blk_retry_cnt = 0;
  wtx_cnt = 0;
}

abbrev pub set_t1 : T1State → Se → Se
set_t1 t se = record se { t1 = t }

module _ {D : Type 0} (phy : Phy D) (node : Node D) (cfg : Config) (fuel : ℕ) where
  -- A request of the T=1 layer on the state inside.
  abbrev on_t1 :
      (ℕ → D → T1State → Outcome (D × T1State × EseStatus)) → D → Se → Outcome (D × Se × EseStatus)
  on_t1 req d se = do (d', t, st) ← req fuel d se.t1; returned (d', set_t1 t se, st)

  -- The label cleanup of seOpen.
  abbrev count_open : D × Se × EseStatus → D × Se × EseStatus
  count_open (d, se, st) =
      (d, if is_success st then record se { opened_cnt = u8 (se.opened_cnt + 1) } else se, st)

  open_again : InitMode → Se → EseStatus
  open_again mode se =
      if is_dl mode && not (is_dl se.init_mode)
      then busy
      else if is_dl se.init_mode && not (is_dl mode)
      then busy
      else success

  open_first : InitMode → D → Se → D × Se × EseStatus
  open_first mode d se =
      let (d', ok) = node.open_node d mode in
      let ctx = init_ctx cfg (if ok then opened else success) ok in
      (
        d',
        record se { t1 = record se.t1 { ctx = ctx; params = zero_params }; init_mode = mode },
        if ok then success else failed,
      )

  unfoldable pub se_open : InitMode → D → Se → D × Se × EseStatus
  unfolding open_again open_first init_ctx
  se_open mode d se =
      count_open (
        if is_opened se.t1.ese_lib_status
        then (d, se, open_again mode se)
        else open_first mode d se)

  -- The state after the last close: the context is cleared and the buffer released.
  close_last : D → Se → D × Se
  close_last d se = (
    node.close_node d,
    record se {
      t1 = record se.t1 {
        ctx = record (init_ctx zero_config closed false) { max_recovery_cnt = 0 };
        params = zero_params;
        data_rx = [];
      };
      is_initialized = false;
    },
  )

  -- The label cleanup of seClose.
  abbrev count_close : Se → Se
  count_close se = record se {
    opened_cnt = if ltb 0 se.opened_cnt then se.opened_cnt - 1 else se.opened_cnt;
  }

  unfoldable pub se_close : D → Se → D × Se × EseStatus
  unfolding close_last init_ctx
  se_close d se =
      let (d', se') = close_last d se in
      if is_closed se.t1.ese_lib_status
      then (d, se, closed)
      else if se.opened_cnt == 1
      then (d', count_close se', success)
      else (d, count_close se, success)

  -- The label cleanup of seInit. The result of seClose is not looked at.
  init_cleanup : D × Se × EseStatus → Outcome (D × Se × EseStatus)
  init_cleanup (d, se, st) =
      let (d', se', _) = se_close d se in
      if se.is_initialized then returned (d, se, st) else returned (d', se', st)

  -- The new receive buffer once the card knows the size of the device's.
  resize_rx : D × Se × EseStatus → Outcome (D × Se × EseStatus)
  resize_rx (d, se, st) =
      let len = u16 (se.t1.max_ifsd + (if se.t1.is_t1_ext_hdr_len then 6 else 4)) in
      let (d', ok) = phy.alloc d in
      let buf = if ok then replicate len 0 else [] in
      let se' = record se { t1 = record se.t1 { data_rx = buf }; data_rx_len = len } in
      if is_success st
      then returned (d', se', if ok then success else mem_exception)
      else returned (d, se, success)

  init_ifs : D × Se × EseStatus → Outcome (D × Se × EseStatus)
  unfolding resize_rx
  init_ifs (d, se, st) =
      let se' = record se { is_initialized = true } in
      let ifs = on_t1 (t1_ifs_device_req phy) d se' >>= resize_rx in
      if not (is_success st)
      then returned (d, se, st)
      else if se.t1.is_t1_ext_hdr_len
      then ifs
      else returned (d, se', success)

  init_rx : D → Se → Outcome (D × Se × EseStatus)
  unfolding init_ifs
  init_rx d se =
      let (d', ok) = phy.alloc d in
      let fresh = record se { t1 = record se.t1 { data_rx = replicate se.data_rx_len 0 } } in
      let go = λ (e : D) (x : Se). on_t1 (t1_cip_req phy) e x >>= init_ifs in
      if not (is_empty se.t1.data_rx)
      then go d se
      else if ok
      then go d' fresh
      else returned (d', se, mem_exception)

  unfoldable pub se_init : InitMode → D → Se → Outcome (D × Se × EseStatus)
  unfolding init_rx init_cleanup
  se_init mode d se =
      let (d', se', st) = se_open mode d se in
      let body = init_rx d' se' in
      (if not (is_success st)
        then returned (d', se', st)
        else if se'.is_initialized
        then returned (d', se', st)
        else body)
      >>= init_cleanup

  -- t1RecvDataGet after a successful exchange. On failure pRsp->pData is NULL.
  get_response : D × Se × EseStatus → Outcome (D × Se × EseStatus × Option (List ℕ × ℕ))
  get_response (d, se, st) =
      let (d', ok) = phy.alloc d in
      let (t, st', out) = recv_data_get ok se.t1 in
      if is_success st then returned (d', set_t1 t se, st', out) else returned (d, se, st, none)

  -- `cmd` is the data of pCmd, `none` where a pointer is NULL.
  unfoldable pub se_transceive :
      Option (List ℕ) → ℕ → D → Se → Outcome (D × Se × EseStatus × Option (List ℕ × ℕ))
  unfolding get_response
  se_transceive none cmd_len d se = returned (d, se, invalid_parameter, none)
  se_transceive (some cmd) cmd_len d se =
      let run = on_t1 (λ f. transceive_apdu phy f cmd cmd_len) d se >>= get_response in
      if cmd_len == 0
      then returned (d, se, invalid_parameter, none)
      else if is_closed se.t1.ese_lib_status
      then returned (d, record se { is_initialized = false }, closed, none)
      else if se.is_initialized
      then run
      else returned (d, se, not_initialised, none)

  -- The label cleanup of seDeInit. The status is that of seClose.
  deinit_cleanup : D × Se × EseStatus → Outcome (D × Se × EseStatus)
  deinit_cleanup (d, se, st) =
      returned
        (se_close d (if leb se.opened_cnt 1 then record se { is_initialized = false } else se))

  -- S(CIP request) after S(end of APDU session) failed.
  or_cip : D × Se × EseStatus → Outcome (D × Se × EseStatus)
  or_cip (d, se, st) =
      let cip = on_t1 (t1_cip_req phy) d se in if is_success st then returned (d, se, st) else cip

  unfoldable pub se_deinit : D → Se → Outcome (D × Se × EseStatus)
  unfolding deinit_cleanup or_cip
  se_deinit d se =
      let talk = on_t1 (t1_prop_end_apdu_req phy) d se >>= or_cip in
      (if is_closed se.t1.ese_lib_status
        then returned (d, se, not_initialised)
        else if is_bl_dl se.init_mode
        then returned (d, se, success)
        else talk)
      >>= deinit_cleanup

  unfoldable pub se_reset : D → Se → Outcome (D × Se × EseStatus)
  se_reset d se =
      let t = record se.t1 { ctx = record se.t1.ctx { is_t1_ext_hdr_len = false } } in
      let cip = on_t1 (t1_cip_req phy) d (set_t1 t se) in
      if is_closed se.t1.ese_lib_status then returned (d, se, not_initialised) else cip

  -- The bytes of gAtr, in the order of its members.
  abbrev atr_bytes : AtrInfo → List ℕ
  atr_bytes a =
      a.len ∷ a.vendor_id
      ++ (a.dll_ic ∷ a.bgt
          ++ (a.bwt
              ++ (a.max_freq
                  ++ (a.checksum ∷ a.default_ifsc ∷ a.num_channels ∷ a.max_ifsc ++ a.capbilities))))

  give_atr : D × Se × EseStatus → Outcome (D × Se × EseStatus × Option (List ℕ × ℕ))
  give_atr (d, se, st) =
      let (d', ok) = phy.alloc d in
      if se.t1.atr.len == 0
      then returned (d, se, st, some ([], 0))
      else returned (d', se, st, some (if ok then atr_bytes se.t1.atr else [], sizeof_atr))

  unfoldable pub se_get_atr : D → Se → Outcome (D × Se × EseStatus × Option (List ℕ × ℕ))
  unfolding give_atr
  se_get_atr d se = on_t1 (t1_atr_req phy) d se >>= give_atr
