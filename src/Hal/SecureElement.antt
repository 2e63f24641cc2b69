-- ===== src/Hal/SecureElement.antt =====
-- The channels of the secure element HAL (secure_element/1.0/SecureElement.cpp) over the SE API. The
-- binder calls the service one at a time, so each operation is one step on the state.
pub mod Channels
pub mod Logical
pub mod Service
use android_vendor_tms.Prelude.{
  ℕ, ◌+◌, Bool, true, false, not, ◌&&◌, ◌||◌, List, [], ◌∷◌, ◌++◌, ◌==◌, ltb, if◌then◌else◌, length,
  set, get_or, replicate, take, u8, u16, ◌-◌,
}
use android_vendor_tms.Prelude.Outcome.{Outcome, returned, fault, unfinished, ◌>>=◌}
use android_vendor_tms.Ese.Types.{EseStatus, success, failed, is_success, byte_at}

-- SecureElementStatus
pub data HalStatus : Type 0 where
  hal_success hal_failed hal_ioerror hal_unavailable hal_no_such_element hal_unsupported : HalStatus

abbrev pub is_hal_success : HalStatus → Bool
is_hal_success hal_success = true
is_hal_success _ = false

abbrev pub is_hal_ioerror : HalStatus → Bool
is_hal_ioerror hal_ioerror = true
is_hal_ioerror _ = false

-- What the service calls of the SE API, and whether malloc succeeds. The bytes of a response are
-- given with its status.
pub record SeApi (D : Type 0) : Type 0 where
  pub is_open : D → Bool
  pub init : D → Outcome (D × EseStatus)
  pub deinit : D → Outcome (D × EseStatus)
  pub reset : D → Outcome (D × EseStatus)
  pub transceive : D → List ℕ → Outcome (D × EseStatus × List ℕ)
  pub alloc : D → D × Bool

-- The members mOpenedChannels and mOpenedchannelCount, the two static flags that a channel is being
-- opened, whether a callback is registered, and the states it was told, the last one first.
pub record Hal : Type 0 where
  pub channels : List Bool
  pub count : ℕ
  pub opening_logical : Bool
  pub opening_basic : Bool
  pub has_callback : Bool
  pub told : List Bool

abbrev pub cleared : Hal → Hal
cleared h = record h { channels = replicate 4 false; count = 0 }

abbrev pub is_open_channel : Hal → ℕ → Bool
is_open_channel h n = get_or h.channels n false

-- The two status bytes at the end of a response.
abbrev pub sw1 : List ℕ → ℕ
sw1 rsp = byte_at rsp (length rsp - 2)

abbrev pub sw2 : List ℕ → ℕ
sw2 rsp = byte_at rsp (length rsp - 1)

abbrev pub is_sw : ℕ → ℕ → List ℕ → Bool
is_sw a b rsp = sw1 rsp == a && sw2 rsp == b

-- mCallbackV1_0->onStateChange
unfoldable pub tell : Bool → Hal → Outcome Hal
tell b h = if h.has_callback then returned (record h { told = b ∷ h.told }) else fault

-- After a reset that succeeded.
abbrev pub tell_if : Bool → Hal → Outcome Hal
tell_if b h = if b then tell true (cleared h) else returned h

-- The status of the SELECT command.
unfoldable pub select_status : EseStatus → List ℕ → Outcome HalStatus
select_status st rsp =
    let found =
      if is_sw 0x90 0x00 rsp
      then hal_success
      else if is_sw 0x6A 0x82 rsp
      then hal_no_such_element
      else if is_sw 0x6A 0x86 rsp
      then hal_unsupported
      else hal_ioerror in
    if not (is_success st)
    then returned hal_ioerror
    else if ltb (length rsp) 2
    then fault
    else returned found

-- The SELECT command, on a channel.
abbrev pub select_command : ℕ → ℕ → List ℕ → List ℕ
select_command n p2 aid = n ∷ 0xA4 ∷ 0x04 ∷ p2 ∷ u8 (length aid) ∷ aid ++ 0x00 ∷ []

unfoldable pub mark_basic : HalStatus → Hal → Hal
mark_basic st h =
    if is_hal_success st && not (is_open_channel h 0)
    then record h { channels = set h.channels 0 true; count = u8 (h.count + 1) }
    else h

-- The MANAGE CHANNEL command that opens a channel, and the status that it gives.
abbrev pub manage_command : List ℕ
manage_command = 0x00 ∷ 0x70 ∷ 0x00 ∷ 0x00 ∷ 0x01 ∷ []

unfoldable pub manage_status : EseStatus → List ℕ → Outcome HalStatus
manage_status st rsp =
    let found =
      if is_sw 0x90 0x00 rsp
      then hal_success
      else if is_sw 0x6A 0x81 rsp
      then hal_unavailable
      else if is_sw 0x6E 0x00 rsp || is_sw 0x6D 0x00 rsp
      then hal_unsupported
      else hal_ioerror in
    if not (is_success st)
    then returned hal_ioerror
    else if ltb (length rsp) 2
    then fault
    else returned found

-- A channel number beyond the table is a write out of its bounds.
unfoldable pub mark_logical : ℕ → Hal → Outcome Hal
mark_logical n h =
    let h' = record h { channels = set h.channels n true; count = u8 (h.count + 1) } in
    if ltb n 4 then returned h' else fault

module _ {D : Type 0} (api : SeApi D) where
  unfoldable pub hal_deinit : D → Hal → Outcome (D × Hal × HalStatus)
  hal_deinit d h = do
    (d', st) ← api.deinit d
    returned (
      d',
      if is_success st then cleared h else h,
      if is_success st then hal_success else hal_failed,
    )

  -- A failed seInit is not noticed, since its status is a variable of an inner block.
  unfoldable pub open_if_closed : D → Outcome (D × EseStatus)
  open_if_closed d = if api.is_open d then returned (d, success) else api.init d

  unfoldable pub hal_reset_se : D → Hal → Outcome (D × Hal)
  unfolding open_if_closed tell
  hal_reset_se d h = do
    (d1, _) ← open_if_closed d
    h1 ← tell false h
    (d2, st) ← api.reset d1
    h2 ← tell_if (is_success st) h1
    returned (d2, h2)

  -- A command in memory that malloc gave; without it the status is ESESTATUS_FAILED.
  unfoldable pub exchange : List ℕ → D → Outcome (D × EseStatus × List ℕ)
  exchange cmd d =
      let (d', ok) = api.alloc d in if ok then api.transceive d' cmd else returned (d', failed, [])

  -- The end of closeChannel. The count is a uint8_t.
  unfoldable pub forget_channel : ℕ → D → Hal → Outcome (D × Hal × HalStatus)
  unfolding hal_deinit
  forget_channel n d h =
      let h' = record h { channels = set h.channels n false; count = u8 (h.count + 255) } in
      if h'.count == 0 && (not h.opening_logical && not h.opening_basic)
      then hal_deinit d h'
      else returned (d, h', hal_success)

  -- The MANAGE CHANNEL command that closes a channel, and whether it succeeded.
  unfoldable pub close_apdu : ℕ → D → Outcome (D × Bool)
  unfolding exchange
  close_apdu n d = do
    (d', st, rsp) ← exchange (n ∷ 0x70 ∷ 0x80 ∷ n ∷ 0x00 ∷ []) d
    let answer = if ltb (length rsp) 2 then fault else returned (d', is_sw 0x90 0x00 rsp)
    if is_success st then answer else returned (d', false)

  unfoldable pub close_channel : ℕ → D → Hal → Outcome (D × Hal × HalStatus)
  unfolding forget_channel close_apdu
  close_channel n d h =
      let talk = do
        (d', ok) ← close_apdu n d
        if ok then forget_channel n d' h else returned (d', h, hal_failed)
      in if n == 0
        then forget_channel 0 d h
        else if ltb n 4 && is_open_channel h n
        then talk
        else returned (d, h, hal_failed)

  unfoldable pub reset_if_ioerror : HalStatus → D → Hal → Outcome (D × Hal)
  unfolding hal_reset_se
  reset_if_ioerror st d h = if is_hal_ioerror st then hal_reset_se d h else returned (d, h)

  -- The status of closeChannel is only logged.
  unfoldable pub close_if_failed : HalStatus → D → Hal → Outcome (D × Hal)
  unfolding close_channel
  close_if_failed st d h =
      let close = do (d', h', _) ← close_channel 0 d h; returned (d', h')
      in if not (is_hal_success st) && is_open_channel h 0 then close else returned (d, h)

  -- openBasicChannel once the SE is open.
  unfoldable pub select_basic : List ℕ → ℕ → D → Hal → Outcome (D × Hal × List ℕ × HalStatus)
  unfolding exchange select_status mark_basic reset_if_ioerror close_if_failed
  select_basic aid p2 d h = do
    (d1, st, rsp) ← exchange (select_command 0 p2 aid) d
    sel ← select_status st rsp
    (d2, h2) ← reset_if_ioerror sel d1 (mark_basic sel h)
    (d3, h3) ← close_if_failed sel d2 h2
    returned (d3, record h3 { opening_basic = false }, if is_hal_success sel then rsp else [], sel)

  unfoldable pub open_basic_channel : List ℕ → ℕ → D → Hal → Outcome (D × Hal × List ℕ × HalStatus)
  unfolding open_if_closed select_basic
  open_basic_channel aid p2 d h = do
    (d', st) ← open_if_closed d
    let refused = record h { opening_basic = false }
    let opening = record h { opening_basic = true }
    if is_success st
        then select_basic aid p2 d' opening
        else returned (d', refused, [], hal_ioerror)

  -- After a SELECT that the card refused, the channel is closed; the number is then 0xff.
  unfoldable pub close_if_refused : HalStatus → ℕ → D → Hal → Outcome (D × Hal × ℕ)
  unfolding close_channel
  close_if_refused sel n d h =
      let close = do
        (d', h', st) ← close_channel n d h
        returned (d', h', if is_hal_success st then 0xFF else n)
      in if is_hal_success sel || is_hal_ioerror sel then returned (d, h, n) else close

  unfoldable pub select_logical :
      List ℕ → ℕ → ℕ → D → Hal → Outcome (D × Hal × ℕ × List ℕ × HalStatus)
  unfolding exchange select_status reset_if_ioerror close_if_refused
  select_logical aid p2 n d h = do
    (d1, st, rsp) ← exchange (select_command n p2 aid) d
    sel ← select_status st rsp
    (d2, h2) ← reset_if_ioerror sel d1 h
    (d3, h3, n') ← close_if_refused sel n d2 h2
    returned
        (d3, record h3 { opening_logical = false }, n', if is_hal_success sel then rsp else [], sel)

  -- A response with the channel number 0: the number 0xff is overwritten by memset.
  unfoldable pub refuse_logical : HalStatus → D → Hal → Outcome (D × Hal × ℕ × List ℕ × HalStatus)
  unfolding reset_if_ioerror
  refuse_logical sel d h = do
    (d', h') ← reset_if_ioerror sel d h
    returned (d', record h' { opening_logical = false }, 0, [], sel)

  -- openLogicalChannel once the SE is open.
  unfoldable pub manage_channel : List ℕ → ℕ → D → Hal → Outcome (D × Hal × ℕ × List ℕ × HalStatus)
  unfolding exchange manage_status mark_logical select_logical refuse_logical
  manage_channel aid p2 d h = do
    (d1, st, rsp) ← exchange manage_command d
    sel ← manage_status st rsp
    let accepted = do
      h' ← mark_logical (byte_at rsp 0) h
      select_logical aid p2 (byte_at rsp 0) d1 h'
    if is_hal_success sel then accepted else refuse_logical sel d1 h

  unfoldable pub open_logical_channel :
      List ℕ → ℕ → D → Hal → Outcome (D × Hal × ℕ × List ℕ × HalStatus)
  unfolding open_if_closed manage_channel
  open_logical_channel aid p2 d h = do
    (d', st) ← open_if_closed d
    let opening = record h { opening_logical = true }
    let refused = record h { opening_logical = false }
    if is_success st
        then manage_channel aid p2 d' opening
        else returned (d', refused, 0, [], hal_ioerror)

  -- transmit: a command of at least four bytes, whose length is kept in 16 bits. memcpy to NULL is a fault, and so is a response that
  -- is handed on from NULL.
  unfoldable pub transmit_apdu : List ℕ → D → Hal → Outcome (D × Hal × List ℕ)
  unfolding hal_reset_se
  transmit_apdu cmd d h =
      let (d', ok) = api.alloc d in
      let send = do
        (d1, st, rsp) ← api.transceive d' (take (u16 (length cmd)) cmd)
        (d2, h2) ← if is_success st then returned (d1, h) else hal_reset_se d1 h
        returned (d2, h2, if is_success st then rsp else [])
      in let refuse = do (d1, h1) ← hal_reset_se d h; returned (d1, h1, [])
        in if ltb (u16 (length cmd)) 4 then refuse else if ok then send else fault
