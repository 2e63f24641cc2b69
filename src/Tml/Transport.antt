-- ===== src/Tml/Transport.antt =====
-- The transport layer that moves NCI packets (nfc/THN31/halimpl/tml/TmlNfc.cc and TmlNfc.h): the
-- context, the requests of a client and their aborts, the control codes and the retransmission's
-- configuration. What a pointer of the client points to is a list of bytes, of the length that is
-- given with it, and a completion callback with its context is a number; a null pointer is `none`.
-- A device handle is open or null. Locks are free, and every sem_wait and sem_getvalue succeeds.
pub mod Threads
pub mod Init
pub mod Pending
pub mod InFlight
pub mod Progress
pub mod Control
pub mod Retransmission
use android_vendor_tms.Prelude.{
  ℕ, zero, suc, ◌+◌, ◌-◌, ◌/◌, ◌%◌, Bool, true, false, not, ◌&&◌, ◌||◌, Option, none, some, List,
  [], ◌∷◌, ◌++◌, ◌==◌, ltb, leb, if◌then◌else◌, length, get_or, bit_and,
}

-- The NFCSTATUS values of this layer.
pub data NfcStatus : Type 0 where
  nfc_success nfc_pending nfc_busy nfc_invalid_parameter nfc_not_initialised : NfcStatus
  nfc_already_initialised nfc_failed nfc_invalid_device : NfcStatus

-- TmlNfcReadWriteInfo: bEnable, bThreadBusy, pBuffer with length, and the callback.
pub record ReadWriteInfo : Type 0 where
  pub enabled : Bool
  pub thread_busy : Bool
  pub buffer : List ℕ
  pub callback : Option ℕ

-- TmlNfcTransactInfo
pub record TransactInfo : Type 0 where
  pub status : NfcStatus
  pub buff : List ℕ
  pub length : ℕ

-- What a thread posts to the client's queue: a call of tmlNfcReadDeferredCb or of
-- tmlNfcWriteDeferredCb, each with the one transaction info of its thread.
pub data Deferred : Type 0 where
  read_deferred write_deferred : Deferred

-- TmlNfcContext, with gCurrentRetryCount, the transaction infos of the threads and the messages
-- that the client has not received; `retrans` is TMLNFC_ENABLE_RETRANS in configRetrans.
pub record Context : Type 0 where
  pub dev_handle : Bool
  pub thread_done : Bool
  pub retrans : Bool
  pub retry_count : ℕ
  pub current_retry_count : ℕ
  pub write_cb_invoked : Bool
  pub timer_id : ℕ
  pub read_info : ReadWriteInfo
  pub write_info : ReadWriteInfo
  pub rx_semaphore : ℕ
  pub tx_semaphore : ℕ
  pub fragment_len : ℕ
  pub read_transaction : TransactInfo
  pub write_transaction : TransactInfo
  pub messages : List Deferred

-- `(2000 / PHTMLNFC_MAXTIME_RETRANSMIT) + 1`
abbrev pub default_retry_count : ℕ
default_retry_count = 11

unfoldable pub config_nci_pkt_retx : Bool → ℕ → Context → Context
config_nci_pkt_retx enable retry c =
    let off : Context = record c { retrans = false } in
    let on : Context = record c {
      retrans = true;
      retry_count = if retry == 0 then default_retry_count else retry;
    } in
    if enable then on else off

-- A request is accepted where no other one of its kind is under way.
abbrev pub requested : List ℕ → ℕ → ReadWriteInfo
requested packet callback = record {
  enabled = true;
  thread_busy = true;
  buffer = packet;
  callback = some callback;
}

abbrev pub with_write : List ℕ → ℕ → Context → Context
with_write packet callback c = record c {
  write_info = requested packet callback;
  current_retry_count = if c.retrans then c.retry_count else c.current_retry_count;
  write_cb_invoked = if c.retrans then false else c.write_cb_invoked;
  tx_semaphore = c.tx_semaphore + 1;
}

abbrev pub with_read : List ℕ → ℕ → Context → Context
with_read buffer callback c = record c {
  read_info = requested buffer callback;
  rx_semaphore = if c.rx_semaphore == 0 then c.rx_semaphore + 1 else c.rx_semaphore;
}

-- The checks of a request: the device, the buffer, the length and the callback.
abbrev pub checked :
    (List ℕ → ℕ → Context → Context)
    → Bool
    → Option (List ℕ)
    → Option ℕ
    → Context
    → Context × NfcStatus
checked accepted busy none callback c = (c, nfc_invalid_parameter)
checked accepted busy (some buffer) none c = (c, nfc_invalid_parameter)
checked accepted busy (some buffer) (some callback) c =
    if not c.dev_handle || length buffer == 0
    then (c, nfc_invalid_parameter)
    else if busy
    then (c, nfc_busy)
    else (accepted buffer callback c, nfc_pending)

unfoldable pub tml_nfc_write : Option (List ℕ) → Option ℕ → Context → Context × NfcStatus
tml_nfc_write buffer callback c = checked with_write c.write_info.thread_busy buffer callback c

unfoldable pub tml_nfc_read : Option (List ℕ) → Option ℕ → Context → Context × NfcStatus
tml_nfc_read buffer callback c = checked with_read c.read_info.thread_busy buffer callback c

-- Without a context a request is refused.
unfoldable pub on_context :
    (Context → Context × NfcStatus) → Option Context → Option Context × NfcStatus
on_context request none = (none, nfc_not_initialised)
on_context request (some c) = let (d, status) = request c in (some d, status)

abbrev pub idle : ReadWriteInfo → ReadWriteInfo
idle info = record info { enabled = false; thread_busy = false }

unfoldable pub tml_nfc_read_abort : Context → Context × NfcStatus
tml_nfc_read_abort c =
    let d : Context = record c { read_info = idle c.read_info } in (d, nfc_success)

unfoldable pub tml_nfc_write_abort : Context → Context × NfcStatus
tml_nfc_write_abort c =
    let d : Context = record c { write_info = idle c.write_info; current_retry_count = 0 } in
    (d, nfc_success)

-- TmlNfcControlCode
pub data ControlCode : Type 0 where
  tmlnfc_invalid tmlnfc_reset_device tmlnfc_enable_dl_mode tmlnfc_enable_normal_mode : ControlCode
  tmlnfc_enable_dl_mode_with_ven_rst tmlnfc_enable_ven tmlnfc_power_reset : ControlCode
  tmlnfc_set_fragment_size : ControlCode

-- The modes that nfccReset is called with.
pub data ResetMode : Type 0 where
  mode_power_on mode_power_off mode_power_reset mode_fw_gpio_low : ResetMode
  mode_fw_dwnld_with_ven mode_fw_dwnd_high : ResetMode

-- _NFCC_DWNLD_MODE
pub data DwnldMode : Type 0 where
  with_ven_reset with_nci_cmd other_dwnld : DwnldMode

-- The chip and the status that nfccReset gives; the calls of it come out as a list.
module _ (is_thn31 is_thn31_or_later : Bool) (dwnld : DwnldMode)
    (nfcc_reset : ResetMode → NfcStatus) where
  abbrev without_read : Context → Context
  without_read c = record c { read_info = record (c.read_info) { enabled = false } }

  abbrev dl_mode : DwnldMode → List ResetMode × NfcStatus
  dl_mode with_ven_reset = (mode_fw_dwnld_with_ven ∷ [], nfcc_reset mode_fw_dwnld_with_ven)
  dl_mode with_nci_cmd = (mode_fw_dwnd_high ∷ [], nfcc_reset mode_fw_dwnd_high)
  dl_mode other_dwnld = ([], nfc_success)

  abbrev normal_mode : DwnldMode → List ResetMode
  normal_mode with_ven_reset = mode_fw_gpio_low ∷ []
  normal_mode with_nci_cmd = mode_fw_gpio_low ∷ []
  normal_mode other_dwnld = []

  -- The `switch` on the control code.
  unfoldable pub controlled : ControlCode → Context → Context × List ResetMode × NfcStatus
  unfolding config_nci_pkt_retx
  controlled tmlnfc_power_reset c = (
    c,
    if is_thn31_or_later
        then mode_power_reset ∷ []
        else mode_power_on ∷ mode_power_off ∷ mode_power_on ∷ [],
    nfc_success,
  )
  controlled tmlnfc_enable_ven c = (c, [], nfc_success)
  controlled tmlnfc_reset_device c = (c, [], nfc_success)
  controlled tmlnfc_enable_normal_mode c = (without_read c, normal_mode dwnld, nfc_success)
  controlled tmlnfc_enable_dl_mode c =
      (without_read (config_nci_pkt_retx false 0 c), (dl_mode dwnld).0, (dl_mode dwnld).1)
  controlled tmlnfc_enable_dl_mode_with_ven_rst c = (
    without_read (config_nci_pkt_retx false 0 c),
    mode_fw_dwnld_with_ven ∷ [],
    nfcc_reset mode_fw_dwnld_with_ven,
  )
  controlled tmlnfc_set_fragment_size c =
      let d : Context = record c { fragment_len = if is_thn31 then 0x22A else c.fragment_len } in
      (d, [], nfc_success)
  controlled tmlnfc_invalid c = (c, [], nfc_invalid_parameter)

  -- A read that was requested is requested again.
  unfoldable pub tml_nfc_io_ctl : ControlCode → Context → Context × List ResetMode × NfcStatus
  unfolding controlled
  tml_nfc_io_ctl code c =
      let (d, resets, status) = controlled code c in
      let again : Context = record d {
        read_info = record (d.read_info) { enabled = true };
        rx_semaphore = d.rx_semaphore + 1;
      } in
      (if c.read_info.enabled && not d.read_info.enabled then again else d, resets, status)
