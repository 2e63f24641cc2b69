-- ===== src/Tml/Transport/Init.antt =====
-- The begin and the end of the transport layer (nfc/THN31/halimpl/tml/TmlNfc.cc): tmlNfcInit,
-- tmlNfcStartThread, tmlNfcShutdown, tmlNfcCleanUp and tmlNfcShutdownCleanUp. Whether a call of the
-- system, of the transport or of the timers succeeds is given.
use android_vendor_tms.Prelude.{
  ℕ, ◌+◌, Bool, true, false, not, ◌&&◌, Option, none, some, [], ◌≡◌, ◌≢◌, inl, refl, ◌==◌,
  if◌then◌else◌, if-cases, arith,
}
use android_vendor_tms.Prelude.Outcome.{Outcome, returned, fault, unfinished, ◌>>=◌}
use android_vendor_tms.Tml.Transport.{
  NfcStatus, nfc_success, nfc_invalid_parameter, nfc_not_initialised, nfc_already_initialised,
  nfc_failed, nfc_invalid_device, ReadWriteInfo, TransactInfo, Context, default_retry_count,
}
use android_vendor_tms.Tml.Transport.Pending.{Served, pending_reads, pending_writes}

-- `timer` is what osalNfcTimerCreate gives, 0xFFFF for PH_OSALNFC_TIMER_ID_INVALID, and `junk` is what
-- stands in memory that malloc gives.
pub record System : Type 0 where
  pub allocated : Bool
  pub transport : Bool
  pub opened : Bool
  pub rx_ready : Bool
  pub wait_ready : Bool
  pub tx_ready : Bool
  pub post_ready : Bool
  pub reader_started : Bool
  pub writer_started : Bool
  pub timer : ℕ
  pub junk : Context

-- TmlNfcConfig: getMsgThreadId and fragmentLen.
pub record TmlConfig : Type 0 where
  pub msg_thread_id : ℕ
  pub config_fragment_len : ℕ

abbrev unused : ReadWriteInfo
unused = record { enabled = false; thread_busy = false; buffer = []; callback = none }

abbrev no_transaction : TransactInfo
no_transaction = record { status = nfc_success; buff = []; length = 0 }

-- The context after memset and the assignments before the threads run, with the device open or not.
-- gCurrentRetryCount is no part of it and keeps what it was; a write sets it before it is read.
abbrev cleared : Bool → Context
cleared handle = record {
  dev_handle = handle;
  thread_done = true;
  retrans = true;
  retry_count = 0;
  current_retry_count = default_retry_count;
  write_cb_invoked = false;
  timer_id = 0;
  read_info = unused;
  write_info = unused;
  rx_semaphore = 0;
  tx_semaphore = 0;
  fragment_len = 0;
  read_transaction = no_transaction;
  write_transaction = no_transaction;
  messages = [];
}

abbrev is_nfc_success : NfcStatus → Bool
is_nfc_success nfc_success = true
is_nfc_success _ = false

unfoldable pub start_thread : System → NfcStatus
start_thread s = if s.reader_started && s.writer_started then nfc_success else nfc_failed

-- What is set once the timer is there.
abbrev configured : System → TmlConfig → Context
configured s config = record (cleared true) {
  fragment_len = config.config_fragment_len;
  timer_id = s.timer;
  retrans = false;
  retry_count = default_retry_count;
}

-- tmlNfcShutdown: the threads end, and the device is closed. `running` says that the semaphores and
-- the two threads of the context are there; posting a semaphore or joining a thread that is not is a
-- fault.
unfoldable pub tml_nfc_shutdown : Bool → Option Context → Outcome (Option Context × NfcStatus)
tml_nfc_shutdown running none = returned (none, nfc_not_initialised)
tml_nfc_shutdown running (some c) =
    let d : Context = record c {
      thread_done = false;
      rx_semaphore = c.rx_semaphore + 1;
      tx_semaphore = c.tx_semaphore + 1;
      dev_handle = false;
    } in
    if running then returned (some d, nfc_success) else fault

-- tmlNfcCleanUp frees the context.
unfoldable pub tml_nfc_clean_up : Option Context → Option Context
tml_nfc_clean_up c = none

unfoldable pub tml_nfc_shutdown_clean_up :
    Bool → Option Context → Outcome (Option Context × NfcStatus)
unfolding tml_nfc_shutdown tml_nfc_clean_up
tml_nfc_shutdown_clean_up running c =
    tml_nfc_shutdown running c >>= λ r. returned (tml_nfc_clean_up r.0, r.1)

-- The clean up at the end of tmlNfcInit, whose status is returned.
abbrev clean_up_after : Bool → Option Context → NfcStatus → Outcome (Option Context × NfcStatus)
clean_up_after running c status =
    tml_nfc_shutdown_clean_up running c >>= λ r. returned (r.0, status)

-- The end of tmlNfcInit: the clean up where it did not succeed.
abbrev or_clean_up : Bool → Context → NfcStatus → Outcome (Option Context × NfcStatus)
or_clean_up running c nfc_success = returned (some c, nfc_success)
or_clean_up running c status = clean_up_after running (some c) status

-- From the semaphores to the timer.
abbrev start_up : System → TmlConfig → Outcome (Option Context × NfcStatus)
start_up s config =
    let ready = s.rx_ready && s.wait_ready && s.tx_ready && s.post_ready in
    if not ready
    then or_clean_up false (cleared true) nfc_failed
    else if not (is_nfc_success (start_thread s))
    then or_clean_up false (cleared true) nfc_failed
    else if s.timer == 0xFFFF
    then or_clean_up true (cleared true) nfc_failed
    else or_clean_up true (configured s config) nfc_success

-- Without a transport the function returns at once, and the context stays as malloc gave it.
abbrev init_fresh : System → TmlConfig → Outcome (Option Context × NfcStatus)
init_fresh s config =
    if not s.allocated
    then clean_up_after false none nfc_failed
    else if not s.transport
    then returned (some s.junk, nfc_failed)
    else if not s.opened
    then or_clean_up false (cleared false) nfc_invalid_device
    else start_up s config

-- `running` is of the context that is there before the call.
unfoldable pub tml_nfc_init :
    System → Option TmlConfig → Bool → Option Context → Outcome (Option Context × NfcStatus)
unfolding tml_nfc_shutdown_clean_up start_thread
tml_nfc_init s config running (some c) = clean_up_after running (some c) nfc_already_initialised
tml_nfc_init s none running none = clean_up_after running none nfc_invalid_parameter
tml_nfc_init s (some config) running none =
    if config.msg_thread_id == 0
    then clean_up_after running none nfc_invalid_parameter
    else init_fresh s config

-- The device, the semaphores and the threads are there.
abbrev pub is_ready : System → Bool
is_ready s =
    s.opened
    && (s.rx_ready && s.wait_ready && s.tx_ready && s.post_ready)
    && (s.reader_started && s.writer_started)

-- How an initialisation ends: with a context in which the device is open, retransmission is off and
-- no request is under way, without a context for want of a timer, or with a fault in the clean up.
abbrev pub Initialised : System → TmlConfig → Outcome (Option Context × NfcStatus) → Type 0
Initialised s config (returned (some c, status)) =
    (status ≡ nfc_success)
    × Served c
    × (is_ready s ≡ true)
    × (s.timer ≢ 0xFFFF)
    × (c.timer_id ≡ s.timer)
    × (c.fragment_len ≡ config.config_fragment_len)
    × (c.retry_count ≡ 11)
    × (c.thread_done ≡ true)
Initialised s config (returned (none, status)) =
    (status ≡ nfc_failed) × (is_ready s ≡ true) × (s.timer ≡ 0xFFFF)
Initialised s config fault = is_ready s ≡ false
Initialised s config unfinished = ⊥

module _ (s : System) (config : TmlConfig) (opened : s.opened ≡ true) where
  abbrev P : Outcome (Option Context × NfcStatus) → Type 0
  P = Initialised s config

  start_up-Initialised : P (start_up s config)
  unfolding pending_reads pending_writes tml_nfc_shutdown_clean_up start_thread
  start_up-Initialised =
      if-cases P (not (s.rx_ready && s.wait_ready && s.tx_ready && s.post_ready)) _ _
        (λ e. ground arith)
        (λ e.
          if-cases P
            (not (
              is_nfc_success
                (if s.reader_started && s.writer_started then nfc_success else nfc_failed)))
            _ _ (λ f. ground arith)
            (λ f.
              let ready : is_ready s ≡ true = ground arith in
              if-cases P (s.timer == 0xFFFF) _ _ (λ g. (refl, ready, ground arith))
                (λ g. (
                  refl,
                  (refl, refl, inl (refl, refl, refl), inl (refl, refl, refl)),
                  ready,
                  ground arith,
                  refl,
                  refl,
                  refl,
                  refl,
                ))))

-- With a transport, enough memory and a configuration that names a thread: an initialisation from the
-- start succeeds where the device opens, the semaphores and the threads are made and there is a timer,
-- and leaves a context in which the device is open, the timer, the fragment length and the 11 retries
-- are set, the threads go on, retransmission is off and no request is under way. Where only the timer
-- is missing it fails and leaves no context. Where one of the others fails, its clean up posts
-- semaphores and joins threads that are not there.
pub tml_nfc_init-Initialised :
    (s : System) (config : TmlConfig) (running : Bool)
    → s.allocated ≡ true
    → s.transport ≡ true
    → config.msg_thread_id ≢ 0
    → Initialised s config (tml_nfc_init s (some config) running none)
unfolding tml_nfc_init tml_nfc_shutdown_clean_up start_thread
tml_nfc_init-Initialised s config running a t m =
    if-cases (Initialised s config) (config.msg_thread_id == 0) _ _
      (λ e. absurd (let zero_id = m in ground arith))
      (λ _.
        if-cases (Initialised s config) (not s.allocated) _ _ (λ e. absurd (ground arith))
          (λ _.
            if-cases (Initialised s config) (not s.transport) _ _ (λ e. absurd (ground arith))
              (λ _.
                if-cases (Initialised s config) (not s.opened) _ _ (λ e. ground arith)
                  (λ e. start_up-Initialised s config (ground arith)))))
