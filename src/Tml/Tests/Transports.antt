-- ===== src/Tml/Tests/Transports.antt =====
-- The transport layer at concrete requests and answers of the bus.
use android_vendor_tms.Prelude.{
  suc, true, false, none, some, List, [], ◌∷◌, ◌≡◌, refl, length, inl, replicate, arith,
}
use android_vendor_tms.Prelude.Outcome.{Outcome, returned, fault, ◌>>=◌}
use android_vendor_tms.Tml.Transport.{
  nfc_success, nfc_busy, nfc_already_initialised, ReadWriteInfo, TransactInfo, write_deferred,
  Context, tml_nfc_write, tml_nfc_write_abort,
}
use android_vendor_tms.Tml.Transport.Threads.{
  Event, write_requested, read_requested, writer_runs, reader_runs, delivered, happen_all,
  writer_round, retx_timer_cb, deliver,
}
use android_vendor_tms.Tml.Transport.Init.{
  System, TmlConfig, tml_nfc_init, Initialised, tml_nfc_init-Initialised,
}
use android_vendor_tms.Tml.Transport.Pending.{Served, pending_reads, pending_writes}
use android_vendor_tms.Tml.Transport.InFlight.{happen_all-Served}
use android_vendor_tms.Tml.Transport.Progress.{AcceptsWrite, happen_all-accepts}

abbrev quiet : ReadWriteInfo
quiet = record { enabled = false; thread_busy = false; buffer = []; callback = none }

abbrev no_info : TransactInfo
no_info = record { status = nfc_success; buff = []; length = 0 }

abbrev opened_tml : Context
opened_tml = record {
  dev_handle = true;
  thread_done = true;
  retrans = false;
  retry_count = 11;
  current_retry_count = 11;
  write_cb_invoked = false;
  timer_id = 1;
  read_info = quiet;
  write_info = quiet;
  rx_semaphore = 0;
  tx_semaphore = 0;
  fragment_len = 0x22A;
  read_transaction = no_info;
  write_transaction = no_info;
  messages = [];
}

-- A write and a read, and the thread of the writer before the client takes the message.
abbrev some_events : List Event
some_events =
    write_requested (some (0x20 ∷ 0x00 ∷ 0x01 ∷ 0x01 ∷ [])) (some 7)
    ∷ read_requested (some (0 ∷ 0 ∷ 0 ∷ 0 ∷ [])) (some 8)
    ∷ reader_runs none false
    ∷ writer_runs (some 4) true
    ∷ []

abbrev after_events : Context
after_events = record opened_tml {
  write_info = record {
    enabled = false;
    thread_busy = true;
    buffer = 0x20 ∷ 0x00 ∷ 0x01 ∷ 0x01 ∷ [];
    callback = some 7;
  };
  read_info = record {
    enabled = true;
    thread_busy = true;
    buffer = 0 ∷ 0 ∷ 0 ∷ 0 ∷ [];
    callback = some 8;
  };
  rx_semaphore = 1;
  write_transaction = record {
    status = nfc_success;
    buff = 0x20 ∷ 0x00 ∷ 0x01 ∷ 0x01 ∷ [];
    length = 1;
  };
  messages = write_deferred ∷ [];
}

opened_tml-Served : Served opened_tml
unfolding pending_reads pending_writes
opened_tml-Served = (refl, refl, inl (refl, refl, refl), inl (refl, refl, refl))

happen_all-Served_example : Served after_events
unfolding happen_all
happen_all-Served_example =
    happen_all-Served some_events opened_tml after_events opened_tml-Served refl

happen_all-accepts_example :
    (d : Context) × (happen_all
        (writer_runs none true ∷ replicate (suc (length after_events.messages)) delivered)
        after_events
      ≡ returned d)
    × Served d
    × AcceptsWrite (0x21 ∷ []) 9 d
happen_all-accepts_example =
    happen_all-accepts none true (0x21 ∷ []) 9 after_events happen_all-Served_example (omega arith)

-- A packet that fails twice and is then sent, with two retries.
abbrev retrying : Context
retrying = record after_events {
  retrans = true;
  current_retry_count = 2;
  write_info = record (after_events.write_info) { enabled = true };
  messages = [];
}

-- A write that is sent, whose message the client takes, and that the timer sends again, leaves the
-- layer busy: no message is posted any more, and every later write is refused.
abbrev sent_again : Context
sent_again =
    writer_round (some 4) true
      (retx_timer_cb 1 true (deliver (writer_round (some 4) true retrying)).0)

retransmission_busy :
    (sent_again.messages ≡ [])
    × ((tml_nfc_write (some (0x20 ∷ [])) (some 7) sent_again).1 ≡ nfc_busy)
unfolding writer_round retx_timer_cb deliver tml_nfc_write
retransmission_busy = (refl, refl)

-- After an abort a second write is accepted while the message of the first is in the queue, and
-- both messages call the callback of the second.
abbrev aborted : Outcome Context
aborted =
    happen_all (write_requested (some (0x21 ∷ [])) (some 9) ∷ writer_runs none true ∷ [])
      (tml_nfc_write_abort after_events).0

abort_two_messages :
    aborted >>= (λ c. returned (c.messages)) ≡ returned (write_deferred ∷ write_deferred ∷ [])
unfolding happen_all tml_nfc_write_abort
abort_two_messages = refl

-- A packet of five bytes for a buffer of four.
read_overflow :
    happen_all (reader_runs (some (0x40 ∷ 0 ∷ 2 ∷ 0 ∷ 0 ∷ [])) false ∷ []) after_events ≡ fault
unfolding happen_all
read_overflow = refl

abbrev system : System
system = record {
  allocated = true;
  transport = true;
  opened = true;
  rx_ready = true;
  wait_ready = true;
  tx_ready = true;
  post_ready = true;
  reader_started = true;
  writer_started = true;
  timer = 101;
  junk = retrying;
}

abbrev tml_config : TmlConfig
tml_config = record { msg_thread_id = 1; config_fragment_len = 0x22A }

tml_nfc_init-Initialised_example :
    Initialised system tml_config (tml_nfc_init system (some tml_config) false none)
tml_nfc_init-Initialised_example =
    tml_nfc_init-Initialised system tml_config false refl refl (omega arith)

-- A second initialisation ends the first.
tml_nfc_init_again :
    tml_nfc_init system (some tml_config) true (some after_events)
    ≡ returned (none, nfc_already_initialised)
unfolding tml_nfc_init
tml_nfc_init_again = refl
