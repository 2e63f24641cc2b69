-- ===== src/Tml/Transport/Threads.antt =====
-- The threads of the transport layer (nfc/THN31/halimpl/tml/TmlNfc.cc): one round of the loop of the
-- reader and of the writer after its semaphore is taken, the callback of the retransmission timer,
-- and the callbacks that the client's thread runs. What the bus, the timer and the other threads do
-- stands in events, and a list of events is an interleaving. Locking, waiting and printing are left
-- out, also the flag writerCbflag and the condition that only tmlNfcSignalWriteComplete reads.
use android_vendor_tms.Prelude.{
  ℕ, ◌+◌, ◌-◌, Bool, true, false, not, ◌&&◌, ◌||◌, Option, none, some, List, [], ◌∷◌, ◌++◌, ◌==◌,
  ltb, leb, if◌then◌else◌, length, get_or, write_at, bit_and, u16,
}
use android_vendor_tms.Prelude.Outcome.{Outcome, returned, fault, ◌>>=◌}
use android_vendor_tms.Tml.Transport.{
  nfc_success, nfc_failed, ReadWriteInfo, TransactInfo, Deferred, read_deferred, write_deferred,
  Context, tml_nfc_write, tml_nfc_read,
}

-- `pBuffer[0] & 0xE0` is not 0: the packet is not a data packet.
abbrev pub is_control : List ℕ → Bool
is_control packet = not (bit_and (get_or packet 0 0) 0xE0 == 0)

abbrev pub post : Deferred → Context → Context
post m c = record c { messages = c.messages ++ m ∷ [] }

-- What i2cWrite gives: a number of bytes, or -1 (`none`). The length in the transaction is then 1,
-- or -1 as a uint16_t.
abbrev pub written : Option ℕ → List ℕ → TransactInfo
written none packet = record { status = nfc_failed; buff = packet; length = 65535 }
written (some n) packet = record { status = nfc_success; buff = packet; length = 1 }

abbrev pub is_written : Option ℕ → Bool
is_written none = false
is_written (some n) = true

-- The message about a write: with retransmission, once, and only when the write is done or was the
-- last one.
abbrev pub post_written : Option ℕ → Context → Context
post_written w c =
    let posted : Context = record (post write_deferred c) { write_cb_invoked = true } in
    if c.retrans && is_control c.write_info.buffer
    then (if not c.write_cb_invoked && (is_written w || c.current_retry_count == 0)
        then posted
        else c)
    else post write_deferred c

abbrev pub sent : Option ℕ → Context → Context
sent w c = record c {
  write_info = record (c.write_info) { enabled = false };
  write_transaction = written w c.write_info.buffer;
}

unfoldable pub i2c_write : Option ℕ → Context → Context
i2c_write w c = post_written w (sent w c)

-- The timer of the retransmission, and what is reset where it is not started.
abbrev pub start_timer : Bool → Context → Context
start_timer started c =
    let reset : Context = record c {
      write_info = record (c.write_info) { enabled = false };
      current_retry_count = 0;
    } in
    if c.retrans && is_control c.write_info.buffer then (if started then c else reset) else c

unfoldable pub writer_round : Option ℕ → Bool → Context → Context
unfolding i2c_write
writer_round w started c =
    if c.write_info.enabled
    then start_timer started (if c.dev_handle then i2c_write w c else c)
    else c

-- tmlNfcReTxTimerCb; `null` is a null pContext.
unfoldable pub retx_timer_cb : ℕ → Bool → Context → Context
retx_timer_cb id null c =
    let woken : Context = record c { tx_semaphore = c.tx_semaphore + 1 } in
    let again : Context = record woken {
      current_retry_count = c.current_retry_count - 1;
      write_info = record (c.write_info) { enabled = true; thread_busy = true };
    } in
    if c.timer_id == id && null then (if c.current_retry_count == 0 then woken else again) else c

-- A packet that is read: the timer is stopped at an answer; `stopped` is the timer's success.
abbrev pub received : List ℕ → Bool → Context → Context
received packet stopped c =
    let buffer = write_at c.read_info.buffer 0 packet in
    let answered : Context = record c {
      write_cb_invoked =
          if c.retrans && is_control buffer && stopped then false else c.write_cb_invoked;
      read_info = record (c.read_info) { enabled = false; buffer = buffer };
      read_transaction = record {
        status = nfc_success;
        buff = buffer;
        length = u16 (length packet);
      };
    } in
    post read_deferred answered

-- What i2cRead gives: the bytes, or -1 (`none`). After an error the thread wakes itself; a packet
-- longer than the client's buffer is written past its end.
unfoldable pub i2c_read : Option (List ℕ) → Bool → Context → Outcome Context
i2c_read none stopped c =
    let woken : Context = record c { rx_semaphore = c.rx_semaphore + 1 } in returned woken
i2c_read (some packet) stopped c =
    let woken : Context = record c { rx_semaphore = c.rx_semaphore + 1 } in
    if ltb 260 (length packet)
    then returned woken
    else if leb (length packet) (length c.read_info.buffer)
    then returned (received packet stopped c)
    else fault

unfoldable pub reader_round : Option (List ℕ) → Bool → Context → Outcome Context
unfolding i2c_read
reader_round r stopped c =
    if c.read_info.enabled && c.dev_handle then i2c_read r stopped c else returned c

-- What a completion callback of the client is called with.
pub record Completion : Type 0 where
  pub kind : Deferred
  pub callback : Option ℕ
  pub info : TransactInfo

abbrev pub free : ReadWriteInfo → ReadWriteInfo
free info = record info { thread_busy = false }

-- tmlNfcReadDeferredCb and tmlNfcWriteDeferredCb, for the first message of the client.
abbrev pub deferred_cb : List Deferred → Context → Context × Option Completion
deferred_cb [] c = (c, none)
deferred_cb (read_deferred ∷ messages) c =
    let d : Context = record c { messages = messages; read_info = free c.read_info } in
    let call : Completion = record {
      kind = read_deferred;
      callback = c.read_info.callback;
      info = c.read_transaction;
    } in
    (d, some call)
deferred_cb (write_deferred ∷ messages) c =
    let d : Context = record c { messages = messages; write_info = free c.write_info } in
    let call : Completion = record {
      kind = write_deferred;
      callback = c.write_info.callback;
      info = c.write_transaction;
    } in
    (d, some call)

unfoldable pub deliver : Context → Context × Option Completion
deliver c = deferred_cb c.messages c

-- A thread that waits for its semaphore does nothing.
pub data Event : Type 0 where
  write_requested read_requested : Option (List ℕ) → Option ℕ → Event
  writer_runs : Option ℕ → Bool → Event
  reader_runs : Option (List ℕ) → Bool → Event
  delivered : Event

unfoldable pub happen : Event → Context → Outcome Context
unfolding tml_nfc_write tml_nfc_read writer_round reader_round deliver
happen (write_requested buffer callback) c = returned (tml_nfc_write buffer callback c).0
happen (read_requested buffer callback) c = returned (tml_nfc_read buffer callback c).0
happen (writer_runs w started) c =
    let taken : Context = record c { tx_semaphore = c.tx_semaphore - 1 } in
    returned (if c.tx_semaphore == 0 then c else writer_round w started taken)
happen (reader_runs r stopped) c =
    let taken : Context = record c { rx_semaphore = c.rx_semaphore - 1 } in
    let run = reader_round r stopped taken in if c.rx_semaphore == 0 then returned c else run
happen delivered c = returned (deliver c).0

unfoldable pub happen_all : List Event → Context → Outcome Context
unfolding happen
happen_all [] c = returned c
happen_all (e ∷ events) c = happen e c >>= λ d. happen_all events d
