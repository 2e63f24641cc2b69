-- ===== src/Ese/Read/Terminated.antt =====
-- t1Read after DoReadTerminate, when nothing comes from the card.
use android_vendor_tms.Prelude.{
  ℕ, zero, suc, ◌+◌, ◌-◌, ◌≤◌, true, false, none, some, List, ◌≡◌, refl, length, length-replicate,
  replicate, u8, arith,
}
use android_vendor_tms.Ese.Types.{success, T1State}
use android_vendor_tms.Ese.Frame.{header_len}
use android_vendor_tms.Ese.Phy.{Phy}
use android_vendor_tms.Ese.Read.{
  Poll, Received, no_header, found_or_not, poll_once, goes_on, poll, received_nothing, finish_read,
  t1_read,
}

-- Every read fails, with an errno other than EINTR, and DoReadTerminate has been called.
pub record IsTerminated {D : Type 0} (phy : Phy D) : Type 0 where
  pub no_data : (d : D) (n : ℕ) → (phy.read d n).1 ≡ none
  pub not_interrupted : (d : D) → phy.interrupted d ≡ false
  pub done : (d : D) → phy.read_done d ≡ true

module _ {D : Type 0} (phy : Phy D) (over : IsTerminated phy) where
  -- One round of polling that finds nothing.
  abbrev nothing_found : D → List ℕ → Poll D
  nothing_found d buf = record {
    world = d;
    buf = buf;
    header = no_header;
    read_ok = false;
    sof_cnt = 1;
  }

  poll-terminated :
      (left : ℕ) (s : T1State) (hdr_len : ℕ) (d : D) (buf : List ℕ)
      → poll phy s hdr_len left 0 d buf ≡ nothing_found (phy.read d hdr_len).0 buf
  unfolding poll poll_once found_or_not goes_on
  poll-terminated zero s hdr_len d buf = ground (arith, over.no_data d hdr_len)
  poll-terminated (suc left) s hdr_len d buf =
      ground (arith, over.no_data d hdr_len, over.done (phy.read d hdr_len).0)

  header_len-le : (s : T1State) → header_len s false ≤ 4
  unfolding header_len
  header_len-le s = ground arith

  -- t1Read reports a success with no data.
  pub t1_read-terminated :
      (s : T1State) (d : D)
      → 2 ≤ s.max_read_retry_cnt
      → 5 ≤ length s.data_rx
      → (r : Received D) × (t1_read phy s d ≡ some r)
        × (r.status ≡ success)
        × (r.data_len ≡ 0)
        × (length r.buf ≡ length s.data_rx)
  unfolding t1_read finish_read received_nothing
  t1_read-terminated s d two room =
      let h = u8 (header_len s false + 1) in
      let blank = replicate (length s.data_rx) 0 in
      let p = nothing_found (phy.read d h).0 blank in
      (
        received_nothing phy p success,
        ground (
          arith,
          header_len-le s,
          poll-terminated (s.max_read_retry_cnt - 1) s h d blank,
          over.not_interrupted (phy.read d h).0,
        ),
        refl,
        refl,
        length-replicate (length s.data_rx) 0,
      )
