-- ===== src/Ese/Read/Silent.antt =====
-- t1Read when nothing comes from the card.
use android_vendor_tms.Prelude.{
  ℕ, zero, suc, ◌+◌, ◌-◌, ◌≤◌, ◌<◌, true, false, none, some, List, ◌≡◌, refl, ap, ◌∙◌, ltb, length,
  length-replicate, replicate, u8, arith,
}
use android_vendor_tms.Ese.Types.{ph_io, T1State}
use android_vendor_tms.Ese.Frame.{header_len}
use android_vendor_tms.Ese.Phy.{Phy}
use android_vendor_tms.Ese.Read.{
  Poll, Received, no_header, found_or_not, poll_once, goes_on, poll, received_nothing, finish_read,
  t1_read,
}

-- Every read fails, with an errno other than EINTR, and nobody ends the polling.
pub record IsSilent {D : Type 0} (phy : Phy D) : Type 0 where
  pub no_data : (d : D) (n : ℕ) → (phy.read d n).1 ≡ none
  pub not_interrupted : (d : D) → phy.interrupted d ≡ false
  pub not_done : (d : D) → phy.read_done d ≡ false

-- The polling ends by its counter, before the timeout, and the buffer holds a header.
pub record IsPolling {D : Type 0} (phy : Phy D) (s : T1State) : Type 0 where
  pub in_time : (d : D) → ltb (phy.elapsed d) s.read_timeout ≡ true
  pub some_polls : 0 < s.max_read_retry_cnt
  pub running : s.is_read_done ≡ false
  pub room : 5 ≤ length s.data_rx

module _ {D : Type 0} (phy : Phy D) (quiet : IsSilent phy) where
  once-silent :
      (s : T1State) (hdr_len cnt : ℕ) (d : D) (buf : List ℕ)
      → poll_once phy s hdr_len cnt d buf ≡ record {
        world = (phy.read d hdr_len).0;
        buf = buf;
        header = no_header;
        read_ok = false;
        sof_cnt = suc cnt;
      }
  unfolding poll_once
  once-silent s hdr_len cnt d buf = rw (quiet.no_data d hdr_len, found_or_not)

  -- What the polling loop ends with.
  abbrev Nothing : Poll D → ℕ → List ℕ → Type 0
  Nothing p cnt buf = (p.sof_cnt ≡ cnt) × (p.read_ok ≡ false) × (p.buf ≡ buf)

  poll-silent :
      (left : ℕ) (s : T1State) (hdr_len cnt : ℕ) (d : D) (buf : List ℕ)
      → IsPolling phy s
      → Nothing (poll phy s hdr_len left cnt d buf) (suc (cnt + left)) buf
  unfolding poll goes_on
  poll-silent zero s hdr_len cnt d buf q =
      rw (once-silent s hdr_len cnt d buf) (omega arith, refl, refl)
  poll-silent (suc left) s hdr_len cnt d buf q =
      let d' = (phy.read d hdr_len).0 in
      ground (
        arith,
        once-silent s hdr_len cnt d buf,
        q.in_time d',
        quiet.not_done d',
        poll-silent left s hdr_len (suc cnt) d' buf q,
      )

  header_len-le : (s : T1State) → header_len s false ≤ 4
  unfolding header_len
  header_len-le s = ground arith

  -- t1Read reports a failed read and leaves the buffer at its size.
  pub t1_read-silent :
      (s : T1State) (d : D)
      → IsPolling phy s
      → (r : Received D) × (t1_read phy s d ≡ some r)
        × (r.status ≡ ph_io)
        × (length r.buf ≡ length s.data_rx)
  unfolding t1_read finish_read received_nothing
  t1_read-silent s d q =
      let h = u8 (header_len s false + 1) in
      let blank = replicate (length s.data_rx) 0 in
      let p = poll phy s h (s.max_read_retry_cnt - 1) 0 d blank in
      let ends = poll-silent (s.max_read_retry_cnt - 1) s h 0 d blank q in
      let same : length p.buf ≡ length s.data_rx =
        ap length ends.2 ∙ length-replicate (length s.data_rx) 0 in
      (
        received_nothing phy p ph_io,
        ground (arith, header_len-le s, ends, quiet.not_interrupted p.world),
        refl,
        same,
      )
