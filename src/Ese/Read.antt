-- ===== src/Ese/Read.antt =====
-- t1Read (7816-3-T1/7816/T1.c), built with USE_SPI_SPLIT_READ: the poll for the start of a block,
-- then the read of the rest. `none` stands for a write past the end of gpDataRx.
pub mod Silent
pub mod Terminated
use android_vendor_tms.Prelude.{
  ℕ, zero, suc, ◌+◌, ◌-◌, ◌*◌, ◌%◌, Bool, true, false, not, ◌&&◌, ◌||◌, Option, none, some, List,
  [], ◌∷◌, ◌==◌, ltb, leb, if◌then◌else◌, length, replicate, set, write_at, word, u8, u16,
}
use android_vendor_tms.Ese.Types.{
  EseStatus, success, ph_io, ph_ior_invalid_data, fatal_error, T1State, byte_at,
}
use android_vendor_tms.Ese.Frame.{header_len}
use android_vendor_tms.Ese.Phy.{Phy}

abbrev pub nad_c2dt : ℕ
nad_c2dt = 0xA5

-- What the header of a block tells: whether one was found, how many bytes follow, where they go in
-- the buffer, and how many have arrived.
pub record Header : Type 0 where
  pub found : Bool
  pub bytes_to_read : ℕ
  pub read_index : ℕ
  pub total : ℕ

abbrev pub no_header : Header
no_header = record { found = false; bytes_to_read = 0; read_index = 0; total = 0 }

-- The buffer starts with the NAD. One byte after the header has been read too.
aligned_header : T1State → List ℕ → ℕ → Header
aligned_header s buf hdr_len = record {
  found = true;
  bytes_to_read =
      if s.is_t1_ext_hdr_len
      then u16 (word (byte_at buf 2) (byte_at buf 3) + (if s.atr.checksum == 1 then 1 else 0))
      else byte_at buf 2;
  read_index = hdr_len;
  total = hdr_len;
}

-- The buffer starts with an idle byte, and the header has been moved down over it.
shifted_header : T1State → List ℕ → ℕ → Header
shifted_header s buf hdr_len = record {
  found = true;
  bytes_to_read =
      if s.is_t1_ext_hdr_len
      then u16 (word (byte_at buf 2) (byte_at buf 3) + (if s.atr.checksum == 1 then 2 else 0))
      else byte_at buf 2 + 1;
  read_index = hdr_len - 1;
  total = hdr_len - 1;
}

shift_down : T1State → List ℕ → List ℕ
shift_down s buf =
    let moved = set (set (set buf 0 (byte_at buf 1)) 1 (byte_at buf 2)) 2 (byte_at buf 3) in
    if s.is_t1_ext_hdr_len then set moved 3 (byte_at buf 4) else moved

-- The buffer and the header after `hdr_len` bytes were read to its start.
unfoldable pub find_header : T1State → List ℕ → ℕ → List ℕ × Header
unfolding aligned_header shifted_header shift_down
find_header s buf hdr_len =
    let buf' = shift_down s buf in
    if byte_at buf 0 == nad_c2dt
    then (buf, aligned_header s buf hdr_len)
    else if (byte_at buf 0 == 0x00 || byte_at buf 0 == 0xFF) && byte_at buf 1 == nad_c2dt
    then (buf', shifted_header s buf' hdr_len)
    else (buf, no_header)

-- The variables of the polling loop.
pub record Poll (D : Type 0) : Type 0 where
  pub world : D
  pub buf : List ℕ
  pub header : Header
  pub read_ok : Bool  -- ret is not negative
  pub sof_cnt : ℕ

pub record Received (D : Type 0) : Type 0 where
  pub world : D
  pub buf : List ℕ
  pub status : EseStatus
  pub data_len : ℕ

module _ {D : Type 0} (phy : Phy D) where
  found_or_not : T1State → ℕ → ℕ → D → List ℕ → Option (List ℕ) → Poll D
  found_or_not s hdr_len cnt d buf none = record {
    world = d;
    buf = buf;
    header = no_header;
    read_ok = false;
    sof_cnt = suc cnt;
  }
  found_or_not s hdr_len cnt d buf (some bs) =
      let (buf', h) = find_header s (write_at buf 0 bs) hdr_len in
      record {
        world = d;
        buf = buf';
        header = h;
        read_ok = true;
        sof_cnt = if h.found then cnt else suc cnt;
      }

  -- One round. `cnt` is sofCnt before it.
  unfoldable pub poll_once : T1State → ℕ → ℕ → D → List ℕ → Poll D
  unfolding found_or_not
  poll_once s hdr_len cnt d buf =
      let (d', r) = phy.read d hdr_len in found_or_not s hdr_len cnt d' buf r

  -- Whether the loop goes on after a round that found nothing, the counter apart.
  unfoldable pub goes_on : T1State → D → Bool
  goes_on s d = not (s.is_read_done || phy.read_done d) && ltb (phy.elapsed d) s.read_timeout

  -- The loop. `left` is the number of rounds after this one that sofMaxCnt allows.
  unfoldable pub poll : T1State → ℕ → ℕ → ℕ → D → List ℕ → Poll D
  poll s hdr_len zero cnt d buf = poll_once s hdr_len cnt d buf
  poll s hdr_len (suc left) cnt d buf =
      let p = poll_once s hdr_len cnt d buf in
      let rest = poll s hdr_len left p.sof_cnt p.world p.buf in
      if p.header.found then p else if goes_on s p.world then rest else p

  received_nothing : Poll D → EseStatus → Received D
  received_nothing p st = record { world = p.world; buf = p.buf; status = st; data_len = 0 }

  after_payload : Poll D → D → Option (List ℕ) → Received D
  after_payload p d none = record { world = d; buf = p.buf; status = ph_io; data_len = 0 }
  after_payload p d (some bs) = record {
    world = d;
    buf = write_at p.buf p.header.read_index bs;
    status = success;
    data_len = u16 (p.header.total + p.header.bytes_to_read);
  }

  -- The second read. It may write `bytes_to_read` bytes from `read_index` on.
  unfoldable pub read_payload : Poll D → Option (Received D)
  unfolding after_payload
  read_payload p =
      let h = p.header in
      let (d, r) = phy.read p.world h.bytes_to_read in
      if h.bytes_to_read == 0
      then some (record { world = p.world; buf = p.buf; status = success; data_len = h.total })
      else if leb (h.read_index + h.bytes_to_read) (length p.buf)
      then some (after_payload p d r)
      else none

  -- What follows the loop, by sofCnt and by the last result of PhRead.
  unfoldable pub finish_read : T1State → Poll D → Option (Received D)
  unfolding received_nothing
  finish_read s p =
      if p.sof_cnt == s.max_read_retry_cnt
      then some (
          received_nothing p (
            if phy.interrupted p.world
            then fatal_error
            else if p.read_ok
            then ph_ior_invalid_data
            else ph_io))
      else if p.read_ok
      then read_payload p
      else some (received_nothing p (if phy.interrupted p.world then fatal_error else success))

  unfoldable pub t1_read : T1State → D → Option (Received D)
  t1_read s d =
      let hdr_len = u8 (header_len s false + 1) in
      let blank = replicate (length s.data_rx) 0 in
      if leb hdr_len (length s.data_rx)
      then finish_read s (poll s hdr_len (s.max_read_retry_cnt - 1) 0 d blank)
      else none
