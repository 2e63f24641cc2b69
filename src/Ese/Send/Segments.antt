-- ===== src/Ese/Send/Segments.antt =====
-- Chaining: the segments of a command, sent one after each acknowledgement, are the command.
use android_vendor_tms.Prelude.{
  ℕ, zero, suc, ◌+◌, ◌*◌, ◌≤◌, ◌<◌, Bool, true, none, some, List, [], ◌∷◌, ◌≡◌, if◌then◌else◌,
  length,
}
use android_vendor_tms.Ese.Types.{EseStatus, success, T1State, i_blk, iframe}
use android_vendor_tms.Ese.Recovery.{flip}
use android_vendor_tms.Ese.Decode.{decode_frame}
use android_vendor_tms.Ese.Phy.{Phy}
use android_vendor_tms.Ese.Send.Block.{most, inf}
use android_vendor_tms.Ese.Send.{chains, send_new_part}

-- A block of the card that acknowledges the block sent last, by asking for the next one.
abbrev rack_block : ℕ → List ℕ
rack_block seq = 0xA5 ∷ (0x80 + seq * 16) ∷ 0 ∷ 0 ∷ []

abbrev acked : T1State → T1State
acked s = (decode_frame true s (rack_block (flip s.seq_num_device)) 4).0

-- A command under way: the part of it below the offset has been sent. The IFS fits the LEN field, and
-- with one of two bytes the 16 bits of the length of a frame.
pub record IsSending (cmd : List ℕ) (s : T1State) : Type 0 where
  pub command : s.data_tx ≡ some cmd
  pub size : s.tx_len ≡ length cmd
  pub fits : length cmd < 65536
  pub within : s.tx_data_offset ≤ length cmd
  pub room : 0 < s.max_ifsc
  pub device_bit : s.seq_num_device < 2
  pub is_iframe : s.tx_frame_type ≡ iframe
  pub frame_room : s.max_ifsc < most s.is_t1_ext_hdr_len

-- What the acknowledgement of a chained block changes.
abbrev Continues : List ℕ → T1State → ℕ → T1State → Type 0
Continues cmd s n t =
    IsSending cmd t
    × (t.tx_data_offset ≡ s.tx_data_offset)
    × (t.seq_num_device ≡ n)
    × (t.max_ifsc ≡ s.max_ifsc)
    × (t.is_t1_ext_hdr_len ≡ s.is_t1_ext_hdr_len)
    × (t.next_t1_state ≡ i_blk)
    × (t.data_tx_part ≡ none)

-- No segment is longer than the card allows.
abbrev pub AllWithin : ℕ → List (List ℕ) → Type 0
AllWithin n [] = Unit
AllWithin n (seg ∷ segs) = (length seg ≤ n) × AllWithin n segs

-- What the card reads in the blocks that the driver was given.
abbrev pub infs : Bool → List (List ℕ) → List (List ℕ)
infs ext [] = []
infs ext (block ∷ blocks) = inf ext block ∷ infs ext blocks

module _ {D : Type 0} (phy : Phy D) where
  -- The parts of a command to a card that acknowledges every chained block: at most `k` of them.
  unfoldable pub chained_send : ℕ → D → T1State → D × T1State × EseStatus
  chained_send zero d s = (d, s, success)
  chained_send (suc k) d s =
      let (d', t, st) = send_new_part phy d s in
      let rest = chained_send k d' (acked t) in if chains s then rest else (d', t, st)

module _ {D : Type 0} (phy : Phy D) (heap : (d : D) → (phy.alloc d).1 ≡ true) where
  -- The state after a new part was handed to the driver.
  abbrev after_part : D → T1State → T1State
  after_part d s = (send_new_part phy d s).1
