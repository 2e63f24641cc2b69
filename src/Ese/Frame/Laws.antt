-- ===== src/Ese/Frame/Laws.antt =====
-- The LEN field is read back as it was written.
use android_vendor_tms.Prelude.{
  ℕ, ◌/◌, ◌≤◌, ◌<◌, List, ◌≡◌, inl, inr, Bool-cases, if◌then◌else◌, length, set, length-set,
  get_or-set_self, get_or-set_ne, u8, arith,
}
use android_vendor_tms.Ese.Types.{T1State}
use android_vendor_tms.Ese.Frame.{ext_hdr, set_info_len, get_info_len}

-- The lengths that fit the LEN field.
abbrev pub LenFits : T1State → ℕ → Type 0
LenFits s n = n < (if ext_hdr s then 65536 else 256)

-- In a block of at least 5 bytes, a length that fits the LEN field in use, of one byte or of two,
-- is read back from the block in which it was set, whatever the block's size is taken to be above
-- 4 bytes.
pub get_info_len-set_info_len :
    (s : T1State) (buf : List ℕ) (n data_len : ℕ)
    → 5 ≤ length buf
    → 5 ≤ data_len
    → LenFits s n
    → get_info_len s (set_info_len s buf n) data_len ≡ n
unfolding get_info_len set_info_len
get_info_len-set_info_len s buf n data_len h k f = elim (Bool-cases (ext_hdr s)) [
  | inl e ↦ ground (
    arith,
    e,
    get_or-set_ne (set buf 2 (u8 (n / 256))) 3 2 (u8 n) 0,
    get_or-set_self buf 2 (u8 (n / 256)) 0,
    get_or-set_self (set buf 2 (u8 (n / 256))) 3 (u8 n) 0,
    length-set buf 2 (u8 (n / 256)),
  )
  | inr e ↦ ground (arith, e, get_or-set_self buf 2 (u8 n) 0)
]
