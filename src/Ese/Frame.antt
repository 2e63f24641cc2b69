-- ===== src/Ese/Frame.antt =====
-- The prologue of a T=1 block and the ATR (7816-3-T1/7816/T1.c): getHeaderLen, setInfoLen,
-- getInfoLen, decodeATR, ResetATR.
pub mod Laws
use android_vendor_tms.Prelude.{
  ℕ, ◌+◌, ◌*◌, ◌/◌, ◌%◌, Bool, true, false, not, ◌&&◌, ◌||◌, List, [], ◌∷◌, ◌==◌, ltb,
  if◌then◌else◌, take, drop, set, word, u8, u16, bit,
}
use android_vendor_tms.Ese.Types.{
  EseStatus, success, invalid_t1_len, AtrInfo, T1State, is_sframe, is_cip_req, byte_at,
}

-- Whether the frame to send is S(CIP request), whose LEN has one byte and which carries an LRC.
unfoldable pub sends_cip : T1State → Bool
sends_cip s = is_sframe s.tx_frame_type && is_cip_req s.tx_sub_sframe

-- The local isT1ExtHdrLen of the three functions below.
unfoldable pub ext_hdr : T1State → Bool
ext_hdr s = if sends_cip s then false else s.is_t1_ext_hdr_len

unfoldable pub header_len : T1State → Bool → ℕ
header_len s contains_epilogue =
    let checksum = if sends_cip s then 0 else s.atr.checksum in
    (if ext_hdr s then 4 else 3)
    + (if contains_epilogue then (if checksum == 0 then 1 else 2) else 0)

-- The offset of the last LEN byte, which setInfoLen returns.
unfoldable pub len_offset : T1State → ℕ
len_offset s = if ext_hdr s then 3 else 2

unfoldable pub set_info_len : T1State → List ℕ → ℕ → List ℕ
set_info_len s buf info_len =
    if ext_hdr s
    then set (set buf 2 (u8 (info_len / 256))) 3 (u8 info_len)
    else set buf 2 (u8 info_len)

unfoldable pub get_info_len : T1State → List ℕ → ℕ → ℕ
get_info_len s buf data_len =
    if (s.is_t1_ext_hdr_len && ltb data_len 5) || ltb data_len 4
    then 0
    else if ext_hdr s
    then word (byte_at buf 2) (byte_at buf 3)
    else byte_at buf 2

-- gAtr as it is initialised, and as ResetATR sets it.
unfoldable pub default_atr : AtrInfo
default_atr = record {
  len = 0x13;
  vendor_id = 0 ∷ 0 ∷ 0 ∷ 0 ∷ 0 ∷ [];
  dll_ic = 0x01;
  bgt = 0x00 ∷ 0x01 ∷ [];
  bwt = 0x03 ∷ 0xE8 ∷ [];
  max_freq = 0x4E ∷ 0x20 ∷ [];
  checksum = 0x00;
  default_ifsc = 0xFE;
  num_channels = 0x01;
  max_ifsc = 0x00 ∷ 0xFF ∷ [];
  capbilities = 0x00 ∷ 0x14 ∷ [];
}

-- sizeof(AtrInfo): every member is made of bytes, so there is no padding.
abbrev pub sizeof_atr : ℕ
sizeof_atr = 20

-- The copy of 20 bytes over gAtr.
unfoldable pub atr_of_bytes : List ℕ → AtrInfo
atr_of_bytes bs = record {
  len = byte_at bs 0;
  vendor_id = take 5 (drop 1 bs);
  dll_ic = byte_at bs 6;
  bgt = take 2 (drop 7 bs);
  bwt = take 2 (drop 9 bs);
  max_freq = take 2 (drop 11 bs);
  checksum = byte_at bs 13;
  default_ifsc = byte_at bs 14;
  num_channels = byte_at bs 15;
  max_ifsc = take 2 (drop 16 bs);
  capbilities = take 2 (drop 18 bs);
}

-- The last part of decodeATR: the parameters that follow from the ATR.
unfoldable pub apply_atr : AtrInfo → T1State → T1State
apply_atr atr s = record s {
  atr = atr;
  ctx = record s.ctx {
    max_ifsc = word (byte_at atr.max_ifsc 0) (byte_at atr.max_ifsc 1);
    is_t1_ext_hdr_len = bit (byte_at atr.capbilities 1) 3 == 1;
  };
}

unfoldable pub decode_atr : T1State → List ℕ → ℕ → Bool → T1State × EseStatus
decode_atr s buf data_len is_cip =
    let start : ℕ = if not is_cip && s.is_t1_ext_hdr_len then 3 else 2 in
    if get_info_len s buf data_len + 1 == sizeof_atr
    then (apply_atr (atr_of_bytes (take sizeof_atr (drop start buf))) s, success)
    else if byte_at buf 2 == 0
    then (apply_atr default_atr s, success)
    else (s, invalid_t1_len)
