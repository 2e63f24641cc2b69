-- ===== src/Ese/Epilogue.antt =====
-- The epilogue field of a T=1 block (7816-3-T1/7816/T1.c): t1CalculateLRC, t1CalculateCRC,
-- t1SetEpilogue and t1ChkEpilogue. The library is built with LRC_CRC_0, so the offset that the
-- callers pass is used as it is.
pub mod Laws
use android_vendor_tms.Prelude.{
  ℕ, zero, suc, ◌+◌, ◌-◌, ◌*◌, ◌/◌, ◌%◌, bit_xor, Bool, true, false, ◌||◌, List, [], ◌∷◌, ◌==◌,
  if◌then◌else◌, take, drop, set, word, u8, u16,
}
use android_vendor_tms.Ese.Types.{
  EseStatus, success, parity_error, T1State, is_cip_req, is_cip_rsp, byte_at,
}

-- The bytes that a loop `for (i = offset; i < len; i++)` over `buf[i]` reads.
abbrev pub slice : List ℕ → ℕ → ℕ → List ℕ
slice buf offset len = take (len - offset) (drop offset buf)

lrc_loop : ℕ → List ℕ → ℕ
lrc_loop lrc [] = lrc
lrc_loop lrc (b ∷ bs) = lrc_loop (bit_xor lrc b) bs

unfoldable pub calculate_lrc : List ℕ → ℕ → ℕ → ℕ
unfolding lrc_loop
calculate_lrc buf offset len = lrc_loop 0 (slice buf offset len)

abbrev crc_preset : ℕ
crc_preset = 0xFFFF

abbrev crc_polynomial : ℕ
crc_polynomial = 0x8408

-- The inner loop, `k` rounds of it.
crc_bits : ℕ → ℕ → ℕ
crc_bits zero crc = crc
crc_bits (suc k) crc =
    crc_bits k (if crc % 2 == 1 then bit_xor (crc / 2) crc_polynomial else crc / 2)

crc_loop : ℕ → List ℕ → ℕ
crc_loop crc [] = crc
crc_loop crc (b ∷ bs) = crc_loop (crc_bits 8 (bit_xor crc b)) bs

-- `(uint16_t)(~crc)` is the complement to 0xFFFF.
unfoldable pub calculate_crc : List ℕ → ℕ → ℕ → ℕ
unfolding crc_loop crc_bits
calculate_crc buf offset len = 0xFFFF - u16 (crc_loop crc_preset (slice buf offset len))

-- Whether the block carries an LRC: the test that both functions make.
unfoldable pub uses_lrc : T1State → Bool
uses_lrc s = s.atr.checksum == 0 || (is_cip_req s.tx_sub_sframe || is_cip_rsp s.tx_sub_sframe)

unfoldable pub set_epilogue : T1State → List ℕ → ℕ → ℕ → List ℕ
set_epilogue s buf offset len =
    if uses_lrc s
    then set buf (len - 1) (calculate_lrc buf offset (len - 1))
    else let crc = calculate_crc buf offset (len - 2) in
      set (set buf (len - 2) (u8 (crc / 256))) (len - 1) (u8 crc)

unfoldable pub chk_epilogue : T1State → List ℕ → ℕ → ℕ → EseStatus
chk_epilogue s buf offset len =
    if uses_lrc s
    then if calculate_lrc buf offset (len - 1) == byte_at buf (len - 1)
      then success
      else parity_error
    else if calculate_crc buf offset (len - 2)
        == word (byte_at buf (len - 2)) (byte_at buf (len - 1))
    then success
    else parity_error
