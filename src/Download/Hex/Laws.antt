-- ===== src/Download/Hex/Laws.antt =====
-- Hexadecimal text is read back, and the bytes of a version make its number.
use native.Mathlib.Nat.{pow-suc, one-le-pow}
use android_vendor_tms.Prelude.{
  ℕ, suc, ◌+◌, ◌-◌, ◌*◌, ◌/◌, ◌%◌, ◌^◌, ◌<◌, some, List, [], ◌∷◌, ◌++◌, ◌≡◌, refl, ap, ◌∙◌, ltb,
  if◌then◌else◌, length, u8, arith,
}
use android_vendor_tms.Prelude.Bits.Or.{bit_or-add_bytes}
use android_vendor_tms.Download.Hex.{hex_digit, cstr2hex, join_bytes}

abbrev pub AllBytes : List ℕ → Type 0
AllBytes [] = Unit
AllBytes (b ∷ bytes) = (b < 256) × AllBytes bytes

unfoldable pub hex_char : ℕ → ℕ
hex_char d = if ltb d 10 then b'0' + d else b'A' + (d - 10)

-- A text of two upper-case digits for each byte.
unfoldable pub print_hex : List ℕ → List ℕ
unfolding hex_char
print_hex [] = []
print_hex (b ∷ bytes) = hex_char (b / 16) ∷ hex_char (b % 16) ∷ print_hex bytes

hex_digit-hex_char : (d : ℕ) → d < 16 → hex_digit (hex_char d) ≡ some d
unfolding hex_digit hex_char
hex_digit-hex_char d h = ground arith

-- What `print_hex` writes for a list of bytes is read back by Cstr2hex, also where one more byte
-- of any value, such as '\r', follows.
pub cstr2hex-print_hex :
    (bytes : List ℕ) (c : ℕ)
    → AllBytes bytes
    → (cstr2hex (print_hex bytes) ≡ some bytes)
      × (cstr2hex (print_hex bytes ++ c ∷ []) ≡ some bytes)
unfolding cstr2hex print_hex
cstr2hex-print_hex [] c v = (refl, refl)
cstr2hex-print_hex (b ∷ bytes) c (h, v) =
    let (e, f) = cstr2hex-print_hex bytes c v in
    let byte : u8 (u8 (b / 16 * 16) + b % 16) ≡ b = omega arith in
    let high = hex_digit-hex_char (b / 16) (omega arith) in
    let low = hex_digit-hex_char (b % 16) (omega arith) in
    (rw (high, low, e, byte), rw (high, low, f, byte))

hex_digit-lt : (c d : ℕ) → hex_digit c ≡ some d → d < 16
unfolding hex_digit
hex_digit-lt c d e = ground arith

-- The number whose digits to the base 256 are the bytes, after the digits of `k`.
unfoldable pub value_from : ℕ → List ℕ → ℕ
value_from k [] = k
value_from k (b ∷ bytes) = value_from (k * 256 + b) bytes

digit-lt : (b p : ℕ) → 0 < p → b < 256 → b * p < p * 256
digit-lt b p h k = grind arith

shifted : (k b p : ℕ) → k * (p * 256) + b * p ≡ (k * 256 + b) * p
shifted k b p = grind arith

join_bytes-from :
    (k : ℕ) (bytes : List ℕ)
    → AllBytes bytes
    → join_bytes (k * 256 ^ length bytes) bytes ≡ value_from k bytes
unfolding join_bytes value_from
join_bytes-from k [] v = omega arith
join_bytes-from k (b ∷ bytes) (h, v) =
    let p = 256 ^ length bytes in
    let low : b * p < 256 ^ suc (length bytes) =
      rw (pow-suc 256 (length bytes))
        (digit-lt b p (omega (arith, one-le-pow (length bytes) 256 (omega arith))) h) in
    let sum : k * 256 ^ suc (length bytes) + b * p ≡ (k * 256 + b) * p =
      rw (pow-suc 256 (length bytes)) (shifted k b p) in
    ap (λ (ver : ℕ). join_bytes ver bytes)
      (bit_or-add_bytes (suc (length bytes)) k (b * p) low ∙ sum)
    ∙ join_bytes-from (k * 256 + b) bytes v

-- The loop of ParseVersion, which joins shifted bytes by inclusive or, computes the number whose
-- digits to the base 256 the bytes are, the first one highest.
pub join_bytes-value : (bytes : List ℕ) → AllBytes bytes → join_bytes 0 bytes ≡ value_from 0 bytes
join_bytes-value bytes v =
    ap (λ (ver : ℕ). join_bytes ver bytes) (omega arith) ∙ join_bytes-from 0 bytes v
