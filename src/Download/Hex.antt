-- ===== src/Download/Hex.antt =====
-- Hexadecimal text and version numbers (tms-cos-dl-common/tmsDlCommonUtils.cpp): Cstr2hex, Str2hex
-- and ParseVersion. A text is the list of its bytes.
pub mod Laws
use android_vendor_tms.Prelude.{
  ℕ, zero, suc, ◌+◌, ◌-◌, ◌*◌, ◌/◌, ◌^◌, bit_or, Bool, true, false, ◌&&◌, Option, none, some, List,
  [], ◌∷◌, ◌==◌, ltb, leb, if◌then◌else◌, length, take, drop, get_or, u8,
}
use android_vendor_tms.Prelude.Outcome.{Outcome, returned, fault, unfinished}

-- A digit is a byte, `none` where the byte is no hexadecimal digit.
unfoldable pub hex_digit : ℕ → Option ℕ
hex_digit c =
    if leb b'0' c && leb c b'9'
    then some (c - b'0')
    else if leb b'A' c && leb c b'F'
    then some (c - (b'A' - 10))
    else if leb b'a' c && leb c b'f'
    then some (c - (b'a' - 10))
    else none

abbrev pub hex_pair : Option ℕ → Option ℕ → Option (List ℕ) → Option (List ℕ)
hex_pair (some a) (some b) (some bs) = some (u8 (u8 (a * 16) + b) ∷ bs)
hex_pair _ _ _ = none

-- The bytes that Cstr2hex writes, `none` where it returns false. A last byte without a partner is
-- left out, since '\r' may follow.
unfoldable pub cstr2hex : List ℕ → Option (List ℕ)
cstr2hex [] = some []
cstr2hex (_ ∷ []) = some []
cstr2hex (a ∷ b ∷ str) = hex_pair (hex_digit a) (hex_digit b) (cstr2hex str)

-- A version number, INVALID_COS_VER, or a shift by 64 bits or more, which is undefined.
pub data Version : Type 0 where
  version : ℕ → Version
  invalid_cos_ver : Version
  undefined : Version

-- Whether a text begins with another.
unfoldable pub starts_with : List ℕ → List ℕ → Bool
starts_with [] str = true
starts_with (c ∷ cs) [] = false
starts_with (c ∷ cs) (d ∷ str) = c == d && starts_with cs str

-- What follows the first place where the text occurs: string::find and substr. The length given to
-- substr is never less than what is left.
unfoldable pub after_first : List ℕ → List ℕ → Option (List ℕ)
after_first key [] = if starts_with key [] then some [] else none
after_first key (c ∷ str) =
    let rest = after_first key str in
    if starts_with key (c ∷ str) then some (drop (length key) (c ∷ str)) else rest

-- The loop over the bytes, the first one shifted most.
unfoldable pub join_bytes : ℕ → List ℕ → ℕ
join_bytes ver [] = ver
join_bytes ver (a ∷ bytes) = join_bytes (bit_or ver (a * 256 ^ length bytes)) bytes

abbrev pub version_of : Option (List ℕ) → Version
version_of none = invalid_cos_ver
version_of (some bytes) = if ltb 8 (length bytes) then undefined else version (join_bytes 0 bytes)

abbrev pub parse_digits : Option (List ℕ) → Version
parse_digits none = invalid_cos_ver
parse_digits (some str) = version_of (cstr2hex str)

abbrev pub or_else : Option (List ℕ) → Option (List ℕ) → Option (List ℕ)
or_else none y = y
or_else (some x) y = some x

unfoldable pub parse_version : List ℕ → Version
unfolding cstr2hex after_first join_bytes
parse_version [] = invalid_cos_ver
parse_version (c ∷ str) =
    parse_digits (
      or_else (after_first (b'V' ∷ b'E' ∷ b'R' ∷ []) (c ∷ str)) (after_first (b'V' ∷ []) (c ∷ str)))
