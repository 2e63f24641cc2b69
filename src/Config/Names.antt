-- ===== src/Config/Names.antt =====
-- Characters and strings of the configuration files (nfc/THN31/halimpl/utils/TmsConfig.cc):
-- isPrintable, isDigit and getDigitValue, and the comparisons of std::string with a C string, by
-- the bytes from the first on. A character is its byte.
use android_vendor_tms.Prelude.{
  ℕ, ◌+◌, ◌-◌, Bool, true, false, ◌&&◌, ◌||◌, List, [], ◌∷◌, ◌==◌, ltb, leb, if◌then◌else◌,
}
use android_vendor_tms.Download.Hex.{starts_with}

abbrev pub between : ℕ → ℕ → ℕ → Bool
between low c high = leb low c && leb c high

unfoldable pub is_printable : ℕ → Bool
is_printable c =
    between b'A' c b'Z'
    || between b'a' c b'z'
    || between b'0' c b'9'
    || c == b'/'
    || c == b'_'
    || c == b'-'
    || c == b'.'

unfoldable pub is_digit : ℕ → ℕ → Bool
is_digit c base =
    if between b'0' c b'9' then true else base == 16 && (between b'A' c b'F' || between b'a' c b'f')

unfoldable pub get_digit_value : ℕ → ℕ → ℕ
get_digit_value c base =
    if between b'0' c b'9'
    then c - b'0'
    else if base == 16
    then (if between b'A' c b'F'
        then c - b'A' + 10
        else if between b'a' c b'f'
        then c - b'a' + 10
        else 0)
    else 0

-- `operator<` of std::string; `operator==` is same_text.
unfoldable pub str_lt : List ℕ → List ℕ → Bool
str_lt [] [] = false
str_lt [] (y ∷ ys) = true
str_lt (x ∷ xs) [] = false
str_lt (x ∷ xs) (y ∷ ys) =
    let rest = str_lt xs ys in if ltb x y then true else if x == y then rest else false

-- `find(part) != npos` of std::string.
unfoldable pub contains : List ℕ → List ℕ → Bool
unfolding starts_with
contains part [] = starts_with part []
contains part (y ∷ str) =
    let rest = contains part str in if starts_with part (y ∷ str) then true else rest
