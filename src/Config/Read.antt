-- ===== src/Config/Read.antt =====
-- The reader of configuration files (nfc/THN31/halimpl/utils/TmsConfig.cc): readConfigFile,
-- CNfcConfig::readConfig, readOptionalConfig's and getInstance's search for the files, and
-- getInstance. The flag IS_STRING_VALUE of `state`, which every assignment of a state clears, is a
-- field of its own. An unsigned long has 64 bits; a shift by 64 bits or more is a fault. The int
-- `i`, which counts the digits of a number, does not overflow below 2^31 digits and is a number.
pub mod Print
pub mod Invariant
pub mod Steps
pub mod Values
pub mod RoundTrip
use android_vendor_tms.Prelude.{
  ℕ, zero, suc, ◌+◌, ◌*◌, ◌/◌, ◌%◌, ◌^◌, Bool, true, false, not, ◌&&◌, ◌||◌, Option, none, some,
  List, [], ◌∷◌, ◌++◌, ◌==◌, ltb, if◌then◌else◌, length, u8,
}
use android_vendor_tms.Prelude.Outcome.{Outcome, returned, fault, ◌>>=◌}
use android_vendor_tms.Download.Script.{c_str}
use android_vendor_tms.Config.Names.{is_printable, is_digit, get_digit_value}
use android_vendor_tms.Config.Store.{
  CNfcParam, str_param, num_param, CNfcConfig, add, clean, move_from_list, move_to_list,
}

-- The states, in the order of their numbers from BEGIN_LINE on.
pub data ReadState : Type 0 where
  begin_line in_token in_str_value in_num_value begin_hex begin_quote end_line : ReadState

-- The variables of readConfig: `num_value` is unsigned, and `m_list` is the list of the settings.
pub record Reader : Type 0 where
  pub state : ReadState
  pub is_string_value : Bool
  pub token : List ℕ
  pub str_value : List ℕ
  pub num_value : ℕ
  pub i : ℕ
  pub base : ℕ
  pub bflag : ℕ
  pub m_list : List CNfcParam

abbrev pub ulong : ℕ → ℕ
ulong n = n % 18446744073709551616

-- `state = s`
abbrev pub go : ReadState → Reader → Reader
go s r = record r { state = s; is_string_value = false }

unfoldable pub step_begin_line : Reader → ℕ → Reader
unfolding is_printable
step_begin_line r c =
    if c == b'#'
    then go end_line r
    else if is_printable c
    then (let s : Reader = record r {
      state = in_token;
      is_string_value = false;
      i = 0;
      token = c ∷ [];
      str_value = [];
    } in
        s)
    else r

unfoldable pub step_token : Reader → ℕ → Reader
unfolding is_printable
step_token r c =
    let named : Reader = record (go begin_quote r) { token = r.token ++ 0 ∷ [] } in
    let longer : Reader = record r { token = r.token ++ c ∷ [] } in
    if c == b'=' then named else if is_printable c then longer else go end_line r

unfoldable pub step_begin_quote : Reader → ℕ → Reader
unfolding is_digit get_digit_value
step_begin_quote r c =
    let quoted : Reader = record (go in_str_value r) { base = 0 } in
    let decimal : Reader = record (go in_num_value r) {
      base = 10;
      num_value = get_digit_value c 10;
      i = 0;
    } in
    let braces : Reader = record r {
      state = in_num_value;
      is_string_value = true;
      bflag = 1;
      base = 16;
      i = 0;
    } in
    if c == b'"'
    then quoted
    else if c == b'0'
    then go begin_hex r
    else if is_digit c 10
    then decimal
    else if c == b'{'
    then braces
    else go end_line r

-- The bytes of the digits before a separator: `numValue` itself is shifted for every byte.
unfoldable pub push_shifted : ℕ → ℕ → List ℕ → Outcome (List ℕ)
push_shifted zero v str = returned str
push_shifted (suc n) v str =
    let w = v / 2 ^ (n * 8) in
    let rest = push_shifted n w (str ++ u8 w ∷ []) in if ltb n 8 then rest else fault

-- The bytes of the last digits.
unfoldable pub push_bytes : ℕ → ℕ → List ℕ → Outcome (List ℕ)
push_bytes zero v str = returned str
push_bytes (suc n) v str =
    let rest = push_bytes n v (str ++ u8 (v / 2 ^ (n * 8)) ∷ []) in if ltb n 8 then rest else fault

abbrev pub is_separator : ℕ → Bool
is_separator c = c == b',' || c == b':' || c == b'-' || c == b' ' || c == b'}'

abbrev pub is_blank : ℕ → Bool
is_blank c = c == b' ' || c == b'\r' || c == b'\n' || c == b'\t'

abbrev pub is_line_end : ℕ → Bool
is_line_end c = c == b'\n' || c == b'\r'

unfoldable pub separator : Reader → ℕ → Outcome Reader
unfolding push_shifted
separator r c =
    let flag = if c == b'}' then 0 else r.bflag in
    let next : List ℕ → Reader = λ str. record r {
      bflag = flag;
      str_value = str;
      is_string_value = true;
      num_value = 0;
      i = 0;
    } in
    let pushed : Outcome Reader =
      push_shifted ((r.i + 1) / 2) r.num_value r.str_value >>= λ str. returned (next str) in
    if ltb 0 r.i then pushed else returned (next r.str_value)

-- The setting that is read: a string where one was, and a number else.
unfoldable pub setting : Reader → CNfcParam
unfolding c_str
setting r =
    let name = c_str r.token in
    if ltb 0 (length r.str_value) then str_param name r.str_value else num_param name r.num_value

-- The value ends: outside of braces the state is assigned first, which clears the flag that the
-- bytes of the last digits depend on.
abbrev pub after_value : Reader → ℕ → Reader
after_value r c =
    if r.bflag == 0 then (if is_line_end c then go begin_line r else go end_line r) else r

unfoldable pub end_value : List ℕ → Reader → ℕ → Outcome Reader
unfolding push_bytes setting add
end_value file r c =
    let s = after_value r c in
    let bytes : Outcome (List ℕ) =
      if s.is_string_value && s.base == 16 && ltb 0 s.i
      then push_bytes ((s.i + 1) / 2) s.num_value s.str_value
      else returned s.str_value in
    let done : List ℕ → List CNfcParam → Reader =
      λ str params. record s { str_value = []; num_value = 0; m_list = params } in
    let with_str : List ℕ → Reader = λ str. record s { str_value = str } in
    bytes >>= λ str.
    (add file (setting (with_str str)) s.m_list >>= λ params. returned (done str params))

unfoldable pub step_num_value : List ℕ → Reader → ℕ → Outcome Reader
unfolding is_digit get_digit_value separator end_value
step_num_value file r c =
    let digit : Reader = record r {
      num_value = ulong (ulong (r.num_value * r.base) + get_digit_value c r.base);
      i = r.i + 1;
    } in
    if is_digit c r.base
    then returned digit
    else if r.bflag == 1 && is_blank c
    then returned r
    else if r.base == 16 && is_separator c
    then separator r c
    else end_value file r c

unfoldable pub step_begin_hex : List ℕ → Reader → ℕ → Outcome Reader
unfolding is_digit get_digit_value step_num_value
step_begin_hex file r c =
    let hex : Reader = record (go in_num_value r) { base = 16; num_value = 0; i = 0 } in
    let decimal : Reader = record (go in_num_value r) {
      base = 10;
      num_value = get_digit_value c 10;
    } in
    let value = step_num_value file r c in
    if c == b'x' || c == b'X'
    then returned hex
    else if is_digit c 10
    then returned decimal
    else if not (is_line_end c)
    then returned (go end_line r)
    else value

unfoldable pub step_str_value : List ℕ → Reader → ℕ → Outcome Reader
unfolding is_printable c_str add
step_str_value file r c =
    let str = r.str_value ++ 0 ∷ [] in
    let ended : List CNfcParam → Reader =
      λ params. record (go end_line r) { str_value = str; m_list = params } in
    let added : Outcome Reader =
      add file (str_param (c_str r.token) str) r.m_list >>= λ params. returned (ended params) in
    let longer : Reader = record r { str_value = r.str_value ++ c ∷ [] } in
    if c == b'"' then added else if is_printable c then returned longer else returned r

unfoldable pub step_end_line : Reader → ℕ → Reader
step_end_line r c = if is_line_end c then go begin_line r else r

-- One round of the loop: the `switch` on the state.
unfoldable pub step_in : ReadState → List ℕ → Reader → ℕ → Outcome Reader
unfolding step_begin_line step_token step_begin_quote step_begin_hex step_num_value step_str_value
    step_end_line
step_in begin_line file r c = returned (step_begin_line r c)
step_in in_token file r c = returned (step_token r c)
step_in begin_quote file r c = returned (step_begin_quote r c)
step_in begin_hex file r c = step_begin_hex file r c
step_in in_num_value file r c = step_num_value file r c
step_in in_str_value file r c = step_str_value file r c
step_in end_line file r c = returned (step_end_line r c)

unfoldable pub step : List ℕ → Reader → ℕ → Outcome Reader
unfolding step_in
step file r c = step_in r.state file r c

unfoldable pub steps : List ℕ → List ℕ → Reader → Outcome Reader
unfolding step
steps file [] r = returned r
steps file (c ∷ text) r = step file r c >>= λ s. steps file text s
