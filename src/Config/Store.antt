-- ===== src/Config/Store.antt =====
-- The settings of the NFC HAL (nfc/THN31/halimpl/utils/TmsConfig.cc): CNfcParam, merge, and the
-- operations of CNfcConfig on its list and its vector, with the functions that give a client the
-- value of a setting. A buffer of the client is a list of bytes; a write that does not fit it is a
-- fault.
pub mod Place
pub mod Values
pub mod Order
pub mod Lookup
use android_vendor_tms.Prelude.{
  ℕ, zero, suc, ◌+◌, ◌*◌, ◌-◌, ◌%◌, Bool, true, false, not, ◌&&◌, ◌||◌, Option, none, some, List,
  [], ◌∷◌, ◌++◌, ◌==◌, ltb, leb, if◌then◌else◌, length, drop, replicate, write_at, u8, u16,
}
use android_vendor_tms.Prelude.Outcome.{Outcome, returned, fault, ◌>>=◌}
use android_vendor_tms.Download.Hex.{starts_with}
use android_vendor_tms.Download.Script.{codes, same_text}
use android_vendor_tms.Config.Names.{between, str_lt, contains}
use android_vendor_tms.Config.Registers.{merge_entries}

pub record CNfcParam : Type 0 where
  pub name : List ℕ
  pub str_value : List ℕ
  pub num_value : ℕ

-- `CNfcParam(pName, value)` for a string and for a number.
abbrev pub str_param : List ℕ → List ℕ → CNfcParam
str_param name value = record { name = name; str_value = value; num_value = 0 }

abbrev pub num_param : List ℕ → ℕ → CNfcParam
num_param name value = record { name = name; str_value = []; num_value = value }

-- The regular expression `\d+` on the whole of a string.
abbrev pub all_decimal : List ℕ → Bool
all_decimal [] = true
all_decimal (c ∷ str) = between b'0' c b'9' && all_decimal str

-- The keys whose values are merged: the regular expression is TMS_RF_CONF_BLK_\d+.
unfoldable pub is_merged : List ℕ → Bool
unfolding same_text starts_with
is_merged key =
    let number = drop 16 key in
    same_text key (codes "TMS_CORE_CONF")
    || same_text key (codes "TMS_CORE_CONF_EXTN")
    || (starts_with (codes "TMS_RF_CONF_BLK_") key
        && not (length number == 0)
        && all_decimal number)

unfoldable pub merge : CNfcParam → CNfcParam → Outcome CNfcParam
unfolding is_merged merge_entries
merge existing new =
    let merged : List ℕ → CNfcParam =
      λ bytes. if length bytes == 0 then new else str_param existing.name bytes in
    let tried : Outcome CNfcParam =
      merge_entries existing.str_value new.str_value >>= λ bytes. returned (merged bytes) in
    if is_merged existing.name then tried else returned new

unfoldable pub is_allowed : List ℕ → Bool
unfolding contains
is_allowed token =
    contains (codes "P2P_LISTEN_TECH_MASK") token
    || contains (codes "HOST_LISTEN_TECH_MASK") token
    || contains (codes "UICC_LISTEN_TECH_MASK") token
    || contains (codes "POLLING_TECH_MASK") token
    || contains (codes "TMS_RF_CONF_BLK") token

-- The loop of add over the list.
unfoldable pub insert : CNfcParam → List CNfcParam → Outcome (List CNfcParam)
unfolding str_lt same_text merge
insert p [] = returned (p ∷ [])
insert p (q ∷ params) =
    let later : Outcome (List CNfcParam) = insert p params >>= λ rest. returned (q ∷ rest) in
    let here : Outcome (List CNfcParam) = merge q p >>= λ m. returned (m ∷ params) in
    if str_lt q.name p.name
    then later
    else if same_text q.name p.name
    then here
    else returned (p ∷ q ∷ params)

-- `current_file` is the member mCurrentFile.
unfoldable pub add : List ℕ → CNfcParam → List CNfcParam → Outcome (List CNfcParam)
unfolding contains is_allowed insert
add current_file p params =
    let inserted = insert p params in
    if length params == 0
    then returned (p ∷ [])
    else if contains (codes "tmsTransit") current_file && not (is_allowed p.name)
    then returned params
    else inserted

-- The search stops at the first name that is not less.
unfoldable pub find : List CNfcParam → List ℕ → Option CNfcParam
unfolding str_lt same_text
find [] name = none
find (q ∷ params) name =
    let later = find params name in
    if str_lt q.name name then later else if same_text q.name name then some q else none

-- The vector of the settings and the list that they are read into, and the checksums of the three
-- files.
pub record CNfcConfig : Type 0 where
  pub params : List CNfcParam
  pub m_list : List CNfcParam
  pub valid_file : Bool
  pub config_crc : ℕ
  pub config_rf_crc : ℕ
  pub config_tr_crc : ℕ
  pub current_file : List ℕ

unfoldable pub clean : CNfcConfig → CNfcConfig
clean c = record c { params = [] }

-- What is in the vector already stays before what comes from the list.
unfoldable pub move_from_list : CNfcConfig → CNfcConfig
move_from_list c = record c { params = c.params ++ c.m_list; m_list = [] }

unfoldable pub move_to_list : CNfcConfig → CNfcConfig
move_to_list c = record c { params = []; m_list = c.params }

-- memset of the buffer and memcpy of the value; the length of the value is not compared with that
-- of the buffer.
abbrev pub copied : List ℕ → List ℕ → Outcome (List ℕ)
copied value buffer =
    if leb (length value) (length buffer)
    then returned (write_at (replicate (length buffer) 0) 0 value)
    else fault

-- The getValue of strings: what is in the buffer after it, and nothing where there is no string.
abbrev pub str_value_of : Option CNfcParam → List ℕ → Outcome (Option (List ℕ))
str_value_of none buffer = returned none
str_value_of (some p) buffer =
    let found : Outcome (Option (List ℕ)) = copied p.str_value buffer >>= λ b. returned (some b) in
    if length p.str_value == 0 then returned none else found

unfoldable pub get_str_value : CNfcConfig → List ℕ → List ℕ → Outcome (Option (List ℕ))
unfolding find
get_str_value c name buffer = str_value_of (find c.params name) buffer

-- What `readlen` is set to: a length, or -1.
pub data ReadLen : Type 0 where
  read_bytes : ℕ → ReadLen
  too_short : ReadLen

-- The getValue of strings with the length that was read.
abbrev pub bytes_value_of : Option CNfcParam → List ℕ → Outcome (Option (ReadLen × List ℕ))
bytes_value_of none buffer = returned none
bytes_value_of (some p) buffer =
    let found : Outcome (Option (ReadLen × List ℕ)) =
      copied p.str_value buffer >>= λ b. returned (some (read_bytes (length p.str_value), b)) in
    if length p.str_value == 0
    then returned none
    else if leb (length p.str_value) (length buffer)
    then found
    else returned (some (too_short, buffer))

unfoldable pub get_bytes_value : CNfcConfig → List ℕ → List ℕ → Outcome (Option (ReadLen × List ℕ))
unfolding find
get_bytes_value c name buffer = bytes_value_of (find c.params name) buffer

unfoldable pub get_long_value : CNfcConfig → List ℕ → Option ℕ
unfolding find
get_long_value c name = elim (find c.params name) [
  | none ↦ none
  | some p ↦ if length p.str_value == 0 then some p.num_value else none
]

unfoldable pub get_short_value : CNfcConfig → List ℕ → Option ℕ
unfolding find
get_short_value c name = elim (find c.params name) [
  | none ↦ none
  | some p ↦ if length p.str_value == 0 then some (u16 p.num_value) else none
]

-- The loop of getTmsNumValue over a string of at most three bytes.
abbrev pub joined : ℕ → List ℕ → ℕ
joined v [] = v
joined v (b ∷ bytes) = joined ((v * 256 + b) % 18446744073709551616) bytes

abbrev pub number_of : CNfcParam → ℕ
number_of p =
    if p.num_value == 0 && ltb 0 (length p.str_value) && ltb (length p.str_value) 4
    then joined p.num_value p.str_value
    else p.num_value

-- getTmsNumValue for a number of `len` bytes.
unfoldable pub get_tms_num_value : CNfcConfig → List ℕ → ℕ → Option ℕ
unfolding find
get_tms_num_value c name len = elim (find c.params name) [
  | none ↦ none
  | some p ↦
      if len == 8
      then some (number_of p)
      else if len == 2
      then some (u16 (number_of p))
      else if len == 1
      then some (u8 (number_of p))
      else none
]
