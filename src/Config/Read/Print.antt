-- ===== src/Config/Read/Print.antt =====
-- Settings as they are written in a configuration file, and the parameters that they stand for.
use android_vendor_tms.Prelude.{
  Every, ℕ, ◌+◌, ◌*◌, ◌/◌, ◌%◌, ◌≤◌, ◌<◌, true, List, [], ◌∷◌, ◌++◌, ◌≡◌,
}
use android_vendor_tms.Prelude.Outcome.{Outcome, returned, ◌>>=◌}
use android_vendor_tms.Download.Hex.Laws.{hex_char}
use android_vendor_tms.Config.Names.{is_printable}
use android_vendor_tms.Config.Store.{CNfcParam, str_param, num_param, add}
use android_vendor_tms.Config.Read.{ulong}

-- A text in quotes, a number by its decimal digits, the first of which is not 0, and bytes in
-- braces, as pairs of hexadecimal digits with commas between.
pub data Value : Type 0 where
  text : List ℕ → Value
  decimal : ℕ → List ℕ → Value
  bytes : ℕ → List ℕ → Value

-- A setting: the first character of its name and the others, and its value.
pub data Setting : Type 0 where
  assign : ℕ → List ℕ → Value → Setting

abbrev pub Printable : ℕ → Type 0
Printable c = is_printable c ≡ true

abbrev pub ValueOk : Value → Type 0
ValueOk (text cs) = Every Printable cs
ValueOk (decimal d ds) = (1 ≤ d) × (d ≤ 9) × Every (λ x. x ≤ 9) ds
ValueOk (bytes b bs) = (b < 256) × Every (λ x. x < 256) bs

abbrev pub SettingOk : Setting → Type 0
SettingOk (assign c cs v) = Printable c × Every Printable cs × ValueOk v

abbrev pub print_digits : List ℕ → List ℕ
print_digits [] = []
print_digits (d ∷ ds) = (d + b'0') ∷ print_digits ds

abbrev pub print_byte : ℕ → List ℕ → List ℕ
print_byte b rest = hex_char (b / 16) ∷ hex_char (b % 16) ∷ rest

abbrev pub print_bytes : List ℕ → List ℕ
print_bytes [] = b'}' ∷ []
print_bytes (b ∷ bs) = b',' ∷ print_byte b (print_bytes bs)

abbrev pub print_value : Value → List ℕ
print_value (text cs) = b'"' ∷ (cs ++ b'"' ∷ [])
print_value (decimal d ds) = print_digits (d ∷ ds)
print_value (bytes b bs) = b'{' ∷ print_byte b (print_bytes bs)

abbrev pub print_setting : Setting → List ℕ
print_setting (assign c cs v) = c ∷ (cs ++ b'=' ∷ (print_value v ++ b'\n' ∷ []))

unfoldable pub print_settings : List Setting → List ℕ
unfolding hex_char
print_settings [] = []
print_settings (s ∷ settings) = print_setting s ++ print_settings settings

abbrev pub value_of : ℕ → List ℕ → ℕ
value_of v [] = v
value_of v (d ∷ ds) = value_of (v * 10 + d) ds

-- A text has a null byte at its end, and a number is taken modulo 2^64.
abbrev pub param_of : Setting → CNfcParam
param_of (assign c cs (text t)) = str_param (c ∷ cs) (t ++ 0 ∷ [])
param_of (assign c cs (decimal d ds)) = num_param (c ∷ cs) (ulong (value_of 0 (d ∷ ds)))
param_of (assign c cs (bytes b bs)) = str_param (c ∷ cs) (b ∷ bs)

-- The additions of the settings one after another.
unfoldable pub add_all : List ℕ → List Setting → List CNfcParam → Outcome (List CNfcParam)
unfolding add
add_all file [] params = returned params
add_all file (s ∷ settings) params =
    add file (param_of s) params >>= λ rest. add_all file settings rest
