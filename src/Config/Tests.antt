-- ===== src/Config/Tests.antt =====
-- The settings of the NFC HAL at concrete files, registers and buffers.
use android_vendor_tms.Prelude.{
  ℕ, Bool, true, Option, none, some, List, [], ◌∷◌, ◌++◌, ◌≡◌, refl, if◌then◌else◌, arith,
}
use android_vendor_tms.Prelude.Outcome.{Outcome, returned, fault, ◌>>=◌}
use android_vendor_tms.Download.Script.{codes, same_text}
use android_vendor_tms.Config.Names.{is_printable, str_lt, contains}
use android_vendor_tms.Config.Registers.{
  parse_register_entries, write_entries, nci_header, merge_entries,
}
use android_vendor_tms.Config.Registers.Bounds.{merge_entries-returned}
use android_vendor_tms.Config.Registers.Forms.{one_byte, two_bytes, a0_0d}
use android_vendor_tms.Config.Registers.RoundTrip.{parse_register_entries-write_entries}
use android_vendor_tms.Config.Store.{
  CNfcParam, str_param, num_param, CNfcConfig, add, find, ReadLen, get_str_value, get_bytes_value,
}
use android_vendor_tms.Config.Store.Place.{Sorted, updated}
use android_vendor_tms.Config.Store.Lookup.{add-find}
use android_vendor_tms.Config.Store.Values.{unchecked, get_str_value-get_bytes_value}
use android_vendor_tms.Config.Read.{Reader, steps}
use android_vendor_tms.Config.Read.Print.{text, decimal, bytes, assign, print_settings, add_all}
use android_vendor_tms.Config.Read.RoundTrip.{steps-print_settings}
use android_vendor_tms.Config.Files.{start, get_instance}
use android_vendor_tms.Config.Files.Sorted.{ConfigOk, get_instance-Sorted}

abbrev settings_of : Outcome Reader → Outcome (List CNfcParam)
settings_of o = o >>= λ r. returned r.m_list

-- A file with the three kinds of values, a comment and a line without a value.
abbrev small_file : List ℕ
small_file =
    codes "# conf"
    ++ (b'\n'
        ∷ (codes "B=12"
            ++ (b'\n' ∷ (codes "A={20, 02}" ++ (b'\n' ∷ (codes "C=0x1F" ++ b'\n' ∷ []))))))

steps-small_file :
    settings_of (steps [] small_file (start []))
    ≡ returned (
        str_param (codes "A") (0x20 ∷ 0x02 ∷ [])
        ∷ num_param (codes "B") 12
        ∷ num_param (codes "C") 31
        ∷ [])
unfolding steps
steps-small_file = refl

-- The last byte of a value without braces is not in the setting: the flag is cleared before it is
-- tested.
steps_last_byte_lost :
    settings_of (steps [] (codes "A=0x12:34" ++ b'\n' ∷ []) (start []))
    ≡ returned (str_param (codes "A") (0x12 ∷ []) ∷ [])
unfolding steps
steps_last_byte_lost = refl

-- Four digits before a separator give the first byte twice.
steps_first_byte_twice :
    settings_of (steps [] (codes "A={1234}" ++ b'\n' ∷ []) (start []))
    ≡ returned (str_param (codes "A") (0x12 ∷ 0x12 ∷ []) ∷ [])
unfolding steps
steps_first_byte_twice = refl

-- Eighteen digits are shifted by 64 bits.
steps_shift_fault :
    settings_of (steps [] (codes "A={123456789012345678}" ++ b'\n' ∷ []) (start [])) ≡ fault
unfolding steps
steps_shift_fault = refl

-- Two commands with one register of each form, and with values of other lengths.
abbrev command : ℕ → List ℕ → List ℕ
command count entries = 0x20 ∷ 0x02 ∷ 0x00 ∷ count ∷ entries

merge_same_length :
    merge_entries
      (command 2 (0x18 ∷ 1 ∷ 7 ∷ 0xA0 ∷ 0x40 ∷ 1 ∷ 8 ∷ []))
      (command 1 (0x18 ∷ 1 ∷ 9 ∷ []))
    ≡ returned (0x20 ∷ 0x02 ∷ 8 ∷ 2 ∷ 0x18 ∷ 1 ∷ 9 ∷ 0xA0 ∷ 0x40 ∷ 1 ∷ 8 ∷ [])
unfolding merge_entries
merge_same_length = refl

-- The merged command has the old length before the new values, and cannot be parsed.
merge_other_length :
    (merge_entries (command 1 (0x18 ∷ 1 ∷ 7 ∷ [])) (command 1 (0x18 ∷ 2 ∷ 0xA1 ∷ 9 ∷ []))
      >>= λ bytes. parse_register_entries bytes)
    ≡ returned []
unfolding merge_entries
merge_other_length = refl

parse_register_entries-write_entries_example :
    (write_entries (
        record { register_address = 0x18 ∷ []; len = 1; values = 7 ∷ [] }
        ∷ record { register_address = 0xA0 ∷ 0x40 ∷ []; len = 2; values = 1 ∷ 2 ∷ [] }
        ∷ record {
          register_address = 0xA0 ∷ 0x0D ∷ 0x03 ∷ 0x10 ∷ 0x40 ∷ [];
          len = 1;
          values = 0xFF ∷ [];
        }
        ∷ [])
      >>= λ result. parse_register_entries (nci_header 3 result))
    ≡ returned (
        record { register_address = 0x18 ∷ []; len = 1; values = 7 ∷ [] }
        ∷ record { register_address = 0xA0 ∷ 0x40 ∷ []; len = 2; values = 1 ∷ 2 ∷ [] }
        ∷ record {
          register_address = 0xA0 ∷ 0x0D ∷ 0x03 ∷ 0x10 ∷ 0x40 ∷ [];
          len = 1;
          values = 0xFF ∷ [];
        }
        ∷ [])
parse_register_entries-write_entries_example = parse_register_entries-write_entries _ 3 (
  one_byte 0x18 (7 ∷ []) (omega arith),
  (
    two_bytes 0xA0 0x40 (1 ∷ 2 ∷ []) (omega arith) refl,
    (a0_0d 0x03 0x10 0x40 (0xFF ∷ []) refl, tt),
  ),
)

merge_entries-returned_example :
    (bytes : List ℕ) × (merge_entries (command 1 (0xA0 ∷ [])) (command 1 (0x18 ∷ 9 ∷ []))
      ≡ returned bytes)
merge_entries-returned_example =
    merge_entries-returned (command 1 (0xA0 ∷ [])) (command 1 (0x18 ∷ 9 ∷ []))

abbrev two_settings : List CNfcParam
two_settings = num_param (codes "A") 1 ∷ num_param (codes "C") 3 ∷ []

add-find_example :
    (m : CNfcParam) × (updated (find two_settings (codes "C")) (num_param (codes "C") 4)
      ≡ returned m)
    × ((add [] (num_param (codes "C") 4) two_settings >>= λ l. returned (find l (codes "C")))
        ≡ returned
            (if same_text (codes "C") (codes "C") then some m else find two_settings (codes "C")))
unfolding str_lt contains
add-find_example =
    add-find [] (num_param (codes "C") 4) two_settings (codes "C") refl ((refl, tt), (tt, tt))

abbrev config : CNfcConfig
config = record {
  params = str_param (codes "A") (1 ∷ 2 ∷ 3 ∷ []) ∷ [];
  m_list = [];
  valid_file = true;
  config_crc = 0;
  config_rf_crc = 0;
  config_tr_crc = 0;
  current_file = [];
}

get_str_value-get_bytes_value_example :
    (r : Option (ReadLen × List ℕ)) × (get_bytes_value config (codes "A") (0 ∷ 0 ∷ []) ≡ returned r)
    × (get_str_value config (codes "A") (0 ∷ 0 ∷ []) ≡ unchecked r)
get_str_value-get_bytes_value_example =
    get_str_value-get_bytes_value config (codes "A") (0 ∷ 0 ∷ [])

get_str_value_overflow : get_str_value config (codes "A") (0 ∷ 0 ∷ []) ≡ fault
unfolding get_str_value
get_str_value_overflow = refl

steps-print_settings_example :
    (t : Reader) × (steps []
        (print_settings (
          assign b'B' [] (decimal 1 (2 ∷ []))
          ∷ assign b'A' (b'_' ∷ []) (text (codes "x"))
          ∷ assign b'C' [] (bytes 0x20 (0x02 ∷ []))
          ∷ []))
        (start [])
      ≡ returned t)
    × (add_all []
          (assign b'B' [] (decimal 1 (2 ∷ []))
            ∷ assign b'A' (b'_' ∷ []) (text (codes "x"))
            ∷ assign b'C' [] (bytes 0x20 (0x02 ∷ []))
            ∷ [])
          []
        ≡ returned t.m_list)
    × Sorted t.m_list
unfolding is_printable contains
steps-print_settings_example =
    steps-print_settings []
      (assign b'B' [] (decimal 1 (2 ∷ []))
        ∷ assign b'A' (b'_' ∷ []) (text (codes "x"))
        ∷ assign b'C' [] (bytes 0x20 (0x02 ∷ []))
        ∷ [])
      (start []) [] refl
      (
        (refl, tt, (omega arith, omega arith, (omega arith, tt))),
        ((refl, (refl, tt), (refl, tt)), ((refl, tt, (omega arith, (omega arith, tt))), tt)),
      )
      ([], [], 0, 0, refl) tt

-- A device with the one file in the vendor's folder.
abbrev vendor_file : List ℕ → Option (List ℕ)
vendor_file path =
    if same_text path (codes "/vendor/etc/libnfc-tms.conf") then some small_file else none

abbrev empty : CNfcConfig
empty = record {
  params = [];
  m_list = [];
  valid_file = true;
  config_crc = 0;
  config_rf_crc = 0;
  config_tr_crc = 0;
  current_file = [];
}

abbrev full : CNfcConfig
full = record {
  params =
      str_param (codes "A") (0x20 ∷ 0x02 ∷ [])
      ∷ num_param (codes "B") 12
      ∷ num_param (codes "C") 31
      ∷ [];
  m_list = [];
  valid_file = true;
  config_crc = 7;
  config_rf_crc = 0;
  config_tr_crc = 0;
  current_file = [];
}

abbrev is_vendor_file : List ℕ → Bool
is_vendor_file path = same_text path (codes "/vendor/etc/libnfc-tms.conf")

get_instance-Sorted_example : ConfigOk full
unfolding get_instance contains str_lt
get_instance-Sorted_example =
    get_instance-Sorted vendor_file is_vendor_file (λ text. 7) (codes "/rf") [] [] (codes "sku")
      true empty full (tt, refl, refl) refl
