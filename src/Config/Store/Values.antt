-- ===== src/Config/Store/Values.antt =====
-- The two functions that copy the string of a setting into a buffer of the client.
use android_vendor_tms.Prelude.{
  ℕ, Option, none, some, List, ◌≡◌, refl, ◌==◌, leb, Bool-cases, inl, inr, length, write_at,
  replicate,
}
use android_vendor_tms.Prelude.Outcome.{Outcome, returned, fault}
use android_vendor_tms.Config.Store.{
  CNfcParam, CNfcConfig, find, str_value_of, bytes_value_of, get_str_value, get_bytes_value,
  ReadLen, read_bytes, too_short,
}

-- What the getValue without a length makes of a result of the one with it: a value that does not
-- fit is written past the end of the buffer.
unfoldable pub unchecked : Option (ReadLen × List ℕ) → Outcome (Option (List ℕ))
unchecked none = returned none
unchecked (some (read_bytes n, b)) = returned (some b)
unchecked (some (too_short, b)) = fault

str_value_of-bytes_value_of :
    (o : Option CNfcParam) (buffer : List ℕ)
    → (r : Option (ReadLen × List ℕ)) × (bytes_value_of o buffer ≡ returned r)
      × (str_value_of o buffer ≡ unchecked r)
unfolding unchecked
str_value_of-bytes_value_of none buffer = (none, refl, refl)
str_value_of-bytes_value_of (some p) buffer = elim (Bool-cases (length p.str_value == 0)) [
  | inl e ↦ (none, rw e refl, rw e refl)
  | inr e ↦ elim (Bool-cases (leb (length p.str_value) (length buffer))) [
    | inl f ↦
        let b = write_at (replicate (length buffer) 0) 0 p.str_value in
        (some (read_bytes (length p.str_value), b), rw (e, f) refl, rw (e, f) refl)
    | inr f ↦ (some (too_short, buffer), rw (e, f) refl, rw (e, f) refl)
  ]
]

-- The getValue of strings with a length never writes outside the buffer. The one without a length
-- gives the same where that one finds no string or copies one, and writes outside the buffer where
-- that one reports that it is too short.
pub get_str_value-get_bytes_value :
    (c : CNfcConfig) (name buffer : List ℕ)
    → (r : Option (ReadLen × List ℕ)) × (get_bytes_value c name buffer ≡ returned r)
      × (get_str_value c name buffer ≡ unchecked r)
unfolding get_str_value get_bytes_value unchecked
get_str_value-get_bytes_value c name buffer =
    str_value_of-bytes_value_of (find c.params name) buffer
