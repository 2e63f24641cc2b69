-- ===== src/Config/Registers.antt =====
-- The register entries of an NCI command and their merge
-- (nfc/THN31/halimpl/utils/TmsConfig.cc): RegisterEntry, parseRegisterEntries and mergeEntries.
-- A vector is a list of bytes; a read outside it is a fault. The differences of size_t wrap
-- around at 2^64.

pub mod Entry
pub mod Forms
pub mod Bounds
pub mod RoundTrip
use android_vendor_tms.Prelude.{
  Every, Every-append, ℕ, zero, suc, ◌+◌, ◌-◌, ◌%◌, Bool, true, false, not, ◌&&◌, Option, none,
  some, List, [], ◌∷◌, ◌++◌, ◌==◌, ltb, leb, if◌then◌else◌, length, take, drop, u8, u16,
}
use android_vendor_tms.Prelude.Outcome.{Outcome, returned, fault, unfinished, ◌>>=◌}
use android_vendor_tms.Download.Buffer.{load}
use android_vendor_tms.Download.Script.{same_text}

-- The field `length` is `len`.
pub record RegisterEntry : Type 0 where
  pub register_address : List ℕ
  pub len : ℕ
  pub values : List ℕ

-- `data.size() - k`
abbrev pub size_minus : List ℕ → ℕ → ℕ
size_minus bytes k =
    if ltb (length bytes) k then 18446744073709551616 + length bytes - k else length bytes - k

-- The bytes between two iterators, which are a fault where they pass the end of the data.
unfoldable pub load_range : List ℕ → ℕ → ℕ → Outcome (List ℕ)
load_range bytes first len =
    if leb (first + len) (length bytes) then returned (take len (drop first bytes)) else fault

-- The entry whose values begin `head` bytes after `idx`, and the index after it; nothing where the
-- values pass the end of the data.
unfoldable pub taken : List ℕ → ℕ → List ℕ → ℕ → ℕ → Outcome (Option (RegisterEntry × ℕ))
unfolding load_range
taken bytes idx address head len =
    let entry : List ℕ → RegisterEntry =
      λ values. record { register_address = address; len = len; values = values } in
    let inserted : Outcome (Option (RegisterEntry × ℕ)) =
      load_range bytes (idx + head) len >>= λ values.
      returned (some (entry values, idx + head + len)) in
    if leb (idx + head + len) (length bytes) then inserted else returned none

unfoldable pub is_a0_0d : List ℕ → ℕ → Outcome Bool
is_a0_0d bytes idx =
    let second : Outcome Bool = load bytes (idx + 1) >>= λ b. returned (b == 0x0D) in
    let first : Outcome Bool =
      load bytes idx >>= λ a. if a == 0xA0 then second else returned false in
    if leb idx (size_minus bytes 5) then first else returned false

unfoldable pub is_below_a0 : List ℕ → ℕ → Outcome Bool
is_below_a0 bytes idx =
    let first : Outcome Bool = load bytes idx >>= λ a. returned (ltb a 0xA0) in
    if leb idx (size_minus bytes 2) then first else returned false

-- The three branches of the loop: A0 0D, whose third byte is the length of the rest of the address
-- and of the values, an address of one byte, and an address of two.
unfoldable pub long_entry : List ℕ → ℕ → Outcome (Option (RegisterEntry × ℕ))
unfolding taken
long_entry bytes idx = load bytes idx >>= λ a. load bytes (idx + 1) >>= λ b.
    load bytes (idx + 2) >>= λ c. load bytes (idx + 3) >>= λ d.
    load bytes (idx + 4) >>= λ e. taken bytes idx (a ∷ b ∷ c ∷ d ∷ e ∷ []) 5 ((c + 254) % 256)

unfoldable pub short_entry : List ℕ → ℕ → Outcome (Option (RegisterEntry × ℕ))
unfolding taken
short_entry bytes idx =
    load bytes idx >>= λ a. load bytes (idx + 1) >>= λ len. taken bytes idx (a ∷ []) 2 len

unfoldable pub other_entry : List ℕ → ℕ → Outcome (Option (RegisterEntry × ℕ))
unfolding taken
other_entry bytes idx = load bytes idx >>= λ a.
    load bytes (idx + 1) >>= λ b. load bytes (idx + 2) >>= λ len. taken bytes idx (a ∷ b ∷ []) 3 len

unfoldable pub entry_at : List ℕ → ℕ → Outcome (Option (RegisterEntry × ℕ))
unfolding is_a0_0d is_below_a0 long_entry short_entry other_entry
entry_at bytes idx =
    let other : Outcome (Option (RegisterEntry × ℕ)) =
      if leb idx (size_minus bytes 3) then other_entry bytes idx else returned none in
    is_a0_0d bytes idx >>= λ long.
    if long
    then long_entry bytes idx
    else (is_below_a0 bytes idx >>= λ short. if short then short_entry bytes idx else other)

-- What the loop does with the next entry: it is put at the end of those before it, and a failure
-- gives the empty vector.
unfoldable pub parse_next :
    (ℕ → List RegisterEntry → Outcome (List RegisterEntry))
    → List RegisterEntry
    → Option (RegisterEntry × ℕ)
    → Outcome (List RegisterEntry)
parse_next rest entries none = returned []
parse_next rest entries (some (e, i)) = rest i (entries ++ e ∷ [])

-- The loop from `idx` on.
unfoldable pub parse_from : ℕ → List ℕ → ℕ → List RegisterEntry → Outcome (List RegisterEntry)
unfolding entry_at parse_next
parse_from zero bytes idx entries = unfinished
parse_from (suc n) bytes idx entries =
    let next = entry_at bytes idx >>= parse_next (λ i es. parse_from n bytes i es) entries in
    if ltb idx (length bytes) then next else returned entries

-- Every entry is two bytes at least, so the size of the data is fuel enough.
unfoldable pub parse_register_entries : List ℕ → Outcome (List RegisterEntry)
unfolding parse_from
parse_register_entries bytes = parse_from (suc (length bytes)) bytes 4 []

-- A new entry takes the place of the values of the first old one with its address, or comes last.
unfoldable pub merge_entry : RegisterEntry → List RegisterEntry → List RegisterEntry
unfolding same_text
merge_entry e [] = e ∷ []
merge_entry e (old ∷ entries) =
    let rest = old ∷ merge_entry e entries in
    let replaced : RegisterEntry = record {
      register_address = old.register_address;
      len = old.len;
      values = e.values;
    } in
    if same_text e.register_address old.register_address then replaced ∷ entries else rest

abbrev pub merge_all : List RegisterEntry → List RegisterEntry → List RegisterEntry
merge_all [] old = old
merge_all (e ∷ new) old = merge_all new (merge_entry e old)

-- The bytes of an entry; only the address that begins with A0 0D has the length in it.
unfoldable pub write_entry : RegisterEntry → Outcome (List ℕ)
write_entry e =
    let with_length : Outcome (List ℕ) = returned (e.register_address ++ e.len ∷ e.values) in
    let without : Outcome (List ℕ) = returned (e.register_address ++ e.values) in
    load e.register_address 0 >>= λ a.
    if a == 0xA0
    then (load e.register_address 1 >>= λ b. if b == 0x0D then without else with_length)
    else with_length

unfoldable pub write_entries : List RegisterEntry → Outcome (List ℕ)
unfolding write_entry
write_entries [] = returned []
write_entries (e ∷ entries) =
    write_entry e >>= λ bytes. write_entries entries >>= λ rest. returned (bytes ++ rest)

-- The NCI command with the entries: `totalLength` is a uint16_t, and the count and the length in
-- the header are bytes.
unfoldable pub nci_header : ℕ → List ℕ → List ℕ
nci_header count result = 0x20 ∷ 0x02 ∷ u8 (u16 (u16 (length result) + 1)) ∷ u8 count ∷ result

unfoldable pub merge_entries : List ℕ → List ℕ → Outcome (List ℕ)
unfolding parse_register_entries merge_entry write_entries nci_header
merge_entries existing new = parse_register_entries existing >>= λ old_entries.
    parse_register_entries new >>= λ new_entries.
    (let merged = merge_all new_entries old_entries in
      let written : Outcome (List ℕ) =
        write_entries merged >>= λ result. returned (nci_header (length merged) result) in
      if length old_entries == 0
      then returned []
      else if length new_entries == 0
      then returned []
      else written)
