-- ===== src/Config/Registers/Entry.antt =====
-- One round of the loop over register entries reads only what is in its data.
use android_vendor_tms.Prelude.{
  ℕ, ◌+◌, ◌-◌, ◌<◌, ◌≤◌, true, Option, none, some, List, [], ◌∷◌, ◌≡◌, ◌⊎◌, inl, inr, refl, ◌==◌,
  leb, leb→le, ltb→lt, length, drop, get_or, length-take, length-drop, arith,
}
use android_vendor_tms.Prelude.Outcome.{Returns, then-Returns, if-Returns}
use android_vendor_tms.Download.Buffer.{load-Returns}
use android_vendor_tms.Config.Registers.{
  RegisterEntry, size_minus, load_range, taken, is_a0_0d, is_below_a0, long_entry, short_entry,
  other_entry, entry_at,
}

-- An address of two bytes or more, or of one byte below A0.
abbrev pub AddressOk : List ℕ → Type 0
AddressOk address = (2 ≤ length address) ⊎ ((a : ℕ) × (address ≡ a ∷ []) × (a < 0xA0))

abbrev pub LengthOk : RegisterEntry → Type 0
LengthOk e = e.len ≡ length e.values

abbrev pub EntryOk : RegisterEntry → Type 0
EntryOk e = AddressOk e.register_address × LengthOk e

-- An entry that was read and the index after it, or a failure.
abbrev pub Next : ℕ → Option (RegisterEntry × ℕ) → Type 0
Next idx none = Unit
Next idx (some (e, i)) = EntryOk e × (idx < i)

pub taken-Next :
    (bytes : List ℕ) (idx : ℕ) (address : List ℕ) (head len : ℕ)
    → AddressOk address
    → 0 < head
    → Returns (Next idx) (taken bytes idx address head len)
unfolding taken load_range
taken-Next bytes idx address head len a h =
    if-Returns (Next idx) (leb (idx + head + len) (length bytes)) _ _
      (λ e.
        let inside = leb→le _ _ e in
        let size = length-take len (drop (idx + head) bytes) in
        let left = length-drop (idx + head) bytes in rw e ((a, omega arith), omega arith))
      (λ e. tt)

pub size_minus_lem :
    (bytes : List ℕ) (k : ℕ) → k ≤ length bytes → size_minus bytes k ≡ length bytes - k
size_minus_lem bytes k h = ground arith

module _ (bytes : List ℕ) (idx : ℕ) where
  pub is_a0_0d-Returns :
      5 ≤ length bytes → Returns (λ b. (b ≡ true) → idx + 4 < length bytes) (is_a0_0d bytes idx)
  unfolding is_a0_0d
  is_a0_0d-Returns h =
      let size = size_minus_lem bytes 5 h in
      if-Returns _ (leb idx (size_minus bytes 5)) _ _
        (λ e.
          let inside : idx + 4 < length bytes = let le = leb→le _ _ e in omega arith in
          load-Returns _ bytes idx (length bytes) _ refl (omega arith) (
            if-Returns _ (get_or bytes idx 0 == 0xA0) _ _
              (λ _.
                load-Returns _ bytes (idx + 1) (length bytes) _ refl (omega arith) (λ _. inside))
              (λ _ _. inside)))
        (λ _ f. absurd (ground arith))

  pub is_below_a0-Returns :
      5 ≤ length bytes
      → Returns
          (λ b. (b ≡ true) → (idx + 1 < length bytes) × (get_or bytes idx 0 < 0xA0))
          (is_below_a0 bytes idx)
  unfolding is_below_a0
  is_below_a0-Returns h =
      let size = size_minus_lem bytes 2 (omega arith) in
      if-Returns _ (leb idx (size_minus bytes 2)) _ _
        (λ e.
          let inside : idx + 1 < length bytes = let le = leb→le _ _ e in omega arith in
          load-Returns _ bytes idx (length bytes) _ refl (omega arith)
            (λ f. (inside, ltb→lt _ _ f)))
        (λ _ f. absurd (ground arith))

  pub long_entry-Returns : idx + 4 < length bytes → Returns (Next idx) (long_entry bytes idx)
  unfolding long_entry
  long_entry-Returns h = load-Returns _ bytes idx (length bytes) _ refl (omega arith) (
      load-Returns _ bytes (idx + 1) (length bytes) _ refl (omega arith) (
        load-Returns _ bytes (idx + 2) (length bytes) _ refl (omega arith) (
          load-Returns _ bytes (idx + 3) (length bytes) _ refl (omega arith) (
            load-Returns _ bytes (idx + 4) (length bytes) _ refl (omega arith)
              (taken-Next bytes idx _ 5 _ (inl (omega arith)) (omega arith))))))

  pub short_entry-Returns :
      idx + 1 < length bytes
      → get_or bytes idx 0 < 0xA0
      → Returns (Next idx) (short_entry bytes idx)
  unfolding short_entry
  short_entry-Returns h low = load-Returns _ bytes idx (length bytes) _ refl (omega arith) (
      load-Returns _ bytes (idx + 1) (length bytes) _ refl (omega arith)
        (taken-Next bytes idx _ 2 _ (inr (_, refl, low)) (omega arith)))

  pub other_entry-Returns : idx + 2 < length bytes → Returns (Next idx) (other_entry bytes idx)
  unfolding other_entry
  other_entry-Returns h = load-Returns _ bytes idx (length bytes) _ refl (omega arith) (
      load-Returns _ bytes (idx + 1) (length bytes) _ refl (omega arith) (
        load-Returns _ bytes (idx + 2) (length bytes) _ refl (omega arith)
          (taken-Next bytes idx _ 3 _ (inl (omega arith)) (omega arith))))

  pub entry_at-Returns : 5 ≤ length bytes → Returns (Next idx) (entry_at bytes idx)
  unfolding entry_at
  entry_at-Returns h =
      let size = size_minus_lem bytes 3 (omega arith) in
      then-Returns _ (Next idx) (is_a0_0d bytes idx) _ (is_a0_0d-Returns h) (λ long p.
        if-Returns (Next idx) long _ _ (λ e. long_entry-Returns (p e))
          (λ _.
            then-Returns _ (Next idx) (is_below_a0 bytes idx) _ (is_below_a0-Returns h) (λ short q.
              if-Returns (Next idx) short _ _ (λ e. let (i, low) = q e in short_entry-Returns i low)
                (λ _.
                  if-Returns (Next idx) (leb idx (size_minus bytes 3)) _ _
                    (λ e. other_entry-Returns (let le = leb→le _ _ e in omega arith)) (λ _. tt)))))
