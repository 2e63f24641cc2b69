-- ===== src/Config/Registers/Forms.antt =====
-- How an entry of each of the three forms is read.
use android_vendor_tms.Prelude.{
  Bool-cases, ℕ, suc, ◌+◌, ◌%◌, ◌<◌, ◌≤◌, true, false, ◌&&◌, Option, some, List, [], ◌∷◌, ◌++◌, ◌≡◌,
  inl, inr, refl, ap, ◌∙◌, ◌==◌, ltb, leb, lt→ltb, length, take, drop, get_or, arith,
}
use android_vendor_tms.Prelude.Outcome.{returned}
use android_vendor_tms.Download.Buffer.{load}
use android_vendor_tms.Config.Registers.{
  RegisterEntry, size_minus, load_range, taken, is_a0_0d, is_below_a0, long_entry, short_entry,
  other_entry, entry_at,
}

-- The three forms of an entry, each with as many values as its length says.
pub data Canonical : RegisterEntry → Type 0 where
  one_byte :
      (a : ℕ) (values : List ℕ)
      → a < 0xA0
      → Canonical (record { register_address = a ∷ []; len = length values; values = values })
  two_bytes :
      (a b : ℕ) (values : List ℕ)
      → 0xA0 ≤ a
      → ((a == 0xA0) && (b == 0x0D)) ≡ false
      → Canonical (record { register_address = a ∷ b ∷ []; len = length values; values = values })
  a0_0d :
      (c d e : ℕ) (values : List ℕ)
      → (c + 254) % 256 ≡ length values
      → Canonical (record {
        register_address = 0xA0 ∷ 0x0D ∷ c ∷ d ∷ e ∷ [];
        len = length values;
        values = values;
      })

pub get_or-append : (xs ys : List ℕ) (k : ℕ) → get_or (xs ++ ys) (length xs + k) 0 ≡ get_or ys k 0
get_or-append [] ys k = let z : 0 + k ≡ k = omega arith in rw z refl
get_or-append (x ∷ xs) ys k =
    let z : suc (length xs) + k ≡ suc (length xs + k) = omega arith in rw z (get_or-append xs ys k)

pub drop-append : (xs ys : List ℕ) (k : ℕ) → drop (length xs + k) (xs ++ ys) ≡ drop k ys
drop-append [] ys k = let z : 0 + k ≡ k = omega arith in rw z refl
drop-append (x ∷ xs) ys k =
    let z : suc (length xs) + k ≡ suc (length xs + k) = omega arith in rw z (drop-append xs ys k)

pub take-append : (xs ys : List ℕ) → take (length xs) (xs ++ ys) ≡ xs
take-append [] ys = refl
take-append (x ∷ xs) ys = ap (λ l. x ∷ l) (take-append xs ys)

module _ (bytes : List ℕ) (idx : ℕ) where
  pub load-in :
      (v k : ℕ)
      → idx + k < length bytes
      → get_or bytes (idx + k) 0 ≡ v
      → load bytes (idx + k) ≡ returned v
  load-in v k h e = let inside = lt→ltb _ _ h in rw (inside, e) refl

  pub load-first :
      (v : ℕ) → idx < length bytes → get_or bytes idx 0 ≡ v → load bytes idx ≡ returned v
  load-first v h e = let inside = lt→ltb _ _ h in rw (inside, e) refl

  pub taken-all :
      (address values : List ℕ) (head : ℕ)
      → idx + head + length values ≤ length bytes
      → take (length values) (drop (idx + head) bytes) ≡ values
      → taken bytes idx address head (length values)
        ≡ returned (
            some (
              record { register_address = address; len = length values; values = values },
              idx + head + length values,
            ))
  unfolding taken load_range
  taken-all address values head h e =
      let inside : leb (idx + head + length values) (length bytes) ≡ true = ground arith in
      rw (inside, e) refl

  pub is_a0_0d_lem :
      (a b : ℕ)
      → load bytes idx ≡ returned a
      → load bytes (idx + 1) ≡ returned b
      → leb idx (size_minus bytes 5) ≡ true
      → is_a0_0d bytes idx ≡ returned ((a == 0xA0) && (b == 0x0D))
  unfolding is_a0_0d
  is_a0_0d_lem a b f g h = rw (h, f, g) (ground arith)

  pub is_a0_0d-false :
      (a b : ℕ)
      → load bytes idx ≡ returned a
      → load bytes (idx + 1) ≡ returned b
      → ((a == 0xA0) && (b == 0x0D)) ≡ false
      → is_a0_0d bytes idx ≡ returned false
  unfolding is_a0_0d
  is_a0_0d-false a b f g h = elim (Bool-cases (leb idx (size_minus bytes 5))) [
    | inl e ↦ is_a0_0d_lem a b f g e ∙ ap returned h
    | inr e ↦ rw e refl
  ]

  pub entry_at-short :
      (a len : ℕ) (o : Option (RegisterEntry × ℕ))
      → a < 0xA0
      → load bytes idx ≡ returned a
      → load bytes (idx + 1) ≡ returned len
      → leb idx (size_minus bytes 2) ≡ true
      → taken bytes idx (a ∷ []) 2 len ≡ returned o
      → entry_at bytes idx ≡ returned o
  unfolding entry_at is_below_a0 short_entry
  entry_at-short a len o low f g h t =
      let not_a0 : ((a == 0xA0) && (len == 0x0D)) ≡ false = ground arith in
      let below = lt→ltb _ _ low in rw (is_a0_0d-false a len f g not_a0, h, f, below, g, t) refl

  pub entry_at-other :
      (a b len : ℕ) (o : Option (RegisterEntry × ℕ))
      → 0xA0 ≤ a
      → ((a == 0xA0) && (b == 0x0D)) ≡ false
      → load bytes idx ≡ returned a
      → load bytes (idx + 1) ≡ returned b
      → load bytes (idx + 2) ≡ returned len
      → leb idx (size_minus bytes 2) ≡ true
      → leb idx (size_minus bytes 3) ≡ true
      → taken bytes idx (a ∷ b ∷ []) 3 len ≡ returned o
      → entry_at bytes idx ≡ returned o
  unfolding entry_at is_below_a0 other_entry
  entry_at-other a b len o high h f g k s2 s3 t =
      let below : ltb a 0xA0 ≡ false = ground arith in
      rw (is_a0_0d-false a b f g h, s2, f, below, s3, g, k, t) refl

  pub entry_at-long :
      (c d e : ℕ) (o : Option (RegisterEntry × ℕ))
      → load bytes idx ≡ returned 0xA0
      → load bytes (idx + 1) ≡ returned 0x0D
      → load bytes (idx + 2) ≡ returned c
      → load bytes (idx + 3) ≡ returned d
      → load bytes (idx + 4) ≡ returned e
      → leb idx (size_minus bytes 5) ≡ true
      → taken bytes idx (0xA0 ∷ 0x0D ∷ c ∷ d ∷ e ∷ []) 5 ((c + 254) % 256) ≡ returned o
      → entry_at bytes idx ≡ returned o
  unfolding entry_at long_entry
  entry_at-long c d e o l0 l1 l2 l3 l4 h t =
      rw (is_a0_0d_lem 0xA0 0x0D l0 l1 h, l0, l1, l2, l3, l4, t) refl
