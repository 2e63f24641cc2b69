-- ===== src/Ese/Epilogue/Laws.antt =====
-- The receiver accepts what the sender protects, and the LRC detects every change of one byte.
use android_vendor_tms.Prelude.{
  ℕ, zero, suc, ◌-◌, ◌/◌, ◌%◌, ◌≤◌, ◌<◌, bit_xor, true, List, [], ◌∷◌, ◌==◌, ◌≡◌, ◌≢◌, refl, sym,
  ap, subst, ◌∙◌, inl, inr, if◌then◌else◌, take, set, length, get_or, length-set, length-take,
  get_or-set_self, get_or-set_ne, ==_self, Bool-cases, word, u8, arith,
}
use native.Mathlib.Nat.{sub-zero, le_refl}
use native.Mathlib.Decide.{dec_lt}
use android_vendor_tms.Prelude.Bits.{bit_xor-injective_left, bit_xor-injective_right}
use android_vendor_tms.Ese.Types.{success, parity_error, T1State, byte_at}
use android_vendor_tms.Ese.Epilogue.{
  slice, lrc_loop, calculate_lrc, crc_loop, calculate_crc, uses_lrc, set_epilogue, chk_epilogue,
}

-- Reading and writing through `take` and `drop`.
take-set : (buf : List ℕ) (n i v : ℕ) → n ≤ i → take n (set buf i v) ≡ take n buf
take-set buf zero i v h = refl
take-set [] (suc n) i v h = refl
take-set (b ∷ bs) (suc n) zero v h = absurd (omega arith)
take-set (b ∷ bs) (suc n) (suc i) v h = ap (◌∷◌ b) (take-set bs n i v (omega arith))

set-take : (buf : List ℕ) (n i v : ℕ) → take n (set buf i v) ≡ set (take n buf) i v
set-take buf zero i v = refl
set-take [] (suc n) i v = refl
set-take (b ∷ bs) (suc n) zero v = refl
set-take (b ∷ bs) (suc n) (suc i) v = ap (◌∷◌ b) (set-take bs n i v)

get_or-take : (buf : List ℕ) (n i : ℕ) → i < n → get_or (take n buf) i 0 ≡ get_or buf i 0
get_or-take buf zero i h = absurd (omega arith)
get_or-take [] (suc n) i h = refl
get_or-take (b ∷ bs) (suc n) zero h = refl
get_or-take (b ∷ bs) (suc n) (suc i) h = get_or-take bs n i (omega arith)

-- Both callers start at offset 0.
slice-zero : (buf : List ℕ) (len : ℕ) → slice buf 0 len ≡ take len buf
slice-zero buf len = rw sub-zero

slice-set : (buf : List ℕ) (n i v : ℕ) → n ≤ i → slice (set buf i v) 0 n ≡ slice buf 0 n
slice-set buf n i v h = slice-zero (set buf i v) n ∙ take-set buf n i v h ∙ sym (slice-zero buf n)

lrc-set :
    (buf : List ℕ) (n i v : ℕ) → n ≤ i → calculate_lrc (set buf i v) 0 n ≡ calculate_lrc buf 0 n
unfolding calculate_lrc
lrc-set buf n i v h = ap (λ (bs : List ℕ). lrc_loop 0 bs) (slice-set buf n i v h)

crc-set :
    (buf : List ℕ) (n i v : ℕ) → n ≤ i → calculate_crc (set buf i v) 0 n ≡ calculate_crc buf 0 n
unfolding calculate_crc
crc-set buf n i v h =
    ap (λ (bs : List ℕ). 0xFFFF - crc_loop 0xFFFF bs % 65536) (slice-set buf n i v h)

crc-lt : (buf : List ℕ) (n : ℕ) → calculate_crc buf 0 n < 65536
unfolding calculate_crc
crc-lt buf n = omega arith

-- Storing the two halves of a 16-bit value at the end of a buffer and joining them again.
module _ (buf : List ℕ) (n c : ℕ) (fits : suc n < length buf) where
  abbrev stored : List ℕ
  stored = set (set buf n (u8 (c / 256))) (suc n) (u8 c)

  high : byte_at stored n ≡ u8 (c / 256)
  high =
      get_or-set_ne (set buf n (u8 (c / 256))) (suc n) n (u8 c) 0 (omega arith)
      ∙ get_or-set_self buf n (u8 (c / 256)) 0 (omega arith)

  low : byte_at stored (suc n) ≡ u8 c
  low =
      get_or-set_self (set buf n (u8 (c / 256))) (suc n) (u8 c) 0
        (omega (arith, length-set buf n (u8 (c / 256))))

  joined : c < 65536 → c ≡ word (byte_at stored n) (byte_at stored (suc n))
  joined h = rw (high, low) (omega arith)

  crc-stored : calculate_crc stored 0 n ≡ calculate_crc buf 0 n
  crc-stored =
      crc-set (set buf n (u8 (c / 256))) n (suc n) (u8 c) (omega arith)
      ∙ crc-set buf n n (u8 (c / 256)) (omega arith)

sub_one : (n : ℕ) → suc n - 1 ≡ n
sub_one n = omega arith

sub-two : (n : ℕ) → suc (suc n) - 2 ≡ n
sub-two n = omega arith

-- The receiver's test, at the two values that it compares.
chk-lrc :
    (s : T1State) (buf : List ℕ) (n : ℕ)
    → uses_lrc s ≡ true
    → chk_epilogue s buf 0 (suc n)
      ≡ (if calculate_lrc buf 0 n == byte_at buf n then success else parity_error)
unfolding chk_epilogue
chk-lrc s buf n e = rw (e, sub_one n)

-- For every state and every block with room for its epilogue, the check at the receiver accepts
-- the block as the sender completed it, with the LRC and with the CRC.
pub chk_epilogue-set_epilogue :
    (s : T1State) (buf : List ℕ) (n : ℕ)
    → suc (suc n) ≤ length buf
    → chk_epilogue s (set_epilogue s buf 0 (suc (suc n))) 0 (suc (suc n)) ≡ success
unfolding set_epilogue chk_epilogue
chk_epilogue-set_epilogue s buf n h = elim (Bool-cases (uses_lrc s)) [
  | inl e ↦
      let lrc = calculate_lrc buf 0 (suc n) in
      rw (
        e,
        sub_one (suc n),
        get_or-set_self buf (suc n) lrc 0 h,
        lrc-set buf (suc n) (suc n) lrc (le_refl _),
        ==_self lrc,
      )
  | inr e ↦
      let crc = calculate_crc buf 0 n in
      rw (
        e,
        sub_one (suc n),
        sub-two n,
        crc-stored buf n crc h,
        ← joined buf n crc h (crc-lt buf n),
        ==_self crc,
      )
]

lrc_loop-injective : (bs : List ℕ) (a a' : ℕ) → lrc_loop a bs ≡ lrc_loop a' bs → a ≡ a'
unfolding lrc_loop
lrc_loop-injective [] a a' e = e
lrc_loop-injective (b ∷ bs) a a' e =
    bit_xor-injective_left a a' b (lrc_loop-injective bs (bit_xor a b) (bit_xor a' b) e)

lrc_loop-set :
    (bs : List ℕ) (acc i v : ℕ)
    → i < length bs
    → lrc_loop acc (set bs i v) ≡ lrc_loop acc bs
    → v ≡ get_or bs i 0
unfolding lrc_loop
lrc_loop-set [] acc i v h e = absurd (omega arith)
lrc_loop-set (b ∷ bs) acc zero v h e =
    bit_xor-injective_right acc v b (lrc_loop-injective bs (bit_xor acc v) (bit_xor acc b) e)
lrc_loop-set (b ∷ bs) acc (suc i) v h e = lrc_loop-set bs (bit_xor acc b) i v (omega arith) e

-- Changing one protected byte changes the LRC.
lrc-changed :
    (buf : List ℕ) (n i v : ℕ)
    → i < n
    → n ≤ length buf
    → calculate_lrc (set buf i v) 0 n ≡ calculate_lrc buf 0 n
    → v ≡ byte_at buf i
unfolding calculate_lrc
lrc-changed buf n i v h k e =
    lrc_loop-set (take n buf) 0 i v (omega (arith, length-take n buf)) (
      ap (lrc_loop 0) (sym (set-take buf n i v) ∙ sym (slice-zero (set buf i v) n))
      ∙ e
      ∙ ap (lrc_loop 0) (slice-zero buf n))
    ∙ get_or-take buf n i h

pick-success : (a b : ℕ) → (if a == b then success else parity_error) ≡ success → a ≡ b
pick-success a b e = ground arith

pick-parity : (a b : ℕ) → a ≢ b → (if a == b then success else parity_error) ≡ parity_error
pick-parity a b h = ground arith

-- In a state whose blocks carry an LRC, a block that passes the check fails it once any one of its
-- bytes, protected byte or the LRC itself, is replaced by another value.
pub chk_epilogue-changed :
    (s : T1State) (buf : List ℕ) (n i v : ℕ)
    → uses_lrc s ≡ true
    → n < length buf
    → i ≤ n
    → v ≢ byte_at buf i
    → chk_epilogue s buf 0 (suc n) ≡ success
    → chk_epilogue s (set buf i v) 0 (suc n) ≡ parity_error
chk_epilogue-changed s buf n i v u h k ne ok = elim (dec_lt i n) [
  | yes p ↦
      chk-lrc s (set buf i v) n u
      ∙ pick-parity _ _ (λ e. ne (
          lrc-changed buf n i v p (omega arith)
            (e ∙ get_or-set_ne buf i n v 0 (omega arith) ∙ sym was)))
  | no p ↦
      let same : i ≡ n = omega arith in
      chk-lrc s (set buf i v) n u
      ∙ pick-parity _ _ (λ e. ne (
          sym (
            sym (lrc-set buf n i v (omega arith))
            ∙ e
            ∙ subst (λ (j : ℕ). byte_at (set buf i v) j ≡ v) same
                (get_or-set_self buf i v 0 (omega arith)))
          ∙ was
          ∙ ap (byte_at buf) (sym same)))
]
  where
    was : calculate_lrc buf 0 n ≡ byte_at buf n
    was = pick-success _ _ (sym (chk-lrc s buf n u) ∙ ok)
