-- ===== src/Config/Read/Values.antt =====
-- What the reader does with the end of a value, and with the bytes of one in braces.
use android_vendor_tms.Prelude.{
  Every, ℕ, zero, suc, ◌+◌, ◌*◌, ◌/◌, ◌%◌, ◌<◌, true, false, List, [], ◌∷◌, ◌++◌, ◌≡◌, refl, ap,
  subst, ◌∙◌, ltb, if_true, length, u8, arith,
}
use mathlib.Core.List.{append_assoc}
use android_vendor_tms.Prelude.Outcome.{returned, ◌>>=◌}
use android_vendor_tms.Download.Script.{c_str}
use android_vendor_tms.Download.Hex.Laws.{hex_char}
use android_vendor_tms.Config.Names.{is_printable, is_digit}
use android_vendor_tms.Config.Store.{CNfcParam, str_param, num_param, add}
use android_vendor_tms.Config.Read.{
  begin_line, in_str_value, in_num_value, end_line, Reader, ulong, step_num_value, step_str_value,
  step_end_line, push_shifted, separator, setting, end_value, step,
}
use android_vendor_tms.Config.Read.Print.{Printable, print_byte, print_bytes}
use android_vendor_tms.Config.Read.Steps.{
  at, Reads, read_end, read_char, is_digit_hex, get_digit_value_hex,
}

-- The reader at the begin of a line, with the given settings.
abbrev pub Begins : List CNfcParam → Reader → Type 0
Begins l r =
    (tok : List ℕ) × (str : List ℕ) × (i : ℕ) × (base : ℕ) × (r
      ≡ at begin_line false tok str 0 i base 0 l)

pub c_str-name : (cs : List ℕ) → Every Printable cs → c_str (cs ++ 0 ∷ []) ≡ cs
unfolding c_str is_printable
c_str-name [] h = refl
c_str-name (zero ∷ cs) (p, h) = absurd (ground arith)
c_str-name (suc c ∷ cs) (p, h) = ap (λ t. suc c ∷ t) (c_str-name cs h)

module _ (file tok : List ℕ) (l l' : List CNfcParam) where
  -- The end of a text, of a number and of bytes.
  pub step-text_end :
      (str : List ℕ) (i base : ℕ)
      → add file (str_param (c_str tok) (str ++ 0 ∷ [])) l ≡ returned l'
      → step file (at in_str_value false tok str 0 i base 0 l) b'"'
        ≡ returned (at end_line false tok (str ++ 0 ∷ []) 0 i base 0 l')
  unfolding step step_str_value
  step-text_end str i base h =
      ap (λ o. o >>= λ params. returned (at end_line false tok (str ++ 0 ∷ []) 0 i base 0 params)) h

  pub step-line_end :
      (str : List ℕ) (i base : ℕ)
      → step file (at end_line false tok str 0 i base 0 l') b'\n'
        ≡ returned (at begin_line false tok str 0 i base 0 l')
  unfolding step step_end_line
  step-line_end str i base = refl

  pub step-number_end :
      (num i : ℕ)
      → add file (num_param (c_str tok) num) l ≡ returned l'
      → step file (at in_num_value false tok [] num i 10 0 l) b'\n'
        ≡ returned (at begin_line false tok [] 0 i 10 0 l')
  unfolding step step_num_value is_digit end_value setting
  step-number_end num i h =
      ap (λ o. o >>= λ params. returned (at begin_line false tok [] 0 i 10 0 params)) h

  pub step-bytes_end :
      (b : ℕ) (bs : List ℕ)
      → add file (str_param (c_str tok) (b ∷ bs)) l ≡ returned l'
      → step file (at in_num_value true tok (b ∷ bs) 0 0 16 0 l) b'\n'
        ≡ returned (at begin_line false tok [] 0 0 16 0 l')
  unfolding step step_num_value is_digit end_value setting
  step-bytes_end b bs h =
      let some_left : ltb 0 (suc (length bs)) ≡ true = ground arith in
      ap (λ p. add file p l >>= λ params. returned (at begin_line false tok [] 0 0 16 0 params))
        (if_true _ _ _ some_left)
      ∙ ap (λ o. o >>= λ params. returned (at begin_line false tok [] 0 0 16 0 params)) h

-- A digit of a byte, and the two digits and what follows them.
module _ (file tok str : List ℕ) (l : List CNfcParam) where
  step-hex :
      (num i d : ℕ)
      → d < 16
      → num < 16
      → step file (at in_num_value true tok str num i 16 1 l) (hex_char d)
        ≡ returned (at in_num_value true tok str (num * 16 + d) (i + 1) 16 1 l)
  unfolding step step_num_value
  step-hex num i d h k =
      let wraps : ulong (ulong (num * 16) + d) ≡ num * 16 + d = omega arith in
      if_true _ _ _ (is_digit_hex d h)
      ∙ ap (λ n. returned (at in_num_value true tok str n (i + 1) 16 1 l))
          (ap (λ x. ulong (ulong (num * 16) + x)) (get_digit_value_hex d h) ∙ wraps)

  step-comma :
      (b : ℕ)
      → b < 256
      → step file (at in_num_value true tok str b 2 16 1 l) b','
        ≡ returned (at in_num_value true tok (str ++ b ∷ []) 0 0 16 1 l)
  unfolding step step_num_value is_digit separator push_shifted
  step-comma b h =
      let one : u8 (b / 1) ≡ b = omega arith in
      ap (λ x. returned (at in_num_value true tok (str ++ x ∷ []) 0 0 16 1 l)) one

  step-brace :
      (b : ℕ)
      → b < 256
      → step file (at in_num_value true tok str b 2 16 1 l) b'}'
        ≡ returned (at in_num_value true tok (str ++ b ∷ []) 0 0 16 0 l)
  unfolding step step_num_value is_digit separator push_shifted
  step-brace b h =
      let one : u8 (b / 1) ≡ b = omega arith in
      ap (λ x. returned (at in_num_value true tok (str ++ x ∷ []) 0 0 16 0 l)) one

  Reads-byte :
      (b : ℕ) (rest : List ℕ) (s : Reader)
      → b < 256
      → Reads file rest (at in_num_value true tok str b 2 16 1 l) s
      → Reads file (print_byte b rest) (at in_num_value true tok str 0 0 16 1 l) s
  Reads-byte b rest s h k =
      let high : 0 * 16 + b / 16 ≡ b / 16 = omega arith in
      let low : b / 16 * 16 + b % 16 ≡ b = omega arith in
      read_char
        (step-hex 0 0 (b / 16) (omega arith) (omega arith)
          ∙ ap (λ n. returned (at in_num_value true tok str n 1 16 1 l)) high)
        (read_char
          (step-hex (b / 16) 1 (b % 16) (omega arith) (omega arith)
            ∙ ap (λ n. returned (at in_num_value true tok str n 2 16 1 l)) low)
          k)

pub Reads-bytes :
    (file tok str : List ℕ) (l : List CNfcParam) (b : ℕ) (bs : List ℕ)
    → b < 256
    → Every (λ x. x < 256) bs
    → Reads file
        (print_byte b (print_bytes bs))
        (at in_num_value true tok str 0 0 16 1 l)
        (at in_num_value true tok (str ++ b ∷ bs) 0 0 16 0 l)
Reads-bytes file tok str l b [] h k =
    Reads-byte file tok str l b _ _ h (read_char (step-brace file tok str l b h) read_end)
Reads-bytes file tok str l b (c ∷ bs) h (p, k) = Reads-byte file tok str l b _ _ h (
    read_char (step-comma file tok str l b h) (
      subst
        (λ t.
          Reads file (print_byte c (print_bytes bs))
            (at in_num_value true tok (str ++ b ∷ []) 0 0 16 1 l)
            (at in_num_value true tok t 0 0 16 0 l))
        (append_assoc str (b ∷ []) (c ∷ bs)) (Reads-bytes file tok (str ++ b ∷ []) l c bs p k)))
