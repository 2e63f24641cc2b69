-- ===== src/Config/Read/Steps.antt =====
-- What the reader does with one character, and with the characters of a name and of a value.
use android_vendor_tms.Prelude.{
  Every, ℕ, ◌+◌, ◌*◌, ◌≤◌, ◌<◌, Bool, true, false, List, [], ◌∷◌, ◌++◌, ◌≡◌, refl, sym, ap, subst,
  ◌∙◌, ◌==◌, if_true, if_false, arith,
}
use mathlib.Core.List.{append_assoc, append-nil}
use android_vendor_tms.Prelude.Outcome.{returned, ◌>>=◌}
use android_vendor_tms.Download.Hex.Laws.{hex_char}
use android_vendor_tms.Config.Names.{is_printable, is_digit, get_digit_value}
use android_vendor_tms.Config.Store.{CNfcParam}
use android_vendor_tms.Config.Read.{
  ReadState, begin_line, in_token, in_str_value, in_num_value, begin_quote, Reader, ulong,
  step_begin_line, step_token, step_num_value, step_str_value, step, steps,
}
use android_vendor_tms.Config.Read.Print.{Printable, print_digits, value_of}

-- The variables of the reader, in the order of the record.
abbrev pub at : ReadState → Bool → List ℕ → List ℕ → ℕ → ℕ → ℕ → ℕ → List CNfcParam → Reader
at state flag token str num i base bflag params = record {
  state = state;
  is_string_value = flag;
  token = token;
  str_value = str;
  num_value = num;
  i = i;
  base = base;
  bflag = bflag;
  m_list = params;
}

-- From one state of the reader the characters lead to another.
pub data Reads (file : List ℕ) : List ℕ → Reader → Reader → Type 0 where
  read_end : {r : Reader} → Reads file [] r r
  read_char :
      {c : ℕ} {xs : List ℕ} {r s t : Reader}
      → step file r c ≡ returned s
      → Reads file xs s t
      → Reads file (c ∷ xs) r t

pub Reads-append :
    {file xs ys : List ℕ} {r s t : Reader}
    → Reads file xs r s
    → Reads file ys s t
    → Reads file (xs ++ ys) r t
Reads-append read_end k = k
Reads-append (read_char e h) k = read_char e (Reads-append h k)

pub steps-Reads :
    {file xs : List ℕ} {r s : Reader} → Reads file xs r s → steps file xs r ≡ returned s
unfolding steps
steps-Reads read_end = refl
steps-Reads {file} (read_char {xs = xs} e h) =
    ap (λ o. o >>= λ u. steps file xs u) e ∙ steps-Reads h

pub Printable-ne :
    (c : ℕ)
    → Printable c
    → ((c == b'=') ≡ false) × ((c == b'#') ≡ false) × ((c == b'"') ≡ false) × ((c == 0) ≡ false)
unfolding is_printable
Printable-ne c h = ground arith

pub is_digit_decimal : (d : ℕ) → d ≤ 9 → is_digit (d + b'0') 10 ≡ true
unfolding is_digit
is_digit_decimal d h = ground arith

pub get_digit_value_decimal : (d : ℕ) → d ≤ 9 → get_digit_value (d + b'0') 10 ≡ d
unfolding get_digit_value
get_digit_value_decimal d h = ground arith

pub is_digit_hex : (d : ℕ) → d < 16 → is_digit (hex_char d) 16 ≡ true
unfolding is_digit hex_char
is_digit_hex d h = ground arith

pub get_digit_value_hex : (d : ℕ) → d < 16 → get_digit_value (hex_char d) 16 ≡ d
unfolding get_digit_value hex_char
get_digit_value_hex d h = ground arith

-- The characters of a name, and what a name is followed by.
module _ (file tok str : List ℕ) (num i base : ℕ) (params : List CNfcParam) where
  pub steps-first :
      (c : ℕ)
      → Printable c
      → step file (at begin_line false tok str num i base 0 params) c
        ≡ returned (at in_token false (c ∷ []) [] num 0 base 0 params)
  unfolding step step_begin_line
  steps-first c h =
      let (_, ne, _, _) = Printable-ne c h in ap returned (if_false _ _ _ ne ∙ if_true _ _ _ h)

  pub steps-named :
      step file (at in_token false tok str num i base 0 params) b'='
      ≡ returned (at begin_quote false (tok ++ 0 ∷ []) str num i base 0 params)
  unfolding step step_token
  steps-named = refl

  steps-token :
      (c : ℕ)
      → Printable c
      → step file (at in_token false tok str num i base 0 params) c
        ≡ returned (at in_token false (tok ++ c ∷ []) str num i base 0 params)
  unfolding step step_token
  steps-token c h =
      let (ne, _, _, _) = Printable-ne c h in ap returned (if_false _ _ _ ne ∙ if_true _ _ _ h)

  steps-text :
      (c : ℕ)
      → Printable c
      → step file (at in_str_value false tok str num i base 0 params) c
        ≡ returned (at in_str_value false tok (str ++ c ∷ []) num i base 0 params)
  unfolding step step_str_value
  steps-text c h = let (_, _, ne, _) = Printable-ne c h in if_false _ _ _ ne ∙ if_true _ _ _ h

module _ (file : List ℕ) (num base : ℕ) (params : List CNfcParam) where
  pub Reads-token :
      (tok str : List ℕ) (i : ℕ) (cs : List ℕ)
      → Every Printable cs
      → Reads file cs
          (at in_token false tok str num i base 0 params)
          (at in_token false (tok ++ cs) str num i base 0 params)
  Reads-token tok str i [] h =
      subst
        (λ t.
          Reads file [] (at in_token false tok str num i base 0 params)
            (at in_token false t str num i base 0 params))
        (sym (append-nil tok)) read_end
  Reads-token tok str i (c ∷ cs) (p, h) =
      read_char (steps-token file tok str num i base params c p) (
        subst
          (λ t.
            Reads file cs (at in_token false (tok ++ c ∷ []) str num i base 0 params)
              (at in_token false t str num i base 0 params))
          (append_assoc tok (c ∷ []) cs) (Reads-token (tok ++ c ∷ []) str i cs h))

  pub Reads-text :
      (tok str : List ℕ) (i : ℕ) (cs : List ℕ)
      → Every Printable cs
      → Reads file cs
          (at in_str_value false tok str num i base 0 params)
          (at in_str_value false tok (str ++ cs) num i base 0 params)
  Reads-text tok str i [] h =
      subst
        (λ t.
          Reads file [] (at in_str_value false tok str num i base 0 params)
            (at in_str_value false tok t num i base 0 params))
        (sym (append-nil str)) read_end
  Reads-text tok str i (c ∷ cs) (p, h) = read_char (steps-text file tok str num i base params c p) (
      subst
        (λ t.
          Reads file cs (at in_str_value false tok (str ++ c ∷ []) num i base 0 params)
            (at in_str_value false tok t num i base 0 params))
        (append_assoc str (c ∷ []) cs) (Reads-text tok (str ++ c ∷ []) i cs h))

-- The digits of a decimal number.
module _ (file tok : List ℕ) (params : List CNfcParam) where
  step-digit :
      (num i d : ℕ)
      → d ≤ 9
      → step file (at in_num_value false tok [] (ulong num) i 10 0 params) (d + b'0')
        ≡ returned (at in_num_value false tok [] (ulong (num * 10 + d)) (i + 1) 10 0 params)
  unfolding step step_num_value
  step-digit num i d h =
      let wraps : ulong (ulong (ulong num * 10) + d) ≡ ulong (num * 10 + d) = omega arith in
      if_true _ _ _ (is_digit_decimal d h)
      ∙ ap (λ n. returned (at in_num_value false tok [] n (i + 1) 10 0 params))
          (ap (λ x. ulong (ulong (ulong num * 10) + x)) (get_digit_value_decimal d h) ∙ wraps)

  pub Reads-digits :
      (num i : ℕ) (ds : List ℕ)
      → Every (λ x. x ≤ 9) ds
      → (j : ℕ) × Reads file
          (print_digits ds)
          (at in_num_value false tok [] (ulong num) i 10 0 params)
          (at in_num_value false tok [] (ulong (value_of num ds)) j 10 0 params)
  Reads-digits num i [] h = (i, read_end)
  Reads-digits num i (d ∷ ds) (p, h) =
      let (j, e) = Reads-digits (num * 10 + d) (i + 1) ds h in
      (j, read_char (step-digit num i d p) e)
