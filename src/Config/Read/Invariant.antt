-- ===== src/Config/Read/Invariant.antt =====
-- The reader keeps the list of the settings sorted, whatever the text is.
use android_vendor_tms.Prelude.{
  ◌+◌, ◌/◌, sym, ℕ, false, not, ◌&&◌, ◌||◌, List, [], ◌∷◌, ◌≡◌, subst, ◌==◌, ltb, if-keeps,
}
use android_vendor_tms.Prelude.Outcome.{Ensures, bind-Ensures, then-Ensures, if-Ensures}
use android_vendor_tms.Download.Script.{codes}
use android_vendor_tms.Config.Names.{contains, is_printable, is_digit}
use android_vendor_tms.Config.Store.{CNfcParam, add}
use android_vendor_tms.Config.Store.Place.{Sorted}
use android_vendor_tms.Config.Store.Lookup.{add-Sorted}
use android_vendor_tms.Config.Read.{
  ReadState, begin_line, in_token, in_str_value, in_num_value, begin_hex, begin_quote, end_line,
  Reader, is_line_end, is_blank, is_separator, step_begin_line, step_token, step_begin_quote,
  step_begin_hex, step_num_value, step_str_value, step_end_line, push_shifted, separator,
  after_value, end_value, step_in, step, steps,
}

add-Ensures :
    (file : List ℕ) (p : CNfcParam) (params : List CNfcParam)
    → contains (codes "tmsTransit") file ≡ false
    → Sorted params
    → Ensures Sorted (add file p params)
add-Ensures file p params h s =
    let (l, e, sorted) = add-Sorted file p params h s in subst (Ensures Sorted) (sym e) sorted

-- The settings of the reader are sorted.
abbrev Settings : Reader → Type 0
Settings r = Sorted r.m_list

step_begin_line-Settings : (r : Reader) (c : ℕ) → Settings r → Settings (step_begin_line r c)
unfolding step_begin_line
step_begin_line-Settings r c h =
    if-keeps Settings (c == b'#') _ _ h (if-keeps Settings (is_printable c) _ _ h h)

step_token-Settings : (r : Reader) (c : ℕ) → Settings r → Settings (step_token r c)
unfolding step_token
step_token-Settings r c h =
    if-keeps Settings (c == b'=') _ _ h (if-keeps Settings (is_printable c) _ _ h h)

step_begin_quote-Settings : (r : Reader) (c : ℕ) → Settings r → Settings (step_begin_quote r c)
unfolding step_begin_quote
step_begin_quote-Settings r c h = if-keeps Settings (c == b'"') _ _ h (
    if-keeps Settings (c == b'0') _ _ h
      (if-keeps Settings (is_digit c 10) _ _ h (if-keeps Settings (c == b'{') _ _ h h)))

step_end_line-Settings : (r : Reader) (c : ℕ) → Settings r → Settings (step_end_line r c)
unfolding step_end_line
step_end_line-Settings r c h = if-keeps Settings (is_line_end c) _ _ h h

separator-Settings : (r : Reader) (c : ℕ) → Settings r → Ensures Settings (separator r c)
unfolding separator
separator-Settings r c h =
    if-Ensures Settings (ltb 0 r.i) _ _
      (λ _. bind-Ensures Settings (push_shifted ((r.i + 1) / 2) r.num_value r.str_value) _ (λ _. h))
      (λ _. h)

after_value-Settings : (r : Reader) (c : ℕ) → Settings r → Settings (after_value r c)
after_value-Settings r c h =
    if-keeps Settings (r.bflag == 0) _ _ (if-keeps Settings (is_line_end c) _ _ h h) h

module _ (file : List ℕ) (ok : contains (codes "tmsTransit") file ≡ false) where
  end_value-Settings : (r : Reader) (c : ℕ) → Settings r → Ensures Settings (end_value file r c)
  unfolding end_value
  end_value-Settings r c h = bind-Ensures Settings _ _ (λ str.
      then-Ensures Sorted Settings _ _ (add-Ensures file _ _ ok (after_value-Settings r c h))
        (λ params s. s))

  step_num_value-Settings :
      (r : Reader) (c : ℕ) → Settings r → Ensures Settings (step_num_value file r c)
  unfolding step_num_value
  step_num_value-Settings r c h =
      if-Ensures Settings (is_digit c r.base) _ _ (λ _. h)
        (λ _.
          if-Ensures Settings (r.bflag == 1 && is_blank c) _ _ (λ _. h)
            (λ _.
              if-Ensures Settings (r.base == 16 && is_separator c) _ _
                (λ _. separator-Settings r c h) (λ _. end_value-Settings r c h)))

  step_begin_hex-Settings :
      (r : Reader) (c : ℕ) → Settings r → Ensures Settings (step_begin_hex file r c)
  unfolding step_begin_hex
  step_begin_hex-Settings r c h =
      if-Ensures Settings (c == b'x' || c == b'X') _ _ (λ _. h)
        (λ _.
          if-Ensures Settings (is_digit c 10) _ _ (λ _. h)
            (λ _.
              if-Ensures Settings (not (is_line_end c)) _ _ (λ _. h)
                (λ _. step_num_value-Settings r c h)))

  step_str_value-Settings :
      (r : Reader) (c : ℕ) → Settings r → Ensures Settings (step_str_value file r c)
  unfolding step_str_value
  step_str_value-Settings r c h =
      if-Ensures Settings (c == b'"') _ _
        (λ _. then-Ensures Sorted Settings _ _ (add-Ensures file _ _ ok h) (λ params s. s))
        (λ _. if-Ensures Settings (is_printable c) _ _ (λ _. h) (λ _. h))

  step_in-Settings :
      (state : ReadState) (r : Reader) (c : ℕ)
      → Settings r
      → Ensures Settings (step_in state file r c)
  unfolding step_in
  step_in-Settings begin_line r c h = step_begin_line-Settings r c h
  step_in-Settings in_token r c h = step_token-Settings r c h
  step_in-Settings begin_quote r c h = step_begin_quote-Settings r c h
  step_in-Settings begin_hex r c h = step_begin_hex-Settings r c h
  step_in-Settings in_num_value r c h = step_num_value-Settings r c h
  step_in-Settings in_str_value r c h = step_str_value-Settings r c h
  step_in-Settings end_line r c h = step_end_line-Settings r c h

  -- Where the current file is not the transit file, the settings stay sorted, whatever is read.
  pub steps-Settings :
      (text : List ℕ) (r : Reader)
      → Sorted r.m_list
      → Ensures (λ s. Sorted s.m_list) (steps file text r)
  unfolding steps step
  steps-Settings [] r h = h
  steps-Settings (c ∷ text) r h =
      then-Ensures Settings Settings (step_in r.state file r c) _ (step_in-Settings r.state r c h)
        (λ s k. steps-Settings text s k)
