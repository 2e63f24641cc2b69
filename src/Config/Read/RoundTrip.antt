-- ===== src/Config/Read/RoundTrip.antt =====
-- The reader reads back the settings that are written in a file.
use android_vendor_tms.Prelude.{
  Every, ℕ, ◌+◌, ◌*◌, ◌≤◌, true, false, List, [], ◌∷◌, ◌++◌, ◌≡◌, refl, sym, ap, subst, ◌∙◌, ◌==◌,
  if_true, if_false, arith,
}
use mathlib.Core.List.{append_assoc}
use android_vendor_tms.Prelude.Outcome.{returned, ◌>>=◌}
use android_vendor_tms.Download.Script.{c_str}
use android_vendor_tms.Config.Names.{is_digit}
use android_vendor_tms.Config.Store.{CNfcParam, str_param, num_param, add}
use android_vendor_tms.Config.Read.{
  begin_line, in_str_value, in_num_value, begin_quote, Reader, ulong, step_begin_quote, step, steps,
}
use android_vendor_tms.Config.Read.Print.{
  Value, text, decimal, bytes, Setting, assign, ValueOk, SettingOk, print_value, print_setting,
  print_settings, value_of, param_of, add_all,
}
use android_vendor_tms.Config.Read.Steps.{
  at, Reads, read_end, read_char, Reads-append, steps-Reads, Reads-token, Reads-text, Reads-digits,
  steps-first, steps-named, is_digit_decimal, get_digit_value_decimal,
}
use android_vendor_tms.Config.Store.Place.{Sorted}
use android_vendor_tms.Config.Store.Lookup.{add-Sorted}
use android_vendor_tms.Config.Names.{contains}
use android_vendor_tms.Download.Script.{codes}
use android_vendor_tms.Config.Read.Values.{
  Begins, c_str-name, step-text_end, step-line_end, step-number_end, step-bytes_end, Reads-bytes,
}

-- The first digit of a decimal number.
step-decimal :
    (file tok : List ℕ) (i base d : ℕ) (l : List CNfcParam)
    → 1 ≤ d
    → d ≤ 9
    → step file (at begin_quote false tok [] 0 i base 0 l) (d + b'0')
      ≡ returned (at in_num_value false tok [] (ulong d) 0 10 0 l)
unfolding step step_begin_quote
step-decimal file tok i base d l h k =
    let not_quote : (d + b'0' == b'"') ≡ false = ground arith in
    let not_zero : (d + b'0' == b'0') ≡ false = ground arith in
    let small : d ≡ ulong d = omega arith in
    ap returned (
      if_false _ _ _ not_quote
      ∙ if_false _ _ _ not_zero
      ∙ if_true _ _ _ (is_digit_decimal d k)
      ∙ ap (λ n. at in_num_value false tok [] n 0 10 0 l) (get_digit_value_decimal d k ∙ small))

step-quote :
    (file tok : List ℕ) (i base : ℕ) (l : List CNfcParam)
    → step file (at begin_quote false tok [] 0 i base 0 l) b'"'
      ≡ returned (at in_str_value false tok [] 0 i 0 0 l)
unfolding step step_begin_quote
step-quote file tok i base l = refl

step-open :
    (file tok : List ℕ) (i base : ℕ) (l : List CNfcParam)
    → step file (at begin_quote false tok [] 0 i base 0 l) b'{'
      ≡ returned (at in_num_value true tok [] 0 0 16 1 l)
unfolding step step_begin_quote is_digit
step-open file tok i base l = refl

-- The value of a setting, from the '=' on.
module _ (file name : List ℕ) (l l' : List CNfcParam) (i base : ℕ) where
  Reads-value :
      (c : ℕ) (cs : List ℕ) (v : Value)
      → ValueOk v
      → c_str name ≡ c ∷ cs
      → add file (param_of (assign c cs v)) l ≡ returned l'
      → (s : Reader) × Reads file
          (print_value v ++ b'\n' ∷ [])
          (at begin_quote false name [] 0 i base 0 l)
          s
        × Begins l' s
  Reads-value c cs (text t) ok e h =
      let h' : add file (str_param (c_str name) (t ++ 0 ∷ [])) l ≡ returned l' =
        ap (λ n. add file (str_param n (t ++ 0 ∷ [])) l) e ∙ h in
      (
        at begin_line false name (t ++ 0 ∷ []) 0 i 0 0 l',
        read_char (step-quote file name i base l) (
            subst
              (λ xs.
                Reads file xs (at in_str_value false name [] 0 i 0 0 l)
                  (at begin_line false name (t ++ 0 ∷ []) 0 i 0 0 l'))
              (sym (append_assoc t (b'"' ∷ []) (b'\n' ∷ [])))
              (Reads-append (Reads-text file 0 0 l name [] i t ok) (
                read_char (step-text_end file name l l' t i 0 h')
                  (read_char (step-line_end file name l l' (t ++ 0 ∷ []) i 0) read_end)))),
        (name, t ++ 0 ∷ [], i, 0, refl),
      )
  Reads-value c cs (decimal d ds) (p, q, ok) e h =
      let (j, digits) = Reads-digits file name l d 0 ds ok in
      let first : value_of d ds ≡ value_of 0 (d ∷ ds) =
        ap (λ n. value_of n ds) (let z : d ≡ 0 * 10 + d = omega arith in z) in
      let h' : add file (num_param (c_str name) (ulong (value_of d ds))) l ≡ returned l' =
        ap (λ n. add file (num_param n (ulong (value_of d ds))) l) e
        ∙ ap (λ n. add file (num_param (c ∷ cs) (ulong n)) l) first
        ∙ h in
      (
        at begin_line false name [] 0 j 10 0 l',
        read_char (step-decimal file name i base d l p q) (
            Reads-append digits
              (read_char (step-number_end file name l l' (ulong (value_of d ds)) j h') read_end)),
        (name, [], j, 10, refl),
      )
  Reads-value c cs (bytes b bs) (p, ok) e h =
      let h' : add file (str_param (c_str name) (b ∷ bs)) l ≡ returned l' =
        ap (λ n. add file (str_param n (b ∷ bs)) l) e ∙ h in
      (
        at begin_line false name [] 0 0 16 0 l',
        read_char (step-open file name i base l) (
            Reads-append (Reads-bytes file name [] l b bs p ok)
              (read_char (step-bytes_end file name l l' b bs h') read_end)),
        (name, [], 0, 16, refl),
      )

Reads-setting :
    (file : List ℕ) (s : Setting) (r : Reader) (l l' : List CNfcParam)
    → SettingOk s
    → Begins l r
    → add file (param_of s) l ≡ returned l'
    → (t : Reader) × Reads file (print_setting s) r t × Begins l' t
Reads-setting file (assign c cs v) r l l' (p, ps, ok) (tok, str, i, base, e) h =
    let name = c ∷ (cs ++ 0 ∷ []) in
    let (t, value, begins) =
      Reads-value file name l l' 0 base c cs v ok (c_str-name (c ∷ cs) (p, ps)) h in
    (
      t,
      subst (λ u. Reads file (print_setting (assign c cs v)) u t) (sym e)
          (read_char (steps-first file tok str 0 i base l c p) (
            Reads-append (Reads-token file 0 base l (c ∷ []) [] 0 cs ps)
              (read_char (steps-named file (c ∷ cs) [] 0 0 base l) value))),
      begins,
    )

Reads-settings :
    (file : List ℕ) (settings : List Setting) (r : Reader) (l : List CNfcParam)
    → contains (codes "tmsTransit") file ≡ false
    → Every SettingOk settings
    → Begins l r
    → Sorted l
    → (t : Reader) × (l' : List CNfcParam) × Reads file (print_settings settings) r t
      × Begins l' t
      × (add_all file settings l ≡ returned l')
      × Sorted l'
unfolding print_settings add_all
Reads-settings file [] r l h ok begins sorted = (r, l, read_end, begins, refl, sorted)
Reads-settings file (s ∷ settings) r l h (p, ok) begins sorted =
    let (l₁, e, sorted₁) = add-Sorted file (param_of s) l h sorted in
    let (t₁, reads₁, begins₁) = Reads-setting file s r l l₁ p begins e in
    let (t, l', reads, begins', all, sorted') =
      Reads-settings file settings t₁ l₁ h ok begins₁ sorted₁ in
    (
      t,
      l',
      Reads-append reads₁ reads,
      begins',
      ap (λ o. o >>= λ rest. add_all file settings rest) e ∙ all,
      sorted',
    )

-- Where the current file is not the transit file and the settings that were read before are sorted,
-- reading a file in which settings are written, each in a line and with a text, a decimal number or
-- bytes in braces as its value, ends in a sorted list, which is the list before with these settings
-- added in their order.
pub steps-print_settings :
    (file : List ℕ) (settings : List Setting) (r : Reader) (l : List CNfcParam)
    → contains (codes "tmsTransit") file ≡ false
    → Every SettingOk settings
    → Begins l r
    → Sorted l
    → (t : Reader) × (steps file (print_settings settings) r ≡ returned t)
      × (add_all file settings l ≡ returned t.m_list)
      × Sorted t.m_list
steps-print_settings file settings r l h ok begins sorted =
    let (t, l', reads, (_, _, _, _, e), all, sorted') =
      Reads-settings file settings r l h ok begins sorted in
    let same : l' ≡ t.m_list = sym (ap (λ u. u.m_list) e) in
    (t, steps-Reads reads, all ∙ ap returned same, subst Sorted same sorted')
