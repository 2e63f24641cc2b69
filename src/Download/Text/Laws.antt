-- ===== src/Download/Text/Laws.antt =====
-- Scripts in plain text are run like the others, and the end of a name is compared.
use native.Mathlib.Decide.{ℕ_discrete}
use android_vendor_tms.Prelude.{
  take, ==_self, length-append, ap, ltb, ◌∙◌, ◌↔◌, ◌++◌, ℕ, zero, suc, ◌+◌, ◌-◌, ◌≤◌, ◌<◌, true,
  false, Option, none, some, List, [], ◌∷◌, ◌≡◌, ◌==◌, refl, subst, if◌then◌else◌, length, drop,
  get_or, Bool-cases, inl, inr, arith,
}
use android_vendor_tms.Prelude.Outcome.{Outcome, returned, fault, unfinished, ◌>>=◌}
use android_vendor_tms.Ese.Types.{EseStatus, is_success}
use android_vendor_tms.Download.Script.{dl_cmd_assert, same_type, VtpDlCmd}
use android_vendor_tms.Download.Exec.{DlOp, TmsPh, try_exec_cmd, Executed, exec_cmds}
use android_vendor_tms.Download.Text.{exec_txt_cmds, same_end, is_end_with}

module _ {D : Type 0} (ph : TmsPh D) where
  -- The state and the status at the end of the loop of execBinCmds.
  abbrev pub ended : Executed ph → Outcome (DlOp D × EseStatus)
  ended e = returned (e.op, e.status)

  exec_cmds-failed :
      (cs : List VtpDlCmd) (op : DlOp D) (st : EseStatus) (pre : Option VtpDlCmd)
      → is_success st ≡ false
      → (exec_cmds ph none cs op st pre >>= ended) ≡ returned (op, st)
  unfolding exec_cmds
  exec_cmds-failed [] op st pre e = refl
  exec_cmds-failed (c ∷ cs) op st pre e = rw e refl

  -- The loop of vtpTxtDownload, which stops behind a command that fails, and the loop of execBinCmds
  -- without a section, which notices the failure in the next round, end in the same state and with
  -- the same status for every list of commands.
  pub exec_txt_cmds-exec_cmds :
      (cs : List VtpDlCmd) (op : DlOp D) (st : EseStatus) (pre : Option VtpDlCmd)
      → is_success st ≡ true
      → exec_txt_cmds ph cs op st ≡ (exec_cmds ph none cs op st pre >>= ended)
  unfolding exec_txt_cmds exec_cmds
  exec_txt_cmds-exec_cmds [] op st pre e = refl
  exec_txt_cmds-exec_cmds (c ∷ cs) op st pre e =
      rw e
        (after_cmd (λ op' st' s. exec_txt_cmds-exec_cmds cs op' st' pre' s) (try_exec_cmd ph c op))
    where
      pre' : Option VtpDlCmd
      pre' = if same_type dl_cmd_assert c.cmd_type then pre else some c

      after_cmd :
          ((op' : DlOp D) (st' : EseStatus)
            → is_success st' ≡ true
            → exec_txt_cmds ph cs op' st' ≡ (exec_cmds ph none cs op' st' pre' >>= ended))
          → (o : Outcome (DlOp D × EseStatus))
          → (o >>= λ r. (if is_success r.1 then exec_txt_cmds ph cs r.0 r.1 else returned r))
            ≡ ((o >>= λ r. exec_cmds ph none cs r.0 r.1 pre') >>= ended)
      after_cmd ih fault = refl
      after_cmd ih unfinished = refl
      after_cmd ih (returned (op', st')) = elim (Bool-cases (is_success st')) [
        | inl s ↦ rw s (ih op' st' s)
        | inr s ↦ rw (s, exec_cmds-failed cs op' st' pre' s) refl
      ]

-- The elements from two places on, one by one.
SameFrom : ℕ → ℕ → List ℕ → List ℕ → Type 0
SameFrom n k str end_str = (j : ℕ) → j < n → get_or str (k + j) 0 ≡ get_or end_str j 0

-- One round, which compares the places `n` behind.
same_end-suc :
    (n k : ℕ) (str end_str : List ℕ)
    → suc n ≤ length end_str
    → length str ≡ k + length end_str
    → same_end (suc n) str end_str
      ≡ (if get_or str (k + n) 0 == get_or end_str n 0 then same_end n str end_str else false)
unfolding same_end
same_end-suc n k str end_str h e =
    let at_str : length str - (length end_str - n) ≡ k + n = omega arith in
    let at_end : length end_str - (length end_str - n) ≡ n = omega arith in rw (at_str, at_end) refl

same_end-SameFrom :
    (n k : ℕ) (str end_str : List ℕ)
    → n ≤ length end_str
    → length str ≡ k + length end_str
    → same_end n str end_str ≡ true
    → SameFrom n k str end_str
unfolding SameFrom
same_end-SameFrom zero k str end_str h e s j l = absurd (omega arith)
same_end-SameFrom (suc n) k str end_str h e s j l =
    let round = same_end-suc n k str end_str h e in
    let same : get_or str (k + n) 0 ≡ get_or end_str n 0 = ground arith in
    let rest : same_end n str end_str ≡ true = ground arith in
    elim (ℕ_discrete j n) [
      | yes f ↦ rw f same
      | no f ↦ same_end-SameFrom n k str end_str (omega arith) e rest j (omega arith)
    ]

SameFrom-drop :
    (k : ℕ) (str end_str : List ℕ)
    → length str ≡ k + length end_str
    → SameFrom (length end_str) k str end_str
    → drop k str ≡ end_str
unfolding SameFrom
SameFrom-drop zero [] [] e s = refl
SameFrom-drop zero [] (d ∷ ds) e s = absurd (omega arith)
SameFrom-drop zero (c ∷ cs) [] e s = absurd (omega arith)
SameFrom-drop zero (c ∷ cs) (d ∷ ds) e s =
    let head : c ≡ d = s 0 (omega arith) in
    let tail = SameFrom-drop 0 cs ds (omega arith) (λ j l.
      let place : 0 + suc j ≡ suc (0 + j) = omega arith in
      subst (λ (i : ℕ). get_or (c ∷ cs) i 0 ≡ get_or ds j 0) place (s (suc j) (omega arith))) in
    rw (head, tail) refl
SameFrom-drop (suc k) [] end_str e s = absurd (omega arith)
SameFrom-drop (suc k) (c ∷ cs) end_str e s = SameFrom-drop k cs end_str (omega arith) (λ j l.
    let place : suc k + j ≡ suc (k + j) = omega arith in
    subst (λ (i : ℕ). get_or (c ∷ cs) i 0 ≡ get_or end_str j 0) place (s j l))

-- What IsEndWith accepts ends with the given text, whole.
is_end_with-drop :
    (str end_str : List ℕ)
    → is_end_with str end_str ≡ true
    → drop (length str - length end_str) str ≡ end_str
unfolding is_end_with
is_end_with-drop str end_str h =
    let k = length str - length end_str in
    let long : length end_str ≤ length str = ground arith in
    let same : same_end (length end_str) str end_str ≡ true = ground arith in
    let size : length str ≡ k + length end_str = omega (arith, long) in
    SameFrom-drop k str end_str size
      (same_end-SameFrom (length end_str) k str end_str (omega arith) size same)

SameFrom-same_end :
    (n k : ℕ) (str end_str : List ℕ)
    → n ≤ length end_str
    → length str ≡ k + length end_str
    → SameFrom n k str end_str
    → same_end n str end_str ≡ true
unfolding SameFrom same_end
SameFrom-same_end zero k str end_str h e s = refl
SameFrom-same_end (suc n) k str end_str h e s =
    let same = s n (omega arith) in
    let rest = SameFrom-same_end n k str end_str (omega arith) e (λ j l. s j (omega arith)) in
    same_end-suc n k str end_str h e ∙ rw (same, ==_self (get_or end_str n 0), rest) refl

get_or-append :
    (pre end_str : List ℕ) (j : ℕ) → get_or (pre ++ end_str) (length pre + j) 0 ≡ get_or end_str j 0
get_or-append [] end_str j = let place : 0 + j ≡ j = omega arith in rw place refl
get_or-append (c ∷ pre) end_str j =
    let place : suc (length pre) + j ≡ suc (length pre + j) = omega arith in
    rw place (get_or-append pre end_str j)

is_end_with-append : (pre end_str : List ℕ) → is_end_with (pre ++ end_str) end_str ≡ true
unfolding is_end_with SameFrom
is_end_with-append pre end_str =
    let size = length-append pre end_str in
    let long : ltb (length (pre ++ end_str)) (length end_str) ≡ false = ground (arith, size) in
    rw long (
      SameFrom-same_end (length end_str) (length pre) (pre ++ end_str) end_str (omega arith) size
        (λ j l. get_or-append pre end_str j))

take-drop : (n : ℕ) (xs : List ℕ) → xs ≡ take n xs ++ drop n xs
take-drop zero xs = refl
take-drop (suc n) [] = refl
take-drop (suc n) (x ∷ xs) = ap (λ (ys : List ℕ). x ∷ ys) (take-drop n xs)

-- IsEndWith accepts exactly the texts that end with the given one.
pub is_end_with_iff :
    (str end_str : List ℕ)
    → (is_end_with str end_str ≡ true) ↔ ((pre : List ℕ) × (str ≡ pre ++ end_str))
is_end_with_iff str end_str = (
  (λ h.
      let k = length str - length end_str in
      let whole = is_end_with-drop str end_str h in
      (take k str, take-drop k str ∙ ap (λ (ys : List ℕ). take k str ++ ys) whole)),
  (λ (pre, e). rw e (is_end_with-append pre end_str)),
)
