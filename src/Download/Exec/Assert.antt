-- ===== src/Download/Exec/Assert.antt =====
-- An assertion of status words in a script, and the APDU before it.
use android_vendor_tms.Prelude.{
  ℕ, ◌+◌, ◌-◌, ◌≤◌, ◌<◌, Bool, true, false, ◌&&◌, Option, none, some, List, [], ◌∷◌, ◌++◌, ◌≡◌,
  ◌==◌, refl, if◌then◌else◌, length, length-append, drop, leb, arith,
}
use android_vendor_tms.Prelude.Outcome.{returned}
use android_vendor_tms.Ese.Types.{success, fatal_error, is_success, byte_at}
use android_vendor_tms.Download.Hex.Laws.{print_hex, cstr2hex-print_hex}
use android_vendor_tms.Download.Script.{dl_cmd_7816_4_apdu, dl_cmd_assert, same_type, VtpDlCmd}
use android_vendor_tms.Download.Exec.Result.{try_exec_cmd-apdu, type-differs}
use android_vendor_tms.Download.Exec.{
  is_9000, check_assert, DlOp, TmsPh, try_exec_cmd, exec_apdu, exec_cmds,
}

drop-append : {A : Type 0} (xs ys : List A) → drop (length xs) (xs ++ ys) ≡ ys
drop-append [] ys = refl
drop-append (x ∷ xs) ys = drop-append xs ys

length-print_hex : (a b : ℕ) → length (print_hex (a ∷ b ∷ [])) ≡ 4
unfolding print_hex
length-print_hex a b = refl

-- The status words at the end of a response are these.
abbrev pub has_sw : List ℕ → ℕ → ℕ → Bool
has_sw rsp sw1 sw2 = sw1 == byte_at rsp (length rsp - 2) && sw2 == byte_at rsp (length rsp - 1)

-- The length of a text that ends with the digits of two bytes.
length-digits :
    (text : List ℕ) (a b : ℕ) → length (text ++ print_hex (a ∷ b ∷ [])) ≡ length text + 4
length-digits text a b =
    omega (arith, length-append text (print_hex (a ∷ b ∷ [])), length-print_hex a b)

check_assert-digits :
    (text rsp : List ℕ) (a b : ℕ)
    → a < 256
    → b < 256
    → 2 ≤ length rsp
    → check_assert (text ++ print_hex (a ∷ b ∷ [])) rsp
      ≡ (if has_sw rsp a b then success else fatal_error)
unfolding check_assert
check_assert-digits text rsp a b ha hb h =
    let read = (cstr2hex-print_hex (a ∷ b ∷ []) 0 (ha, (hb, tt))).0 in
    let n = length-digits text a b in
    let start : length text + 4 - 4 ≡ length text = omega arith in
    let long : (length text + 4 == 1) ≡ false = ground arith in
    let enough : leb 2 (length rsp) ≡ true = ground arith in
    let four : leb 4 (length text + 4) ≡ true = ground arith in
    rw (n, start, drop-append text (print_hex (a ∷ b ∷ [])), read, long, enough, four) refl

module _ {D : Type 0} (ph : TmsPh D) where
  abbrev pub response : VtpDlCmd → DlOp D → List ℕ
  response c op = (ph.exec_cmd op.world c.cmd op.rsp).2

  -- An APDU whose response does not end with 90 00.
  apdu_refused :
      (c : VtpDlCmd) (op : DlOp D)
      → 2 ≤ length (response c op)
      → is_9000 (response c op) ≡ false
      → (exec_apdu ph c op).0.do_chk_cmd_rsp ≡ true
  apdu_refused c op h bad =
      let st = is_success (ph.exec_cmd op.world c.cmd op.rsp).1 in
      let long : leb 2 (length (response c op)) ≡ true = ground arith in
      rw (long, bad) (ground arith)

  try_exec_cmd-assert :
      (c : VtpDlCmd) (op : DlOp D)
      → c.cmd_type ≡ dl_cmd_assert
      → op.do_chk_cmd_rsp ≡ true
      → try_exec_cmd ph c op
        ≡ returned (
          record { world = op.world; rsp = op.rsp; do_chk_cmd_rsp = false },
          check_assert c.cmd op.rsp,
        )
  unfolding try_exec_cmd same_type
  try_exec_cmd-assert c op e f = rw (e, f) refl

  -- The state after an assertion.
  abbrev pub asserted : VtpDlCmd → DlOp D → DlOp D
  asserted c op = record {
    world = (exec_apdu ph c op).0.world;
    rsp = response c op;
    do_chk_cmd_rsp = false;
  }

  -- An APDU whose response does not end with 90 00, followed by an assertion whose text ends with
  -- the four digits of two status words: the commands behind are run, as after a success, exactly
  -- where the response ends with these status words, and a fatal error stops them otherwise.
  pub exec_cmds-assert :
      (c a : VtpDlCmd) (cs : List VtpDlCmd) (op : DlOp D) (pre : Option VtpDlCmd) (text : List ℕ)
      (sw1 sw2 : ℕ)
      → same_type dl_cmd_7816_4_apdu c.cmd_type ≡ true
      → a.cmd_type ≡ dl_cmd_assert
      → a.cmd ≡ text ++ print_hex (sw1 ∷ sw2 ∷ [])
      → sw1 < 256
      → sw2 < 256
      → 2 ≤ length (response c op)
      → is_9000 (response c op) ≡ false
      → exec_cmds ph none (c ∷ a ∷ cs) op success pre
        ≡ exec_cmds ph none cs
            (asserted c op)
            (if has_sw (response c op) sw1 sw2 then success else fatal_error)
            (some c)
  unfolding exec_cmds
  exec_cmds-assert c a cs op pre text sw1 sw2 e f g h1 h2 h bad =
      let refused = apdu_refused c op h bad in
      let checked = try_exec_cmd-assert a (exec_apdu ph c op).0 f refused in
      let words = check_assert-digits text (response c op) sw1 sw2 h1 h2 h in
      rw
        (
          try_exec_cmd-apdu ph c op e,
          type-differs ph c dl_cmd_7816_4_apdu e refl,
          checked,
          f,
          g,
          words,
        )
        refl
