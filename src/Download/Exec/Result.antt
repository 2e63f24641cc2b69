-- ===== src/Download/Exec/Result.antt =====
-- What a download reports: without a section for the chip, after failed APDUs, and where it stops.
use android_vendor_tms.Prelude.{
  ℕ, true, false, Option, none, some, List, [], ◌∷◌, ◌≡◌, ◌≢◌, refl, if◌then◌else◌, arith,
  Bool-cases, inl, inr,
}
use android_vendor_tms.Prelude.Outcome.{
  returned, Ensures, Ensures-returned, bind-Ensures, then-Ensures, if-Ensures,
}
use android_vendor_tms.Ese.Types.{EseStatus, success, is_success}
use android_vendor_tms.Download.Script.{
  DlCmdType, dl_cmd_7816_4_apdu, dl_cmd_nci, dl_cmd_sleep, dl_cmd_assert, same_type, VtpDlCmd,
  c_str, ChipInfo, section_of, init_chip_info_cmds, check_format, get_cmds_head,
}
use android_vendor_tms.Download.Exec.{
  or_junk, select_cmds, exec_apdu, exec_nci, exec_assert, DlOp, TmsPh, try_exec_cmd, Executed,
  is_end, exec_cmds, exec_bin_cmds, try_pt2_se_bl, download_cmds, vtp_bin_download,
}

module _ {D : Type 0} (ph : TmsPh D) where
  -- For a chip of no known type and key, or with a COS that has no patches here, vtpBinDownload of a
  -- script that has a command runs none of its commands, leaves the device as it is, and reports
  -- a success.
  pub vtp_bin_download-no_section :
      (c : VtpDlCmd) (cs : List VtpDlCmd) (chip : ChipInfo) (d : D) (rsp : Option (List ℕ))
      → section_of chip ≡ none
      → vtp_bin_download ph false (c ∷ cs) (some chip) d rsp ≡ returned (d, success, some chip)
  unfolding vtp_bin_download try_pt2_se_bl download_cmds exec_bin_cmds get_cmds_head check_format
      init_chip_info_cmds exec_cmds
  vtp_bin_download-no_section c cs chip d rsp e = rw e refl

  -- The invariant of the loop: after a failure, and while an assertion would be looked at, a command
  -- before is known.
  abbrev Known : DlOp D → EseStatus → Option VtpDlCmd → Type 0
  Known op st pre = (is_success st ≡ false → pre ≢ none) × (op.do_chk_cmd_rsp ≡ true → pre ≢ none)

  abbrev next_pre : VtpDlCmd → Option VtpDlCmd → Option VtpDlCmd
  next_pre c pre = if same_type dl_cmd_assert c.cmd_type then pre else some c

  abbrev KnownNext : VtpDlCmd → Option VtpDlCmd → DlOp D × EseStatus → Type 0
  KnownNext c pre r = Known r.0 r.1 (next_pre c pre)

  some-none : (c : VtpDlCmd) → some c ≢ none
  some-none c e = ground arith

  Known-some : (op : DlOp D) (st : EseStatus) (c : VtpDlCmd) → Known op st (some c)
  Known-some op st c = ((λ e. some-none c), (λ e. some-none c))

  -- A command that is no assertion is known itself.
  Known-command :
      (c : VtpDlCmd) (pre : Option VtpDlCmd) (r : DlOp D × EseStatus)
      → same_type dl_cmd_assert c.cmd_type ≡ false
      → KnownNext c pre r
  Known-command c pre (op, st) e = rw e (Known-some op st c)

  Known-start :
      (d : D) (rsp : List ℕ)
      → Known (record { world = d; rsp = rsp; do_chk_cmd_rsp = false }) success none
  Known-start d rsp = ((λ e. ground arith), (λ e. ground arith))

  exec_assert-Known :
      (c : VtpDlCmd) (op : DlOp D) (pre : Option VtpDlCmd)
      → Known op success pre
      → same_type dl_cmd_assert c.cmd_type ≡ true
      → KnownNext c pre (exec_assert ph c op)
  exec_assert-Known c op pre (k, a) e = rw e (elim (Bool-cases op.do_chk_cmd_rsp) [
    | inl d ↦ rw d ((λ e. a d), (λ e. ground arith))
    | inr d ↦ rw d ((λ e. ground arith), (λ e. ground arith))
  ])

  pub type-differs :
      (c : VtpDlCmd) (t : DlCmdType)
      → same_type t c.cmd_type ≡ true
      → same_type dl_cmd_assert t ≡ false
      → same_type dl_cmd_assert c.cmd_type ≡ false
  unfolding same_type
  type-differs c t e f = ground arith

  try_exec_cmd-Known :
      (c : VtpDlCmd) (op : DlOp D) (pre : Option VtpDlCmd)
      → Known op success pre
      → Ensures (KnownNext c pre) (try_exec_cmd ph c op)
  unfolding try_exec_cmd same_type
  try_exec_cmd-Known c op pre k =
      if-Ensures P (same_type dl_cmd_7816_4_apdu c.cmd_type) _ _
        (λ e. command (exec_apdu ph c op) (type-differs c dl_cmd_7816_4_apdu e refl))
        (λ _.
          if-Ensures P (same_type dl_cmd_nci c.cmd_type) _ _
            (λ e. command (exec_nci ph c op) (type-differs c dl_cmd_nci e refl))
            (λ _.
              if-Ensures P (same_type dl_cmd_sleep c.cmd_type) _ _
                (λ e.
                  if-Ensures P (ph.is_number (c_str c.cmd)) _ _
                    (λ _. command (op, success) (type-differs c dl_cmd_sleep e refl)) (λ _. tt))
                (λ _.
                  if-Ensures P (same_type dl_cmd_assert c.cmd_type) _ _
                    (exec_assert-Known c op pre k) (command (op, success)))))
    where
      P : DlOp D × EseStatus → Type 0
      P = KnownNext c pre

      command : (r : DlOp D × EseStatus) → same_type dl_cmd_assert c.cmd_type ≡ false → P r
      command r e = Known-command c pre r e

  abbrev Stopped : Executed {D = D} ph → Type 0
  Stopped e = e.res ≡ false → e.pre_cmd ≢ none

  exec_cmds-Stopped :
      (stop : Option DlCmdType) (cs : List VtpDlCmd) (op : DlOp D) (st : EseStatus)
      (pre : Option VtpDlCmd)
      → Known op st pre
      → Ensures Stopped (exec_cmds ph stop cs op st pre)
  unfolding exec_cmds
  exec_cmds-Stopped stop [] op st pre k = λ e. ground arith
  exec_cmds-Stopped stop (c ∷ cs) op st pre k =
      if-Ensures Stopped (is_end ph stop c) _ _ (λ _ e. ground arith)
        (λ _.
          if-Ensures Stopped (is_success st) _ _
            (λ e.
              then-Ensures (KnownNext c pre) Stopped (try_exec_cmd ph c op) _
                (try_exec_cmd-Known c op pre ((λ f. ground arith), k.1))
                (λ r n. exec_cmds-Stopped stop cs r.0 r.1 (next_pre c pre) n))
            (λ e _. k.0 e))

  -- Where execBinCmds reports that it stopped before the end of the commands, it has given out a
  -- command, so that vtpBinDownload, which looks at the text of that command, does not read
  -- through a null pointer.
  pub exec_bin_cmds-pre_cmd :
      (sc : List VtpDlCmd) (chip : Option ChipInfo) (d : D) (rsp : Option (List ℕ))
      (e : Executed ph)
      → exec_bin_cmds ph sc chip d rsp ≡ returned e
      → e.res ≡ false
      → e.pre_cmd ≢ none
  unfolding exec_bin_cmds
  exec_bin_cmds-pre_cmd sc chip d rsp e h =
      Ensures-returned Stopped (exec_bin_cmds ph sc chip d rsp) e
        (bind-Ensures {A = Option DlCmdType × List VtpDlCmd} Stopped (select_cmds ph chip sc) _
          (λ r. exec_cmds-Stopped r.0 r.1 _ success none (Known-start d (or_junk ph rsp))))
        h

  -- Every command is an APDU.
  abbrev pub Apdus : List VtpDlCmd → Type 0
  Apdus [] = Unit
  Apdus (c ∷ cs) = (same_type dl_cmd_7816_4_apdu c.cmd_type ≡ true) × Apdus cs

  -- The device and the response after the commands, one after the other.
  unfoldable pub run_all : List VtpDlCmd → D → List ℕ → D × List ℕ
  run_all [] d rsp = (d, rsp)
  run_all (c ∷ cs) d rsp = let (d', st, rsp') = ph.exec_cmd d c.cmd rsp in run_all cs d' rsp'

  -- What the loop ends with where it comes to its end with a success.
  abbrev pub EndsWith : D × List ℕ → Executed {D = D} ph → Type 0
  EndsWith run e = (e.status ≡ success) × (e.res ≡ true) × (e.op.world ≡ run.0) × (e.op.rsp ≡ run.1)

  pub try_exec_cmd-apdu :
      (c : VtpDlCmd) (op : DlOp D)
      → same_type dl_cmd_7816_4_apdu c.cmd_type ≡ true
      → try_exec_cmd ph c op ≡ returned (exec_apdu ph c op)
  unfolding try_exec_cmd
  try_exec_cmd-apdu c op e = rw e refl

  exec_cmds-Apdus :
      (cs : List VtpDlCmd) (op : DlOp D) (pre : Option VtpDlCmd)
      → Apdus cs
      → (e : Executed ph) × (exec_cmds ph none cs op success pre ≡ returned e)
        × EndsWith (run_all cs op.world op.rsp) e
  unfolding exec_cmds run_all
  exec_cmds-Apdus [] op pre v = (_, refl, (refl, refl, refl, refl))
  exec_cmds-Apdus (c ∷ cs) op pre (e, v) =
      rw (try_exec_cmd-apdu c op e, type-differs c dl_cmd_7816_4_apdu e refl)
        (exec_cmds-Apdus cs (exec_apdu ph c op).0 (some c) v)

  -- Without an assertion a failure has no effect: a script of APDUs alone, for a download without a
  -- chip, ends with a success after the last command, whatever the statuses of the device and the
  -- status words are, and the device has run every command, one after the other.
  pub exec_bin_cmds-Apdus :
      (sc : List VtpDlCmd) (d : D) (rsp : Option (List ℕ))
      → Apdus sc
      → (e : Executed ph) × (exec_bin_cmds ph sc none d rsp ≡ returned e)
        × EndsWith (run_all sc d (or_junk ph rsp)) e
  unfolding exec_bin_cmds
  exec_bin_cmds-Apdus sc d rsp v =
      exec_cmds-Apdus sc (record { world = d; rsp = or_junk ph rsp; do_chk_cmd_rsp = false }) none v
