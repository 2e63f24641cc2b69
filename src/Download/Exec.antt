-- ===== src/Download/Exec.antt =====
-- Running a download script (tms-cos-dl-common/tmsDlCommonUtils.cpp): tryExecCmd, execApduCmdChkRes,
-- execBinCmds, tryPT2SeBl and vtpBinDownload.
pub mod Section
pub mod Result
pub mod Assert
use android_vendor_tms.Prelude.{
  ℕ, zero, suc, ◌+◌, ◌-◌, Bool, true, false, not, ◌&&◌, ◌||◌, Option, none, some, List, [], ◌∷◌,
  ◌==◌, ltb, leb, if◌then◌else◌, length, drop, get_or,
}
use android_vendor_tms.Prelude.Outcome.{Outcome, returned, fault, unfinished, ◌>>=◌}
use android_vendor_tms.Ese.Types.{
  EseStatus, success, failed, invalid_parameter, fatal_error, is_success, byte_at,
}
use android_vendor_tms.Download.Hex.{cstr2hex, starts_with}
use android_vendor_tms.Download.Script.{
  DlCmdType, dl_cmd_t1, dl_cmd_nci, dl_cmd_7816_4_apdu, dl_cmd_assert, dl_cmd_sleep, same_type,
  codes, same_text, VtpDlCmd, c_str, ChipInfo, init_chip_info_cmds, get_cmds_head,
}

-- The command in progress: the response to the last one, and whether an assertion is looked at.
pub record DlOp (D : Type 0) : Type 0 where
  pub world : D
  pub rsp : List ℕ
  pub do_chk_cmd_rsp : Bool

-- What the code uses of ITmsPhAbs: the function that runs a command, given the text and the last
-- response, with the response afterwards; whether the class is REE, and its reset. `is_number` says
-- that stod reads the text and does not throw, and `junk` is what a new response buffer holds.
pub record TmsPh (D : Type 0) : Type 0 where
  pub exec_cmd : D → List ℕ → List ℕ → D × EseStatus × List ℕ
  pub is_ree : Bool
  pub se_reset : D → D × EseStatus
  pub is_number : List ℕ → Bool
  pub junk : List ℕ

-- The last two bytes of a response are 90 00.
abbrev pub is_9000 : List ℕ → Bool
is_9000 rsp = byte_at rsp (length rsp - 2) == 0x90 && byte_at rsp (length rsp - 1) == 0x00

abbrev is_ignored_nci : List ℕ → Bool
is_ignored_nci cmd = same_text cmd (codes "20000100") || same_text cmd (codes "2001020000")

-- The status words that an assertion names, against the response.
abbrev check_sw : List ℕ → Option (List ℕ) → EseStatus
check_sw rsp none = success
check_sw rsp (some sw) =
    if byte_at sw 0 == byte_at rsp (length rsp - 2) && byte_at sw 1 == byte_at rsp (length rsp - 1)
    then success
    else fatal_error

unfoldable pub check_assert : List ℕ → List ℕ → EseStatus
unfolding cstr2hex
check_assert cmd rsp =
    let sw = check_sw rsp (cstr2hex (drop (length cmd - 4) cmd)) in
    if length cmd == 1
    then if byte_at cmd 0 == b'x' || byte_at cmd 0 == b'X' then success else invalid_parameter
    else if leb 2 (length rsp) && leb 4 (length cmd)
    then sw
    else fatal_error

module _ {D : Type 0} (ph : TmsPh D) where
  -- An APDU that fails leaves the decision to an assertion that follows.
  abbrev pub exec_apdu : VtpDlCmd → DlOp D → DlOp D × EseStatus
  exec_apdu c op =
      let (d, st, rsp) = ph.exec_cmd op.world c.cmd op.rsp in
      let bad = not (is_success st) || (leb 2 (length rsp) && not (is_9000 rsp)) in
      (
        record { world = d; rsp = rsp; do_chk_cmd_rsp = if bad then true else op.do_chk_cmd_rsp },
        success,
      )

  abbrev pub exec_nci : VtpDlCmd → DlOp D → DlOp D × EseStatus
  exec_nci c op =
      let (d, st, rsp) = ph.exec_cmd op.world c.cmd op.rsp in
      if is_ignored_nci (c_str c.cmd)
      then (op, success)
      else (record op { world = d; rsp = rsp }, st)

  abbrev pub exec_assert : VtpDlCmd → DlOp D → DlOp D × EseStatus
  exec_assert c op =
      if op.do_chk_cmd_rsp
      then (record op { do_chk_cmd_rsp = false }, check_assert c.cmd op.rsp)
      else (op, success)

  unfoldable pub try_exec_cmd : VtpDlCmd → DlOp D → Outcome (DlOp D × EseStatus)
  unfolding same_type check_assert same_text c_str
  try_exec_cmd c op =
      if same_type dl_cmd_7816_4_apdu c.cmd_type
      then returned (exec_apdu c op)
      else if same_type dl_cmd_nci c.cmd_type
      then returned (exec_nci c op)
      else if same_type dl_cmd_sleep c.cmd_type
      then if ph.is_number (c_str c.cmd) then returned (op, success) else fault
      else if same_type dl_cmd_assert c.cmd_type
      then returned (exec_assert c op)
      else returned (op, success)

  -- The state after the loop of execBinCmds: the status, whether the loop came to its end, and the
  -- command given out where it did not.
  pub record Executed : Type 0 where
    pub op : DlOp D
    pub status : EseStatus
    pub res : Bool
    pub pre_cmd : Option VtpDlCmd

  abbrev pub is_end : Option DlCmdType → VtpDlCmd → Bool
  is_end none c = false
  is_end (some t) c = same_type t c.cmd_type

  -- The loop. `pre` is the last command before that is no assertion.
  unfoldable pub exec_cmds :
      Option DlCmdType → List VtpDlCmd → DlOp D → EseStatus → Option VtpDlCmd → Outcome Executed
  unfolding try_exec_cmd
  exec_cmds stop [] op st pre =
      returned (record { op = op; status = st; res = true; pre_cmd = none })
  exec_cmds stop (c ∷ cs) op st pre =
      let pre' = if same_type dl_cmd_assert c.cmd_type then pre else some c in
      let rest = try_exec_cmd c op >>= λ r. exec_cmds stop cs r.0 r.1 pre' in
      if is_end stop c
      then returned (record { op = op; status = st; res = true; pre_cmd = none })
      else if is_success st
      then rest
      else returned (record { op = op; status = st; res = false; pre_cmd = pre })

  abbrev head_of : List DlCmdType → Option DlCmdType
  head_of [] = none
  head_of (t ∷ ts) = some t

  -- The section for the chip, or the whole script where no chip is given.
  abbrev pub select_cmds :
      Option ChipInfo → List VtpDlCmd → Outcome (Option DlCmdType × List VtpDlCmd)
  select_cmds none sc = returned (none, sc)
  select_cmds (some c) sc =
      get_cmds_head (init_chip_info_cmds c) sc >>= λ r. returned (head_of r.0, r.1)

  abbrev pub or_junk : Option (List ℕ) → List ℕ
  or_junk none = ph.junk
  or_junk (some rsp) = rsp

  unfoldable pub exec_bin_cmds :
      List VtpDlCmd → Option ChipInfo → D → Option (List ℕ) → Outcome Executed
  unfolding exec_cmds get_cmds_head init_chip_info_cmds
  exec_bin_cmds sc chip d rsp = do
    (stop, cmds) ← select_cmds chip sc
    let op : DlOp D = record { world = d; rsp = or_junk rsp; do_chk_cmd_rsp = false }
    exec_cmds stop cmds op success none

  -- After a status other than success the first of the two rounds goes on to the second.
  abbrev pt2_round : D → List ℕ → D × EseStatus × List ℕ
  pt2_round d rsp = ph.exec_cmd d (codes "00F0FF0200") rsp

  abbrev pt2_reset : D × EseStatus × List ℕ → D × EseStatus × List ℕ
  pt2_reset (d, st, rsp) =
      let (d', st') = ph.se_reset d in
      if not (is_success st)
      then (d, st, rsp)
      else if ph.is_ree
      then (d', st', rsp)
      else (d, st, rsp)

  unfoldable pub try_pt2_se_bl : Bool → D → List ℕ → D × EseStatus × List ℕ
  try_pt2_se_bl needed d rsp =
      let (d1, st1, rsp1) = pt2_round d rsp in
      let again = pt2_round d1 rsp1 in
      if not needed
      then (d, success, rsp)
      else if is_success st1
      then pt2_reset (d1, st1, rsp1)
      else pt2_reset again

  -- The other key.
  abbrev pub other_key : ChipInfo → ChipInfo
  other_key c = record c { chip_key_type = if c.chip_key_type == 0x00 then 0x80 else 0x00 }

  -- The command is an authentication with a key of the chip.
  abbrev pub is_auth : VtpDlCmd → Bool
  is_auth c =
      starts_with (codes "00F20000C601") (c_str c.cmd)
      || starts_with (codes "00F200000000C601") (c_str c.cmd)

  -- A response buffer that the caller gave keeps its content.
  abbrev pub kept : Option (List ℕ) → List ℕ → Option (List ℕ)
  kept none rsp = none
  kept (some _) rsp = some rsp

  -- A run that stopped at an authentication is made again with the other key. A null pointer is read
  -- where no command is known.
  abbrev after_stop :
      List VtpDlCmd
      → ChipInfo
      → Option (List ℕ)
      → Executed
      → Option VtpDlCmd
      → Outcome (Executed × Option ChipInfo)
  after_stop sc chip rsp e none = fault
  after_stop sc chip rsp e (some c) =
      let again = exec_bin_cmds sc (some (other_key chip)) e.op.world (kept rsp e.op.rsp) in
      let run = again >>= λ x. returned (x, some (other_key chip)) in
      if is_auth c then run else returned (e, some chip)

  abbrev try_other_key :
      List VtpDlCmd
      → Option ChipInfo
      → Option (List ℕ)
      → Executed
      → Outcome (Executed × Option ChipInfo)
  try_other_key sc none rsp e = returned (e, none)
  try_other_key sc (some chip) rsp e =
      if e.res then returned (e, some chip) else after_stop sc chip rsp e e.pre_cmd

  -- vtpBinDownload from the parsed script on, which has a command.
  unfoldable pub download_cmds :
      List VtpDlCmd → Option ChipInfo → D → Option (List ℕ) → Outcome (Executed × Option ChipInfo)
  unfolding exec_bin_cmds starts_with same_type c_str
  download_cmds sc chip d rsp = exec_bin_cmds sc chip d rsp >>= try_other_key sc chip rsp

  abbrev pub or_none : Option (List ℕ) → List ℕ
  or_none none = []
  or_none (some rsp) = rsp

  abbrev status_of : Executed × Option ChipInfo → D × EseStatus × Option ChipInfo
  status_of (e, chip) = (e.op.world, e.status, chip)

  abbrev download_parsed :
      List VtpDlCmd
      → Option ChipInfo
      → D
      → Option (List ℕ)
      → Outcome (D × EseStatus × Option ChipInfo)
  download_parsed [] chip d rsp = returned (d, failed, chip)
  download_parsed (c ∷ cs) chip d rsp =
      download_cmds (c ∷ cs) chip d rsp >>= λ x. returned (status_of x)

  -- vtpBinDownload, given the commands of the script: none where it could not be read.
  unfoldable pub vtp_bin_download :
      Bool
      → List VtpDlCmd
      → Option ChipInfo
      → D
      → Option (List ℕ)
      → Outcome (D × EseStatus × Option ChipInfo)
  unfolding try_pt2_se_bl download_cmds
  vtp_bin_download needed sc chip d rsp =
      let (d1, st, rsp1) = try_pt2_se_bl needed d (or_none rsp) in
      if is_success st then download_parsed sc chip d1 (kept rsp rsp1) else returned (d1, st, chip)
