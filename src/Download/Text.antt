-- ===== src/Download/Text.antt =====
-- Downloads of scripts in plain text, and the choice by the file's name
-- (tms-cos-dl-common/tmsDlCommonUtils.cpp): IsEndWith, vtpTxtDownload and vtpDownload.
pub mod Laws
use android_vendor_tms.Prelude.{
  ℕ, zero, suc, ◌+◌, ◌-◌, Bool, true, false, not, ◌&&◌, ◌||◌, Option, none, some, List, [], ◌∷◌,
  ◌++◌, ◌==◌, ltb, leb, if◌then◌else◌, length, take, drop, get_or,
}
use android_vendor_tms.Prelude.Outcome.{Outcome, returned, fault, unfinished, ◌>>=◌}
use android_vendor_tms.Ese.Types.{EseStatus, success, failed, download_excess, is_success}
use android_vendor_tms.Download.Hex.{starts_with}
use android_vendor_tms.Download.Script.{
  DlCmdType, dl_cmd_t1, dl_cmd_nci, dl_cmd_raw, dl_cmd_7816_4_apdu, dl_cmd_sleep, dl_cmd_assert,
  same_type, codes, VtpDlCmd, ChipInfo,
}
use android_vendor_tms.Download.Exec.{
  DlOp, TmsPh, try_exec_cmd, or_junk, or_none, kept, try_pt2_se_bl, vtp_bin_download,
}
use android_vendor_tms.Download.Parse.Script.{parse_bin_sc}
use android_vendor_tms.Download.Limit.{VtpDownloadData, is_excess}

-- The loop of IsEndWith, with the rounds that are left before `endStrLen`.
unfoldable pub same_end : ℕ → List ℕ → List ℕ → Bool
same_end zero str end_str = true
same_end (suc n) str end_str =
    let i = length end_str - n in
    let rest = same_end n str end_str in
    if get_or str (length str - i) 0 == get_or end_str (length end_str - i) 0 then rest else false

unfoldable pub is_end_with : List ℕ → List ℕ → Bool
unfolding same_end
is_end_with str end_str =
    let same = same_end (length end_str) str end_str in
    if ltb (length str) (length end_str) then false else same

-- The key at the start of a line: its length and the type of the command.
abbrev has_key : List ℕ → List ℕ → List ℕ → Bool
has_key lower upper str = starts_with lower str || starts_with upper str

unfoldable pub line_key : List ℕ → Option (ℕ × DlCmdType)
unfolding starts_with
line_key str =
    if leb (length str) 1 || get_or str 0 0 == b'#'
    then none
    else if has_key (codes "f") (codes "F") str
    then some (1, dl_cmd_7816_4_apdu)
    else if has_key (codes "raw") (codes "RAW") str
    then some (3, dl_cmd_raw)
    else if has_key (codes "send") (codes "SEND") str
    then some (4, dl_cmd_7816_4_apdu)
    else if has_key (codes "wait") (codes "WAIT") str
    then some (4, dl_cmd_sleep)
    else if has_key (codes "sleep") (codes "SLEEP") str
    then some (5, dl_cmd_sleep)
    else if has_key (codes "assert") (codes "ASSERT") str
    then some (6, dl_cmd_assert)
    else none

abbrev pub without_spaces : List ℕ → List ℕ
without_spaces [] = []
without_spaces (c ∷ str) = let rest = without_spaces str in if c == b' ' then rest else c ∷ rest

-- The length without a '\r' at the end.
abbrev len_without_cr : List ℕ → ℕ
len_without_cr str = if get_or str (length str - 1) 0 == b'\r' then length str - 1 else length str

-- The type of a raw command is taken from the begin of the line, its key included.
abbrev type_of_raw : DlCmdType → List ℕ → DlCmdType
type_of_raw t str =
    let raw = if starts_with (codes "5A") str then dl_cmd_t1 else dl_cmd_nci in
    if same_type t dl_cmd_raw then raw else t

abbrev cmd_of_key : Option (ℕ × DlCmdType) → List ℕ → Option VtpDlCmd
cmd_of_key none str = none
cmd_of_key (some (start, t)) str = some (record {
  cmd = take (len_without_cr str - start) (drop start str);
  cmd_type = type_of_raw t str;
})

unfoldable pub line_cmd : List ℕ → Option VtpDlCmd
unfolding line_key starts_with same_type
line_cmd str = cmd_of_key (line_key str) (without_spaces str)

abbrev cons_cmd : Option VtpDlCmd → List VtpDlCmd → List VtpDlCmd
cons_cmd none cs = cs
cons_cmd (some c) cs = c ∷ cs

unfoldable pub line_cmds : List (List ℕ) → List VtpDlCmd
unfolding line_cmd
line_cmds [] = []
line_cmds (str ∷ lines) = cons_cmd (line_cmd str) (line_cmds lines)

-- The lines as getline reads them; `line` is what is read of the current one.
unfoldable pub read_lines : List ℕ → List ℕ → List (List ℕ)
read_lines [] [] = []
read_lines (c ∷ line) [] = (c ∷ line) ∷ []
read_lines line (c ∷ bytes) =
    let next = read_lines [] bytes in
    let same = read_lines (line ++ (c ∷ [])) bytes in if c == b'\n' then line ∷ next else same

module _ {D : Type 0} (ph : TmsPh D) where
  -- The loop of vtpTxtDownload, which stops after the first command that fails.
  unfoldable pub exec_txt_cmds : List VtpDlCmd → DlOp D → EseStatus → Outcome (DlOp D × EseStatus)
  unfolding try_exec_cmd
  exec_txt_cmds [] op st = returned (op, st)
  exec_txt_cmds (c ∷ cs) op st = try_exec_cmd ph c op >>= λ r.
      (let rest = exec_txt_cmds cs r.0 r.1 in if is_success r.1 then rest else returned r)

  abbrev run_txt : List ℕ → D → List ℕ → Outcome (D × EseStatus)
  run_txt bytes d rsp =
      let op : DlOp D = record { world = d; rsp = rsp; do_chk_cmd_rsp = false } in
      exec_txt_cmds (line_cmds (read_lines [] bytes)) op success >>= λ r. returned (r.0.world, r.1)

  -- vtpTxtDownload for the content of a file, none where it cannot be opened.
  unfoldable pub vtp_txt_download :
      Bool → Option (List ℕ) → D → Option (List ℕ) → Outcome (D × EseStatus)
  unfolding try_pt2_se_bl exec_txt_cmds read_lines line_cmds
  vtp_txt_download needed none d rsp =
      let (d1, st, rsp1) = try_pt2_se_bl ph needed d (or_none ph rsp) in
      if is_success st then returned (d1, failed) else returned (d1, st)
  vtp_txt_download needed (some bytes) d rsp =
      let (d1, st, rsp1) = try_pt2_se_bl ph needed d (or_none ph rsp) in
      let run = run_txt bytes d1 (or_junk ph (kept ph rsp rsp1)) in
      if is_success st then run else returned (d1, st)

  abbrev with_chip : Option ChipInfo → D × EseStatus → Outcome (D × EseStatus × Option ChipInfo)
  with_chip chip (d, st) = returned (d, st, chip)

  -- The download of a script by the end of its name, for the content of the file.
  unfoldable pub download_file :
      List ℕ
      → Option (List ℕ)
      → Bool
      → Option ChipInfo
      → D
      → Option (List ℕ)
      → Outcome (D × EseStatus × Option ChipInfo)
  unfolding is_end_with vtp_txt_download vtp_bin_download parse_bin_sc
  download_file name none needed chip d rsp =
      if is_end_with name (codes ".bin")
      then vtp_bin_download ph needed [] chip d rsp
      else vtp_txt_download needed none d rsp >>= with_chip chip
  download_file name (some bytes) needed chip d rsp =
      let bin = parse_bin_sc bytes >>= λ sc. vtp_bin_download ph needed sc chip d rsp in
      if is_end_with name (codes ".bin")
      then bin
      else vtp_txt_download needed (some bytes) d rsp >>= with_chip chip

  -- The counts of the routine after the check, and whether the download is refused.
  abbrev checked_counts : Bool → VtpDownloadData → ℕ → VtpDownloadData → VtpDownloadData × Bool
  checked_counts protected limit now counts =
      if protected then is_excess limit now counts else (counts, false)

  -- vtpDownload; `protected` is the configured NAME_TMS_NFCC_ERASURE_PROTECTION.
  unfoldable pub vtp_download :
      Bool
      → VtpDownloadData
      → ℕ
      → VtpDownloadData
      → List ℕ
      → Option (List ℕ)
      → Bool
      → Option ChipInfo
      → D
      → Option (List ℕ)
      → VtpDownloadData × Outcome (D × EseStatus × Option ChipInfo)
  unfolding is_excess download_file
  vtp_download protected limit now counts name file needed chip d rsp =
      let (counts', excess) = checked_counts protected limit now counts in
      let run = download_file name file needed chip d rsp in
      (counts', (if excess then returned (d, download_excess, chip) else run))
