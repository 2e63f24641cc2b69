-- ===== src/Download/Tests.antt =====
-- Concrete runs of a download.
mod Ncis
use android_vendor_tms.Prelude.{
  ◌↔◌, ℕ, zero, suc, ◌+◌, ◌≤◌, bit_xor, Bool, true, false, none, some, List, [], ◌∷◌, ◌++◌, ◌≡◌,
  ◌≢◌, refl, length, arith,
}
use android_vendor_tms.Prelude.Outcome.{returned, ◌>>=◌}
use android_vendor_tms.Ese.Types.{success, fatal_error}
use android_vendor_tms.Download.Hex.{hex_digit, cstr2hex, join_bytes}
use android_vendor_tms.Download.Hex.Laws.{
  print_hex, cstr2hex-print_hex, value_from, join_bytes-value,
}
use android_vendor_tms.Download.Script.{
  DlCmdType, dl_cmd_nci, dl_cmd_invalid, same_type, dl_cmd_version, dl_cmd_7816_4_apdu,
  dl_cmd_assert, scripts_ver_begin, scripts_commands_begin, t_ec1_begin, t_ec1_end, t_ec1, codes,
  VtpDlCmd, ChipInfo, section_of, cmds_begin, cmds_end,
}
use android_vendor_tms.Download.Parse.Script.{parse_bin_sc}
use android_vendor_tms.Download.Parse.Script.Total.{parse_bin_sc-returned}
use android_vendor_tms.Download.Exec.{
  DlOp, TmsPh, exec_cmds, Executed, exec_bin_cmds, vtp_bin_download,
}
use android_vendor_tms.Download.Exec.Section.{Layout, script_of, IsFor, exec_bin_cmds-section}
use android_vendor_tms.Download.Exec.Result.{
  vtp_bin_download-no_section, exec_bin_cmds-pre_cmd, EndsWith, run_all, exec_bin_cmds-Apdus,
}
use android_vendor_tms.Download.Exec.Assert.{asserted, exec_cmds-assert}
use android_vendor_tms.Download.Apdu.{ApduDevice}
use android_vendor_tms.Download.Apdu.Retry.{
  exec_apdu_cmd_chk_res-count, exec_apdu_cmd_chk_res-stopped,
}
use android_vendor_tms.Download.Text.{line_cmds, read_lines, exec_txt_cmds, is_end_with}
use android_vendor_tms.Download.Text.Laws.{ended, exec_txt_cmds-exec_cmds, is_end_with_iff}
use android_vendor_tms.Download.Limit.{VtpDownloadData, fw_routine, dl_limit, requests}
use android_vendor_tms.Download.Limit.Window.{requests-long_limit, requests-short_limit}

-- The bytes of a script's file, from its text.
abbrev before : ℕ → List ℕ → List ℕ
before c [] = bit_xor c 0x84 ∷ []
before c (k ∷ bytes) = bit_xor c k ∷ k ∷ bytes

abbrev hide : List ℕ → List ℕ
hide [] = []
hide (c ∷ text) = before c (hide text)

abbrev line : List ℕ → DlCmdType → VtpDlCmd
line cmd t = record { cmd = cmd; cmd_type = t }

abbrev two_lines : List ℕ
two_lines = hide (codes "V 01 02" ++ (b'\n' ∷ (codes "#x" ++ (b'\n' ∷ codes "f 00A4"))))

two_lines_parsed :
    parse_bin_sc two_lines
    ≡ returned (line (codes "0102") dl_cmd_version ∷ line (codes "00A4") dl_cmd_7816_4_apdu ∷ [])
unfolding parse_bin_sc
two_lines_parsed = refl

parse_bin_sc-returned_example :
    (cs : List VtpDlCmd) × (parse_bin_sc two_lines ≡ returned cs) × (length cs ≤ length two_lines)
parse_bin_sc-returned_example = parse_bin_sc-returned two_lines

-- A last line that is a key alone is no command of its type, and it is written over the begin of the
-- buffer, where the text of the first line is lost.
key_at_end :
    parse_bin_sc (hide (codes "f 00A4" ++ (b'\n' ∷ codes "T_EC1_END")))
    ≡ returned (
        line (0 ∷ b'0' ∷ b'A' ∷ b'4' ∷ []) dl_cmd_7816_4_apdu
        ∷ line (b'N' ∷ b'D' ∷ []) dl_cmd_invalid
        ∷ [])
unfolding parse_bin_sc
key_at_end = refl

-- A device that counts the commands and refuses each one with 6A 82.
abbrev refusing : TmsPh ℕ
refusing = record {
  exec_cmd = λ d cmd rsp. (suc d, success, 0x6A ∷ 0x82 ∷ []);
  is_ree = false;
  se_reset = λ d. (d, success);
  is_number = λ text. true;
  junk = [];
}

abbrev ec1 : ChipInfo
ec1 = record { cos_base_ver = none; chip_type = 0x10; chip_key_type = 0x00 }

abbrev apdu : VtpDlCmd
apdu = line (codes "00A4") dl_cmd_7816_4_apdu

abbrev assertion : VtpDlCmd
assertion = line (codes "6A82") dl_cmd_assert

abbrev ec1_layout : Layout
ec1_layout = record {
  ver_begin_line = line [] scripts_ver_begin;
  version_line = line (codes "0102") dl_cmd_version;
  versions = [];
  commands_line = line [] scripts_commands_begin;
  sections = [];
  begin_line = line [] t_ec1_begin;
  body = apdu ∷ assertion ∷ [];
  end_line = line [] t_ec1_end;
  others = apdu ∷ [];
}

ec1_layout-IsFor : IsFor t_ec1 ec1_layout
unfolding same_type cmds_begin cmds_end
ec1_layout-IsFor = record {
  first = refl;
  second = refl;
  commands = refl;
  begins = refl;
  ends = refl;
  no_commands = tt;
  no_begin = tt;
  no_end = (refl, (refl, tt));
}

exec_bin_cmds-section_example :
    exec_bin_cmds refusing (script_of ec1_layout) (some ec1) 0 none
    ≡ exec_bin_cmds refusing (apdu ∷ assertion ∷ []) none 0 none
unfolding section_of
exec_bin_cmds-section_example =
    exec_bin_cmds-section refusing ec1 t_ec1 ec1_layout 0 none refl ec1_layout-IsFor

abbrev wrong : VtpDlCmd
wrong = line (codes "9000") dl_cmd_assert

-- The run that a wrong assertion stops.
abbrev stopped : Executed refusing
stopped = record {
  op = record { world = 1; rsp = 0x6A ∷ 0x82 ∷ []; do_chk_cmd_rsp = false };
  status = fatal_error;
  res = false;
  pre_cmd = some apdu;
}

exec_bin_cmds-pre_cmd_example : some apdu ≢ none
unfolding exec_bin_cmds hex_digit
exec_bin_cmds-pre_cmd_example =
    exec_bin_cmds-pre_cmd refusing (apdu ∷ wrong ∷ apdu ∷ []) none 0 none stopped refl refl

abbrev start : DlOp ℕ
start = record { world = 0; rsp = []; do_chk_cmd_rsp = false }

exec_cmds-assert_example :
    exec_cmds refusing none (apdu ∷ assertion ∷ apdu ∷ []) start success none
    ≡ exec_cmds refusing none (apdu ∷ []) (asserted refusing apdu start) success (some apdu)
unfolding same_type print_hex
exec_cmds-assert_example =
    exec_cmds-assert refusing apdu assertion (apdu ∷ []) start none [] 0x6A 0x82 refl refl refl
      (omega arith) (omega arith) (omega arith) refl

-- A device that counts the transmissions: a CRC error before the first two are through, and 90 00
-- then; the thread runs until the count is `limit`.
abbrev counting : (ℕ → Bool) → ApduDevice ℕ
counting running = record {
  transmit = λ d bytes. (suc d, success, crc_then_ok d);
  thread_running = running;
}
  where
    crc_then_ok : ℕ → List ℕ
    crc_then_ok zero = 0x65 ∷ 0x04 ∷ []
    crc_then_ok (suc d) = 0x90 ∷ 0x00 ∷ []

-- The thread is stopped after the first transmission.
abbrev first_only : ℕ → Bool
first_only zero = true
first_only (suc d) = false

cstr2hex-print_hex_example :
    (cstr2hex (print_hex (0x5A ∷ 0x04 ∷ [])) ≡ some (0x5A ∷ 0x04 ∷ []))
    × (cstr2hex (print_hex (0x5A ∷ 0x04 ∷ []) ++ b'\r' ∷ []) ≡ some (0x5A ∷ 0x04 ∷ []))
cstr2hex-print_hex_example =
    cstr2hex-print_hex (0x5A ∷ 0x04 ∷ []) b'\r' (omega arith, (omega arith, tt))

-- Counts shortly before the limits.
abbrev busy : VtpDownloadData
busy = record {
  start_time_long = 1000;
  start_time_short = 1000;
  long_time_count = 99;
  short_time_count = 19;
}

requests-long_limit_example :
    (requests (dl_limit fw_routine) (1001 ∷ 1002 ∷ []) busy).0 + 99
    ≤ (dl_limit fw_routine).long_time_count
unfolding dl_limit
requests-long_limit_example =
    requests-long_limit fw_routine (1001 ∷ 1002 ∷ []) busy (omega arith) (omega arith)
      (omega arith, (omega arith, tt))

-- A text of two lines and a comment, with spaces and a '\r'.
abbrev text : List ℕ
text = codes "F 00 A4" ++ (b'\r' ∷ b'\n' ∷ (codes "# x" ++ (b'\n' ∷ codes "assert 6A82")))

text_lines :
    line_cmds (read_lines [] text)
    ≡ line (codes "00A4") dl_cmd_7816_4_apdu ∷ line (codes "6A82") dl_cmd_assert ∷ []
unfolding line_cmds read_lines
text_lines = refl

-- A command of T=1 is taken for one of NCI, since the begin of its line is the key.
raw_is_nci : line_cmds (codes "RAW 5AC4009E" ∷ []) ≡ line (codes "5AC4009E") dl_cmd_nci ∷ []
unfolding line_cmds
raw_is_nci = refl

exec_txt_cmds-exec_cmds_example :
    exec_txt_cmds refusing (apdu ∷ wrong ∷ apdu ∷ []) start success
    ≡ (exec_cmds refusing none (apdu ∷ wrong ∷ apdu ∷ []) start success none >>= ended refusing)
exec_txt_cmds-exec_cmds_example =
    exec_txt_cmds-exec_cmds refusing (apdu ∷ wrong ∷ apdu ∷ []) start success none refl

-- A firmware script by its name, and a shorter name.
bin_name : is_end_with (codes "nfc.bin") (codes ".bin") ≡ true
unfolding is_end_with
bin_name = refl

short_name : is_end_with (codes "bin") (codes ".bin") ≡ false
unfolding is_end_with
short_name = refl
