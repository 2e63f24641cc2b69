-- ===== src/Download/Script.antt =====
-- The commands of a download script and the choice of its section for a chip
-- (tms-cos-dl-common/tmsDlCommonUtils.cpp and .h): DL_CMD_TYPE, InitHeadersMap, parseHeader,
-- InitChipInfoVer, InitChipInfoCmds, GetCosVer and GetCmdsHead. A linked list of commands is a
-- list, whose end is the null pointer, and every calloc succeeds.
use Prim.Native.String.{String}
use Prim.Native.Char.{code}
use android_vendor_tms.Prelude.{
  ℕ, zero, suc, Bool, true, false, ◌&&◌, ◌||◌, Option, none, some, List, [], ◌∷◌, ◌==◌,
  if◌then◌else◌,
}
use android_vendor_tms.Prelude.Outcome.{Outcome, returned, fault, unfinished}
use android_vendor_tms.Download.Hex.{Version, invalid_cos_ver, parse_version}

-- DL_CMD_TYPE
pub data DlCmdType : Type 0 where
  dl_cmd_invalid dl_cmd_raw dl_cmd_t1 dl_cmd_nci dl_cmd_7816_4_apdu dl_cmd_assert : DlCmdType
  dl_cmd_sleep dl_cmd_version scripts_ver_begin scripts_ver_end t_ec1_ver_begin : DlCmdType
  t_ec1_ver_end r_ec1_ver_begin r_ec1_ver_end t_ec2_ver_begin t_ec2_ver_end : DlCmdType
  r_ec2_ver_begin r_ec2_ver_end scripts_commands_begin scripts_commands_end : DlCmdType
  t_ec1_begin t_ec1_end r_ec1_begin r_ec1_end t_ec2_begin t_ec2_end r_ec2_begin : DlCmdType
  r_ec2_end patch_020000_ver_begin patch_020000_ver_end patch_020100_ver_begin : DlCmdType
  patch_020100_ver_end patch_020200_ver_begin patch_020200_ver_end : DlCmdType
  patch_020000_begin patch_020000_end patch_020100_begin patch_020100_end : DlCmdType
  patch_020200_begin patch_020200_end : DlCmdType

unfoldable pub dl_code : DlCmdType → ℕ
dl_code dl_cmd_invalid = 0
dl_code dl_cmd_raw = 1
dl_code dl_cmd_t1 = 2
dl_code dl_cmd_nci = 3
dl_code dl_cmd_7816_4_apdu = 4
dl_code dl_cmd_assert = 5
dl_code dl_cmd_sleep = 6
dl_code dl_cmd_version = 7
dl_code scripts_ver_begin = 8
dl_code scripts_ver_end = 9
dl_code t_ec1_ver_begin = 10
dl_code t_ec1_ver_end = 11
dl_code r_ec1_ver_begin = 12
dl_code r_ec1_ver_end = 13
dl_code t_ec2_ver_begin = 14
dl_code t_ec2_ver_end = 15
dl_code r_ec2_ver_begin = 16
dl_code r_ec2_ver_end = 17
dl_code scripts_commands_begin = 18
dl_code scripts_commands_end = 19
dl_code t_ec1_begin = 20
dl_code t_ec1_end = 21
dl_code r_ec1_begin = 22
dl_code r_ec1_end = 23
dl_code t_ec2_begin = 24
dl_code t_ec2_end = 25
dl_code r_ec2_begin = 26
dl_code r_ec2_end = 27
dl_code patch_020000_ver_begin = 28
dl_code patch_020000_ver_end = 29
dl_code patch_020100_ver_begin = 30
dl_code patch_020100_ver_end = 31
dl_code patch_020200_ver_begin = 32
dl_code patch_020200_ver_end = 33
dl_code patch_020000_begin = 34
dl_code patch_020000_end = 35
dl_code patch_020100_begin = 36
dl_code patch_020100_end = 37
dl_code patch_020200_begin = 38
dl_code patch_020200_end = 39

unfoldable pub same_type : DlCmdType → DlCmdType → Bool
unfolding dl_code
same_type a b = dl_code a == dl_code b

-- The bytes of a quoted text.
abbrev pub codes : String → List ℕ
codes String.[] = []
codes (String.◌∷◌ c s) = code c ∷ codes s

unfoldable pub same_text : List ℕ → List ℕ → Bool
same_text [] [] = true
same_text [] (_ ∷ _) = false
same_text (_ ∷ _) [] = false
same_text (c ∷ cs) (d ∷ ds) = c == d && same_text cs ds

-- The map g_headers, as it is filled.
abbrev pub headers : List (String × DlCmdType)
headers =
    ("f", dl_cmd_7816_4_apdu)
    ∷ ("F", dl_cmd_7816_4_apdu)
    ∷ ("send", dl_cmd_7816_4_apdu)
    ∷ ("SEND", dl_cmd_7816_4_apdu)
    ∷ ("raw", dl_cmd_raw)
    ∷ ("RAW", dl_cmd_raw)
    ∷ ("assert", dl_cmd_assert)
    ∷ ("ASSERT", dl_cmd_assert)
    ∷ ("wait", dl_cmd_sleep)
    ∷ ("WAIT", dl_cmd_sleep)
    ∷ ("sleep", dl_cmd_sleep)
    ∷ ("SLEEP", dl_cmd_sleep)
    ∷ ("v", dl_cmd_version)
    ∷ ("V", dl_cmd_version)
    ∷ ("ver", dl_cmd_version)
    ∷ ("VER", dl_cmd_version)
    ∷ ("SCRIPTS_VER_BEGIN", scripts_ver_begin)
    ∷ ("SCRIPTS_VER_END", scripts_ver_end)
    ∷ ("T_EC1_VER_BEGIN", t_ec1_ver_begin)
    ∷ ("T_EC1_VER_END", t_ec1_ver_end)
    ∷ ("R_EC1_VER_BEGIN", r_ec1_ver_begin)
    ∷ ("R_EC1_VER_END", r_ec1_ver_end)
    ∷ ("T_EC2_VER_BEGIN", t_ec2_ver_begin)
    ∷ ("T_EC2_VER_END", t_ec2_ver_end)
    ∷ ("R_EC2_VER_BEGIN", r_ec2_ver_begin)
    ∷ ("R_EC2_VER_END", r_ec2_ver_end)
    ∷ ("SCRIPTS_COMMANDS_BEGIN", scripts_commands_begin)
    ∷ ("SCRIPTS_COMMANDS_END", scripts_commands_end)
    ∷ ("T_EC1_BEGIN", t_ec1_begin)
    ∷ ("T_EC1_END", t_ec1_end)
    ∷ ("R_EC1_BEGIN", r_ec1_begin)
    ∷ ("R_EC1_END", r_ec1_end)
    ∷ ("T_EC2_BEGIN", t_ec2_begin)
    ∷ ("T_EC2_END", t_ec2_end)
    ∷ ("R_EC2_BEGIN", r_ec2_begin)
    ∷ ("R_EC2_END", r_ec2_end)
    ∷ ("PATCH_020000_VER_BEGIN", patch_020000_ver_begin)
    ∷ ("PATCH_020000_VER_END", patch_020000_ver_end)
    ∷ ("PATCH_020100_VER_BEGIN", patch_020100_ver_begin)
    ∷ ("PATCH_020100_VER_END", patch_020100_ver_end)
    ∷ ("PATCH_020200_VER_BEGIN", patch_020200_ver_begin)
    ∷ ("PATCH_020200_VER_END", patch_020200_ver_end)
    ∷ ("PATCH_020000_BEGIN", patch_020000_begin)
    ∷ ("PATCH_020000_END", patch_020000_end)
    ∷ ("PATCH_020100_BEGIN", patch_020100_begin)
    ∷ ("PATCH_020100_END", patch_020100_end)
    ∷ ("PATCH_020200_BEGIN", patch_020200_begin)
    ∷ ("PATCH_020200_END", patch_020200_end)
    ∷ []

abbrev find_header : List (String × DlCmdType) → List ℕ → DlCmdType
find_header [] key = dl_cmd_invalid
find_header ((s, t) ∷ hs) key = if same_text (codes s) key then t else find_header hs key

unfoldable pub parse_header : List ℕ → DlCmdType
unfolding same_text
parse_header key = find_header headers key

-- VtpBinDlCmdT, with the `cmdLen` bytes of its text.
pub record VtpDlCmd : Type 0 where
  pub cmd : List ℕ
  pub cmd_type : DlCmdType

-- The C string that begins with these bytes.
unfoldable pub c_str : List ℕ → List ℕ
c_str [] = []
c_str (zero ∷ cs) = []
c_str (suc c ∷ cs) = suc c ∷ c_str cs

-- ChipInfo: `cos_base_ver` is `none` for INVALID_FW_VER.
pub record ChipInfo : Type 0 where
  pub cos_base_ver : Option ℕ
  pub chip_type : ℕ
  pub chip_key_type : ℕ

-- The sections for a chip with the keys T and R, and for a patch.
pub data Section : Type 0 where
  t_ec1 r_ec1 t_ec2 r_ec2 patch_020000 patch_020100 patch_020200 : Section

unfoldable pub section_of_chip : ℕ → ℕ → Option Section
section_of_chip chip key =
    if chip == 0x10 && key == 0x00
    then some t_ec1
    else if chip == 0x10 && key == 0x80
    then some r_ec1
    else if chip == 0x20 && key == 0x00
    then some t_ec2
    else if chip == 0x20 && key == 0x80
    then some r_ec2
    else none

unfoldable pub section_of_patch : ℕ → Option Section
section_of_patch ver =
    if ver == 0x020000
    then some patch_020000
    else if ver == 0x020100
    then some patch_020100
    else if ver == 0x020200
    then some patch_020200
    else none

abbrev by_base_ver : Option ℕ → ChipInfo → Option Section
by_base_ver none c = section_of_chip c.chip_type c.chip_key_type
by_base_ver (some ver) c = section_of_patch ver

unfoldable pub section_of : ChipInfo → Option Section
unfolding section_of_chip section_of_patch
section_of c = by_base_ver c.cos_base_ver c

unfoldable pub ver_begin : Section → DlCmdType
ver_begin t_ec1 = t_ec1_ver_begin
ver_begin r_ec1 = r_ec1_ver_begin
ver_begin t_ec2 = t_ec2_ver_begin
ver_begin r_ec2 = r_ec2_ver_begin
ver_begin patch_020000 = patch_020000_ver_begin
ver_begin patch_020100 = patch_020100_ver_begin
ver_begin patch_020200 = patch_020200_ver_begin

unfoldable pub cmds_begin : Section → DlCmdType
cmds_begin t_ec1 = t_ec1_begin
cmds_begin r_ec1 = r_ec1_begin
cmds_begin t_ec2 = t_ec2_begin
cmds_begin r_ec2 = r_ec2_begin
cmds_begin patch_020000 = patch_020000_begin
cmds_begin patch_020100 = patch_020100_begin
cmds_begin patch_020200 = patch_020200_begin

unfoldable pub cmds_end : Section → DlCmdType
cmds_end t_ec1 = t_ec1_end
cmds_end r_ec1 = r_ec1_end
cmds_end t_ec2 = t_ec2_end
cmds_end r_ec2 = r_ec2_end
cmds_end patch_020000 = patch_020000_end
cmds_end patch_020100 = patch_020100_end
cmds_end patch_020200 = patch_020200_end

abbrev ver_tags : Option Section → List DlCmdType
ver_tags none = []
ver_tags (some s) = scripts_ver_begin ∷ dl_cmd_version ∷ ver_begin s ∷ []

abbrev cmds_tags : Option Section → List DlCmdType
cmds_tags none = []
cmds_tags (some s) = scripts_ver_begin ∷ dl_cmd_version ∷ cmds_begin s ∷ cmds_end s ∷ []

unfoldable pub init_chip_info_ver : ChipInfo → List DlCmdType
unfolding section_of ver_begin
init_chip_info_ver c = ver_tags (section_of c)

unfoldable pub init_chip_info_cmds : ChipInfo → List DlCmdType
unfolding section_of cmds_begin cmds_end
init_chip_info_cmds c = cmds_tags (section_of c)

-- How the check of a script's first lines ends: both lists go on behind their versions, or a list
-- was at its end, or the script has the old format, with the command at which this was seen.
pub data Checked : Type 0 where
  go_on : List DlCmdType → List VtpDlCmd → Checked
  old_format : VtpDlCmd → List VtpDlCmd → Checked

-- The first loop of GetCosVer and GetCmdsHead. It reads the next element without a test for null.
unfoldable pub check_format : List DlCmdType → List VtpDlCmd → Outcome Checked
check_format [] sc = returned (go_on [] sc)
check_format (c ∷ cs) [] = returned (go_on (c ∷ cs) [])
check_format (c ∷ cs) (s ∷ ss) =
    let rest = check_format cs ss in
    if same_type c s.cmd_type then check_next rest cs ss else returned (old_format s ss)
  where
    check_script : Outcome Checked → DlCmdType → List DlCmdType → List VtpDlCmd → Outcome Checked
    check_script rest c cs [] = fault
    check_script rest c cs (s ∷ ss) =
        if same_type s.cmd_type c then returned (go_on cs ss) else rest

    check_next : Outcome Checked → List DlCmdType → List VtpDlCmd → Outcome Checked
    check_next rest [] ss = fault
    check_next rest (c ∷ cs) ss =
        if same_type dl_cmd_version c then check_script rest c cs ss else rest

abbrev version_line : VtpDlCmd → Version
version_line s = parse_version (b'V' ∷ b'E' ∷ b'R' ∷ c_str s.cmd)

-- The second loop of GetCosVer.
unfoldable pub find_version : DlCmdType → List VtpDlCmd → Version
find_version tag [] = invalid_cos_ver
find_version tag (s ∷ []) = invalid_cos_ver
find_version tag (s ∷ n ∷ ss) =
    let rest = find_version tag (n ∷ ss) in
    if same_type tag s.cmd_type && same_type dl_cmd_version n.cmd_type then version_line n else rest

abbrev cos_ver_of : Checked → Version
cos_ver_of (go_on [] sc) = invalid_cos_ver
cos_ver_of (go_on (c ∷ cs) sc) = find_version c sc
cos_ver_of (old_format s ss) =
    if same_type dl_cmd_version s.cmd_type then version_line s else invalid_cos_ver

abbrev in_outcome : {A B : Type 0} → (A → B) → Outcome A → Outcome B
in_outcome f (returned a) = returned (f a)
in_outcome f fault = fault
in_outcome f unfinished = unfinished

unfoldable pub get_cos_ver : List DlCmdType → List VtpDlCmd → Outcome Version
unfolding check_format find_version c_str parse_version
get_cos_ver chip sc = in_outcome cos_ver_of (check_format chip sc)

-- The second loop of GetCmdsHead, from the tag that begins the section on. The last element is not
-- looked at.
unfoldable pub find_block : Bool → DlCmdType → List VtpDlCmd → Option (List VtpDlCmd)
find_block found tag [] = none
find_block found tag (s ∷ []) = none
find_block found tag (s ∷ n ∷ ss) =
    let inside = found || same_type scripts_commands_begin s.cmd_type in
    let rest = find_block inside tag (n ∷ ss) in
    if inside && same_type tag s.cmd_type then some (n ∷ ss) else rest

-- The tags that are left of the chip's, and the commands; no commands for null.
abbrev head_in_block :
    List DlCmdType → List DlCmdType → Option (List VtpDlCmd) → List DlCmdType × List VtpDlCmd
head_in_block chip cs none = (chip, [])
head_in_block chip cs (some ss) = (cs, ss)

abbrev cmds_head_of : List DlCmdType → Checked → List DlCmdType × List VtpDlCmd
cmds_head_of chip (go_on [] sc) = (chip, [])
cmds_head_of chip (go_on (c ∷ []) sc) = (chip, [])
cmds_head_of chip (go_on (c ∷ d ∷ cs) sc) = head_in_block chip (d ∷ cs) (find_block false c sc)
cmds_head_of chip (old_format s ss) = (chip, s ∷ ss)

unfoldable pub get_cmds_head :
    List DlCmdType → List VtpDlCmd → Outcome (List DlCmdType × List VtpDlCmd)
unfolding check_format find_block
get_cmds_head chip sc = in_outcome (cmds_head_of chip) (check_format chip sc)
