-- ===== src/Download/Exec/Section.antt =====
-- A download for a chip runs the commands of the chip's section of the script, and no others.
use android_vendor_tms.Prelude.{
  ℕ, true, false, Option, none, some, List, [], ◌∷◌, ◌++◌, ◌≡◌, refl, ◌∙◌, if◌then◌else◌, arith,
}
use android_vendor_tms.Prelude.Outcome.{Outcome, returned, fault, unfinished, ◌>>=◌}
use android_vendor_tms.Ese.Types.{EseStatus, success}
use android_vendor_tms.Download.Script.{
  DlCmdType, scripts_ver_begin, dl_cmd_version, scripts_commands_begin, dl_cmd_assert, same_type,
  VtpDlCmd, ChipInfo, Section, section_of, cmds_begin, cmds_end, init_chip_info_cmds, check_format,
  find_block, get_cmds_head,
}
use android_vendor_tms.Download.Exec.{DlOp, TmsPh, try_exec_cmd, exec_cmds, exec_bin_cmds}

-- No command has the type.
abbrev pub NoneOf : DlCmdType → List VtpDlCmd → Type 0
NoneOf t [] = Unit
NoneOf t (c ∷ cs) = (same_type t c.cmd_type ≡ false) × NoneOf t cs

-- A script in the current format: two lines about its version, other lines, and the commands, in
-- which the section follows other sections.
pub record Layout : Type 0 where
  pub ver_begin_line : VtpDlCmd
  pub version_line : VtpDlCmd
  pub versions : List VtpDlCmd
  pub commands_line : VtpDlCmd
  pub sections : List VtpDlCmd
  pub begin_line : VtpDlCmd
  pub body : List VtpDlCmd
  pub end_line : VtpDlCmd
  pub others : List VtpDlCmd

abbrev from_body : Layout → List VtpDlCmd
from_body l = l.body ++ (l.end_line ∷ l.others)

abbrev pub script_of : Layout → List VtpDlCmd
script_of l =
    l.ver_begin_line
    ∷ l.version_line
    ∷ (l.versions ++ (l.commands_line ∷ (l.sections ++ (l.begin_line ∷ from_body l))))

-- The lines of the script have the types of their places for this section, and no line before has.
pub record IsFor (sec : Section) (l : Layout) : Type 0 where
  pub first : l.ver_begin_line.cmd_type ≡ scripts_ver_begin
  pub second : l.version_line.cmd_type ≡ dl_cmd_version
  pub commands : l.commands_line.cmd_type ≡ scripts_commands_begin
  pub begins : l.begin_line.cmd_type ≡ cmds_begin sec
  pub ends : l.end_line.cmd_type ≡ cmds_end sec
  pub no_commands : NoneOf scripts_commands_begin l.versions
  pub no_begin : NoneOf (cmds_begin sec) l.sections
  pub no_end : NoneOf (cmds_end sec) l.body

find_block-outside :
    (tag : DlCmdType) (cs : List VtpDlCmd) (s : VtpDlCmd) (ss : List VtpDlCmd)
    → NoneOf scripts_commands_begin cs
    → find_block false tag (cs ++ (s ∷ ss)) ≡ find_block false tag (s ∷ ss)
unfolding find_block
find_block-outside tag [] s ss n = refl
find_block-outside tag (c ∷ []) s ss (e, n) = rw e refl
find_block-outside tag (c ∷ d ∷ cs) s ss (e, n) = rw e (find_block-outside tag (d ∷ cs) s ss n)

find_block-inside :
    (tag : DlCmdType) (cs : List VtpDlCmd) (s : VtpDlCmd) (ss : List VtpDlCmd)
    → NoneOf tag cs
    → find_block true tag (cs ++ (s ∷ ss)) ≡ find_block true tag (s ∷ ss)
unfolding find_block
find_block-inside tag [] s ss n = refl
find_block-inside tag (c ∷ []) s ss (e, n) = rw e refl
find_block-inside tag (c ∷ d ∷ cs) s ss (e, n) = rw e (find_block-inside tag (d ∷ cs) s ss n)

same_type_refl : (t : DlCmdType) → same_type t t ≡ true
unfolding same_type
same_type_refl t = ground arith

begin-not-commands : (sec : Section) → same_type (cmds_begin sec) scripts_commands_begin ≡ false
unfolding same_type cmds_begin
begin-not-commands sec = ground arith

-- At the line that begins the commands, and at the line that begins the section.
find_block-enter :
    (tag : DlCmdType) (c s : VtpDlCmd) (ss : List VtpDlCmd)
    → c.cmd_type ≡ scripts_commands_begin
    → same_type tag scripts_commands_begin ≡ false
    → find_block false tag (c ∷ s ∷ ss) ≡ find_block true tag (s ∷ ss)
unfolding find_block
find_block-enter tag c s ss e n = rw (e, same_type_refl scripts_commands_begin, n)

find_block-found :
    (tag : DlCmdType) (c s : VtpDlCmd) (ss : List VtpDlCmd)
    → c.cmd_type ≡ tag
    → find_block true tag (c ∷ s ∷ ss) ≡ some (s ∷ ss)
unfolding find_block
find_block-found tag c s ss e = rw (e, same_type_refl tag)

find_block-sections :
    (tag : DlCmdType) (c : VtpDlCmd) (cs : List VtpDlCmd) (b s : VtpDlCmd) (ss : List VtpDlCmd)
    → c.cmd_type ≡ scripts_commands_begin
    → same_type tag scripts_commands_begin ≡ false
    → NoneOf tag cs
    → b.cmd_type ≡ tag
    → find_block false tag (c ∷ (cs ++ (b ∷ s ∷ ss))) ≡ some (s ∷ ss)
find_block-sections tag c [] b s ss e n away f =
    find_block-enter tag c b (s ∷ ss) e n ∙ find_block-found tag b s ss f
find_block-sections tag c (x ∷ xs) b s ss e n away f =
    find_block-enter tag c x (xs ++ (b ∷ s ∷ ss)) e n
    ∙ find_block-inside tag (x ∷ xs) b (s ∷ ss) away
    ∙ find_block-found tag b s ss f

-- What follows the section's first line is not empty.
find_block-layout :
    (sec : Section) (l : Layout) (s : VtpDlCmd) (ss : List VtpDlCmd)
    → IsFor sec l
    → from_body l ≡ s ∷ ss
    → find_block false
        (cmds_begin sec)
        (l.versions ++ (l.commands_line ∷ (l.sections ++ (l.begin_line ∷ from_body l))))
      ≡ some (from_body l)
find_block-layout sec l s ss v e = rw e (
    find_block-outside (cmds_begin sec) l.versions l.commands_line
      (l.sections ++ (l.begin_line ∷ s ∷ ss)) v.no_commands
    ∙ find_block-sections (cmds_begin sec) l.commands_line l.sections l.begin_line s ss v.commands
        (begin-not-commands sec) v.no_begin v.begins)

from_body-cons : (l : Layout) → (s : VtpDlCmd) × (ss : List VtpDlCmd) × (from_body l ≡ s ∷ ss)
from_body-cons l = by_body l.body
  where
    by_body :
        (cs : List VtpDlCmd)
        → (s : VtpDlCmd) × (ss : List VtpDlCmd) × (cs ++ (l.end_line ∷ l.others) ≡ s ∷ ss)
    by_body [] = (l.end_line, l.others, refl)
    by_body (c ∷ cs) = (c, cs ++ (l.end_line ∷ l.others), refl)

get_cmds_head-section :
    (chip : ChipInfo) (sec : Section) (l : Layout)
    → section_of chip ≡ some sec
    → IsFor sec l
    → get_cmds_head (init_chip_info_cmds chip) (script_of l)
      ≡ returned (cmds_end sec ∷ [], from_body l)
unfolding get_cmds_head init_chip_info_cmds check_format
get_cmds_head-section chip sec l e v =
    let (s, ss, f) = from_body-cons l in
    let found = find_block-layout sec l s ss v f in
    rw
      (e, v.first, v.second, same_type_refl scripts_ver_begin, same_type_refl dl_cmd_version, found)

module _ {D : Type 0} (ph : TmsPh D) where
  bind-cong :
      {A B : Type 0} (o : Outcome A) (f g : A → Outcome B)
      → ((a : A) → f a ≡ g a)
      → (o >>= f) ≡ (o >>= g)
  bind-cong (returned a) f g h = h a
  bind-cong fault f g h = refl
  bind-cong unfinished f g h = refl

  -- The loop stops at the line that ends the section as it stops at the end of a list.
  exec_cmds-body :
      (stop : DlCmdType) (cs : List VtpDlCmd) (c : VtpDlCmd) (rest : List VtpDlCmd) (op : DlOp D)
      (st : EseStatus) (pre : Option VtpDlCmd)
      → NoneOf stop cs
      → c.cmd_type ≡ stop
      → exec_cmds ph (some stop) (cs ++ (c ∷ rest)) op st pre ≡ exec_cmds ph none cs op st pre
  unfolding exec_cmds
  exec_cmds-body stop [] c rest op st pre n e = rw (e, same_type_refl stop)
  exec_cmds-body stop (d ∷ cs) c rest op st pre (f, n) e =
      let pre' = if same_type dl_cmd_assert d.cmd_type then pre else some d in
      let same =
        bind-cong (try_exec_cmd ph d op)
          (λ r. exec_cmds ph (some stop) (cs ++ (c ∷ rest)) r.0 r.1 pre')
          (λ r. exec_cmds ph none cs r.0 r.1 pre')
          (λ r. exec_cmds-body stop cs c rest r.0 r.1 pre' n e) in
      rw (f, same)

  -- From a script in the current format that has a section for the chip, execBinCmds with the chip
  -- does what it does without a chip on the commands of that section alone: it runs these commands
  -- and no others, with the same results.
  pub exec_bin_cmds-section :
      (chip : ChipInfo) (sec : Section) (l : Layout) (d : D) (rsp : Option (List ℕ))
      → section_of chip ≡ some sec
      → IsFor sec l
      → exec_bin_cmds ph (script_of l) (some chip) d rsp ≡ exec_bin_cmds ph l.body none d rsp
  unfolding exec_bin_cmds
  exec_bin_cmds-section chip sec l d rsp e v =
      rw (get_cmds_head-section chip sec l e v)
        (exec_cmds-body (cmds_end sec) l.body l.end_line l.others _ success none v.no_end v.ends)
