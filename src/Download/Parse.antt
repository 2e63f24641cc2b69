-- ===== src/Download/Parse.antt =====
-- Reading a line of a script (tms-cos-dl-common/tmsDlCommonUtils.cpp): CheckAssertCmd and parseCmd.
-- The bytes are kept in the read buffer, where each is combined by exclusive or with the one behind
-- it; a byte is made readable when the scan arrives at it.
pub mod Script
pub mod Bounds
pub mod Ends
use android_vendor_tms.Prelude.{
  ℕ, zero, suc, ◌+◌, ◌-◌, Bool, true, false, not, ◌&&◌, ◌||◌, Option, none, some, List, [], ◌∷◌,
  ◌==◌, ltb, if◌then◌else◌, bit_xor, drop, u16,
}
use android_vendor_tms.Prelude.Outcome.{Outcome, returned, fault, unfinished, ◌>>=◌}
use android_vendor_tms.Download.Buffer.{load, store}
use android_vendor_tms.Download.Hex.{starts_with}
use android_vendor_tms.Download.Script.{
  DlCmdType, dl_cmd_invalid, dl_cmd_raw, dl_cmd_t1, dl_cmd_nci, dl_cmd_assert, same_type,
  parse_header, c_str,
}

-- The local variables of parseCmd, and the buffer.
pub record Line : Type 0 where
  pub buf : List ℕ
  pub offset : ℕ
  pub tag_start : ℕ
  pub val_start : ℕ
  pub val_index : ℕ
  pub is_key_split : Bool
  pub cmd_type : DlCmdType

-- A command whose text is in the buffer.
pub record CmdAt : Type 0 where
  pub start : ℕ
  pub cmd_len : ℕ
  pub cmd_type : DlCmdType

-- A byte within the key, which a space or a '\r' ends.
unfoldable pub scan_key : ℕ → Line → Outcome Line
unfolding parse_header c_str
scan_key c l =
    let split = store l.buf l.offset 0 >>= λ buf. returned (record l {
      buf = buf;
      is_key_split = false;
      cmd_type = parse_header (c_str (drop l.tag_start buf));
      val_start = l.offset + 1;
      val_index = l.offset + 1;
    }) in
    if c == b' ' || c == b'\r'
    then if l.tag_start == l.offset then returned (record l { tag_start = l.offset + 1 }) else split
    else returned l

-- A byte within the text, which is moved forward over the spaces before it.
unfoldable pub scan_val : ℕ → Line → Outcome Line
scan_val c l =
    let next = λ (buf : List ℕ). returned (record l { buf = buf; val_index = l.val_index + 1 }) in
    let moved = store l.buf l.val_index c >>= next in
    if c == b' ' && l.val_start == l.offset
    then returned (record l { val_start = l.offset + 1; val_index = l.offset + 1 })
    else if not (c == b' ') && not (c == b'\r')
    then if ltb l.val_index l.offset then moved else next l.buf
    else returned l

-- The byte behind is made readable.
abbrev pub advance : Line → Outcome Line
advance l = do
  a ← load l.buf (l.offset + 1)
  b ← load l.buf (l.offset + 1 + 1)
  buf ← store l.buf (l.offset + 1) (bit_xor a b)
  returned (record l { buf = buf; offset = l.offset + 1 })

abbrev pub scan_byte : ℕ → Line → Outcome Line
scan_byte c l = (if l.is_key_split then scan_key c l else scan_val c l) >>= advance

-- The loop of parseCmd, with the rounds that are left before `maxLen - 2`.
unfoldable pub scan : ℕ → Line → Outcome Line
unfolding scan_key scan_val
scan zero l = returned l
scan (suc n) l = do
  c ← load l.buf l.offset
  let rest = scan_byte c l >>= scan n
  if c == b'\n' then returned l else rest

abbrev pub is_visible : ℕ → Bool
is_visible c = not (c == b'\n') && (not (c == b'\r') && not (c == b' '))

-- `pBuffer[valIndex++] = c` for a visible byte.
abbrev pub put_visible : ℕ → List ℕ → ℕ → Outcome (List ℕ × ℕ)
put_visible c buf i =
    let put = store buf i c >>= λ buf'. returned (buf', i + 1) in
    if is_visible c then put else returned (buf, i)

abbrev pub end_text : Line → List ℕ × ℕ → Outcome Line
end_text l (buf, i) = store buf i 0 >>= λ buf'. returned (record l { buf = buf'; val_index = i })

abbrev pub put_last : ℕ → Line → List ℕ × ℕ → Outcome Line
put_last max_len l (buf, i) = load buf (max_len - 1) >>= λ d. put_visible d buf i >>= end_text l

-- The last two bytes of the buffer.
unfoldable pub finish_buffer : ℕ → Line → Outcome Line
finish_buffer max_len l = do
  last ← load l.buf (max_len - 1)
  buf ← store l.buf (max_len - 1) (bit_xor last 0x84)
  c ← load buf (max_len - 2)
  put_visible c buf l.val_index >>= put_last max_len l

-- A '\r' at the end of the text is cut off.
abbrev pub drop_cr : Line → Outcome Line
drop_cr l = do
  c ← load l.buf (l.val_index - 1)
  let cut = store l.buf (l.val_index - 1) 0 >>= λ buf.
      returned (record l { buf = buf; val_index = l.val_index - 1 })
  if c == b'\r' then cut else returned l

-- The end of a line before.
unfoldable pub finish_line : Line → Outcome Line
finish_line l = do
  buf ← store l.buf l.val_index 0
  let ended : Line = record l { buf = buf }
  if l.val_index == 0 then returned ended else drop_cr ended

-- CheckAssertCmd: the '*' at the end of a text are cut off. The length of the text is left.
unfoldable pub check_assert_cmd : ℕ → ℕ → List ℕ → Outcome (List ℕ × ℕ)
check_assert_cmd zero start buf = returned (buf, 0)
check_assert_cmd (suc n) start buf = do
  c ← load buf (start + n)
  let cut = store buf (start + n) 0 >>= check_assert_cmd n start
  if c == b'*' then cut else returned (buf, suc n)

abbrev raw_type : List ℕ → DlCmdType
raw_type text = if starts_with (b'5' ∷ b'A' ∷ []) (c_str text) then dl_cmd_t1 else dl_cmd_nci

-- The command of a line that ended, with its type.
unfoldable pub finish_cmd : Line → Outcome (List ℕ × CmdAt)
unfolding same_type starts_with c_str check_assert_cmd
finish_cmd l =
    let len = u16 (l.val_index + 65536 - l.val_start) in
    let raw = raw_type (drop l.val_start l.buf) in
    let assertion = check_assert_cmd len l.val_start l.buf >>= λ (r : List ℕ × ℕ).
    returned (r.0, record { start = l.val_start; cmd_len = r.1; cmd_type = l.cmd_type }) in
    if same_type dl_cmd_raw l.cmd_type
    then returned (l.buf, record { start = l.val_start; cmd_len = len; cmd_type = raw })
    else if same_type dl_cmd_assert l.cmd_type
    then assertion
    else returned (l.buf, record { start = l.val_start; cmd_len = len; cmd_type = l.cmd_type })

-- What parseCmd leaves: the buffer, the offset it returns, and the command that it appends.
pub record Parsed : Type 0 where
  pub buf : List ℕ
  pub offset : ℕ
  pub cmd : Option CmdAt

abbrev with_cmd : ℕ → List ℕ × CmdAt → Outcome Parsed
with_cmd offset (buf, c) = returned (record { buf = buf; offset = offset; cmd = some c })

abbrev end_line : ℕ → Line → Outcome Parsed
end_line max_len l =
    let ended = if l.offset == max_len - 2 then finish_buffer max_len l else finish_line l in
    let full = ended >>= finish_cmd >>= with_cmd l.offset in
    if l.tag_start == l.offset
    then returned (record { buf = l.buf; offset = l.offset; cmd = none })
    else full

unfoldable pub parse_cmd : List ℕ → ℕ → ℕ → Outcome Parsed
unfolding scan finish_buffer finish_line finish_cmd
parse_cmd buf offset max_len = do
  let l : Line = record {
    buf = buf;
    offset = offset;
    tag_start = offset;
    val_start = 0;
    val_index = 0;
    is_key_split = true;
    cmd_type = dl_cmd_invalid;
  }
  scan (max_len - 2 - offset) l >>= end_line max_len
