-- ===== src/Download/Parse/Script.antt =====
-- Reading a script (tms-cos-dl-common/tmsDlCommonUtils.cpp): ParseBinSC, from the bytes that
-- ReadBinSC has read on, in the buffer that is one byte longer.
pub mod Total
use android_vendor_tms.Prelude.{
  ℕ, zero, suc, ◌+◌, ◌-◌, Bool, true, false, ◌&&◌, Option, none, some, List, [], ◌∷◌, ◌++◌, ◌==◌,
  ltb, leb, if◌then◌else◌, bit_xor, length, take, drop, map,
}
use android_vendor_tms.Prelude.Outcome.{Outcome, returned, fault, unfinished, ◌>>=◌}
use android_vendor_tms.Download.Buffer.{load, store}
use android_vendor_tms.Download.Script.{VtpDlCmd}
use android_vendor_tms.Download.Parse.{CmdAt, Parsed, parse_cmd}

-- The local variables of the loop.
pub record Script : Type 0 where
  pub buf : List ℕ
  pub index : ℕ
  pub start : ℕ
  pub cmds : List CmdAt

-- What a byte is combined with: the next byte, and a constant for the last one.
abbrev pub key_of : ℕ → ℕ → List ℕ → Outcome ℕ
key_of count i buf = if ltb i (count - 1) then load buf (i + 1) else returned 0x84

-- The byte at `i`, made readable.
abbrev pub reveal : ℕ → ℕ → List ℕ → Outcome (List ℕ × ℕ)
reveal count i buf = do
  k ← key_of count i buf
  a ← load buf i
  buf' ← store buf i (bit_xor k a)
  returned (buf', bit_xor k a)

-- A comment, to the end of its line, with the rounds that are left before `count - 1`.
unfoldable pub skip_comment : ℕ → ℕ → Script → Outcome Script
skip_comment zero count s = returned s
skip_comment (suc n) count s = do
  (buf, c) ← reveal count (s.index + 1) s.buf
  let at : Script = record s { buf = buf; index = s.index + 1 }
  let rest = skip_comment n count at
  if c == b'\n' then returned (record at { start = s.index + 2 }) else rest

abbrev pub add_cmd : List CmdAt → Option CmdAt → List CmdAt
add_cmd cs none = cs
add_cmd cs (some c) = cs ++ (c ∷ [])

abbrev pub add_line : Script → Parsed → Outcome Script
add_line s p =
    returned
      (record { buf = p.buf; index = p.offset; start = p.offset + 1; cmds = add_cmd s.cmds p.cmd })

-- An empty line or a command, from its first byte `c` on.
unfoldable pub read_line : ℕ → ℕ → Script → Outcome Script
unfolding parse_cmd
read_line count c s = do
  a ← load s.buf (s.index + 1)
  b ← load s.buf (s.index + 2)
  let lf = bit_xor a b
  let crlf = store s.buf (s.index + 1) lf >>= λ buf.
      returned (record s { buf = buf; index = s.index + 1; start = s.index + 2 })
  let line = parse_cmd s.buf s.index count >>= add_line s
  let no_crlf =
      if c == b'\n' && s.start == s.index then returned (record s { start = s.index + 1 }) else line
  if c == b'\r' && (lf == b'\n' && s.start == s.index) then crlf else no_crlf

-- One round of the loop, whose last step is `i++`.
unfoldable pub read_round : ℕ → Script → Outcome Script
unfolding skip_comment read_line
read_round count s = do
  (buf, c) ← reveal count s.index s.buf
  let at : Script = record s { buf = buf }
  let comment = skip_comment (count - 1 - s.index) count at
  let line = read_line count c at
  let next = if c == b'#' then comment else line
  next >>= λ r. returned (record r { index = r.index + 1 })

-- The loop, on fuel.
unfoldable pub read_rounds : ℕ → ℕ → Script → Outcome Script
unfolding read_round
read_rounds zero count s = if ltb s.index (count - 1) then unfinished else returned s
read_rounds (suc fuel) count s =
    let rest = read_round count s >>= read_rounds fuel count in
    if ltb s.index (count - 1) then rest else returned s

abbrev pub cmd_text : List ℕ → CmdAt → VtpDlCmd
cmd_text buf c = record { cmd = take c.cmd_len (drop c.start buf); cmd_type = c.cmd_type }

abbrev pub cmds_of : Script → List VtpDlCmd
cmds_of s = map (cmd_text s.buf) s.cmds

-- The commands of a script with these bytes.
unfoldable pub parse_bin_sc : List ℕ → Outcome (List VtpDlCmd)
unfolding read_rounds
parse_bin_sc bytes =
    let s : Script = record { buf = bytes ++ (0 ∷ []); index = 0; start = 0; cmds = [] } in
    read_rounds (length bytes) (length bytes) s >>= λ r. returned (cmds_of r)
