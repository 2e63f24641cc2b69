-- ===== src/Download/Nci.antt =====
-- Commands to the NFC controller while it is updated
-- (tms-cos-dl-ree/tmsDlNciUtils.cpp, and tmsNfccDl.cpp for the choice of a download): NciReceive,
-- NciCmdProcess, NciCmdSendAndChkRsp, execNciCmdChkRes, the versions in the answers and what they say
-- of the chip. The device is an interface over a world of any type; its flag g_fixedI2CFlag is a
-- variable of the model. A buffer is a list of bytes, and an access outside it is a fault.
pub mod Chip
pub mod Bounds
pub mod Answer
use android_vendor_tms.Prelude.{
  ℕ, zero, suc, ◌+◌, ◌-◌, Bool, true, false, not, ◌&&◌, ◌||◌, Option, none, some, List, [], ◌∷◌,
  ◌==◌, ltb, leb, if◌then◌else◌, length, take, replicate, write_at, get_or, bit_and,
}
use android_vendor_tms.Prelude.Outcome.{Outcome, returned, fault, unfinished, ◌>>=◌}
use android_vendor_tms.Ese.Types.{EseStatus, success, invalid_parameter}
use android_vendor_tms.Download.Buffer.{load}
use android_vendor_tms.Download.Hex.{cstr2hex}

-- select, read and write on the device node, and GetThreadRunning. A read gives no more bytes than
-- were asked for, and `none` for an error or the end.
pub record NciDevice (W : Type 0) : Type 0 where
  pub select : W → Bool × W
  pub read : ℕ → W → Option (List ℕ) × W
  pub write : List ℕ → W → Bool × W
  pub running : W → Bool × W

-- The result of a receive: `numRead`, the flag and the buffer.
pub record Received : Type 0 where
  pub num_read : ℕ
  pub fixed : Bool
  pub buff : List ℕ

-- NCI_RSP_LEN_MAX
abbrev pub nci_rsp_len_max : ℕ
nci_rsp_len_max = 259

-- The response is the buffer and `rspLen`, which keeps its value where nothing is received.
pub record Response : Type 0 where
  pub ok : Bool
  pub fixed : Bool
  pub rsp : List ℕ
  pub rsp_len : ℕ

-- The header that an answer must have: its first byte, the opcode and the status.
abbrev pub same_opcode : List ℕ → Response → Bool
same_opcode header r =
    leb 4 r.rsp_len
    && leb 4 (length header)
    && get_or r.rsp 0 0 == get_or header 0 0
    && bit_and (get_or r.rsp 1 0) 0x3F == get_or header 1 0

abbrev pub same_status : List ℕ → Response → Bool
same_status header r = get_or r.rsp 3 0 == get_or header 3 0

-- The result of NciCmdSendAndChkRsp, and the last response.
pub record Checked : Type 0 where
  pub result : Bool
  pub last_rsp : Response

abbrev pub rsp_chk_header : List ℕ
rsp_chk_header = 0x4F ∷ 0x25 ∷ 0x01 ∷ 0x00 ∷ []

module _ {W : Type 0} (dev : NciDevice W) where
  -- The bytes after the header, at `pBuff[3]`.
  abbrev with_body : Bool → List ℕ → ℕ → Option (List ℕ) → W → Outcome (Received × W)
  with_body fixed buff asked none w =
      let r : Received = record { num_read = 0; fixed = false; buff = buff } in returned (r, w)
  with_body fixed buff asked (some bytes) w =
      let body = take asked bytes in
      let stored = write_at buff 3 body in
      let one_less : ℕ → ℕ = λ len. if fixed && len == 1 then 1 else 0 in
      let r : ℕ → Received =
        λ len. record { num_read = 3 + length body - one_less len; fixed = fixed; buff = stored } in
      let done : Outcome (Received × W) = load stored 2 >>= λ len. returned (r len, w) in
      if leb (3 + length body) (length buff) then done else fault

  -- The header that was read, and the length in it.
  abbrev with_head : Bool → List ℕ → Option (List ℕ) → W → Outcome (Received × W)
  with_head fixed buff none w =
      let r : Received = record { num_read = 0; fixed = fixed; buff = buff } in returned (r, w)
  with_head fixed buff (some bytes) w =
      let stored = write_at buff 0 (take 3 bytes) in
      let r : Received = record { num_read = 0; fixed = fixed; buff = stored } in
      let asked : ℕ → ℕ = λ len. if fixed && len == 1 then len + 1 else len in
      let body : ℕ → Outcome (Received × W) =
        λ len. (let (b, v) = dev.read (asked len) w in with_body fixed stored (asked len) b v) in
      load stored 2 >>= λ len. if ltb (length buff) (len + 3) then returned (r, w) else body len

  unfoldable pub nci_receive : Bool → List ℕ → W → Outcome (Received × W)
  nci_receive fixed buff w =
      let (ready, v) = dev.select w in
      let r : Received = record { num_read = 0; fixed = fixed; buff = buff } in
      let (head, u) = dev.read 3 v in
      let read : Outcome (Received × W) = with_head fixed buff head u in
      if ready then read else returned (r, v)

  -- The tries of a write, with those that are left.
  abbrev try_write : ℕ → List ℕ → W → Bool × W
  try_write zero cmd w = dev.write cmd w
  try_write (suc n) cmd w =
      let (ok, v) = dev.write cmd w in
      let rest = try_write n cmd v in if ok then (true, v) else rest

  abbrev send_first : Option (List ℕ) → W → Bool × W
  send_first none w = (true, w)
  send_first (some cmd) w = try_write 8 cmd w

  unfoldable pub nci_cmd_process : Option (List ℕ) → Bool → List ℕ → W → Outcome (Response × W)
  unfolding nci_receive
  nci_cmd_process cmd fixed buffer w =
      let (sent, v) = send_first cmd w in
      let refused : Response = record {
        ok = false;
        fixed = fixed;
        rsp = buffer;
        rsp_len = length buffer;
      } in
      let response : Received → Response = λ r. record {
        ok = not (r.num_read == 0);
        fixed = r.fixed;
        rsp = r.buff;
        rsp_len = if r.num_read == 0 then length buffer else r.num_read;
      } in
      let received : Outcome (Response × W) =
        nci_receive fixed (replicate (length buffer) 0) v >>= λ r. returned (response r.0, r.1) in
      if sent then received else returned (refused, v)

  -- The command with the tries that are left; a thread that is to stop sends nothing.
  abbrev run_or : Bool → W → Bool → List ℕ → Outcome (Response × W) → Outcome (Response × W)
  run_or runs w fixed buffer tried =
      let stopped : Response = record {
        ok = false;
        fixed = fixed;
        rsp = buffer;
        rsp_len = length buffer;
      } in
      if runs then tried else returned (stopped, w)

  unfoldable pub try_cmd : ℕ → List ℕ → Bool → List ℕ → W → Outcome (Response × W)
  unfolding nci_cmd_process
  try_cmd zero cmd fixed buffer w =
      let (runs, v) = dev.running w in
      run_or runs v fixed buffer (nci_cmd_process (some cmd) fixed buffer v)
  try_cmd (suc n) cmd fixed buffer w =
      let (runs, v) = dev.running w in
      let retried : Response × W → Outcome (Response × W) = λ r.
        (let rest = try_cmd n cmd r.0.fixed r.0.rsp r.1 in if r.0.ok then returned r else rest) in
      run_or runs v fixed buffer (nci_cmd_process (some cmd) fixed buffer v >>= λ r. retried r)

  -- The loop at chk_nci_rsp: `ret` is what the variable holds there, `retry` is retryCnt, and the
  -- fuel bounds the answers that are not to this command.
  unfoldable pub check_rsp : ℕ → List ℕ → Bool → ℕ → Response → W → Outcome (Checked × W)
  unfolding nci_cmd_process
  check_rsp zero header ret retry r w = unfinished
  check_rsp (suc n) header ret retry r w =
      let (runs, v) = dev.running w in
      let stopped : Checked = record { result = ret; last_rsp = r } in
      let answered : Checked = record { result = same_status header r; last_rsp = r } in
      let failed : Response → Checked = λ s. record { result = false; last_rsp = s } in
      let next : Response × W → Outcome (Checked × W) = λ s.
        (let more = check_rsp n header true retry s.0 s.1 in
          let again = check_rsp n header false (retry + 1) s.0 s.1 in
          if s.0.ok then more else if ltb retry 2 then again else returned (failed s.0, s.1)) in
      let other : Outcome (Checked × W) = nci_cmd_process none r.fixed r.rsp v >>= λ s. next s in
      if not runs
      then returned (stopped, v)
      else if same_opcode header r
      then returned (answered, v)
      else other

  unfoldable pub nci_cmd_send_and_chk_rsp : ℕ → List ℕ → List ℕ → Bool → W → Outcome (Checked × W)
  unfolding try_cmd check_rsp
  nci_cmd_send_and_chk_rsp fuel cmd header fixed w =
      let failed : Response → Checked = λ r. record { result = false; last_rsp = r } in
      let checked : Response × W → Outcome (Checked × W) = λ r.
        (let chk = check_rsp fuel header true 0 r.0 r.1 in
          if r.0.ok then chk else returned (failed r.0, r.1)) in
      try_cmd 4 cmd fixed (replicate nci_rsp_len_max 0) w >>= λ r. checked r

  -- The command is given as text.
  abbrev sent_hex : ℕ → Option (List ℕ) → Bool → W → Outcome (EseStatus × W)
  sent_hex fuel none fixed w = returned (invalid_parameter, w)
  sent_hex fuel (some cmd) fixed w =
      let status : Checked → EseStatus = λ c. if c.result then success else invalid_parameter in
      nci_cmd_send_and_chk_rsp fuel cmd rsp_chk_header fixed w >>= λ c. returned (status c.0, c.1)

  unfoldable pub exec_nci_cmd_chk_res : ℕ → List ℕ → Bool → W → Outcome (EseStatus × W)
  unfolding nci_cmd_send_and_chk_rsp cstr2hex
  exec_nci_cmd_chk_res fuel cmd fixed w = sent_hex fuel (cstr2hex cmd) fixed w
