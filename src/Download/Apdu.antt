-- ===== src/Download/Apdu.antt =====
-- Sending an APDU of a script (tms-cos-dl-common/tmsDlCommonUtils.cpp): chkEseSoftReset and
-- execApduCmdChkRes, for arguments that are not null.
pub mod Retry
use android_vendor_tms.Prelude.{
  ℕ, zero, suc, ◌+◌, ◌-◌, Bool, true, false, not, ◌&&◌, ◌||◌, Option, none, some, List, [], ◌∷◌,
  ◌==◌, ltb, leb, if◌then◌else◌, length,
}
use android_vendor_tms.Ese.Types.{
  EseStatus, success, failed, invalid_parameter, is_success, byte_at,
}
use android_vendor_tms.Download.Hex.{cstr2hex}
use android_vendor_tms.Download.Script.{codes, same_text, c_str}

-- The response buffer of DownloadCmdOp, with the `rspLen` bytes of the response, and what the code
-- uses of the device: the transmission of ITmsPhAbs and the flag g_threadRunning.
pub record ApduDevice (D : Type 0) : Type 0 where
  pub transmit : D → List ℕ → D × EseStatus × List ℕ
  pub thread_running : D → Bool

-- The response ends with these status words.
abbrev pub ends_with : List ℕ → ℕ → ℕ → Bool
ends_with rsp sw1 sw2 =
    leb 2 (length rsp)
    && (byte_at rsp (length rsp - 2) == sw1 && byte_at rsp (length rsp - 1) == sw2)

unfoldable pub chk_ese_soft_reset : List ℕ → Bool
chk_ese_soft_reset rsp = ends_with rsp 0x90 0x00

-- After these status words the command is sent again.
abbrev pub is_retried : List ℕ → List ℕ → Bool
is_retried cmd rsp =
    ends_with rsp 0x65 0x04
    || (same_text (c_str cmd) (codes "00F0010000") && ends_with rsp 0x6F 0x00)

abbrev pub is_ok : EseStatus → List ℕ → Bool
is_ok st rsp = is_success st && ends_with rsp 0x90 0x00

abbrev pub not_success : EseStatus → EseStatus
not_success st = if is_success st then failed else st

-- How the last transmission ends, given its status and its response.
abbrev pub answered : {D : Type 0} → D → EseStatus → List ℕ → D × EseStatus × Option (List ℕ)
answered d st rsp = (d, (if is_ok st rsp then success else not_success st), some rsp)

module _ {D : Type 0} (dev : ApduDevice D) where
  -- The transmissions, with the number of further ones that are allowed; no response where the
  -- thread is stopped.
  unfoldable pub transmit_apdu :
      ℕ → List ℕ → List ℕ → D → EseStatus → D × EseStatus × Option (List ℕ)
  unfolding same_text c_str
  transmit_apdu zero cmd apdu d st =
      let (d1, st1, rsp) = dev.transmit d apdu in
      if dev.thread_running d then answered d1 st1 rsp else (d, st, none)
  transmit_apdu (suc left) cmd apdu d st =
      let (d1, st1, rsp) = dev.transmit d apdu in
      let again = transmit_apdu left cmd apdu d1 st1 in
      let ends = is_ok st1 rsp || not (is_retried cmd rsp) in
      if dev.thread_running d then if ends then answered d1 st1 rsp else again else (d, st, none)

-- The response that the caller sees afterwards; no buffer for a null pointer.
unfoldable pub store_rsp : Option (List ℕ) → Option (List ℕ) → Option (List ℕ)
store_rsp none rsp = rsp
store_rsp (some r) none = none
store_rsp (some r) (some old) =
    if leb 2 (length r) then if leb (length r) 259 then some r else some old else some []

module _ {D : Type 0} (dev : ApduDevice D) where
  abbrev pub send_apdu :
      Option (List ℕ) → List ℕ → D → Option (List ℕ) → D × EseStatus × Option (List ℕ)
  send_apdu none cmd d rsp = (d, invalid_parameter, rsp)
  send_apdu (some apdu) cmd d rsp =
      let (d1, st, r) = transmit_apdu dev 2 cmd apdu d invalid_parameter in
      (d1, st, store_rsp r rsp)

  unfoldable pub exec_apdu_cmd_chk_res :
      List ℕ → D → Option (List ℕ) → D × EseStatus × Option (List ℕ)
  unfolding cstr2hex transmit_apdu store_rsp
  exec_apdu_cmd_chk_res cmd d rsp = send_apdu (cstr2hex cmd) cmd d rsp
