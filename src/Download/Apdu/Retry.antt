-- ===== src/Download/Apdu/Retry.antt =====
-- How often an APDU is sent, and what is reported of it.
use android_vendor_tms.Prelude.{
  ℕ, zero, suc, ◌+◌, ◌≤◌, true, false, Option, none, some, List, ◌≡◌, refl, arith,
}
use android_vendor_tms.Ese.Types.{EseStatus, success, invalid_parameter, is_success}
use android_vendor_tms.Download.Hex.{cstr2hex}
use android_vendor_tms.Download.Hex.Laws.{AllBytes, print_hex, cstr2hex-print_hex}
use android_vendor_tms.Download.Apdu.{
  ApduDevice, is_retried, is_ok, ends_with, send_apdu, transmit_apdu, store_rsp,
  exec_apdu_cmd_chk_res,
}

module _ {D : Type 0} (dev : ApduDevice D) where
  transmit_apdu-count :
      (sent : D → ℕ)
      → ((d : D) (apdu : List ℕ) → sent (dev.transmit d apdu).0 ≡ suc (sent d))
      → (left : ℕ) (cmd apdu : List ℕ) (d : D) (st : EseStatus)
      → sent (transmit_apdu dev left cmd apdu d st).0 ≤ sent d + (left + 1)
  unfolding transmit_apdu
  transmit_apdu-count sent h zero cmd apdu d st = grind (arith, h d apdu)
  transmit_apdu-count sent h (suc left) cmd apdu d st =
      let (d1, st1, rsp) = dev.transmit d apdu in
      let more = transmit_apdu-count sent h left cmd apdu d1 st1 in grind (arith, h d apdu)

  -- However the device answers, execApduCmdChkRes makes at most three transmissions, with `sent` a
  -- count of the transmissions that the device has seen.
  pub exec_apdu_cmd_chk_res-count :
      (sent : D → ℕ) (cmd : List ℕ) (d : D) (rsp : Option (List ℕ))
      → ((d : D) (apdu : List ℕ) → sent (dev.transmit d apdu).0 ≡ suc (sent d))
      → sent (exec_apdu_cmd_chk_res dev cmd d rsp).0 ≤ sent d + 3
  unfolding exec_apdu_cmd_chk_res
  exec_apdu_cmd_chk_res-count sent cmd d rsp h =
      elim (cstr2hex cmd) as (λ a. sent (send_apdu dev a cmd d rsp).0 ≤ sent d + 3) [
        | none ↦ omega arith
        | some apdu ↦ transmit_apdu-count sent h 2 cmd apdu d invalid_parameter
      ]

  -- The device after it was sent an APDU a number of times.
  abbrev pub after_sending : ℕ → List ℕ → D → D
  after_sending zero apdu d = d
  after_sending (suc k) apdu d = after_sending k apdu (dev.transmit d apdu).0

  -- The device after some transmissions, at most `left` of them, was sent the APDU once more, reported
  -- success and gave the response, which is 90 00.
  abbrev pub Acknowledged : ℕ → List ℕ → D → D × EseStatus × Option (List ℕ) → Type 0
  Acknowledged left apdu d0 (d, st, o) =
      (k : ℕ) × (r : List ℕ) × (k ≤ left)
      × ((dev.transmit (after_sending k apdu d0) apdu).0 ≡ d)
      × (is_success (dev.transmit (after_sending k apdu d0) apdu).1 ≡ true)
      × ((dev.transmit (after_sending k apdu d0) apdu).2 ≡ r)
      × (o ≡ some r)
      × (ends_with r 0x90 0x00 ≡ true)

  AckIfSuccess : ℕ → List ℕ → D → D × EseStatus × Option (List ℕ) → Type 0
  AckIfSuccess left apdu d0 x = is_success x.1 ≡ true → Acknowledged left apdu d0 x

  -- The command is read as an APDU, which is acknowledged by its third transmission at the latest; the
  -- caller is given the response.
  abbrev pub Successful : List ℕ → D → Option (List ℕ) → D × EseStatus × Option (List ℕ) → Type 0
  Successful cmd d rsp (d1, st, o) =
      (apdu : List ℕ) × (r : List ℕ) × (cstr2hex cmd ≡ some apdu)
      × Acknowledged 2 apdu d (d1, st, some r)
      × (o ≡ store_rsp (some r) rsp)

  crc_error-not_ok :
      (st : EseStatus) (r : List ℕ) → ends_with r 0x65 0x04 ≡ true → is_ok st r ≡ false
  crc_error-not_ok st r e = ground arith

  crc_error-is_retried : (cmd r : List ℕ) → ends_with r 0x65 0x04 ≡ true → is_retried cmd r ≡ true
  crc_error-is_retried cmd r e = rw e refl

  -- Where the thread is stopped between a response 65 04, which is a CRC error, and the second
  -- transmission, execApduCmdChkRes reports the status of the first one, a success, without a
  -- second transmission, and the response that the caller sees is the one of an earlier command.
  pub exec_apdu_cmd_chk_res-stopped :
      (bytes : List ℕ) (d d1 : D) (r : List ℕ) (rsp : Option (List ℕ))
      → AllBytes bytes
      → dev.transmit d bytes ≡ (d1, success, r)
      → ends_with r 0x65 0x04 ≡ true
      → dev.thread_running d ≡ true
      → dev.thread_running d1 ≡ false
      → exec_apdu_cmd_chk_res dev (print_hex bytes) d rsp ≡ (d1, success, rsp)
  unfolding exec_apdu_cmd_chk_res transmit_apdu store_rsp
  exec_apdu_cmd_chk_res-stopped bytes d d1 r rsp v sent crc run stop =
      let read = (cstr2hex-print_hex bytes 0 v).0 in
      let bad = crc_error-not_ok success r crc in
      let again = crc_error-is_retried (print_hex bytes) r crc in
      rw (read, run, sent, bad, again, stop) refl
