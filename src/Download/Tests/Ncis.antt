-- ===== src/Download/Tests/Ncis.antt =====
-- Commands to the NFC controller with given answers.
use android_vendor_tms.Prelude.{
  ℕ, ◌-◌, Bool, true, false, not, Option, none, some, List, [], ◌∷◌, ◌≡◌, refl, ◌==◌, if◌then◌else◌,
  replicate, arith,
}
use android_vendor_tms.Prelude.Outcome.{Outcome, returned, ◌>>=◌}
use android_vendor_tms.Download.Nci.{
  NciDevice, Response, Checked, rsp_chk_header, nci_receive, nci_cmd_send_and_chk_rsp,
}
use android_vendor_tms.Download.Nci.Chip.{invalid_fw_ver, parse_fw_ver_from_nci_rsp, NfccChipInfo}
use android_vendor_tms.Download.Nci.Bounds.{nci_receive-parse_fw_ver}
use android_vendor_tms.Download.Nci.Answer.{Answered, nci_cmd_send_and_chk_rsp-Answered}

-- A device whose reads are given, and a thread that is to stop after a number of questions.
pub record Script : Type 0 where
  pub reads : List (List ℕ)
  pub asked : ℕ

abbrev is_some_left : List (List ℕ) → Bool
is_some_left [] = false
is_some_left (r ∷ reads) = true

abbrev first_of : List (List ℕ) → Option (List ℕ)
first_of [] = none
first_of (r ∷ reads) = some r

abbrev others_of : List (List ℕ) → List (List ℕ)
others_of [] = []
others_of (r ∷ reads) = reads

abbrev scripted : NciDevice Script
scripted = record {
  select = λ w. (is_some_left w.reads, w);
  read = λ n w.
      (let rest : Script = record { reads = others_of w.reads; asked = w.asked } in
        (first_of w.reads, rest));
  write = λ cmd w. (true, w);
  running = λ w. (true, w);
}

abbrev stopping : NciDevice Script
stopping = record {
  select = λ w. (is_some_left w.reads, w);
  read = λ n w.
      (let rest : Script = record { reads = others_of w.reads; asked = w.asked } in
        (first_of w.reads, rest));
  write = λ cmd w. (true, w);
  running = λ w.
      (let rest : Script = record { reads = w.reads; asked = w.asked - 1 } in
        (not (w.asked == 0), rest));
}

-- A notification, and then the answer with the status 0.
abbrev answers : Script
answers = record {
  reads = (0x60 ∷ 0x07 ∷ 0x01 ∷ []) ∷ (0x01 ∷ []) ∷ (0x4F ∷ 0x25 ∷ 0x01 ∷ []) ∷ (0x00 ∷ []) ∷ [];
  asked = 1;
}

-- The same answer with another status.
abbrev refusal : Script
refusal = record { reads = (0x4F ∷ 0x25 ∷ 0x01 ∷ []) ∷ (0x05 ∷ []) ∷ []; asked = 1 }

abbrev result_of : Outcome (Checked × Script) → Outcome Bool
result_of o = o >>= λ c. returned c.0.result

send_answered :
    result_of
      (nci_cmd_send_and_chk_rsp scripted 9 (0x2F ∷ 0x25 ∷ 0x00 ∷ []) rsp_chk_header false answers)
    ≡ returned true
unfolding nci_cmd_send_and_chk_rsp
send_answered = refl

send_refused :
    result_of
      (nci_cmd_send_and_chk_rsp scripted 9 (0x2F ∷ 0x25 ∷ 0x00 ∷ []) rsp_chk_header false refusal)
    ≡ returned false
unfolding nci_cmd_send_and_chk_rsp
send_refused = refl

-- A thread that is told to stop after its command was answered reports success for any answer.
send_stopped :
    result_of
      (nci_cmd_send_and_chk_rsp stopping 9 (0x2F ∷ 0x25 ∷ 0x00 ∷ []) rsp_chk_header false refusal)
    ≡ returned true
unfolding nci_cmd_send_and_chk_rsp
send_stopped = refl

abbrev last_checked : Outcome (Checked × Script) → Checked × Script → Checked × Script
last_checked (returned c) d = c
last_checked _ d = d

abbrev no_response : Response
no_response = record { ok = false; fixed = false; rsp = []; rsp_len = 0 }

abbrev no_check : Checked
no_check = record { result = false; last_rsp = no_response }

abbrev answered_run : Checked × Script
answered_run =
    last_checked
      (nci_cmd_send_and_chk_rsp scripted 9 (0x2F ∷ 0x25 ∷ 0x00 ∷ []) rsp_chk_header false answers)
      (no_check, answers)

nci_cmd_send_and_chk_rsp-Answered_example : Answered rsp_chk_header answered_run.0
unfolding nci_cmd_send_and_chk_rsp
nci_cmd_send_and_chk_rsp-Answered_example =
    nci_cmd_send_and_chk_rsp-Answered scripted rsp_chk_header (λ w. refl) 9
      (0x2F ∷ 0x25 ∷ 0x00 ∷ []) false answers answered_run.0 answered_run.1 refl

nci_receive-parse_fw_ver_example :
    (v : ℕ) × ((nci_receive scripted false (replicate 259 0) answers >>= λ r.
    if r.0.num_read == 0
    then returned invalid_fw_ver
    else parse_fw_ver_from_nci_rsp r.0.buff r.0.num_read)
      ≡ returned v)
nci_receive-parse_fw_ver_example =
    nci_receive-parse_fw_ver scripted 259 (omega arith) false (replicate 259 0) answers refl

abbrev unknown_chip : NfccChipInfo
unknown_chip = record {
  fw_ver = 0x00D21000;
  nfcc_bl_ver = 0x0000B400;
  chip_type = 0xFF;
  chip_key_type = 0xFF;
}
