-- ===== src/Download/Nci/Answer.antt =====
-- What a success of a command to the NFC controller says of the response buffer.
use android_vendor_tms.Prelude.{
  ℕ, zero, suc, ◌+◌, Bool, true, false, not, none, List, ◌≡◌, ◌⊎◌, inl, inr, refl, ap, ltb,
  Bool-cases, replicate, ◌≤◌, length, get_or, bit_and, arith,
}
use android_vendor_tms.Prelude.Outcome.{
  returned, Ensures, bind-Ensures, if-Ensures, Ensures-returned,
}
use android_vendor_tms.Download.Nci.{
  NciDevice, Response, same_opcode, same_status, Checked, nci_cmd_process, try_cmd, check_rsp,
  nci_cmd_send_and_chk_rsp, nci_rsp_len_max,
}

-- The first, second and fourth byte of the response buffer are those of the header, the second
-- without its upper two bits, where both have four bytes.
abbrev pub Matches : List ℕ → Response → Type 0
Matches header r =
    (4 ≤ r.rsp_len)
    × (4 ≤ length header)
    × (get_or r.rsp 0 0 ≡ get_or header 0 0)
    × (bit_and (get_or r.rsp 1 0) 0x3F ≡ get_or header 1 0)
    × (get_or r.rsp 3 0 ≡ get_or header 3 0)

-- A failure, or a response that matches.
abbrev pub Answered : List ℕ → Checked → Type 0
Answered header r = (r.result ≡ false) ⊎ Matches header r.last_rsp

same_opcode-Matches :
    (header : List ℕ) (r : Response)
    → same_opcode header r ≡ true
    → same_status header r ≡ true
    → Matches header r
same_opcode-Matches header r e f =
    (ground arith, ground arith, ground arith, ground arith, ground arith)

checked-Answered :
    (header : List ℕ) (r : Response)
    → same_opcode header r ≡ true
    → Answered header (record { result = same_status header r; last_rsp = r })
checked-Answered header r e = elim (Bool-cases (same_status header r)) [
  | inl f ↦ inr (same_opcode-Matches header r e f)
  | inr f ↦ inl f
]

module _ {W : Type 0} (dev : NciDevice W) (header : List ℕ)
    (runs : (w : W) → (dev.running w).0 ≡ true) where
  check_rsp-Answered :
      (n : ℕ) (ret : Bool) (retry : ℕ) (r : Response) (w : W)
      → Ensures (λ c. Answered header c.0) (check_rsp dev n header ret retry r w)
  unfolding check_rsp
  check_rsp-Answered zero ret retry r w = tt
  check_rsp-Answered (suc n) ret retry r w =
      if-Ensures _ (not (dev.running w).0) _ _
        (λ e. absurd (let on = ap not (runs w) in ground arith))
        (λ _.
          if-Ensures _ (same_opcode header r) _ _ (λ e. checked-Answered header r e)
            (λ _. bind-Ensures _ (nci_cmd_process dev none r.fixed r.rsp (dev.running w).1) _ (λ s.
              if-Ensures _ s.0.ok _ _ (λ _. check_rsp-Answered n true retry s.0 s.1)
                (λ _.
                  if-Ensures _ (ltb retry 2) _ _
                    (λ _. check_rsp-Answered n false (retry + 1) s.0 s.1) (λ _. inl refl)))))

  nci_cmd_send_and_chk_rsp-Ensures :
      (fuel : ℕ) (cmd : List ℕ) (fixed : Bool) (w : W)
      → Ensures (λ c. Answered header c.0) (nci_cmd_send_and_chk_rsp dev fuel cmd header fixed w)
  unfolding nci_cmd_send_and_chk_rsp
  nci_cmd_send_and_chk_rsp-Ensures fuel cmd fixed w =
      bind-Ensures _ (try_cmd dev 4 cmd fixed (replicate nci_rsp_len_max 0) w) _
        (λ r. if-Ensures _ r.0.ok _ _ (λ _. check_rsp-Answered fuel true 0 r.0 r.1) (λ _. inl refl))

  -- While the thread is not told to stop: where NciCmdSendAndChkRsp reports success, the response
  -- buffer, whose length is given as 4 or more, has the first byte, the opcode in the lower six bits
  -- of the second byte, and the status byte of the expected header, which has 4 bytes or more. The
  -- buffer may be that of a receive that failed after its header was read.
  pub nci_cmd_send_and_chk_rsp-Answered :
      (fuel : ℕ) (cmd : List ℕ) (fixed : Bool) (w : W) (c : Checked) (v : W)
      → nci_cmd_send_and_chk_rsp dev fuel cmd header fixed w ≡ returned (c, v)
      → Answered header c
  nci_cmd_send_and_chk_rsp-Answered fuel cmd fixed w c v e =
      Ensures-returned (λ d. Answered header d.0) _ (c, v)
        (nci_cmd_send_and_chk_rsp-Ensures fuel cmd fixed w) e
