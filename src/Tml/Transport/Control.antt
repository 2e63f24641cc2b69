-- ===== src/Tml/Transport/Control.antt =====
-- The control codes keep the read that is under way.
use android_vendor_tms.Prelude.{
  ℕ, ◌+◌, ◌<◌, Bool, true, false, not, ◌&&◌, ◌≡◌, ◌⊎◌, inl, inr, refl, sym, ap, subst, ◌∙◌,
  if-cases, arith,
}
use android_vendor_tms.Tml.Transport.{
  NfcStatus, ReadWriteInfo, Context, ControlCode, tmlnfc_invalid, tmlnfc_reset_device,
  tmlnfc_enable_dl_mode, tmlnfc_enable_normal_mode, tmlnfc_enable_dl_mode_with_ven_rst,
  tmlnfc_enable_ven, tmlnfc_power_reset, tmlnfc_set_fragment_size, ResetMode, DwnldMode, controlled,
  tml_nfc_io_ctl,
}
use android_vendor_tms.Tml.Transport.Pending.{Served, InFlight, pending_reads, pending_writes}

-- What a control code leaves as it was, but for the flag of the read.
abbrev Kept : Context → Context → Type 0
Kept c d =
    (d.write_info ≡ c.write_info)
    × (d.messages ≡ c.messages)
    × (d.tx_semaphore ≡ c.tx_semaphore)
    × (d.rx_semaphore ≡ c.rx_semaphore)
    × (d.dev_handle ≡ c.dev_handle)
    × (d.read_info.thread_busy ≡ c.read_info.thread_busy)
    × ((d.retrans ≡ c.retrans) ⊎ (d.retrans ≡ false))
    × ((d.read_info.enabled ≡ c.read_info.enabled) ⊎ (d.read_info.enabled ≡ false))

module _ (is_thn31 is_thn31_or_later : Bool) (dwnld : DwnldMode)
    (nfcc_reset : ResetMode → NfcStatus) where
  controlled-Kept :
      (code : ControlCode) (c : Context)
      → Kept c (controlled is_thn31 is_thn31_or_later dwnld nfcc_reset code c).0
  unfolding controlled
  controlled-Kept tmlnfc_power_reset c = (refl, refl, refl, refl, refl, refl, inl refl, inl refl)
  controlled-Kept tmlnfc_enable_ven c = (refl, refl, refl, refl, refl, refl, inl refl, inl refl)
  controlled-Kept tmlnfc_reset_device c = (refl, refl, refl, refl, refl, refl, inl refl, inl refl)
  controlled-Kept tmlnfc_enable_normal_mode c =
      (refl, refl, refl, refl, refl, refl, inl refl, inr refl)
  controlled-Kept tmlnfc_enable_dl_mode c = (refl, refl, refl, refl, refl, refl, inr refl, inr refl)
  controlled-Kept tmlnfc_enable_dl_mode_with_ven_rst c =
      (refl, refl, refl, refl, refl, refl, inr refl, inr refl)
  controlled-Kept tmlnfc_set_fragment_size c =
      (refl, refl, refl, refl, refl, refl, inl refl, inl refl)
  controlled-Kept tmlnfc_invalid c = (refl, refl, refl, refl, refl, refl, inl refl, inl refl)

and-left : (a b : Bool) → (a && b) ≡ true → a ≡ true
and-left true b e = refl
and-left false b e = e

still-off : (a b : Bool) → (a && not b) ≡ false → b ≡ false → b ≡ a
still-off true true e f = refl
still-off true false e f = absurd (ground arith)
still-off false b e f = f

enabled-same :
    (c d : Context)
    → Kept c d
    → (c.read_info.enabled && not d.read_info.enabled) ≡ false
    → d.read_info.enabled ≡ c.read_info.enabled
enabled-same c d (_, _, _, _, _, _, _, inl e) h = e
enabled-same c d (_, _, _, _, _, _, _, inr e) h = still-off _ _ h e

off-kept : {a b : Bool} → (a ≡ b) ⊎ (a ≡ false) → b ≡ false → a ≡ false
off-kept (inl e) h = e ∙ h
off-kept (inr e) h = e

-- What is under way depends on the flags, the messages and the semaphore.
InFlight-same :
    (info info' : ReadWriteInfo) (p p' s s' : ℕ)
    → info'.enabled ≡ info.enabled
    → info'.thread_busy ≡ info.thread_busy
    → p' ≡ p
    → s' ≡ s
    → InFlight info p s
    → InFlight info' p' s'
InFlight-same info info' p p' s s' e b q t (inl (x, y, z)) = inl (e ∙ x, b ∙ y, q ∙ z)
InFlight-same info info' p p' s s' e b q t (inr (inl (x, y, z, w))) =
    inr (inl (e ∙ x, b ∙ y, q ∙ z, subst (λ k. 0 < k) (sym t) w))
InFlight-same info info' p p' s s' e b q t (inr (inr (x, y, z))) = inr (inr (e ∙ x, b ∙ y, q ∙ z))

-- A read that waited waits again, with its semaphore posted once more.
InFlight-again :
    (info info' : ReadWriteInfo) (p p' s s' : ℕ)
    → info.enabled ≡ true
    → info'.enabled ≡ true
    → info'.thread_busy ≡ info.thread_busy
    → p' ≡ p
    → 0 < s'
    → InFlight info p s
    → InFlight info' p' s'
InFlight-again info info' p p' s s' on e b q t (inl (x, y, z)) =
    absurd (let clash = sym on ∙ x in ground arith)
InFlight-again info info' p p' s s' on e b q t (inr (inl (x, y, z, w))) =
    inr (inl (e, b ∙ y, q ∙ z, t))
InFlight-again info info' p p' s s' on e b q t (inr (inr (x, y, z))) =
    absurd (let clash = sym on ∙ x in ground arith)

Served-Kept :
    (c d : Context) → Kept c d → d.read_info.enabled ≡ c.read_info.enabled → Served c → Served d
Served-Kept c d (w, m, tx, rx, dev, b, r, _) e (off, opened, wr, rd) = (
  off-kept r off,
  dev ∙ opened,
  InFlight-same c.write_info d.write_info _ _ _ _ (ap (λ i. i.enabled) w)
      (ap (λ i. i.thread_busy) w) (ap pending_writes m) tx wr,
  InFlight-same c.read_info d.read_info _ _ _ _ e b (ap pending_reads m) rx rd,
)

Served-again :
    (c d : Context)
    → Kept c d
    → c.read_info.enabled ≡ true
    → Served c
    → Served (record d {
      read_info = record (d.read_info) { enabled = true };
      rx_semaphore = d.rx_semaphore + 1;
    })
Served-again c d (w, m, tx, rx, dev, b, r, _) on (off, opened, wr, rd) =
    let again : ReadWriteInfo = record (d.read_info) { enabled = true } in
    (
      off-kept r off,
      dev ∙ opened,
      InFlight-same c.write_info d.write_info _ _ _ _ (ap (λ i. i.enabled) w)
          (ap (λ i. i.thread_busy) w) (ap pending_writes m) tx wr,
      InFlight-again c.read_info again (pending_reads c.messages) (pending_reads d.messages)
          c.rx_semaphore (d.rx_semaphore + 1) on refl b (ap pending_reads m) (omega arith) rd,
    )

module _ (is_thn31 is_thn31_or_later : Bool) (dwnld : DwnldMode)
    (nfcc_reset : ResetMode → NfcStatus) where
  -- Every control code, whatever the chip, the download mode and the answers of nfccReset, keeps what
  -- the events keep without retransmission, and a read waits for its thread exactly where it did.
  pub tml_nfc_io_ctl-Served :
      (code : ControlCode) (c : Context)
      → Served c
      → Served (tml_nfc_io_ctl is_thn31 is_thn31_or_later dwnld nfcc_reset code c).0
        × ((tml_nfc_io_ctl is_thn31 is_thn31_or_later dwnld nfcc_reset code c).0.read_info.enabled
            ≡ c.read_info.enabled)
  unfolding tml_nfc_io_ctl
  tml_nfc_io_ctl-Served code c h =
      let d = (controlled is_thn31 is_thn31_or_later dwnld nfcc_reset code c).0 in
      let kept = controlled-Kept is_thn31 is_thn31_or_later dwnld nfcc_reset code c in
      if-cases (λ (x : Context). Served x × (x.read_info.enabled ≡ c.read_info.enabled))
        (c.read_info.enabled && not d.read_info.enabled) _ _
        (λ e. let on = and-left _ _ e in (Served-again c d kept on h, sym on))
        (λ e. let same = enabled-same c d kept e in (Served-Kept c d kept same h, same))
