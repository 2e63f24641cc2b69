-- ===== src/Download/Nci/Bounds.antt =====
-- What is received fits the buffer, and the version in it is read inside it.
use android_vendor_tms.Prelude.{
  ℕ, zero, suc, ◌+◌, ◌-◌, leb→le, min, ◌<◌, ◌≤◌, Bool, false, ◌&&◌, ◌||◌, Option, none, some, List,
  [], ◌∷◌, ◌≡◌, ◌⊎◌, inl, inr, refl, sym, ap, subst, ◌∙◌, ◌==◌, ltb, leb, if◌then◌else◌, length,
  take, get_or, write_at, length-write_at, length-take, bit_and, arith,
}
use android_vendor_tms.Prelude.Outcome.{
  returned, ◌>>=◌, Returns, then-Returns, if-Returns, Returns-returned,
}
use android_vendor_tms.Download.Buffer.{load, load-Returns}
use android_vendor_tms.Download.Nci.{NciDevice, Received, with_body, with_head, nci_receive}
use android_vendor_tms.Download.Nci.Chip.{
  invalid_fw_ver, version_at, printed, parse_fw_ver_from_nci_rsp,
}

get_or-write_at :
    (xs : List ℕ) (i j : ℕ) (ys : List ℕ) → i < j → get_or (write_at xs j ys) i 0 ≡ get_or xs i 0
get_or-write_at [] i j ys h = refl
get_or-write_at (x ∷ xs) i zero ys h = absurd (omega arith)
get_or-write_at (x ∷ xs) zero (suc j) ys h = refl
get_or-write_at (x ∷ xs) (suc i) (suc j) ys h = get_or-write_at xs i j ys (omega arith)

-- The length in the header fits the buffer.
abbrev pub LengthFits : List ℕ → ℕ → Type 0
LengthFits buff n = (length buff ≡ n) × (get_or buff 2 0 + 3 ≤ n)

-- Nothing was received, or a packet that fits.
abbrev pub Fits : ℕ → Received → Type 0
Fits n r = (length r.buff ≡ n) × ((r.num_read ≡ 0) ⊎ (LengthFits r.buff n × (r.num_read ≤ n)))

-- The packet of a version: three bytes of it are the last.
version_at-Returns :
    (rsp : List ℕ) (n : ℕ) → 3 ≤ n → LengthFits rsp n → Returns (λ v. Unit) (version_at rsp)
version_at-Returns rsp n k (e, h) = load-Returns _ rsp 2 n _ e (omega arith) (
    load-Returns _ rsp (get_or rsp 2 0) n _ e (omega arith) (
      load-Returns _ rsp (get_or rsp 2 0 + 1) n _ e (omega arith)
        (load-Returns _ rsp (get_or rsp 2 0 + 2) n _ e (omega arith) tt)))

printed-Returns :
    (rsp : List ℕ) (n len : ℕ) → length rsp ≡ n → len ≤ n → Returns (λ v. Unit) (printed len rsp)
unfolding printed
printed-Returns rsp n zero e h = tt
printed-Returns rsp n (suc len) e h =
    then-Returns (λ v. Unit) (λ v. Unit) (printed len rsp) _
      (printed-Returns rsp n len e (omega arith))
      (λ _ _. load-Returns _ rsp len n _ e (omega arith) tt)

-- The other reset notifications print what was received.
other_ntf-Returns :
    (rsp : List ℕ) (n len : ℕ)
    → 5 ≤ n
    → length rsp ≡ n
    → len ≤ n
    → Returns
        (λ v. Unit)
        (printed len rsp >>= λ bytes. load rsp 3 >>= λ reason. returned invalid_fw_ver)
other_ntf-Returns rsp n len k e h =
    then-Returns (λ v. Unit) (λ v. Unit) (printed len rsp) _ (printed-Returns rsp n len e h)
      (λ _ _. load-Returns _ rsp 3 n _ e (omega arith) tt)

parse_fw_ver-Returns :
    (rsp : List ℕ) (n len : ℕ)
    → 5 ≤ n
    → len ≤ n
    → LengthFits rsp n
    → Returns (λ v. Unit) (parse_fw_ver_from_nci_rsp rsp len)
unfolding parse_fw_ver_from_nci_rsp
parse_fw_ver-Returns rsp n len k l h =
    let (e, _) = h in
    let version = version_at-Returns rsp n (omega arith) h in
    if-Returns _ (len == 0) _ _ (λ _. tt)
      (λ _. load-Returns _ rsp 0 n _ e (omega arith) (
        load-Returns _ rsp 1 n _ e (omega arith) (
          if-Returns _ (get_or rsp 0 0 == 0x40 && bit_and (get_or rsp 1 0) 0x3F == 0x00) _ _
            (λ _. load-Returns _ rsp 2 n _ e (omega arith) (
              if-Returns _ (get_or rsp 2 0 == 0x01 || get_or rsp 2 0 == 0x03) _ _
                (λ _. load-Returns _ rsp 3 n _ e (omega arith) tt) (λ _. tt)))
            (λ _.
              if-Returns _ (get_or rsp 0 0 == 0x60 && bit_and (get_or rsp 1 0) 0x3F == 0x00) _ _
                (λ _. load-Returns _ rsp 3 n _ e (omega arith) (
                  if-Returns _ (get_or rsp 3 0 == 0x02 || get_or rsp 3 0 == 0x01) _ _ (λ _. version)
                    (λ _. other_ntf-Returns rsp n len k e l)))
                (λ _.
                  if-Returns _ (get_or rsp 0 0 == 0x40 && bit_and (get_or rsp 1 0) 0x3F == 0x01) _ _
                    (λ _. version) (λ _. tt))))))

not_outside : (a asked n len : ℕ) → a ≡ min asked len → 3 + asked ≤ n → leb (3 + a) n ≡ false → ⊥
not_outside a asked n len e k f = ground arith

received_le : (a b n c : ℕ) → 3 + a ≤ b → b ≡ n → 3 + a - c ≤ n
received_le a b n c h e = omega arith

asked_fits :
    (fixed : Bool) (len n : ℕ)
    → 5 ≤ n
    → len + 3 ≤ n
    → 3 + (if fixed && len == 1 then len + 1 else len) ≤ n
asked_fits fixed len n h k = ground arith

parsed :
    (n : ℕ) (r : Received)
    → 5 ≤ n
    → Fits n r
    → Returns
        (λ v. Unit)
        (if r.num_read == 0
          then returned invalid_fw_ver
          else parse_fw_ver_from_nci_rsp r.buff r.num_read)
parsed n r k (e, inl z) = if-Returns _ (r.num_read == 0) _ _ (λ _. tt) (λ f. absurd (ground arith))
parsed n r k (e, inr (h, l)) =
    if-Returns _ (r.num_read == 0) _ _ (λ _. tt) (λ f. parse_fw_ver-Returns r.buff n _ k l h)

module _ {W : Type 0} (dev : NciDevice W) (n : ℕ) (room : 5 ≤ n) where
  with_body-Fits :
      (fixed : Bool) (buff : List ℕ) (asked : ℕ) (bytes : Option (List ℕ)) (w : W)
      → LengthFits buff n
      → 3 + asked ≤ n
      → Returns (λ r. Fits n r.0) (with_body dev fixed buff asked bytes w)
  with_body-Fits fixed buff asked none w (e, h) k = (e, inl refl)
  with_body-Fits fixed buff asked (some bytes) w (e, h) k =
      let short = length-take asked bytes in
      let stored = write_at buff 3 (take asked bytes) in
      let size : length stored ≡ n = length-write_at buff 3 (take asked bytes) ∙ e in
      let head = get_or-write_at buff 2 3 (take asked bytes) (omega arith) in
      let fits : get_or stored 2 0 + 3 ≤ n = subst (λ x. x + 3 ≤ n) (sym head) h in
      if-Returns _ (leb (3 + length (take asked bytes)) (length buff)) _ _
        (λ inside.
          load-Returns _ stored 2 n _ size (omega arith)
            (size, inr ((size, fits), received_le _ _ n _ (leb→le _ _ inside) e)))
        (λ f. absurd (
          not_outside _ asked n (length bytes) short k
            (ap (leb (3 + length (take asked bytes))) (sym e) ∙ f)))

  with_head-Fits :
      (fixed : Bool) (buff : List ℕ) (bytes : Option (List ℕ)) (w : W)
      → length buff ≡ n
      → Returns (λ r. Fits n r.0) (with_head dev fixed buff bytes w)
  with_head-Fits fixed buff none w e = (e, inl refl)
  with_head-Fits fixed buff (some bytes) w e =
      let stored = write_at buff 0 (take 3 bytes) in
      let size : length stored ≡ n = length-write_at buff 0 (take 3 bytes) ∙ e in
      let len = get_or stored 2 0 in
      load-Returns _ stored 2 n _ size (omega arith) (
        if-Returns _ (ltb (length buff) (len + 3)) _ _ (λ _. (size, inl refl))
          (λ f.
            let fits : len + 3 ≤ n = ground arith in
            with_body-Fits fixed stored (if fixed && len == 1 then len + 1 else len) _ _
              (size, fits) (asked_fits fixed len n room fits)))

  nci_receive-Fits :
      (fixed : Bool) (buff : List ℕ) (w : W)
      → length buff ≡ n
      → Returns (λ r. Fits n r.0) (nci_receive dev fixed buff w)
  unfolding nci_receive
  nci_receive-Fits fixed buff w e =
      if-Returns _ (dev.select w).0 _ _ (λ _. with_head-Fits fixed buff _ _ e) (λ _. (e, inl refl))

  -- With a buffer of five bytes or more, whatever the device answers: a packet is received inside the
  -- buffer, and parseFwVerFromNciRsp, given the length that was received, reads inside it, the bytes
  -- that it prints included.
  pub nci_receive-parse_fw_ver :
      (fixed : Bool) (buff : List ℕ) (w : W)
      → length buff ≡ n
      → (v : ℕ) × ((nci_receive dev fixed buff w >>= λ r.
            if r.0.num_read == 0
            then returned invalid_fw_ver
            else parse_fw_ver_from_nci_rsp r.0.buff r.0.num_read)
          ≡ returned v)
  nci_receive-parse_fw_ver fixed buff w e =
      let read : Returns (λ v. Unit) _ =
        then-Returns (λ r. Fits n r.0) (λ v. Unit) (nci_receive dev fixed buff w) _
          (nci_receive-Fits fixed buff w e) (λ r h. parsed n r.0 room h) in
      let (v, f, _) = Returns-returned _ _ read in (v, f)
