-- ===== src/Ese/Send/Block.antt =====
-- What a card reads in an I-block that t1SendIFrame hands to the driver
-- (7816-3-T1/7816/T1.c): the segment, whatever the epilogue.
use android_vendor_tms.Prelude.{
  ℕ, zero, suc, ◌+◌, ◌-◌, ◌*◌, ◌/◌, ◌<◌, Bool, true, false, List, [], ◌∷◌, ◌++◌, ◌≡◌, refl, sym, ap,
  ◌∙◌, ◌==◌, inl, inr, if◌then◌else◌, Bool-cases, length, take, drop, set, replicate, write_at,
  length-append, length-set, u8, u16, get_or, arith,
}
use android_vendor_tms.Ese.Types.{T1State, iframe}
use android_vendor_tms.Ese.Epilogue.{uses_lrc, calculate_lrc, calculate_crc, set_epilogue}
use android_vendor_tms.Ese.Frame.{ext_hdr, sends_cip, len_offset, set_info_len}
use android_vendor_tms.Ese.Send.{nad_d2c, segment, send_len, new_iframe}

-- The information field as a card reads it: as many bytes behind LEN as LEN says.
unfoldable pub inf : Bool → List ℕ → List ℕ
inf true block = take (get_or block 2 0 * 256 + get_or block 3 0) (drop 4 block)
inf false block = take (get_or block 2 0) (drop 3 block)

-- A block with its prologue, its information field and its epilogue.
abbrev laid_out : Bool → ℕ → List ℕ → List ℕ → List ℕ
laid_out true pcb seg epi = nad_d2c ∷ pcb ∷ u8 (length seg / 256) ∷ u8 (length seg) ∷ (seg ++ epi)
laid_out false pcb seg epi = nad_d2c ∷ pcb ∷ u8 (length seg) ∷ (seg ++ epi)

-- The bound on an information field: what LEN of one byte can say, and with LEN of two bytes what leaves
-- the length of the frame in 16 bits.
abbrev pub most : Bool → ℕ
most true = 65530
most false = 256

set-append :
    (pre rest : List ℕ) (j v : ℕ) → set (pre ++ rest) (length pre + j) v ≡ pre ++ set rest j v
set-append [] rest j v = let z : 0 + j ≡ j = omega arith in rw z refl
set-append (x ∷ pre) rest j v =
    let z : suc (length pre) + j ≡ suc (length pre + j) = omega arith in
    rw z (ap (λ l. x ∷ l) (set-append pre rest j v))

write_at-front :
    (seg : List ℕ) (epi : ℕ)
    → write_at (replicate (length seg + epi) 0) 0 seg ≡ seg ++ replicate epi 0
write_at-front [] zero = refl
write_at-front [] (suc epi) = let z : 0 + suc epi ≡ suc epi = omega arith in rw z refl
write_at-front (x ∷ seg) epi =
    let z : suc (length seg) + epi ≡ suc (length seg + epi) = omega arith in
    rw z (ap (λ l. x ∷ l) (write_at-front seg epi))

take-front : (xs ys : List ℕ) → take (length xs) (xs ++ ys) ≡ xs
take-front [] ys = refl
take-front (x ∷ xs) ys = ap (λ l. x ∷ l) (take-front xs ys)

take-length : (xs : List ℕ) → take (length xs) xs ≡ xs
take-length [] = refl
take-length (x ∷ xs) = ap (λ l. x ∷ l) (take-length xs)

inf-laid_out :
    (ext : Bool) (pcb : ℕ) (seg epi : List ℕ)
    → length seg < most ext
    → inf ext (laid_out ext pcb seg epi) ≡ seg
unfolding inf
inf-laid_out true pcb seg epi h =
    let e : u8 (length seg / 256) * 256 + u8 (length seg) ≡ length seg = omega arith in
    rw e (take-front seg epi)
inf-laid_out false pcb seg epi h =
    let e : u8 (length seg) ≡ length seg = omega arith in rw e (take-front seg epi)

-- The epilogue is written behind what stands before it.
length-replicate : (n : ℕ) → length {A = ℕ} (replicate n 0) ≡ n
length-replicate zero = refl
length-replicate (suc n) = ap suc (length-replicate n)

crc-two :
    (s : T1State) (n : ℕ) → uses_lrc s ≡ false → n ≡ (if s.atr.checksum == 0 then 1 else 2) → n ≡ 2
unfolding uses_lrc
crc-two s n l e = ground arith

set_epilogue-behind :
    (s : T1State) (pre : List ℕ) (n : ℕ)
    → n ≡ (if s.atr.checksum == 0 then 1 else 2)
    → (epi : List ℕ) × (set_epilogue s (pre ++ replicate n 0) 0 (length pre + n) ≡ pre ++ epi)
      × (length epi ≡ n)
unfolding set_epilogue
set_epilogue-behind s pre n e = elim (Bool-cases (uses_lrc s)) [
  | inl l ↦
      let v = calculate_lrc (pre ++ replicate n 0) 0 (length pre + n - 1) in
      let z : length pre + n - 1 ≡ length pre + (n - 1) = ground arith in
      (
        set (replicate n 0) (n - 1) v,
        rw l
            (ap (λ i. set (pre ++ replicate n 0) i v) z ∙ set-append pre (replicate n 0) (n - 1) v),
        length-set (replicate n 0) (n - 1) v ∙ length-replicate n,
      )
  | inr l ↦
      let c = calculate_crc (pre ++ replicate n 0) 0 (length pre + n - 2) in
      let two : n ≡ 2 = crc-two s n l e in
      let z : length pre + n - 1 ≡ length pre + 1 = omega arith in
      let y : length pre + n - 2 ≡ length pre + 0 = omega arith in
      let first = set (replicate n 0) 0 (u8 (c / 256)) in
      (
        set first 1 (u8 c),
        rw l (
            ap (λ i. set (set (pre ++ replicate n 0) i (u8 (c / 256))) (length pre + n - 1) (u8 c))
              y
            ∙ ap (λ i. set (set (pre ++ replicate n 0) (length pre + 0) (u8 (c / 256))) i (u8 c)) z
            ∙ ap (λ xs. set xs (length pre + 1) (u8 c))
                (set-append pre (replicate n 0) 0 (u8 (c / 256)))
            ∙ set-append pre first 1 (u8 c)),
        length-set first 1 (u8 c)
            ∙ length-set (replicate n 0) 0 (u8 (c / 256))
            ∙ length-replicate n,
      )
]

short-laid_out :
    (pcb n : ℕ) (seg : List ℕ)
    → set
        (write_at
          (set (set (replicate (3 + n + length seg) 0) 0 nad_d2c) 2 (u8 (length seg)))
          (2 + 1)
          seg)
        1
        pcb
      ≡ laid_out false pcb seg (replicate n 0)
short-laid_out pcb n seg =
    let z : 3 + n + length seg ≡ suc (suc (suc (length seg + n))) = omega arith in
    rw z (ap (λ l. nad_d2c ∷ pcb ∷ u8 (length seg) ∷ l) (write_at-front seg n))

long-laid_out :
    (pcb n : ℕ) (seg : List ℕ)
    → set
        (write_at
          (set
            (set (set (replicate (4 + n + length seg) 0) 0 nad_d2c) 2 (u8 (length seg / 256)))
            3
            (u8 (length seg)))
          (3 + 1)
          seg)
        1
        pcb
      ≡ laid_out true pcb seg (replicate n 0)
long-laid_out pcb n seg =
    let z : 4 + n + length seg ≡ suc (suc (suc (suc (length seg + n)))) = omega arith in
    rw z
      (ap (λ l. nad_d2c ∷ pcb ∷ u8 (length seg / 256) ∷ u8 (length seg) ∷ l) (write_at-front seg n))

ext_hdr_lem : (s : T1State) → s.tx_frame_type ≡ iframe → ext_hdr s ≡ s.is_t1_ext_hdr_len
unfolding ext_hdr sends_cip
ext_hdr_lem s t = ground arith

framed-laid_out :
    (hdr ext : Bool) (sum n len pcb : ℕ) (seg : List ℕ)
    → hdr ≡ ext
    → len ≡ length seg
    → n ≡ sum
    → set
        (write_at
          (if hdr
            then set
                (set
                  (set (replicate ((if ext then 4 else 3) + sum + len) 0) 0 nad_d2c)
                  2
                  (u8 (len / 256)))
                3
                (u8 len)
            else set (set (replicate ((if ext then 4 else 3) + sum + len) 0) 0 nad_d2c) 2 (u8 len))
          ((if hdr then 3 else 2) + 1)
          seg)
        1
        pcb
      ≡ laid_out ext pcb seg (replicate n 0)
framed-laid_out true true sum n len pcb seg h l e = rw (l, ← e) (long-laid_out pcb n seg)
framed-laid_out false false sum n len pcb seg h l e = rw (l, ← e) (short-laid_out pcb n seg)
framed-laid_out true false sum n len pcb seg h l e = cc
framed-laid_out false true sum n len pcb seg h l e = cc

-- The I-block for a new part, before its epilogue.
with_pcb :
    (s : T1State) (pcb n : ℕ)
    → s.tx_frame_type ≡ iframe
    → length (segment s) ≡ send_len s
    → n ≡ (if s.atr.checksum == 0 then 1 else 2)
    → set (new_iframe s) 1 pcb ≡ laid_out s.is_t1_ext_hdr_len pcb (segment s) (replicate n 0)
unfolding new_iframe set_info_len len_offset
with_pcb s pcb n t size e =
    framed-laid_out (ext_hdr s) s.is_t1_ext_hdr_len (if s.atr.checksum == 0 then 1 else 2) n
      (send_len s) pcb (segment s) (ext_hdr_lem s t) (sym size) e

-- What stands before the epilogue is what the driver is given, with some epilogue.
sent-pre :
    (t : T1State) (pre : List ℕ) (n : ℕ)
    → n ≡ (if t.atr.checksum == 0 then 1 else 2)
    → length pre < 65534
    → (epi : List ℕ) × (take
          (length (pre ++ replicate n 0))
          (set_epilogue t (pre ++ replicate n 0) 0 (u16 (length (pre ++ replicate n 0))))
        ≡ pre ++ epi)
sent-pre t pre n e h =
    let (epi, f, size) = set_epilogue-behind t pre n e in
    let whole : length (pre ++ replicate n 0) ≡ length pre + n =
      length-append pre (replicate n 0) ∙ ap (λ k. length pre + k) (length-replicate n) in
    let small : u16 (length pre + n) ≡ length pre + n = ground arith in
    let same : length pre + n ≡ length (pre ++ epi) =
      ap (λ k. length pre + k) (sym size) ∙ sym (length-append pre epi) in
    (
      epi,
      ap (λ l. take l (set_epilogue t (pre ++ replicate n 0) 0 (u16 l))) whole
          ∙ ap (λ l. take (length pre + n) (set_epilogue t (pre ++ replicate n 0) 0 l)) small
          ∙ ap (λ b. take (length pre + n) b) f
          ∙ ap (λ l. take l (pre ++ epi)) same
          ∙ take-length (pre ++ epi),
    )

read-laid_out :
    (t : T1State) (ext : Bool) (pcb n : ℕ) (seg : List ℕ)
    → n ≡ (if t.atr.checksum == 0 then 1 else 2)
    → length seg < most ext
    → inf ext (
        take (length (laid_out ext pcb seg (replicate n 0))) (
          set_epilogue t
            (laid_out ext pcb seg (replicate n 0))
            0
            (u16 (length (laid_out ext pcb seg (replicate n 0))))))
      ≡ seg
read-laid_out t true pcb n seg e h =
    let pre = nad_d2c ∷ pcb ∷ u8 (length seg / 256) ∷ u8 (length seg) ∷ seg in
    let (epi, f) = sent-pre t pre n e (omega arith) in
    ap (inf true) f ∙ inf-laid_out true pcb seg epi h
read-laid_out t false pcb n seg e h =
    let pre = nad_d2c ∷ pcb ∷ u8 (length seg) ∷ seg in
    let (epi, f) = sent-pre t pre n e (omega arith) in
    ap (inf false) f ∙ inf-laid_out false pcb seg epi h

-- The I-block as it is handed to the driver.
abbrev pub block_of : T1State → List ℕ → ℕ → List ℕ
block_of s buf pcb = take (length buf) (set_epilogue s (set buf 1 pcb) 0 (u16 (length buf)))

ap-lt : (a b n : ℕ) → a ≡ b → b < n → a < n
ap-lt a b n e h = omega arith

-- The card reads the segment in the block, if the segment has the length that the header says.
pub inf-block_of :
    (s : T1State) (t : T1State) (pcb : ℕ)
    → s.tx_frame_type ≡ iframe
    → length (segment s) ≡ send_len s
    → send_len s < most s.is_t1_ext_hdr_len
    → t.atr.checksum ≡ s.atr.checksum
    → inf s.is_t1_ext_hdr_len (block_of t (new_iframe s) pcb) ≡ segment s
inf-block_of s t pcb i size room same =
    let n = if s.atr.checksum == 0 then 1 else 2 in
    let ext = s.is_t1_ext_hdr_len in
    let laid = laid_out ext pcb (segment s) (replicate n 0) in
    let e = with_pcb s pcb n i size refl in
    let len : length (new_iframe s) ≡ length laid =
      sym (length-set (new_iframe s) 1 pcb) ∙ ap length e in
    ap (λ l. inf ext (take l (set_epilogue t (set (new_iframe s) 1 pcb) 0 (u16 l)))) len
    ∙ ap (λ b. inf ext (take (length laid) (set_epilogue t b 0 (u16 (length laid))))) e
    ∙ read-laid_out t ext pcb n (segment s) (ap (λ k. if k == 0 then 1 else 2) (sym same))
        (ap-lt _ _ (most ext) size room)
