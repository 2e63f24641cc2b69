-- ===== src/Hal/SecureElement/Logical.antt =====
-- The count of open channels when a logical channel is opened.
use android_vendor_tms.Prelude.{
  ℕ, suc, ◌≤◌, ◌<◌, Bool, true, false, ◌||◌, List, ◌≡◌, ◌∙◌, refl, ap, sym, ltb, length, length-set,
  set, get_or-set_self, arith, Bool-cases, inl, inr,
}
use android_vendor_tms.Prelude.Outcome.{
  Outcome, returned, fault, unfinished, Ensures, bind-Ensures, then-Ensures, if-Ensures,
  Ensures-all,
}
use android_vendor_tms.Ese.Types.{EseStatus, is_success, byte_at}
use android_vendor_tms.Hal.SecureElement.{
  HalStatus, hal_success, hal_reset_se, is_hal_success, is_hal_ioerror, SeApi, Hal, is_open_channel,
  select_status, open_if_closed, exchange, close_channel, reset_if_ioerror, select_command,
  manage_command, manage_status, mark_logical, close_if_refused, select_logical, refuse_logical,
  manage_channel, open_logical_channel,
}
use android_vendor_tms.Hal.SecureElement.Channels.{
  open_count, open_count-le, open_count-open, Counted, CountedPair, CountedAfter, reset-Counted,
  reset_if-Counted, close_channel-Counted,
}

module _ {D : Type 0} (api : SeApi D) where
  abbrev pub CountedLogical : D × Hal × ℕ × List ℕ × HalStatus → Type 0
  CountedLogical (d, h, n, rsp, st) = Counted h

  abbrev CountedClose : D × Hal × ℕ → Type 0
  CountedClose (d, h, n) = Counted h

  -- The channel has been marked as open.
  abbrev Marked : ℕ → Hal → Type 0
  Marked n h = Counted h × (is_open_channel h n ≡ true)

  mark-Marked :
      (n : ℕ) (h : Hal)
      → is_open_channel h n ≡ false
      → Counted h
      → Ensures (Marked n) (mark_logical n h)
  unfolding mark_logical
  mark-Marked n h e v = elim (Bool-cases (ltb n 4)) [
    | inl l ↦
        let k : n < length h.channels = ground (arith, v.sized) in
        let more : open_count (set h.channels n true) ≡ suc (open_count h.channels) =
          open_count-open h.channels n k e in
        let few : open_count (set h.channels n true) ≤ 4 =
          omega
            (arith, open_count-le (set h.channels n true), length-set h.channels n true, v.sized) in
        rw l (
          record {
            sized = length-set h.channels n true ∙ v.sized;
            counted = omega (arith, v.counted, more, few);
          },
          get_or-set_self h.channels n true false k,
        )
    | inr l ↦ rw l tt
  ]

  close_refused-Counted :
      (sel : HalStatus) (n : ℕ) (d : D) (h : Hal)
      → (is_hal_ioerror sel ≡ false → is_open_channel h n ≡ true)
      → Counted h
      → Ensures CountedClose (close_if_refused api sel n d h)
  unfolding close_if_refused
  close_refused-Counted sel n d h o v =
      if-Ensures CountedClose (is_hal_success sel || is_hal_ioerror sel) (returned (d, h, n)) _
        (λ i. v)
        (λ i.
          then-Ensures (CountedAfter api) CountedClose (close_channel api n d h) _
            (close_channel-Counted api n d h
              (λ z. ap (is_open_channel h) (sym z) ∙ o (second _ _ i)) v)
            (λ a w. w))
    where
      second : (a b : Bool) → (a || b) ≡ false → b ≡ false
      second true b e = cc
      second false b e = e

  -- After the reset that follows a failed SELECT.
  abbrev Selected : HalStatus → ℕ → D × Hal → Type 0
  Selected sel n (d, h) = Counted h × (is_hal_ioerror sel ≡ false → is_open_channel h n ≡ true)

  reset_if-Selected :
      (sel : HalStatus) (n : ℕ) (d : D) (h : Hal)
      → Marked n h
      → Ensures (Selected sel n) (reset_if_ioerror api sel d h)
  unfolding reset_if_ioerror
  reset_if-Selected sel n d h (v, o) = elim (Bool-cases (is_hal_ioerror sel)) [
    | inl e ↦ rw e (weaken (hal_reset_se api d h) (reset-Counted api d h v) (λ x w. (w, λ f. cc)))
    | inr e ↦ rw e (v, λ f. o)
  ]
    where
      weaken :
          (r : Outcome (D × Hal))
          → Ensures (CountedPair api) r
          → ((x : D × Hal) → CountedPair api x → Selected sel n x)
          → Ensures (Selected sel n) r
      weaken (returned x) q k = k x q
      weaken fault q k = tt
      weaken unfinished q k = tt

  shut_logical : (h : Hal) → Counted h → Counted (record h { opening_logical = false })
  shut_logical h v = record { sized = v.sized; counted = v.counted }

  select-Counted :
      (aid : List ℕ) (p2 n : ℕ) (d : D) (h : Hal)
      → Marked n h
      → Ensures CountedLogical (select_logical api aid p2 n d h)
  unfolding select_logical
  select-Counted aid p2 n d h m = bind-Ensures _ (exchange api (select_command n p2 aid) d) _ (λ r.
      bind-Ensures _ (select_status r.1 r.2) _ (λ sel.
        then-Ensures (Selected sel n) _ (reset_if_ioerror api sel r.0 h) _
          (reset_if-Selected sel n r.0 h m)
          (λ a w.
            then-Ensures CountedClose _ (close_if_refused api sel n a.0 a.1) _
              (close_refused-Counted sel n a.0 a.1 w.1 w.0) (λ b x. shut_logical b.1 x))))

  refuse-Counted :
      (sel : HalStatus) (d : D) (h : Hal)
      → Counted h
      → Ensures CountedLogical (refuse_logical api sel d h)
  unfolding refuse_logical
  refuse-Counted sel d h v =
      then-Ensures (CountedPair api) _ (reset_if_ioerror api sel d h) _
        (reset_if-Counted api sel d h v) (λ a w. shut_logical a.1 w)

  -- An accepted MANAGE CHANNEL command gives a channel that was not open.
  abbrev pub Fresh : Hal → D × EseStatus × List ℕ → Type 0
  Fresh h (d, st, rsp) =
      manage_status st rsp ≡ returned hal_success → is_open_channel h (byte_at rsp 0) ≡ false

  exchange-Fresh :
      (h : Hal) (d : D)
      → ((e : D) → Ensures (Fresh h) (api.transceive e manage_command))
      → Ensures (Fresh h) (exchange api manage_command d)
  unfolding exchange manage_status
  exchange-Fresh h d f =
      if-Ensures (Fresh h) (api.alloc d).1 _ _ (λ i. f (api.alloc d).0) (λ i. λ e. cc)

  is_hal_success-eq : (sel : HalStatus) → is_hal_success sel ≡ true → sel ≡ hal_success
  is_hal_success-eq hal_success e = refl
  is_hal_success-eq _ e = cc

  manage-Counted :
      (aid : List ℕ) (p2 : ℕ) (d : D) (h : Hal)
      → ((e : D) → Ensures (Fresh h) (api.transceive e manage_command))
      → Counted h
      → Ensures CountedLogical (manage_channel api aid p2 d h)
  unfolding manage_channel
  manage-Counted aid p2 d h f v =
      then-Ensures (Fresh h) _ (exchange api manage_command d) _ (exchange-Fresh h d f) (λ r fresh.
        then-Ensures (λ (sel : HalStatus). manage_status r.1 r.2 ≡ returned sel) _
          (manage_status r.1 r.2) _ (Ensures-all _ (manage_status r.1 r.2) (λ a e. e))
          (λ sel e.
            if-Ensures CountedLogical (is_hal_success sel) _ _
              (λ i.
                then-Ensures (Marked (byte_at r.2 0)) _ (mark_logical (byte_at r.2 0) h) _
                  (mark-Marked (byte_at r.2 0) h (fresh (e ∙ ap returned (is_hal_success-eq sel i)))
                    v)
                  (λ t m. select-Counted aid p2 (byte_at r.2 0) r.0 t m))
              (λ i. refuse-Counted sel r.0 h v)))

  -- If no accepted MANAGE CHANNEL command is answered with the number of a channel that the service
  -- holds open, then opening a logical channel, where it returns, keeps the count right, whether or not
  -- the SE could be opened, the channel was given and the application was selected. It does not return
  -- but ends with a fault where the number is 4 or more, which is a write past the channel table.
  pub open_logical_channel-Counted :
      (aid : List ℕ) (p2 : ℕ) (d : D) (h : Hal)
      → ((e : D) → Ensures (Fresh h) (api.transceive e manage_command))
      → Counted h
      → Ensures CountedLogical (open_logical_channel api aid p2 d h)
  unfolding open_logical_channel
  open_logical_channel-Counted aid p2 d h f v = bind-Ensures _ (open_if_closed api d) _ (λ a.
      if-Ensures CountedLogical (is_success a.1) _ _
        (λ i.
          manage-Counted aid p2 a.0 (record h { opening_logical = true }) f
            (record { sized = v.sized; counted = v.counted }))
        (λ i. shut_logical h v))
