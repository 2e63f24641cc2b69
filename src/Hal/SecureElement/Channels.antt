-- ===== src/Hal/SecureElement/Channels.antt =====
-- The count of open channels.
use android_vendor_tms.Prelude.{
  ℕ, zero, suc, ◌+◌, ◌≤◌, ◌<◌, Bool, true, false, not, ◌&&◌, List, [], ◌∷◌, ◌≡◌, ◌==◌, ◌∙◌, refl,
  ltb, length, length-set, set, get_or, u8, arith, Bool-cases, inl, inr,
}
use android_vendor_tms.Ese.Types.{is_success}
use android_vendor_tms.Prelude.Outcome.{Ensures, bind-Ensures, then-Ensures, if-Ensures}
use android_vendor_tms.Hal.SecureElement.{
  HalStatus, is_hal_success, is_hal_ioerror, SeApi, Hal, cleared, is_open_channel, tell, tell_if,
  select_status, hal_deinit, open_if_closed, hal_reset_se, exchange, forget_channel, close_apdu,
  close_channel, mark_basic, reset_if_ioerror, select_command, close_if_failed, select_basic,
  open_basic_channel,
}

abbrev one_if : Bool → ℕ
one_if true = 1
one_if false = 0

abbrev pub open_count : List Bool → ℕ
open_count [] = 0
open_count (b ∷ bs) = one_if b + open_count bs

pub open_count-le : (bs : List Bool) → open_count bs ≤ length bs
open_count-le [] = omega arith
open_count-le (true ∷ bs) = omega (arith, open_count-le bs)
open_count-le (false ∷ bs) = omega (arith, open_count-le bs)

pub open_count-open :
    (bs : List Bool) (i : ℕ)
    → i < length bs
    → get_or bs i false ≡ false
    → open_count (set bs i true) ≡ suc (open_count bs)
open_count-open [] i h e = absurd (omega arith)
open_count-open (true ∷ bs) zero h e = cc
open_count-open (false ∷ bs) zero h e = omega arith
open_count-open (b ∷ bs) (suc i) h e = omega (arith, open_count-open bs i (omega arith) e)

open_count-close :
    (bs : List Bool) (i : ℕ)
    → get_or bs i false ≡ true
    → suc (open_count (set bs i false)) ≡ open_count bs
open_count-close [] i e = cc
open_count-close (true ∷ bs) zero e = omega arith
open_count-close (false ∷ bs) zero e = cc
open_count-close (b ∷ bs) (suc i) e = omega (arith, open_count-close bs i e)

-- There are four channels, and mOpenedchannelCount is the number of the open ones.
pub record Counted (h : Hal) : Type 0 where
  pub sized : length h.channels ≡ 4
  pub counted : h.count ≡ open_count h.channels

is_zero : (n : ℕ) → (n == 0) ≡ true → n ≡ 0
is_zero n e = ground arith

second_test : (a b : Bool) → (a && b) ≡ true → b ≡ true
second_test true b e = e
second_test false b e = cc

not-true : (b : Bool) → not b ≡ true → b ≡ false
not-true true e = cc
not-true false e = refl

module _ {D : Type 0} (api : SeApi D) where
  -- The state after an operation.
  abbrev pub CountedAfter : D × Hal × HalStatus → Type 0
  CountedAfter (d, h, st) = Counted h

  abbrev pub CountedOpened : D × Hal × List ℕ × HalStatus → Type 0
  CountedOpened (d, h, rsp, st) = Counted h

  abbrev pub CountedPair : D × Hal → Type 0
  CountedPair (d, h) = Counted h

  cleared-Counted : (h : Hal) → Counted (cleared h)
  cleared-Counted h = record { sized = refl; counted = refl }

  deinit-Counted : (d : D) (h : Hal) → Counted h → Ensures CountedAfter (hal_deinit api d h)
  unfolding hal_deinit
  deinit-Counted d h v = bind-Ensures _ (api.deinit d) _ (λ a. ground (arith, cleared-Counted h))

  tell-Counted : (b : Bool) (h : Hal) → Counted h → Ensures Counted (tell b h)
  unfolding tell
  tell-Counted b h v = ground arith

  tell_if-Counted : (b : Bool) (h : Hal) → Counted h → Ensures Counted (tell_if b h)
  tell_if-Counted true h v = tell-Counted true (cleared h) (cleared-Counted h)
  tell_if-Counted false h v = v

  pub reset-Counted : (d : D) (h : Hal) → Counted h → Ensures CountedPair (hal_reset_se api d h)
  unfolding hal_reset_se
  reset-Counted d h v = bind-Ensures _ (open_if_closed api d) _ (λ a.
      then-Ensures Counted _ (tell false h) _ (tell-Counted false h v) (λ h1 w.
        bind-Ensures _ (api.reset a.0) _ (λ r.
          then-Ensures Counted _ (tell_if (is_success r.1) h1) _ (tell_if-Counted _ h1 w)
            (λ h2 x. x))))

  forget-Counted :
      (n : ℕ) (d : D) (h : Hal)
      → is_open_channel h n ≡ true
      → Counted h
      → Ensures CountedAfter (forget_channel api n d h)
  unfolding forget_channel
  forget-Counted n d h e v =
      let h' : Hal = record h { channels = set h.channels n false; count = u8 (h.count + 255) } in
      let w : Counted h' = record {
        sized = length-set h.channels n false ∙ v.sized;
        counted =
            omega (
              arith,
              v.counted,
              v.sized,
              open_count-close h.channels n e,
              open_count-le h.channels,
            );
      } in
      ground (arith, w, deinit-Counted d h' w)

  -- Closing a logical channel, or the basic channel while it is open, keeps the count right,
  -- whatever the card answers.
  pub close_channel-Counted :
      (n : ℕ) (d : D) (h : Hal)
      → (n ≡ 0 → is_open_channel h 0 ≡ true)
      → Counted h
      → Ensures CountedAfter (close_channel api n d h)
  unfolding close_channel
  close_channel-Counted n d h o v =
      if-Ensures _ (n == 0) _ _ (λ z. forget-Counted 0 d h (o (is_zero n z)) v)
        (λ z.
          if-Ensures _ (ltb n 4 && is_open_channel h n) _ _
            (λ g. bind-Ensures _ (close_apdu api n d) _ (λ a.
              if-Ensures _ a.1 _ _ (λ i. forget-Counted n a.0 h (second_test _ _ g) v) (λ i. v)))
            (λ g. v))

  mark-Counted : (st : HalStatus) (h : Hal) → Counted h → Counted (mark_basic st h)
  unfolding mark_basic
  mark-Counted st h v = elim (Bool-cases (is_hal_success st && not (is_open_channel h 0))) [
    | inl e ↦
        let shut : is_open_channel h 0 ≡ false =
          not-true (is_open_channel h 0)
            (second_test (is_hal_success st) (not (is_open_channel h 0)) e) in
        let more : open_count (set h.channels 0 true) ≡ suc (open_count h.channels) =
          open_count-open h.channels 0 (omega (arith, v.sized)) shut in
        let few : open_count (set h.channels 0 true) ≤ 4 =
          omega
            (arith, open_count-le (set h.channels 0 true), length-set h.channels 0 true, v.sized) in
        rw e (record {
          sized = length-set h.channels 0 true ∙ v.sized;
          counted = omega (arith, v.counted, more, few);
        })
    | inr e ↦ rw e v
  ]

  close_if-Counted :
      (st : HalStatus) (d : D) (h : Hal)
      → Counted h
      → Ensures CountedPair (close_if_failed api st d h)
  unfolding close_if_failed
  close_if-Counted st d h v =
      if-Ensures _ (not (is_hal_success st) && is_open_channel h 0) _ _
        (λ g.
          then-Ensures CountedAfter _ (close_channel api 0 d h) _
            (close_channel-Counted 0 d h (λ z. second_test _ _ g) v) (λ a w. w))
        (λ g. v)

  pub reset_if-Counted :
      (st : HalStatus) (d : D) (h : Hal)
      → Counted h
      → Ensures CountedPair (reset_if_ioerror api st d h)
  unfolding reset_if_ioerror
  reset_if-Counted st d h v =
      if-Ensures _ (is_hal_ioerror st) _ _ (λ g. reset-Counted d h v) (λ g. v)

  shut_basic : (h : Hal) → Counted h → Counted (record h { opening_basic = false })
  shut_basic h v = record { sized = v.sized; counted = v.counted }

  open_basic : (h : Hal) → Counted h → Counted (record h { opening_basic = true })
  open_basic h v = record { sized = v.sized; counted = v.counted }

  select-Counted :
      (aid : List ℕ) (p2 : ℕ) (d : D) (h : Hal)
      → Counted h
      → Ensures CountedOpened (select_basic api aid p2 d h)
  unfolding select_basic
  select-Counted aid p2 d h v = bind-Ensures _ (exchange api (select_command 0 p2 aid) d) _ (λ r.
      bind-Ensures _ (select_status r.1 r.2) _ (λ sel.
        then-Ensures CountedPair _ (reset_if_ioerror api sel r.0 (mark_basic sel h)) _
          (reset_if-Counted sel r.0 (mark_basic sel h) (mark-Counted sel h v))
          (λ a w.
            then-Ensures CountedPair _ (close_if_failed api sel a.0 a.1) _
              (close_if-Counted sel a.0 a.1 w) (λ b x. shut_basic b.1 x))))

  -- Opening the basic channel keeps the count right, whatever the card answers and whether or not
  -- the SE could be opened or reset.
  pub open_basic_channel-Counted :
      (aid : List ℕ) (p2 : ℕ) (d : D) (h : Hal)
      → Counted h
      → Ensures CountedOpened (open_basic_channel api aid p2 d h)
  unfolding open_basic_channel
  open_basic_channel-Counted aid p2 d h v = bind-Ensures _ (open_if_closed api d) _ (λ a.
      if-Ensures _ (is_success a.1) _ _
        (λ i. select-Counted aid p2 a.0 (record h { opening_basic = true }) (open_basic h v))
        (λ i. shut_basic h v))

  -- While a single channel is open and it is not the basic one, and no channel is being opened,
  -- closing the basic channel, which is not open, closes the whole secure element.
  pub close_channel-unopened :
      (d : D) (h : Hal)
      → is_open_channel h 0 ≡ false
      → Counted h
      → open_count h.channels ≡ 1
      → h.opening_logical ≡ false
      → h.opening_basic ≡ false
      → close_channel api 0 d h
        ≡ hal_deinit api d (record h { channels = set h.channels 0 false; count = 0 })
  unfolding close_channel forget_channel
  close_channel-unopened d h o v c l b =
      let one : h.count ≡ 1 = v.counted ∙ c in ground (arith, one, l, b)
