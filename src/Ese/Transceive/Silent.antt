-- ===== src/Ese/Transceive/Silent.antt =====
-- A card that does not answer: the transmission loop gives up after a bounded number of frames.
use android_vendor_tms.Prelude.{
  ℕ, zero, suc, ◌+◌, ◌-◌, ◌*◌, ◌≤◌, ◌<◌, Bool, true, false, not, ◌&&◌, Option, none, some, List,
  ◌≡◌, ◌≢◌, refl, ltb, length, arith, if◌then◌else◌, Bool-cases, inl, inr, ◌⊎◌, ap,
}
use android_vendor_tms.Prelude.Outcome.{Outcome, returned, fault, unfinished}
use android_vendor_tms.Ese.Types.{
  EseStatus, success, ph_io, FrameType, iframe, rframe, sframe, SFrameType, ifs_rsp, T1State,
  is_idle, in_params, in_ctx, is_sframe, is_cip_req, is_success,
}
use android_vendor_tms.Ese.Recovery.{recovery_at_undecode, not_s_request, free_tx_part_mem}
use android_vendor_tms.Ese.Phy.{Phy}
use android_vendor_tms.Ese.Send.{
  Built, frame, unsupported, overflow, send_built, send_sframe, send_iframe, send_rframe, send_part,
  send_new_part, send_either_part, build_sframe,
}
use android_vendor_tms.Ese.Read.{Received}
use android_vendor_tms.Ese.Read.Silent.{IsSilent, IsPolling, t1_read-silent}
use android_vendor_tms.Ese.Transceive.{
  after_read, response_process, send_frame, after_send, on_sent, round, continue, loop,
  transceive_process, init_iframe,
}

abbrev one_if : Bool → ℕ
one_if true = 1
one_if false = 0

-- How many more times recovery can change its mind before it gives up.
abbrev attempts : T1State → ℕ
attempts s =
    (s.max_recovery_cnt - s.recovery_cnt)
    + one_if (not s.is_resync_recovery)
    + (s.max_recovery_cnt - s.cip_recovery_cnt)
    + one_if (not (is_sframe s.tx_frame_type && is_cip_req s.tx_sub_sframe))

-- Each recovery from a failed read ends the transmission or uses up an attempt.
undecode-attempts :
    (s : T1State)
    → s.max_recovery_cnt < 256
    → (is_idle (recovery_at_undecode s).0.next_t1_state ≡ true)
      ⊎ (attempts (recovery_at_undecode s).0 < attempts s)
unfolding recovery_at_undecode not_s_request
undecode-attempts s h = ground arith

abbrev is_ifs_rsp : SFrameType → Bool
is_ifs_rsp ifs_rsp = true
is_ifs_rsp _ = false

-- A transmission under way, under limits of `R` recoveries and `B` repeats of a failed send.
pub record IsLive (R B T : ℕ) (s : T1State) : Type 0 where
  pub recovery_limit : s.max_recovery_cnt ≡ R
  pub blk_limit : s.max_blk_retry_cnt ≡ B
  pub timeout : s.read_timeout ≡ T
  pub some_polls : 0 < s.max_read_retry_cnt
  pub running : s.is_read_done ≡ false
  pub room : 5 ≤ length s.data_rx
  pub blk_bounded : s.blk_retry_cnt ≤ B
  pub no_ifs : is_ifs_rsp s.tx_sub_sframe ≡ false

-- The configuration under which a command starts.
pub record IsConfigured (R B T : ℕ) (s : T1State) : Type 0 where
  pub recovery_limit : s.max_recovery_cnt ≡ R
  pub blk_limit : s.max_blk_retry_cnt ≡ B
  pub timeout : s.read_timeout ≡ T
  pub some_polls : 0 < s.max_read_retry_cnt
  pub room : 5 ≤ length s.data_rx

-- The loop returns, with a status other than success and in the idle state.
abbrev pub Fails : {D : Type 0} → Outcome (D × T1State × EseStatus) → Type 0
Fails (returned (d, t, st)) = (is_success st ≡ false) × (is_idle t.next_t1_state ≡ true)
Fails fault = ⊥
Fails unfinished = ⊥

module _ {D : Type 0} (phy : Phy D) (R B T : ℕ) where
  -- Sending a frame changes nothing that recovery looks at.
  abbrev Sent : T1State → Option (D × T1State × EseStatus) → Type 0
  Sent s none = ⊥
  Sent s (some (d, t, st)) =
      IsLive R B T t × (attempts t ≡ attempts s) × (t.blk_retry_cnt ≡ s.blk_retry_cnt)

  send_built-Sent :
      (b : Built) (d : D) (s : T1State)
      → b ≢ overflow
      → IsLive R B T s
      → Sent s (send_built phy d s b)
  unfolding send_built
  send_built-Sent (frame buf) d s h v = ground arith
  send_built-Sent unsupported d s h v = (v, refl, refl)
  send_built-Sent overflow d s h v = absurd (h refl)

  build-no_overflow :
      (sub : SFrameType) (s : T1State) → is_ifs_rsp sub ≡ false → build_sframe sub s ≢ overflow
  unfolding build_sframe
  build-no_overflow ifs_rsp s h e = cc
  build-no_overflow _ s h e = cc

  send_sframe-Sent : (d : D) (s : T1State) → IsLive R B T s → Sent s (send_sframe phy d s)
  unfolding send_sframe
  send_sframe-Sent d s v = ground (
    arith,
    send_built-Sent (build_sframe s.tx_sub_sframe s) d s
        (build-no_overflow s.tx_sub_sframe s v.no_ifs) v,
  )

  send_rframe-Sent : (d : D) (s : T1State) → IsLive R B T s → Sent s (some (send_rframe phy d s))
  unfolding send_rframe
  send_rframe-Sent d s v = ground arith

  send_iframe-Sent : (d : D) (s : T1State) → IsLive R B T s → Sent s (some (send_iframe phy d s))
  unfolding send_iframe send_either_part send_new_part send_part free_tx_part_mem
  send_iframe-Sent d s v = ground arith

  send_frame-Sent :
      (t : FrameType) (d : D) (s : T1State) → IsLive R B T s → Sent s (send_frame phy t d s)
  unfolding send_frame
  send_frame-Sent iframe d s v = send_iframe-Sent d s v
  send_frame-Sent rframe d s v = send_rframe-Sent d s v
  send_frame-Sent sframe d s v = send_sframe-Sent d s v
  send_frame-Sent _ d s v = (v, refl, refl)

  undecode-IsLive : (s : T1State) → IsLive R B T s → IsLive R B T (recovery_at_undecode s).0
  unfolding recovery_at_undecode not_s_request
  undecode-IsLive s v = ground arith

-- The frames that can still be sent: for each attempt, one frame and B repeats of a failed send.
abbrev weight : ℕ → T1State → ℕ
weight B s = attempts s * (B + 1) + (B - s.blk_retry_cnt)

weight_drops : (B a a' : ℕ) → a' < a → a' * (B + 1) + B < a * (B + 1)
weight_drops B a a' h = grind arith

weight_mono : (B a c : ℕ) → a ≤ c → a * (B + 1) ≤ c * (B + 1)
weight_mono B a c h = grind arith

module _ {D : Type 0} (phy : Phy D) (quiet : IsSilent phy) (R B T : ℕ) (small : R < 256)
    (in_time : (d : D) → ltb (phy.elapsed d) T ≡ true) where
  -- The result of a round: not a success, and either the end or less left to do.
  abbrev Nearer : ℕ → Option (D × T1State × EseStatus) → Type 0
  Nearer w none = ⊥
  Nearer w (some (d, t, st)) =
      IsLive R B T t
      × (is_success st ≡ false)
      × ((is_idle t.next_t1_state ≡ true) ⊎ (weight B t < w))

  polling : (s : T1State) → IsLive R B T s → IsPolling phy s
  polling s v = record {
    in_time = λ d. rw v.timeout (in_time d);
    some_polls = v.some_polls;
    running = v.running;
    room = v.room;
  }

  undecode-Nearer :
      (s : T1State)
      → IsLive R B T s
      → s.blk_retry_cnt ≡ 0
      → (is_idle (recovery_at_undecode s).0.next_t1_state ≡ true)
        ⊎ (weight B (recovery_at_undecode s).0 < attempts s * (B + 1))
  undecode-Nearer s v z = elim (undecode-attempts s (omega (arith, v.recovery_limit))) [
    | inl e ↦ inl e
    | inr less ↦
        inr (omega (arith, weight_drops B (attempts s) (attempts (recovery_at_undecode s).0) less))
  ]

  after_read-io :
      (s : T1State) (r : Received D)
      → r.status ≡ ph_io
      → after_read phy s r
        ≡ (r.world, (recovery_at_undecode (record s { data_rx = r.buf })).0, ph_io)
  unfolding after_read
  after_read-io s r e = ground arith

  after_read-Nearer :
      (s : T1State) (r : Received D)
      → r.status ≡ ph_io
      → length r.buf ≡ length s.data_rx
      → IsLive R B T s
      → s.blk_retry_cnt ≡ 0
      → Nearer (attempts s * (B + 1)) (some (after_read phy s r))
  after_read-Nearer s r e k v z =
      let s1 : T1State = record s { data_rx = r.buf } in
      let v1 : IsLive R B T s1 = ground arith in
      rw (after_read-io s r e) (undecode-IsLive phy R B T s1 v1, refl, undecode-Nearer s1 v1 z)

  response-Nearer :
      (d : D) (s : T1State)
      → IsLive R B T s
      → s.blk_retry_cnt ≡ 0
      → Nearer (attempts s * (B + 1)) (response_process phy d s)
  unfolding response_process
  response-Nearer d s v z =
      let (r, read, failed, size) = t1_read-silent phy quiet s d (polling s v) in
      rw read (after_read-Nearer s r failed size v z)

  Nearer-mono :
      (w w' : ℕ) (o : Option (D × T1State × EseStatus)) → w ≤ w' → Nearer w o → Nearer w' o
  Nearer-mono w w' none h n = n
  Nearer-mono w w' (some (d, t, st)) h (v, e, inl i) = (v, e, inl i)
  Nearer-mono w w' (some (d, t, st)) h (v, e, inr l) = (v, e, inr (omega arith))

  Nearer-if :
      (w : ℕ) (b : Bool) (x y : Option (D × T1State × EseStatus))
      → Nearer w x
      → (b ≡ false → Nearer w y)
      → Nearer w (if b then x else y)
  Nearer-if w true x y p q = p
  Nearer-if w false x y p q = q refl

  after_send-Nearer :
      (d : D) (s : T1State) (st : EseStatus)
      → B < 256
      → IsLive R B T s
      → Nearer (weight B s) (after_send phy (d, s, st))
  unfolding after_send
  after_send-Nearer d s st b v =
      Nearer-if _ (is_success st) _ _
        (Nearer-mono _ _ _ (omega arith) (
          response-Nearer d (in_params (λ p. record p { blk_retry_cnt = 0 }) s) (ground arith)
            refl))
        (λ e. ground arith)

  on_sent-Nearer :
      (s : T1State) (o : Option (D × T1State × EseStatus))
      → B < 256
      → Sent phy R B T s o
      → Nearer (weight B s) (on_sent phy o)
  on_sent-Nearer s none b h = h
  on_sent-Nearer s (some (d, t, st)) b (v, e, k) =
      Nearer-mono _ _ _ (omega (arith, ap (λ (a : ℕ). a * (B + 1)) e))
        (after_send-Nearer d t st b v)

  round-Nearer :
      (d : D) (s : T1State) → B < 256 → IsLive R B T s → Nearer (weight B s) (round phy d s)
  unfolding round
  round-Nearer d s b v =
      on_sent-Nearer s (send_frame phy s.tx_frame_type d s) b
        (send_frame-Sent phy R B T s.tx_frame_type d s v)

  -- A loop with fuel left returns at once where the next state is idle.
  loop-idle :
      (fuel : ℕ) (d : D) (s : T1State) (st : EseStatus)
      → 0 < fuel
      → is_idle s.next_t1_state ≡ true
      → is_success st ≡ false
      → Fails (loop phy fuel d s st)
  unfolding loop
  loop-idle zero d s st h i e = absurd (omega arith)
  loop-idle (suc fuel) d s st h i e = rw (i, loop, Fails) (e, i)

  abbrev Running : ℕ → Type 0
  Running fuel =
      (d : D) (s : T1State) (st : EseStatus)
      → is_idle s.next_t1_state ≡ false
      → IsLive R B T s
      → weight B s + 1 < fuel
      → Fails (loop phy fuel d s st)

  continue-Fails :
      (fuel w : ℕ) (o : Option (D × T1State × EseStatus))
      → Running fuel
      → w < fuel
      → Nearer w o
      → Fails (continue phy (loop phy fuel) o)
  continue-Fails fuel w none run h n = n
  continue-Fails fuel w (some (d, t, st)) run h (v, e, inl i) =
      loop-idle fuel d t st (omega arith) i e
  continue-Fails fuel w (some (d, t, st)) run h (v, e, inr less) =
      elim (Bool-cases (is_idle t.next_t1_state)) [
        | inl i ↦ loop-idle fuel d t st (omega arith) i e
        | inr i ↦ run d t st i v (omega arith)
      ]

  loop-Fails : (fuel : ℕ) → B < 256 → Running fuel
  unfolding loop
  loop-Fails zero b d s st i v h = absurd (omega arith)
  loop-Fails (suc fuel) b d s st i v h =
      rw (i, loop, Fails)
        (continue-Fails fuel (weight B s) (round phy d s) (loop-Fails fuel b) (omega arith)
          (round-Nearer d s b v))

  -- With a card that never answers, over any driver whose polling ends by its counter before the
  -- timeout, and whatever becomes of the writes and allocations: under limits of R recoveries and B
  -- repeats of a failed send, both below 256, at least one poll and a receive buffer of at least 5
  -- bytes, the transmission of a command returns, with a status other than success and in the idle
  -- state, once the fuel exceeds (2 R + 2) (B + 1) + B + 1 rounds.
  pub transceive_process-silent :
      (fuel : ℕ) (cmd : List ℕ) (cmd_len : ℕ) (d : D) (s : T1State)
      → B < 256
      → IsConfigured R B T s
      → (2 * R + 2) * (B + 1) + B + 1 < fuel
      → Fails (transceive_process phy fuel d (init_iframe phy cmd cmd_len s))
  unfolding transceive_process init_iframe
  transceive_process-silent fuel cmd cmd_len d s b c h =
      let t = in_ctx (λ x. record x { is_read_done = false }) (init_iframe phy cmd cmd_len s) in
      let few : attempts t ≤ 2 * R + 2 = ground arith in
      loop-Fails fuel b d t success refl (ground arith)
        (omega (arith, weight_mono B (attempts t) (2 * R + 2) few))
