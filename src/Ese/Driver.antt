-- ===== src/Ese/Driver.antt =====
-- The physical driver (7816-3-T1/ph-driver/phDriver.c): PhWrite and PhRead over write(2) and
-- read(2), and the interface of Ese/Phy that they fill.
use android_vendor_tms.Prelude.{
  ℕ, zero, suc, ◌+◌, ◌-◌, ◌≤◌, ◌<◌, Bool, true, false, Option, none, some, List, ◌≡◌, refl, ltb,
  ltb→lt, length, arith, if◌then◌else◌,
}
use android_vendor_tms.Ese.Phy.{Phy}

-- The result of write(2): a positive count (the count less one is given), 0, an error after which
-- the code tries again (EIO, EINTR, EAGAIN), or another error.
pub data WriteRet : Type 0 where
  wrote : ℕ → WriteRet
  eof : WriteRet
  again : WriteRet
  broken : WriteRet

-- The operating system and the rest of the environment. read(2) returns at most what was asked for.
pub record Os (D : Type 0) : Type 0 where
  pub os_write : D → List ℕ → D × WriteRet
  pub os_read : D → ℕ → D × Option (List ℕ)
  pub os_read_at_most : (d : D) (n : ℕ) (bs : List ℕ) → (os_read d n).1 ≡ some bs → length bs ≤ n
  pub alloc : D → D × Bool
  pub read_done : D → Bool
  pub elapsed : D → ℕ
  pub interrupted : D → Bool

-- What a round of PhWrite does with the result: go on with the count, try again, or fail.
abbrev pub on_ret {ℓ} : {A : Type ℓ} → WriteRet → (ℕ → A) → A → A → A
on_ret (wrote n) more retry fail = more (suc n)
on_ret eof more retry fail = fail
on_ret again more retry fail = retry
on_ret broken more retry fail = fail

module _ {D : Type 0} (os : Os D) where
  -- The loop of PhWrite. Each round passes the whole buffer, whatever was accepted before; `none`
  -- means that the fuel ran out.
  unfoldable pub write_loop : ℕ → ℕ → ℕ → ℕ → D → List ℕ → Option (D × Bool)
  write_loop zero max_retry num_wrote retry d buf = none
  write_loop (suc fuel) max_retry num_wrote retry d buf =
      let (d', ret) = os.os_write d buf in
      let more = λ (n : ℕ). write_loop fuel max_retry (num_wrote + n) retry d' buf in
      let once_more = write_loop fuel max_retry num_wrote (suc retry) d' buf in
      let fail : Option (D × Bool) = some (d', false) in
      if ltb num_wrote (length buf)
      then on_ret ret more (if ltb retry max_retry then once_more else fail) fail
      else some (d, true)

  abbrev IsSome : Option (D × Bool) → Type 0
  IsSome none = ⊥
  IsSome (some _) = Unit

  on_ret-IsSome :
      (ret : WriteRet) (more : ℕ → Option (D × Bool)) (retry fail : Option (D × Bool))
      → ((n : ℕ) → IsSome (more (suc n)))
      → IsSome retry
      → IsSome fail
      → IsSome (on_ret ret more retry fail)
  on_ret-IsSome (wrote n) more retry fail p q r = p n
  on_ret-IsSome eof more retry fail p q r = r
  on_ret-IsSome again more retry fail p q r = q
  on_ret-IsSome broken more retry fail p q r = r

  if-IsSome :
      (b : Bool) (x y : Option (D × Bool))
      → (b ≡ true → IsSome x)
      → IsSome y
      → IsSome (if b then x else y)
  if-IsSome true x y p q = p refl
  if-IsSome false x y p q = q

  -- Each round adds to the count or uses up a retry.
  write_loop-IsSome :
      (fuel max_retry num_wrote retry : ℕ) (d : D) (buf : List ℕ)
      → (length buf - num_wrote) + (max_retry - retry) < fuel
      → IsSome (write_loop fuel max_retry num_wrote retry d buf)
  unfolding write_loop
  write_loop-IsSome zero max_retry num_wrote retry d buf h = absurd (omega arith)
  write_loop-IsSome (suc fuel) max_retry num_wrote retry d buf h =
      let d' = (os.os_write d buf).0 in
      if-IsSome (ltb num_wrote (length buf)) _ _
        (λ below.
          on_ret-IsSome (os.os_write d buf).1 _ _ _
            (λ n.
              write_loop-IsSome fuel max_retry (num_wrote + suc n) retry d' buf
                (omega (arith, ltb→lt _ _ below)))
            (if-IsSome (ltb retry max_retry) _ _
              (λ left.
                write_loop-IsSome fuel max_retry num_wrote (suc retry) d' buf
                  (omega (arith, ltb→lt _ _ left)))
              tt)
            tt)
        tt

  or_false : D → Option (D × Bool) → D × Bool
  or_false d none = (d, false)
  or_false d (some r) = r

  some-or_false : (d : D) (o : Option (D × Bool)) → IsSome o → o ≡ some (or_false d o)
  unfolding or_false
  some-or_false d none h = absurd h
  some-or_false d (some r) h = refl

  -- The fuel covers every byte and every retry.
  unfoldable pub ph_write : ℕ → D → List ℕ → D × Bool
  unfolding write_loop or_false
  ph_write max_retry d buf =
      or_false d (write_loop (length buf + max_retry + 1) max_retry 0 0 d buf)

  -- PhWrite ends: with fuel for each byte of the buffer and each retry allowed, its loop has a
  -- result, whatever the operating system answers, and that is the result of `ph_write`.
  pub ph_write-total :
      (max_retry : ℕ) (d : D) (buf : List ℕ)
      → write_loop (length buf + max_retry + 1) max_retry 0 0 d buf
        ≡ some (ph_write max_retry d buf)
  unfolding ph_write
  ph_write-total max_retry d buf =
      some-or_false d _ (write_loop-IsSome _ max_retry 0 0 d buf (omega arith))

  -- Where the system accepts fewer bytes than the block has, and then as many as the block has: the
  -- second call is passed the block from its start again, and PhWrite reports success in the world
  -- after two calls that were each given the whole block.
  pub write_loop-short :
      (fuel max_retry retry k : ℕ) (d d1 d2 : D) (buf : List ℕ)
      → suc k < length buf
      → os.os_write d buf ≡ (d1, wrote k)
      → os.os_write d1 buf ≡ (d2, wrote (length buf - 1))
      → write_loop (suc (suc (suc fuel))) max_retry 0 retry d buf ≡ some (d2, true)
  unfolding write_loop
  write_loop-short fuel max_retry retry k d d1 d2 buf h e f = ground arith

  -- The interface that the T=1 layer uses.
  unfoldable pub phy_of : ℕ → Phy D
  phy_of max_retry = record {
    write = ph_write max_retry;
    read = os.os_read;
    read_at_most = os.os_read_at_most;
    alloc = os.alloc;
    read_done = os.read_done;
    elapsed = os.elapsed;
    interrupted = os.interrupted;
  }
