-- ===== src/Tml/Timer/Table.antt =====
-- The table of the timers (nfc/THN31/halimpl/tml/OsalNfc_Timer.cc): which handle has which ID, and
-- the messages that wait for the client thread.
use native.Mathlib.Decide.{ℕ_discrete}
use android_vendor_tms.Prelude.{
  ℕ, zero, suc, ◌+◌, ◌<◌, some, List, [], ◌∷◌, ◌++◌, ◌≡◌, ◌⊎◌, inl, inr, sym, subst, ◌∙◌, length,
  length-set, set, arith, get_or-set_self, get_or-set_ne,
}
use android_vendor_tms.Tml.Timer.{Timer, Timers, cleared, handle}

module _ {C : Type 0} where
  -- The handle at an index is free, or has the ID of the index.
  abbrev pub SlotOk : ℕ → Timer C → Type 0
  SlotOk k t = (t.timer_id ≡ 0) ⊎ (t.timer_id ≡ k + 101)

  abbrev pub SlotsFrom : ℕ → List (Timer C) → Type 0
  SlotsFrom k [] = Unit
  SlotsFrom k (t ∷ ts) = SlotOk k t × SlotsFrom (k + 1) ts

  pub SlotsFrom-set :
      (k i : ℕ) (ts : List (Timer C)) (t : Timer C)
      → SlotsFrom k ts
      → SlotOk (k + i) t
      → SlotsFrom k (set ts i t)
  SlotsFrom-set k i [] t v o = v
  SlotsFrom-set k zero (x ∷ ts) t (w, v) o = (let e : k + 0 ≡ k = omega arith in rw⁻¹ e o, v)
  SlotsFrom-set k (suc i) (x ∷ ts) t (w, v) o =
      (w, SlotsFrom-set (k + 1) i ts t v (let e : k + 1 + i ≡ k + suc i = omega arith in rw e o))

  SlotsFrom-handle :
      (k i : ℕ) (ts : List (Timer C))
      → SlotsFrom k ts
      → i < length ts
      → SlotOk (k + i) (handle ts i)
  SlotsFrom-handle k i [] v h = elim h [ ]
  SlotsFrom-handle k zero (x ∷ ts) (w, v) h = let e : k + 0 ≡ k = omega arith in rw e w
  SlotsFrom-handle k (suc i) (x ∷ ts) (w, v) h =
      let e : k + suc i ≡ k + 1 + i = omega arith in
      rw e (SlotsFrom-handle (k + 1) i ts v (omega arith))

  -- Every message in the queue is of a handle whose deferedCallInfo is filled.
  abbrev pub Waiting : List (Timer C) → List ℕ → Type 0
  Waiting ts [] = Unit
  Waiting ts (j ∷ js) = (j < 5) × ((handle ts j).defered ≡ some (j + 101)) × Waiting ts js

  Filled : List (Timer C) → ℕ → Type 0
  Filled ts i = (handle ts i).defered ≡ some (i + 101)

  Filled-set :
      (ts : List (Timer C)) (i : ℕ) (t : Timer C)
      → i < length ts
      → (t.defered ≡ (handle ts i).defered) ⊎ (t.defered ≡ some (i + 101))
      → Filled ts i
      → Filled (set ts i t) i
  unfolding Filled
  Filled-set ts i t h (inl p) w = rw (get_or-set_self ts i t cleared h) (p ∙ w)
  Filled-set ts i t h (inr p) w = rw (get_or-set_self ts i t cleared h) p

  pub Waiting-set :
      (ts : List (Timer C)) (i : ℕ) (t : Timer C) (js : List ℕ)
      → length ts ≡ 5
      → (t.defered ≡ (handle ts i).defered) ⊎ (t.defered ≡ some (i + 101))
      → Waiting ts js
      → Waiting (set ts i t) js
  unfolding Filled
  Waiting-set ts i t [] e o v = tt
  Waiting-set ts i t (j ∷ js) e o (h, w, v) = (
    h,
    elim (ℕ_discrete i j) [
      | yes f ↦
          subst (Filled (set ts i t)) f
            (Filled-set ts i t (omega arith) o (subst (Filled ts) (sym f) w))
      | no f ↦ rw (get_or-set_ne ts i j t cleared f) w
    ],
    Waiting-set ts i t js e o v,
  )

  pub Waiting-append :
      (ts : List (Timer C)) (js : List ℕ) (j : ℕ)
      → Waiting ts js
      → j < 5
      → (handle ts j).defered ≡ some (j + 101)
      → Waiting ts (js ++ (j ∷ []))
  Waiting-append ts [] j v h e = (h, e, tt)
  Waiting-append ts (k ∷ js) j (a, b, v) h e = (a, b, Waiting-append ts js j v h e)

  pub record WellFormed (s : Timers C) : Type 0 where
    pub size : length s.timers ≡ 5
    pub slots : SlotsFrom 0 s.timers
    pub waiting : Waiting s.timers s.queue

  -- A handle replaced by one with an ID of its place and the same deferedCallInfo.
  pub WellFormed-set :
      (s : Timers C) (i : ℕ) (t : Timer C)
      → WellFormed s
      → SlotOk i t
      → t.defered ≡ (handle s.timers i).defered
      → WellFormed (record s { timers = set s.timers i t })
  WellFormed-set s i t v o e = record {
    size = length-set s.timers i t ∙ v.size;
    slots = SlotsFrom-set 0 i s.timers t v.slots (let f : 0 + i ≡ i = omega arith in rw f o);
    waiting = Waiting-set s.timers i t s.queue v.size (inl e) v.waiting;
  }

  pub slot_of : (s : Timers C) (i : ℕ) → WellFormed s → i < 5 → SlotOk i (handle s.timers i)
  slot_of s i v h =
      let f : 0 + i ≡ i = omega arith in
      subst (λ (x : ℕ). SlotOk x (handle s.timers i)) f
        (SlotsFrom-handle 0 i s.timers v.slots (omega (arith, v.size)))
