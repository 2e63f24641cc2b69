-- ===== src/Config/Store/Place.antt =====
-- The place of a setting in the sorted list, and what a search finds there.
use android_vendor_tms.Prelude.{
  ℕ, true, false, Option, none, some, List, [], ◌∷◌, ◌≡◌, ◌≢◌, inl, inr, refl, sym, ap, subst, ◌∙◌,
  ◌==◌, if_true, if_false, Bool-cases, if◌then◌else◌, length, arith,
}
use android_vendor_tms.Prelude.Outcome.{Outcome, returned}
use android_vendor_tms.Download.Script.{same_text}
use android_vendor_tms.Config.Names.{str_lt}
use android_vendor_tms.Config.Registers.Bounds.{merge_entries-returned}
use android_vendor_tms.Config.Store.{CNfcParam, str_param, is_merged, merge, find}
use android_vendor_tms.Config.Store.Order.{
  same_text_refl, same_text→eq, str_lt_irrefl, str_lt_trans, str_lt_total,
}

-- Every name in the list is greater than the given one.
abbrev pub Above : List ℕ → List CNfcParam → Type 0
Above name [] = Unit
Above name (q ∷ params) = (str_lt name q.name ≡ true) × Above name params

abbrev pub Sorted : List CNfcParam → Type 0
Sorted [] = Unit
Sorted (q ∷ params) = Above q.name params × Sorted params

-- The merge of two settings is a setting of the same name.
pub merge-returned :
    (existing new : CNfcParam)
    → existing.name ≡ new.name
    → (m : CNfcParam) × (merge existing new ≡ returned m) × (m.name ≡ new.name)
unfolding merge
merge-returned existing new same =
    let (bytes, e) = merge_entries-returned existing.str_value new.str_value in
    elim (Bool-cases (is_merged existing.name)) [
      | inl h ↦ elim (Bool-cases (length bytes == 0)) [
        | inl z ↦ (new, rw (h, e, z) refl, refl)
        | inr z ↦ (str_param existing.name bytes, rw (h, e, z) refl, same)
      ]
      | inr h ↦ (new, rw h refl, refl)
    ]

-- What an addition leaves at its name: the setting, or its merge with the one that was there.
unfoldable pub updated : Option CNfcParam → CNfcParam → Outcome CNfcParam
updated none p = returned p
updated (some old) p = merge old p

pub true≢false : true ≢ false
true≢false e = ground arith

-- A name that comes before another does not come after it and is not the same.
pub not_after : (x y : List ℕ) → str_lt x y ≡ true → str_lt y x ≡ false
not_after x y h = elim (Bool-cases (str_lt y x)) [
  | inl e ↦ absurd (true≢false (sym (str_lt_trans x y x h e) ∙ str_lt_irrefl x))
  | inr e ↦ e
]

pub not_same : (x y : List ℕ) → str_lt x y ≡ true → same_text y x ≡ false
not_same x y h = elim (Bool-cases (same_text y x)) [
  | inl e ↦
      let at = same_text→eq y x e in
      absurd (true≢false (sym h ∙ subst (λ n. str_lt x n ≡ false) (sym at) (str_lt_irrefl x)))
  | inr e ↦ e
]

module _ (q p : CNfcParam) (params : List CNfcParam) (name : List ℕ) where
  -- The three places of a setting in the list, by the comparison with the first name.
  pub find_below :
      (m : CNfcParam) (rest : List CNfcParam)
      → str_lt q.name p.name ≡ true
      → find rest name ≡ (if same_text p.name name then some m else find params name)
      → find (q ∷ rest) name ≡ (if same_text p.name name then some m else find (q ∷ params) name)
  unfolding find
  find_below m rest h e = elim (Bool-cases (same_text p.name name)) [
    | inl s ↦
        let below : str_lt q.name name ≡ true =
          subst (λ n. str_lt q.name n ≡ true) (same_text→eq p.name name s) h in
        if_true _ _ _ below ∙ e ∙ if_true _ _ _ s ∙ sym (if_true _ _ _ s)
    | inr s ↦
        ap (λ o. if str_lt q.name name then o else if same_text q.name name then some q else none)
          (e ∙ if_false _ _ _ s)
        ∙ sym (if_false _ _ _ s)
  ]

  pub find_here :
      (m : CNfcParam)
      → q.name ≡ p.name
      → m.name ≡ p.name
      → find (m ∷ params) name ≡ (if same_text p.name name then some m else find (q ∷ params) name)
  unfolding find
  find_here m h k = elim (Bool-cases (same_text p.name name)) [
    | inl s ↦
        let at : m.name ≡ name = k ∙ same_text→eq p.name name s in
        let below : str_lt m.name name ≡ false =
          subst (λ n. str_lt m.name n ≡ false) at (str_lt_irrefl m.name) in
        let same : same_text m.name name ≡ true =
          subst (λ n. same_text m.name n ≡ true) at (same_text_refl m.name) in
        if_false _ _ _ below ∙ if_true _ _ _ same ∙ sym (if_true _ _ _ s)
    | inr s ↦
        let other : (n : List ℕ) → n ≡ p.name → same_text n name ≡ false =
          λ n e. subst (λ t. same_text t name ≡ false) (sym e) s in
        ap (λ o. if str_lt m.name name then find params name else o)
          (if_false _ _ _ (other m.name k))
        ∙ ap (λ n. if str_lt n name then find params name else none) (k ∙ sym h)
        ∙ sym (
            ap (λ o. if str_lt q.name name then find params name else o)
              (if_false _ _ _ (other q.name h)))
        ∙ sym (if_false _ _ _ s)
  ]

  pub find_above :
      str_lt p.name q.name ≡ true
      → find (p ∷ q ∷ params) name
        ≡ (if same_text p.name name then some p else find (q ∷ params) name)
  unfolding find
  find_above h = elim (Bool-cases (same_text p.name name)) [
    | inl s ↦
        let below : str_lt p.name name ≡ false =
          subst (λ n. str_lt p.name n ≡ false) (same_text→eq p.name name s)
            (str_lt_irrefl p.name) in
        if_false _ _ _ below ∙ if_true _ _ _ s ∙ sym (if_true _ _ _ s)
    | inr s ↦ elim (Bool-cases (str_lt p.name name)) [
      | inl b ↦ if_true _ _ _ b ∙ sym (if_false _ _ _ s)
      | inr b ↦
          let before : str_lt name q.name ≡ true =
            str_lt_trans name p.name q.name (str_lt_total p.name name b s) h in
          if_false _ _ _ b
          ∙ if_false _ _ _ s
          ∙ sym (
              if_false _ _ _ s
              ∙ if_false _ _ _ (not_after name q.name before)
              ∙ if_false _ _ _ (not_same name q.name before))
    ]
  ]
