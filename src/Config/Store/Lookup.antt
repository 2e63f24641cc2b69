-- ===== src/Config/Store/Lookup.antt =====
-- The list of settings is sorted, and what is added is found there: the list stands for a map from
-- names to settings, which an addition changes at its name.
use android_vendor_tms.Prelude.{
  ℕ, suc, true, false, not, ◌&&◌, none, some, List, [], ◌∷◌, ◌≡◌, inl, inr, refl, sym, ap, subst,
  ◌∙◌, ◌==◌, if_true, if_false, Bool-cases, if◌then◌else◌, if-keeps, length, arith,
}
use android_vendor_tms.Prelude.Outcome.{Outcome, returned, fault, unfinished, ◌>>=◌}
use android_vendor_tms.Download.Script.{codes, same_text}
use android_vendor_tms.Config.Names.{str_lt, contains}
use android_vendor_tms.Config.Store.{CNfcParam, merge, is_allowed, insert, add, find}
use android_vendor_tms.Config.Store.Order.{same_text→eq, str_lt_irrefl, str_lt_trans, str_lt_total}
use android_vendor_tms.Config.Store.Place.{
  Above, Sorted, merge-returned, updated, find_below, find_here, find_above,
}

-- The setting that an addition leaves at its name.
updated-returned :
    (params : List CNfcParam) (p : CNfcParam)
    → (m : CNfcParam) × (updated (find params p.name) p ≡ returned m)
unfolding updated find
updated-returned [] p = (p, refl)
updated-returned (q ∷ params) p = elim (Bool-cases (str_lt q.name p.name)) [
  | inl h ↦
      let (m, e) = updated-returned params p in (m, ap (λ o. updated o p) (if_true _ _ _ h) ∙ e)
  | inr h ↦ elim (Bool-cases (same_text q.name p.name)) [
    | inl s ↦
        let (m, e, _) = merge-returned q p (same_text→eq q.name p.name s) in
        (m, ap (λ o. updated o p) (if_false _ _ _ h ∙ if_true _ _ _ s) ∙ e)
    | inr s ↦ (p, ap (λ o. updated o p) (if_false _ _ _ h ∙ if_false _ _ _ s))
  ]
]

Above-trans :
    (x y : List ℕ) (params : List CNfcParam) → str_lt x y ≡ true → Above y params → Above x params
Above-trans x y [] h a = tt
Above-trans x y (q ∷ params) h (b, a) = (str_lt_trans x y q.name h b, Above-trans x y params h a)

-- The list after an addition: sorted, above every name that the list and the setting were above,
-- and with the setting found at its name.
Inserted : CNfcParam → List CNfcParam → CNfcParam → List CNfcParam → Type 0
Inserted p params m l =
    (insert p params ≡ returned l)
    × Sorted l
    × ((name : List ℕ) → find l name ≡ (if same_text p.name name then some m else find params name))
    × ((x : List ℕ) → str_lt x p.name ≡ true → Above x params → Above x l)

module _ (q p : CNfcParam) (params : List CNfcParam) where
  Inserted-below :
      (m : CNfcParam) (l : List CNfcParam)
      → str_lt q.name p.name ≡ true
      → Above q.name params
      → Inserted p params m l
      → Inserted p (q ∷ params) m (q ∷ l)
  unfolding Inserted insert
  Inserted-below m l h a (e, sorted, found, above) = (
    if_true _ _ _ h ∙ ap (λ o. o >>= λ rest. returned (q ∷ rest)) e,
    (above q.name h a, sorted),
    (λ name. find_below q p params name m l h (found name)),
    (λ x b c. let (first, rest) = c in (first, above x b rest)),
  )

  Inserted-here :
      (m : CNfcParam)
      → str_lt q.name p.name ≡ false
      → same_text q.name p.name ≡ true
      → merge q p ≡ returned m
      → m.name ≡ p.name
      → Above q.name params
      → Sorted params
      → Inserted p (q ∷ params) m (m ∷ params)
  unfolding Inserted insert
  Inserted-here m h s e k a sorted =
      let same = same_text→eq q.name p.name s in
      let at : q.name ≡ m.name = same ∙ sym k in
      (
        if_false _ _ _ h ∙ if_true _ _ _ s ∙ ap (λ o. o >>= λ r. returned (r ∷ params)) e,
        (subst (λ n. Above n params) at a, sorted),
        (λ name. find_here q p params name m same k),
        (λ x b c. let (first, rest) = c in (subst (λ n. str_lt x n ≡ true) at first, rest)),
      )

  Inserted-first :
      str_lt q.name p.name ≡ false
      → same_text q.name p.name ≡ false
      → Above q.name params
      → Sorted params
      → Inserted p (q ∷ params) p (p ∷ q ∷ params)
  unfolding Inserted insert
  Inserted-first h s a sorted =
      let before = str_lt_total q.name p.name h s in
      (
        if_false _ _ _ h ∙ if_false _ _ _ s,
        ((before, Above-trans p.name q.name params before a), (a, sorted)),
        (λ name. find_above q p params name before),
        (λ x b c. (b, c)),
      )

result_or : CNfcParam → Outcome CNfcParam → CNfcParam
result_or d (returned a) = a
result_or d fault = d
result_or d unfinished = d

returned-injective : (a b : CNfcParam) → returned a ≡ returned b → a ≡ b
unfolding result_or
returned-injective a b e = ap (result_or a) e

find_only :
    (p m : CNfcParam) (name : List ℕ)
    → p ≡ m
    → find (p ∷ []) name ≡ (if same_text p.name name then some m else none)
unfolding find
find_only p m name e = elim (Bool-cases (same_text p.name name)) [
  | inl s ↦
      let below : str_lt p.name name ≡ false =
        subst (λ n. str_lt p.name n ≡ false) (same_text→eq p.name name s) (str_lt_irrefl p.name) in
      if_false _ _ _ below ∙ if_true _ _ _ s ∙ ap some e ∙ sym (if_true _ _ _ s)
  | inr s ↦
      if-keeps (λ o. o ≡ (if same_text p.name name then some m else none)) (str_lt p.name name) _ _
        (sym (if_false _ _ _ s)) (if_false _ _ _ s ∙ sym (if_false _ _ _ s))
]

insert-Inserted :
    (p : CNfcParam) (params : List CNfcParam) (m : CNfcParam)
    → Sorted params
    → updated (find params p.name) p ≡ returned m
    → (l : List CNfcParam) × Inserted p params m l
unfolding updated find Inserted insert
insert-Inserted p [] m sorted e =
    let at : p ≡ m = returned-injective p m e in
    (p ∷ [], (refl, (tt, tt), (λ name. find_only p m name at), (λ x b c. (b, tt))))
insert-Inserted p (q ∷ params) m (a, sorted) e = elim (Bool-cases (str_lt q.name p.name)) [
  | inl h ↦
      let (l, inserted) =
        insert-Inserted p params m sorted (sym (ap (λ o. updated o p) (if_true _ _ _ h)) ∙ e) in
      (q ∷ l, Inserted-below q p params m l h a inserted)
  | inr h ↦ elim (Bool-cases (same_text q.name p.name)) [
    | inl s ↦
        let (m', f, k) = merge-returned q p (same_text→eq q.name p.name s) in
        let g = sym (ap (λ o. updated o p) (if_false _ _ _ h ∙ if_true _ _ _ s)) ∙ e in
        let at = returned-injective m' m (sym f ∙ g) in
        (m ∷ params, Inserted-here q p params m h s g (ap (λ r. r.name) (sym at) ∙ k) a sorted)
    | inr s ↦
        let g = sym (ap (λ o. updated o p) (if_false _ _ _ h ∙ if_false _ _ _ s)) ∙ e in
        (
          p ∷ q ∷ params,
          subst (λ r. Inserted p (q ∷ params) r (p ∷ q ∷ params)) (returned-injective p m g)
              (Inserted-first q p params h s a sorted),
        )
  ]
]

add-insert :
    (file : List ℕ) (p : CNfcParam) (params : List CNfcParam)
    → contains (codes "tmsTransit") file ≡ false
    → add file p params ≡ insert p params
unfolding add insert
add-insert file p [] h = refl
add-insert file p (q ∷ params) h =
    let some_left : (suc (length params) == 0) ≡ false = ground arith in
    if_false _ _ _ some_left ∙ if_false _ _ _ (ap (λ b. b && not (is_allowed p.name)) h)

-- Where the settings are sorted and the current file is not the transit file, an addition ends, and
-- they are sorted after it.
pub add-Sorted :
    (file : List ℕ) (p : CNfcParam) (params : List CNfcParam)
    → contains (codes "tmsTransit") file ≡ false
    → Sorted params
    → (l : List CNfcParam) × (add file p params ≡ returned l) × Sorted l
unfolding Inserted
add-Sorted file p params h sorted =
    let (m, e) = updated-returned params p in
    let (l, (f, s, _, _)) = insert-Inserted p params m sorted e in
    (l, add-insert file p params h ∙ f, s)

-- Where the settings are sorted and the current file is not the transit file, a search after an
-- addition finds at the name that was added the new setting, or its merge with the one that was
-- there, and at every other name what it found before.
pub add-find :
    (file : List ℕ) (p : CNfcParam) (params : List CNfcParam) (name : List ℕ)
    → contains (codes "tmsTransit") file ≡ false
    → Sorted params
    → (m : CNfcParam) × (updated (find params p.name) p ≡ returned m)
      × ((add file p params >>= λ l. returned (find l name))
          ≡ returned (if same_text p.name name then some m else find params name))
unfolding Inserted
add-find file p params name h sorted =
    let (m, e) = updated-returned params p in
    let (l, (f, _, found, _)) = insert-Inserted p params m sorted e in
    (
      m,
      e,
      ap (λ o. o >>= λ r. returned (find r name)) (add-insert file p params h ∙ f)
          ∙ ap returned (found name),
    )
