-- ===== src/Config/Registers/Bounds.antt =====
-- The loop over register entries reads only what is in its data, and ends.
use android_vendor_tms.Prelude.{
  Every, Every-append, ℕ, zero, suc, ◌-◌, ◌<◌, ◌≤◌, Option, none, some, List, [], ◌∷◌, ◌++◌, ◌≡◌,
  inl, inr, refl, ap, ◌==◌, ltb, ltb→lt, if-cases, length, get_or, arith,
}
use android_vendor_tms.Prelude.Outcome.{
  returned, Returns, then-Returns, if-Returns, Returns-returned,
}
use android_vendor_tms.Download.Buffer.{load-Returns}
use android_vendor_tms.Download.Script.{same_text}
use android_vendor_tms.Config.Registers.{
  RegisterEntry, entry_at, parse_next, parse_from, parse_register_entries, merge_entry, merge_all,
  write_entry, write_entries, merge_entries,
}
use android_vendor_tms.Config.Registers.Entry.{AddressOk, EntryOk, Next, entry_at-Returns}

parse_next-Returns :
    (n : ℕ) (bytes : List ℕ) (idx : ℕ) (entries : List RegisterEntry)
    → ((i : ℕ) (es : List RegisterEntry)
        → length bytes - i < n
        → 4 ≤ i
        → Every EntryOk es
        → Returns (Every EntryOk) (parse_from n bytes i es))
    → length bytes - idx < suc n
    → idx < length bytes
    → 4 ≤ idx
    → Every EntryOk entries
    → (o : Option (RegisterEntry × ℕ)) → Next idx o
    → Returns (Every EntryOk) (parse_next (λ i es. parse_from n bytes i es) entries o)
unfolding parse_next
parse_next-Returns n bytes idx entries rest fuel inside from ok none h = tt
parse_next-Returns n bytes idx entries rest fuel inside from ok (some (e, i)) (h, k) =
    rest i (entries ++ e ∷ []) (omega arith) (omega arith)
      (Every-append EntryOk entries (e ∷ []) ok (h, tt))

parse_from-Returns :
    (n : ℕ) (bytes : List ℕ) (idx : ℕ) (entries : List RegisterEntry)
    → length bytes - idx < n
    → 4 ≤ idx
    → Every EntryOk entries
    → Returns (Every EntryOk) (parse_from n bytes idx entries)
unfolding parse_from
parse_from-Returns zero bytes idx entries fuel from ok = absurd (omega arith)
parse_from-Returns (suc n) bytes idx entries fuel from ok =
    if-Returns _ (ltb idx (length bytes)) _ _
      (λ e.
        let inside = ltb→lt _ _ e in
        then-Returns _ _ (entry_at bytes idx) _ (entry_at-Returns bytes idx (omega arith))
          (parse_next-Returns n bytes idx entries (parse_from-Returns n bytes) fuel inside from ok))
      (λ _. ok)

-- Every entry that is parsed has as many values as its length says, and an address of two bytes or
-- more, or of one byte below A0; no input makes the loop read outside the data, or run on.
pub parse_register_entries-Returns :
    (bytes : List ℕ) → Returns (Every EntryOk) (parse_register_entries bytes)
unfolding parse_register_entries
parse_register_entries-Returns bytes =
    parse_from-Returns (suc (length bytes)) bytes 4 [] (omega arith) (omega arith) tt

abbrev pub Addressed : List RegisterEntry → Type 0
Addressed es = Every (λ e. AddressOk e.register_address) es

Addressed-Every : (es : List RegisterEntry) → Every EntryOk es → Addressed es
Addressed-Every [] h = tt
Addressed-Every (e ∷ es) ((a, _), h) = (a, Addressed-Every es h)

Addressed-merge_entry :
    (e : RegisterEntry) (es : List RegisterEntry)
    → AddressOk e.register_address
    → Addressed es
    → Addressed (merge_entry e es)
unfolding merge_entry
Addressed-merge_entry e [] a h = (a, tt)
Addressed-merge_entry e (old ∷ es) a (b, h) =
    if-cases Addressed (same_text e.register_address old.register_address) _ _ (λ _. (b, h))
      (λ _. (b, Addressed-merge_entry e es a h))

Addressed-merge_all :
    (new old : List RegisterEntry) → Addressed new → Addressed old → Addressed (merge_all new old)
Addressed-merge_all [] old h k = k
Addressed-merge_all (e ∷ new) old (a, h) k =
    Addressed-merge_all new (merge_entry e old) h (Addressed-merge_entry e old a k)

write_entry-Returns :
    (e : RegisterEntry) → AddressOk e.register_address → Returns (λ _. Unit) (write_entry e)
unfolding write_entry
write_entry-Returns e (inl h) =
    load-Returns _ e.register_address 0 (length e.register_address) _ refl (omega arith) (
      if-Returns _ (get_or e.register_address 0 0 == 0xA0) _ _
        (λ _.
          load-Returns _ e.register_address 1 (length e.register_address) _ refl (omega arith)
            (if-Returns _ (get_or e.register_address 1 0 == 0x0D) _ _ (λ _. tt) (λ _. tt)))
        (λ _. tt))
write_entry-Returns e (inr (a, eq, low)) =
    load-Returns _ e.register_address 0 (length e.register_address) _ refl
      (let size = ap length eq in omega arith)
      (if-Returns _ (get_or e.register_address 0 0 == 0xA0) _ _
        (λ f. absurd (let first = ap (λ xs. get_or xs 0 0) eq in ground arith)) (λ _. tt))

write_entries-Returns :
    (es : List RegisterEntry) → Addressed es → Returns (λ _. Unit) (write_entries es)
unfolding write_entries
write_entries-Returns [] h = tt
write_entries-Returns (e ∷ es) (a, h) =
    then-Returns _ _ (write_entry e) _ (write_entry-Returns e a)
      (λ bytes _. then-Returns _ _ (write_entries es) _ (write_entries-Returns es h) (λ _ _. tt))

merge_entries-Returns : (existing new : List ℕ) → Returns (λ _. Unit) (merge_entries existing new)
unfolding merge_entries
merge_entries-Returns existing new =
    then-Returns _ _ (parse_register_entries existing) _ (parse_register_entries-Returns existing)
      (λ old h.
        then-Returns _ _ (parse_register_entries new) _ (parse_register_entries-Returns new)
          (λ es k.
            let ok = Addressed-merge_all es old (Addressed-Every es k) (Addressed-Every old h) in
            if-Returns _ (length old == 0) _ _ (λ _. tt)
              (λ _.
                if-Returns _ (length es == 0) _ _ (λ _. tt)
                  (λ _.
                    then-Returns _ _ (write_entries (merge_all es old)) _
                      (write_entries-Returns _ ok) (λ _ _. tt)))))

-- The merge of two commands of any bytes gives a command: it reads no byte and no part of an
-- address that is not there.
pub merge_entries-returned :
    (existing new : List ℕ) → (bytes : List ℕ) × (merge_entries existing new ≡ returned bytes)
merge_entries-returned existing new =
    let (bytes, e, _) = Returns-returned _ _ (merge_entries-Returns existing new) in (bytes, e)
