-- ===== src/Config/Registers/RoundTrip.antt =====
-- What mergeEntries writes for register entries is read back as the same entries.
use mathlib.Core.List.{append_assoc, append-nil}
use android_vendor_tms.Prelude.{
  Every, u8, u16, if_true, ℕ, zero, suc, ◌+◌, ◌<◌, ◌≤◌, true, false, some, List, [], ◌∷◌, ◌++◌, ◌≡◌,
  refl, sym, ap, ◌∙◌, ◌==◌, ltb, leb, length, take, get_or, length-append, arith,
}
use android_vendor_tms.Prelude.Outcome.{returned, ◌>>=◌}
use android_vendor_tms.Config.Registers.{
  RegisterEntry, size_minus, entry_at, parse_next, parse_from, parse_register_entries, write_entry,
  write_entries, nci_header,
}
use android_vendor_tms.Config.Registers.Forms.{
  Canonical, one_byte, two_bytes, a0_0d, get_or-append, drop-append, take-append, load-in,
  load-first, taken-all, entry_at-short, entry_at-other, entry_at-long,
}

-- What stands before the values of an entry.
abbrev head_of : {e : RegisterEntry} → Canonical e → List ℕ
head_of (one_byte a values h) = a ∷ length values ∷ []
head_of (two_bytes a b values h k) = a ∷ b ∷ length values ∷ []
head_of (a0_0d c d e values h) = 0xA0 ∷ 0x0D ∷ c ∷ d ∷ e ∷ []

write_entry-head_of :
    (e : RegisterEntry) (c : Canonical e) → write_entry e ≡ returned (head_of c ++ e.values)
unfolding write_entry
write_entry-head_of e (one_byte a values h) =
    let ne : (a == 0xA0) ≡ false = ground arith in rw ne refl
write_entry-head_of e (two_bytes a b values h k) = ground arith
write_entry-head_of e (a0_0d c d f values h) = refl

-- An entry is read from where it stands, after any bytes and before any others.
module _ (pre rest : List ℕ) where
  get_or-first : (ys : List ℕ) → get_or (pre ++ ys) (length pre) 0 ≡ get_or ys 0 0
  get_or-first ys =
      let z : length pre + 0 ≡ length pre = omega arith in
      ap (λ i. get_or (pre ++ ys) i 0) (sym z) ∙ get_or-append pre ys 0

  size_of :
      (head values : List ℕ)
      → length (pre ++ (head ++ (values ++ rest)))
        ≡ length pre + (length head + (length values + length rest))
  size_of head values =
      rw
        (
          length-append pre (head ++ (values ++ rest)),
          length-append head (values ++ rest),
          length-append values rest,
        )
        refl

  entry_at-head_of :
      (e : RegisterEntry) (c : Canonical e)
      → entry_at (pre ++ (head_of c ++ (e.values ++ rest))) (length pre)
        ≡ returned (some (e, length pre + length (head_of c) + length e.values))
  entry_at-head_of e (one_byte a values h) =
      let bytes = pre ++ (a ∷ length values ∷ (values ++ rest)) in
      let size = size_of (a ∷ length values ∷ []) values in
      let whole = drop-append pre (a ∷ length values ∷ (values ++ rest)) 2 in
      let fits : leb (length pre) (size_minus bytes 2) ≡ true = ground arith in
      entry_at-short bytes (length pre) a (length values) _ h
        (load-first bytes (length pre) a (omega arith) (get_or-first _))
        (load-in bytes (length pre) (length values) 1 (omega arith) (get_or-append pre _ 1)) fits
        (taken-all bytes (length pre) (a ∷ []) values 2 (omega arith)
          (ap (take (length values)) whole ∙ take-append values rest))
  entry_at-head_of e (two_bytes a b values h k) =
      let bytes = pre ++ (a ∷ b ∷ length values ∷ (values ++ rest)) in
      let size = size_of (a ∷ b ∷ length values ∷ []) values in
      let whole = drop-append pre (a ∷ b ∷ length values ∷ (values ++ rest)) 3 in
      let fits : leb (length pre) (size_minus bytes 2) ≡ true = ground arith in
      let fits' : leb (length pre) (size_minus bytes 3) ≡ true = ground arith in
      entry_at-other bytes (length pre) a b (length values) _ h k
        (load-first bytes (length pre) a (omega arith) (get_or-first _))
        (load-in bytes (length pre) b 1 (omega arith) (get_or-append pre _ 1))
        (load-in bytes (length pre) (length values) 2 (omega arith) (get_or-append pre _ 2)) fits
        fits'
        (taken-all bytes (length pre) (a ∷ b ∷ []) values 3 (omega arith)
          (ap (take (length values)) whole ∙ take-append values rest))
  entry_at-head_of e (a0_0d c d f values h) =
      let bytes = pre ++ (0xA0 ∷ 0x0D ∷ c ∷ d ∷ f ∷ (values ++ rest)) in
      let size = size_of (0xA0 ∷ 0x0D ∷ c ∷ d ∷ f ∷ []) values in
      let whole = drop-append pre (0xA0 ∷ 0x0D ∷ c ∷ d ∷ f ∷ (values ++ rest)) 5 in
      let fits : leb (length pre) (size_minus bytes 5) ≡ true = ground arith in
      entry_at-long bytes (length pre) c d f _
        (load-first bytes (length pre) 0xA0 (omega arith) (get_or-first _))
        (load-in bytes (length pre) 0x0D 1 (omega arith) (get_or-append pre _ 1))
        (load-in bytes (length pre) c 2 (omega arith) (get_or-append pre _ 2))
        (load-in bytes (length pre) d 3 (omega arith) (get_or-append pre _ 3))
        (load-in bytes (length pre) f 4 (omega arith) (get_or-append pre _ 4)) fits
        (rw h (
          taken-all bytes (length pre) (0xA0 ∷ 0x0D ∷ c ∷ d ∷ f ∷ []) values 5 (omega arith)
            (ap (take (length values)) whole ∙ take-append values rest)))

abbrev printed : (es : List RegisterEntry) → Every Canonical es → List ℕ
printed [] _ = []
printed (e ∷ es) (c, cs) = (head_of c ++ e.values) ++ printed es cs

write_entries-printed :
    (es : List RegisterEntry) (cs : Every Canonical es)
    → write_entries es ≡ returned (printed es cs)
unfolding write_entries
write_entries-printed [] _ = refl
write_entries-printed (e ∷ es) (c, cs) =
    rw (write_entry-head_of e c, write_entries-printed es cs) refl

length-head_of : (e : RegisterEntry) (c : Canonical e) → 2 ≤ length (head_of c)
length-head_of e (one_byte a values h) = omega arith
length-head_of e (two_bytes a b values h k) = omega arith
length-head_of e (a0_0d c d f values h) = omega arith

length-printed :
    (es : List RegisterEntry) (cs : Every Canonical es) → length es ≤ length (printed es cs)
length-printed [] _ = omega arith
length-printed (e ∷ es) (c, cs) =
    let first = length-head_of e c in
    let rest = length-printed es cs in
    let size = length-append (head_of c ++ e.values) (printed es cs) in
    let size' = length-append (head_of c) e.values in omega arith

parse_from-step :
    (n : ℕ) (bytes : List ℕ) (idx i : ℕ) (acc : List RegisterEntry) (e : RegisterEntry)
    → ltb idx (length bytes) ≡ true
    → entry_at bytes idx ≡ returned (some (e, i))
    → parse_from (suc n) bytes idx acc ≡ parse_from n bytes i (acc ++ e ∷ [])
unfolding parse_from parse_next
parse_from-step n bytes idx i acc e inside h =
    if_true _ _ _ inside ∙ ap (λ o. o >>= parse_next (λ j es. parse_from n bytes j es) acc) h

parse_from-printed :
    (n : ℕ) (pre : List ℕ) (acc es : List RegisterEntry) (cs : Every Canonical es)
    → length es < n
    → parse_from n (pre ++ printed es cs) (length pre) acc ≡ returned (acc ++ es)
unfolding parse_from parse_next
parse_from-printed zero pre acc es cs h = absurd (omega arith)
parse_from-printed (suc n) pre acc [] _ h =
    let nil : List ℕ = [] in
    let size = length-append pre nil in
    let ends : ltb (length pre) (length (pre ++ [])) ≡ false = ground arith in
    rw (ends, append-nil acc) refl
parse_from-printed (suc n) pre acc (e ∷ es) (c, cs) h =
    let rest = printed es cs in
    let next = pre ++ (head_of c ++ e.values) in
    let first = length-head_of e c in
    let size = size_of pre rest (head_of c) e.values in
    let inside : ltb (length pre) (length (pre ++ (head_of c ++ (e.values ++ rest)))) ≡ true =
      ground arith in
    let after : length pre + length (head_of c) + length e.values ≡ length next =
      omega
        (arith, length-append pre (head_of c ++ e.values), length-append (head_of c) e.values) in
    let again = parse_from-printed n next (acc ++ e ∷ []) es cs (omega arith) in
    let here = pre ++ (head_of c ++ (e.values ++ rest)) in
    let same : here ≡ next ++ rest =
      rw (append_assoc pre (head_of c ++ e.values) rest, append_assoc (head_of c) e.values rest)
        refl in
    rw (append_assoc (head_of c) e.values rest) (
      parse_from-step n here (length pre) (length pre + length (head_of c) + length e.values) acc e
        inside (entry_at-head_of pre rest e c)
      ∙ ap (λ i. parse_from n here i (acc ++ e ∷ [])) after
      ∙ ap (λ bytes. parse_from n bytes (length next) (acc ++ e ∷ [])) same
      ∙ again
      ∙ ap returned (append_assoc acc (e ∷ []) es))

-- The command that mergeEntries writes for entries of the three forms is parsed as those entries.
pub parse_register_entries-write_entries :
    (es : List RegisterEntry) (count : ℕ)
    → Every Canonical es
    → (write_entries es >>= λ result. parse_register_entries (nci_header count result))
      ≡ returned es
unfolding parse_register_entries nci_header
parse_register_entries-write_entries es count cs =
    let size = length-printed es cs in
    let bytes = printed es cs in
    let header = 0x20 ∷ 0x02 ∷ u8 (u16 (u16 (length bytes) + 1)) ∷ u8 count ∷ [] in
    let fuel : length es < suc (suc (suc (suc (suc (length bytes))))) = omega arith in
    let parsed = parse_from-printed _ header [] es cs fuel in
    ap (λ o. o >>= λ result. parse_register_entries (nci_header count result))
      (write_entries-printed es cs)
    ∙ parsed
