-- ===== src/Download/Buffer.antt =====
-- The read buffer of a script, with accesses that fail outside what is allocated.
use android_vendor_tms.Prelude.{
  ℕ, ◌<◌, List, ◌≡◌, if◌then◌else◌, length, set, length-set, get_or, ltb, lt→ltb,
}
use android_vendor_tms.Prelude.Outcome.{Outcome, returned, fault, ◌>>=◌, Returns}

abbrev pub load : List ℕ → ℕ → Outcome ℕ
load buf i = if ltb i (length buf) then returned (get_or buf i 0) else fault

abbrev pub store : List ℕ → ℕ → ℕ → Outcome (List ℕ)
store buf i v = if ltb i (length buf) then returned (set buf i v) else fault

module _ {B : Type 0} (P : B → Type 0) (buf : List ℕ) (i n : ℕ) where
  pub load-Returns :
      (f : ℕ → Outcome B)
      → length buf ≡ n
      → i < n
      → Returns P (f (get_or buf i 0))
      → Returns P (load buf i >>= f)
  load-Returns f e h k = let inside = lt→ltb i n h in rw (e, inside) k

  pub store-Returns :
      (v : ℕ) (f : List ℕ → Outcome B)
      → length buf ≡ n
      → i < n
      → (length (set buf i v) ≡ n → Returns P (f (set buf i v)))
      → Returns P (store buf i v >>= f)
  store-Returns v f e h k =
      let inside = lt→ltb i n h in
      let same : length (set buf i v) ≡ n = rw (length-set buf i v) e in rw (e, inside) (k same)
