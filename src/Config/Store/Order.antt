-- ===== src/Config/Store/Order.antt =====
-- The comparison of the names of settings is a strict linear order, and same_text is equality.
use android_vendor_tms.Prelude.{ℕ, true, false, List, [], ◌∷◌, ◌≡◌, refl, arith}
use android_vendor_tms.Download.Script.{same_text}
use android_vendor_tms.Config.Names.{str_lt}

pub same_text_refl : (x : List ℕ) → same_text x x ≡ true
unfolding same_text
same_text_refl [] = refl
same_text_refl (c ∷ x) = let r = same_text_refl x in ground arith

pub same_text→eq : (x y : List ℕ) → same_text x y ≡ true → x ≡ y
unfolding same_text
same_text→eq [] [] e = refl
same_text→eq [] (d ∷ y) e = absurd (ground arith)
same_text→eq (c ∷ x) [] e = absurd (ground arith)
same_text→eq (c ∷ x) (d ∷ y) e = let r = same_text→eq x y in grind arith

pub str_lt_irrefl : (x : List ℕ) → str_lt x x ≡ false
unfolding str_lt
str_lt_irrefl [] = refl
str_lt_irrefl (c ∷ x) = let r = str_lt_irrefl x in ground arith

pub str_lt_trans : (x y z : List ℕ) → str_lt x y ≡ true → str_lt y z ≡ true → str_lt x z ≡ true
unfolding str_lt
str_lt_trans [] [] z p q = absurd (ground arith)
str_lt_trans (a ∷ x) [] z p q = absurd (ground arith)
str_lt_trans [] (b ∷ y) [] p q = absurd (ground arith)
str_lt_trans [] (b ∷ y) (c ∷ z) p q = refl
str_lt_trans (a ∷ x) (b ∷ y) [] p q = q
str_lt_trans (a ∷ x) (b ∷ y) (c ∷ z) p q = let r = str_lt_trans x y z in ground arith

pub str_lt_total : (x y : List ℕ) → str_lt x y ≡ false → same_text x y ≡ false → str_lt y x ≡ true
unfolding str_lt same_text
str_lt_total [] [] p q = ground arith
str_lt_total [] (b ∷ y) p q = ground arith
str_lt_total (a ∷ x) [] p q = refl
str_lt_total (a ∷ x) (b ∷ y) p q = let r = str_lt_total x y in ground arith
