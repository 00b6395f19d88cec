-- ===== src/Value/Compare.antt =====
-- Go values: the equality of strings.
use go_zfs.Base.{◌≡◌, refl, true, false, [], ◌∷◌, Bytes, Bool-cases, inl, inr, arith, ◌==◌}
use go_zfs.Value.{bytes_eq}

pub bytes_eq_refl : (a : Bytes) → bytes_eq a a ≡ true
unfolding bytes_eq
bytes_eq_refl [] = refl
bytes_eq_refl (x ∷ a) = let e : (x == x) ≡ true = ground arith in rw (e, bytes_eq_refl a)

pub bytes_eq-true : (a b : Bytes) → bytes_eq a b ≡ true → a ≡ b
unfolding bytes_eq
bytes_eq-true [] [] e = refl
bytes_eq-true [] (y ∷ b) e = cc
bytes_eq-true (x ∷ a) [] e = cc
bytes_eq-true (x ∷ a) (y ∷ b) e = elim (Bool-cases (x == y)) [
  | inl h ↦
      let t : bytes_eq a b ≡ true = rw h at e in
      let same : x ≡ y = ground arith in cc (bytes_eq-true a b t, same)
  | inr h ↦ let t : false ≡ true = rw h at e in cc
]
