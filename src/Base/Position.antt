-- ===== src/Base/Position.antt =====
-- Where a byte string stands inside another: the bytes of `whole` from position `p` on.
use Prim.Native.Nat.{ℕ, ◌+◌}
use mathlib.Core.Path.{◌≡◌, refl, ap, ◌∙◌, sym}
use mathlib.Core.List.{[], ◌∷◌, ◌++◌, append_assoc}
use mathlib.Core.Option.{some}
use native.Mathlib.Omega.{arith}
use go_zfs.Base.Lists.{
  Bytes, length, take, drop, get_elem?, length-append, take-append, drop-append,
}

pub record At (whole : Bytes) (p : ℕ) (tail : Bytes) : Type 0 where
  pub front : Bytes
  pub splits : whole ≡ front ++ tail
  pub lies : length front ≡ p

module _ {whole : Bytes} {p : ℕ} where
  pub At-advance :
      {q : ℕ} (xs ys : Bytes) → At whole p (xs ++ ys) → p + length xs ≡ q → At whole q ys
  At-advance xs ys a e = record {
    front = a.front ++ xs;
    splits = a.splits ∙ sym (append_assoc a.front xs ys);
    lies = omega (arith, length-append a.front xs, a.lies);
  }

  pub At-length : (xs : Bytes) → At whole p xs → length whole ≡ p + length xs
  At-length xs a = ap length a.splits ∙ omega (arith, length-append a.front xs, a.lies)

  -- The slice of the next `length xs` bytes.
  pub At-slice : (xs ys : Bytes) → At whole p (xs ++ ys) → take (length xs) (drop p whole) ≡ xs
  At-slice xs ys a = rw (a.splits, ← a.lies, drop-append a.front (xs ++ ys)) (take-append xs ys)

get_elem?-append : (xs : Bytes) (y : ℕ) (ys : Bytes) → get_elem? (xs ++ y ∷ ys) (length xs) ≡ some y
get_elem?-append [] y ys = refl
get_elem?-append (x ∷ xs) y ys = get_elem?-append xs y ys

module _ {whole : Bytes} {p : ℕ} where
  pub At-get_elem? : (x : ℕ) (xs : Bytes) → At whole p (x ∷ xs) → get_elem? whole p ≡ some x
  At-get_elem? x xs a = rw (a.splits, ← a.lies) (get_elem?-append a.front x xs)
