-- ===== src/Ioctl/Receive/Cuts.antt =====
-- ioctl/wrappers.go: prefixes of what is written, and the copy into the begin record.
use go_zfs.Base.{
  ℕ, zero, suc, ◌+◌, ◌<◌, ◌≤◌, ◌≡◌, refl, sym, ap, ◌∙◌, [], ◌∷◌, ◌++◌, Bytes, length, take, drop,
  set, arith, append-nil,
}
use go_zfs.Ioctl.Receive.{store_record}

pub append_assoc : (xs ys zs : Bytes) → (xs ++ ys) ++ zs ≡ xs ++ (ys ++ zs)
append_assoc [] ys zs = refl
append_assoc (x ∷ xs) ys zs = ap (x ∷◌) (append_assoc xs ys zs)

pub length-set : (buf : Bytes) (i b : ℕ) → length (set buf i b) ≡ length buf
length-set [] i b = refl
length-set (x ∷ buf) zero b = refl
length-set (x ∷ buf) (suc i) b = ap suc (length-set buf i b)

pub take-set :
    (buf : Bytes) (i b : ℕ) → i < length buf → take (suc i) (set buf i b) ≡ take i buf ++ b ∷ []
take-set [] i b h = absurd (omega arith)
take-set (x ∷ buf) zero b h = refl
take-set (x ∷ buf) (suc i) b h = ap (x ∷◌) (take-set buf i b (omega arith))

pub take-all : (n : ℕ) (xs : Bytes) → length xs ≤ n → take n xs ≡ xs
take-all zero [] h = refl
take-all zero (x ∷ xs) h = absurd (omega arith)
take-all (suc n) [] h = refl
take-all (suc n) (x ∷ xs) h = ap (x ∷◌) (take-all n xs (omega arith))

pub take-nil : (n : ℕ) → take {A = ℕ} n [] ≡ []
take-nil zero = refl
take-nil (suc n) = refl

-- A prefix in two parts.
pub take-drop : (k n : ℕ) (xs : Bytes) → take k xs ++ take n (drop k xs) ≡ take (k + n) xs
take-drop zero n xs = ap (λ m. take m xs) (omega arith)
take-drop (suc k) n [] = take-nil n ∙ sym (take-nil (suc k + n))
take-drop (suc k) n (x ∷ xs) =
    let e : suc (k + n) ≡ suc k + n = omega arith in
    ap (x ∷◌) (take-drop k n xs) ∙ ap (λ m. take m (x ∷ xs)) e

pub length-store_record :
    (bs : Bytes) (i : ℕ) (buf : Bytes) → length (store_record bs i buf) ≡ length buf
unfolding store_record
length-store_record [] i buf = refl
length-store_record (b ∷ bs) i buf =
    length-store_record bs (i + 1) (set buf i b) ∙ length-set buf i b

pub take-store_record :
    (bs : Bytes) (i : ℕ) (buf : Bytes)
    → i + length bs ≤ length buf
    → take (i + length bs) (store_record bs i buf) ≡ take i buf ++ bs
unfolding store_record
take-store_record [] i buf h = rw (append-nil (take i buf)) (ap (λ n. take n buf) (omega arith))
take-store_record (b ∷ bs) i buf h =
    let n = length-set buf i b in
    let e : i + length (b ∷ bs) ≡ i + 1 + length bs = omega arith in
    let next : i + 1 ≡ suc i = omega arith in
    ap (λ n. take n (store_record bs (i + 1) (set buf i b))) e
    ∙ take-store_record bs (i + 1) (set buf i b) (omega arith)
    ∙ ap (λ n. take n (set buf i b) ++ bs) next
    ∙ ap (λ xs. xs ++ bs) (take-set buf i b (omega arith))
    ∙ append_assoc (take i buf) (b ∷ []) bs

pub length-nil : (xs : Bytes) → length xs ≤ 0 → xs ≡ []
length-nil [] h = refl
length-nil (x ∷ xs) h = absurd (omega arith)
