-- ===== src/Ioctl/Wrappers/Names.antt =====
-- ioctl/wrappers.go: the check of the names in Snapshot and DestroySnapshots.
use go_zfs.Base.{
  ◌≡◌, ◌≢◌, ◌⊎◌, refl, sym, ap, ◌∙◌, true, false, Bool-cases, inl, inr, List, [], ◌∷◌, ◌++◌, Option,
  some, none, Bytes, All, append-nil,
}
use go_zfs.Value.{bytes_eq}
use go_zfs.Value.Compare.{bytes_eq_refl, bytes_eq-true}
use go_zfs.Ioctl.Wrappers.Datasets.{has_key, add_names}

-- No name is there twice.
abbrev pub NotIn : Bytes → List Bytes → Type 0
NotIn name names = All (λ other. name ≢ other) names

abbrev pub IsUnique : List Bytes → Type 0
IsUnique [] = Unit {0}
IsUnique (name ∷ names) = NotIn name names × IsUnique names

-- No key is among the names, and no name is there twice.
Addable : List Bytes → List Bytes → Type 0
Addable keys names = All (λ key. NotIn key names) keys × IsUnique names

has_key-false :
    (name : Bytes) (keys : List Bytes) → All (λ key. key ≢ name) keys → has_key name keys ≡ false
unfolding has_key
has_key-false name [] h = refl
has_key-false name (key ∷ keys) (k, h) = elim (Bool-cases (bytes_eq key name)) [
  | inl e ↦ absurd (k (bytes_eq-true key name e))
  | inr e ↦ rw (e, has_key-false name keys h)
]

NotIn-has_key :
    (name : Bytes) (keys : List Bytes) → has_key name keys ≡ false → All (λ key. key ≢ name) keys
unfolding has_key
NotIn-has_key name [] h = tt
NotIn-has_key name (key ∷ keys) h = elim (Bool-cases (bytes_eq key name)) [
  | inl e ↦ let t : true ≡ false = rw e at h in cc
  | inr e ↦ (
    (λ same. let t : bytes_eq key name ≡ true = rw same (bytes_eq_refl name) in cc),
    NotIn-has_key name keys (rw e at h),
  )
]

add_key :
    (name : Bytes) (keys names : List Bytes)
    → Addable keys (name ∷ names)
    → Addable (keys ++ name ∷ []) names
unfolding Addable
add_key name [] names (k, (n, u)) = ((n, tt), u)
add_key name (key ∷ keys) names (((_, k), ks), (n, u)) =
    let (rest, u) = add_key name keys names (ks, (n, u)) in ((k, rest), u)

drop_key :
    (name : Bytes) (keys names : List Bytes)
    → All (λ key. key ≢ name) keys
    → Addable (keys ++ name ∷ []) names
    → Addable keys (name ∷ names)
unfolding Addable
drop_key name [] names k ((n, _), u) = (tt, (n, u))
drop_key name (key ∷ keys) names (k, ks) ((m, ms), u) =
    let (rest, u) = drop_key name keys names ks (ms, u) in (((k, m), rest), u)

firsts :
    (name : Bytes) (keys names : List Bytes)
    → Addable keys (name ∷ names)
    → All (λ key. key ≢ name) keys
unfolding Addable
firsts name [] names a = tt
firsts name (key ∷ keys) names (((k, _), ks), u) = (k, firsts name keys names (ks, u))

append-cons :
    (keys names : List Bytes) (name : Bytes) → (keys ++ name ∷ []) ++ names ≡ keys ++ name ∷ names
append-cons [] names name = refl
append-cons (key ∷ keys) names name = ap (key ∷◌) (append-cons keys names name)

add_names-Addable :
    (keys names : List Bytes) → Addable keys names → add_names keys names ≡ some (keys ++ names)
unfolding add_names
add_names-Addable keys [] a = ap some (sym (append-nil keys))
add_names-Addable keys (name ∷ names) a =
    rw
      (
        has_key-false name keys (firsts name keys names a),
        add_names-Addable (keys ++ name ∷ []) names (add_key name keys names a),
      )
      (ap some (append-cons keys names name))

Addable-add_names :
    (keys names found : List Bytes) → add_names keys names ≡ some found → Addable keys names
unfolding add_names Addable
Addable-add_names [] [] found e = (tt, tt)
Addable-add_names (key ∷ keys) [] found e = ((tt, (Addable-add_names keys [] keys refl).0), tt)
Addable-add_names keys (name ∷ names) found e = elim (Bool-cases (has_key name keys)) [
  | inl h ↦ let t : none ≡ some found = rw h at e in cc
  | inr h ↦
      drop_key name keys names (NotIn-has_key name keys h)
        (Addable-add_names (keys ++ name ∷ []) names found (rw h at e))
]

abbrev pub NamesChecked : List Bytes → Option (List Bytes) → Type 0
NamesChecked names found =
    (IsUnique names × (found ≡ some names)) ⊎ ((¬ IsUnique names) × (found ≡ none))

pub add_names-checked :
    (names : List Bytes) (found : Option (List Bytes))
    → add_names [] names ≡ found
    → NamesChecked names found
unfolding Addable
add_names-checked names none e =
    inr ((λ u. let t : none ≡ some names = sym e ∙ add_names-Addable [] names (tt, u) in cc), refl)
add_names-checked names (some found) e =
    let a = Addable-add_names [] names found e in inl (a.1, sym e ∙ add_names-Addable [] names a)
