-- ===== src/Result.antt =====
-- How a call of the nvlist package ends: nvlist/decode.go's error values and those of package io,
-- and the panics of the Go runtime and of the package.
use go_zfs.Base.{◌≡◌, refl, Bool, true, false, if◌then◌else◌}

pub data Error : Type 0 where
  invalid_encoding invalid_endianess invalid_data invalid_value : Error
  eof unexpected_eof : Error

-- `index_out_of_range` is Go's own panic, also for a slice; `nil_byte_order` is the call of a
-- method of a nil `binary.ByteOrder`, `elem_of_interface` the call of `Elem` of an interface type;
-- `not_assignable` and `nil_map_entry` are panics of package reflect, for a value of another type and
-- for an entry of a nil map; the others are `panic` calls of the encoder and of the decoder.
pub data Fault : Type 0 where
  index_out_of_range nil_byte_order elem_of_interface unknown_type pair_not_started : Fault
  not_assignable nil_map_entry hybrid_type array_in_struct : Fault

-- `out_of_fuel` has no counterpart in the program.
pub data Result {ℓ} (A : Type ℓ) : Type ℓ where
  ok : A → Result A
  err : Error → Result A
  panic : Fault → Result A
  out_of_fuel : Result A

infixl 5 ◌>>=◌
abbrev pub ◌>>=◌ {ℓ κ} : {A : Type ℓ} {B : Type κ} → Result A → (A → Result B) → Result B
ok a >>= f = f a
err e >>= f = err e
panic p >>= f = panic p
out_of_fuel >>= f = out_of_fuel

-- The run neither panicked nor ran out of fuel, and `P` holds of its value if it has one.
pub data Ensures {ℓ κ} {A : Type ℓ} (P : A → Type κ) : Result A → Type (ℓ ⊔ κ) where
  holds : {a : A} → P a → Ensures P (ok a)
  refused : {e : Error} → Ensures P (err e)

pub Ensures-bind {ℓ κ ℓ' κ'} :
    {A : Type ℓ} {P : A → Type κ} {B : Type ℓ'} {Q : B → Type κ'} {r : Result A} {f : A → Result B}
    → Ensures P r
    → ((a : A) → P a → Ensures Q (f a))
    → Ensures Q (r >>= f)
Ensures-bind (holds {a} h) k = k a h
Ensures-bind refused k = refused

pub Ensures-mono {ℓ κ κ'} :
    {A : Type ℓ} {P : A → Type κ} {Q : A → Type κ'} {r : Result A}
    → Ensures P r
    → ((a : A) → P a → Q a)
    → Ensures Q r
Ensures-mono (holds {a} h) k = holds (k a h)
Ensures-mono refused k = refused

-- A test between two runs.
pub Ensures-if {ℓ κ} :
    {A : Type ℓ} {P : A → Type κ} (b : Bool) {x y : Result A}
    → (b ≡ true → Ensures P x)
    → (b ≡ false → Ensures P y)
    → Ensures P (if b then x else y)
Ensures-if true hx hy = hx refl
Ensures-if false hx hy = hy refl

-- The run did not run out of fuel, a panic is one of `Q`, and `P` holds of its value if it has one.
pub data Unless {ℓ κ μ} {A : Type ℓ} (Q : Fault → Type μ) (P : A → Type κ)
    : Result A → Type (ℓ ⊔ κ ⊔ μ) where
  gives : {a : A} → P a → Unless Q P (ok a)
  rejects : {e : Error} → Unless Q P (err e)
  panics : {f : Fault} → Q f → Unless Q P (panic f)

module _ {μ} {Q : Fault → Type μ} where
  pub Ensures-Unless {ℓ κ} :
      {A : Type ℓ} {P : A → Type κ} {r : Result A} → Ensures P r → Unless Q P r
  Ensures-Unless (holds h) = gives h
  Ensures-Unless refused = rejects

  pub Unless-bind {ℓ κ ℓ' κ'} :
      {A : Type ℓ} {P : A → Type κ} {B : Type ℓ'} {P' : B → Type κ'} {r : Result A}
      {f : A → Result B}
      → Unless Q P r
      → ((a : A) → P a → Unless Q P' (f a))
      → Unless Q P' (r >>= f)
  Unless-bind (gives {a} h) k = k a h
  Unless-bind rejects k = rejects
  Unless-bind (panics q) k = panics q

  pub Unless-mono {ℓ κ κ'} :
      {A : Type ℓ} {P : A → Type κ} {P' : A → Type κ'} {r : Result A}
      → Unless Q P r
      → ((a : A) → P a → P' a)
      → Unless Q P' r
  Unless-mono (gives {a} h) k = gives (k a h)
  Unless-mono rejects k = rejects
  Unless-mono (panics q) k = panics q

  pub Unless-if {ℓ κ} :
      {A : Type ℓ} {P : A → Type κ} (b : Bool) {x y : Result A}
      → (b ≡ true → Unless Q P x)
      → (b ≡ false → Unless Q P y)
      → Unless Q P (if b then x else y)
  Unless-if true hx hy = hx refl
  Unless-if false hx hy = hy refl

-- What holds of the value, if there is one.
abbrev pub IfOk {ℓ} : {A : Type ℓ} → (A → Type 0) → Result A → Type 0
IfOk P (ok a) = P a
IfOk P _ = Unit {0}

pub IfOk-bind {ℓ κ} :
    {A : Type ℓ} {B : Type κ} (P : B → Type 0) (r : Result A) (f : A → Result B)
    → ((a : A) → IfOk P (f a))
    → IfOk P (r >>= f)
IfOk-bind P (ok a) f h = h a
IfOk-bind P (err e) f h = tt
IfOk-bind P (panic p) f h = tt
IfOk-bind P out_of_fuel f h = tt
