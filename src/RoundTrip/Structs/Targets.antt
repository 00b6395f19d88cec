-- ===== src/RoundTrip/Structs/Targets.antt =====
-- nvlist: the structs that come back from Unmarshal, and the fields of their targets.
use go_zfs.Base.{
  ◌≡◌, refl, ap, Bool, true, false, Bool-cases, inl, inr, List, [], ◌∷◌, some, none, Bytes, arith,
}
use go_zfs.Consts.{int8, uint8, int16, uint16, int32, uint32, int64, uint64, IntKind}
use go_zfs.Value.{
  Value, Fields, bool, integer, string, integers, bools, strings, struct, no_fields, field, bytes,
  bytes_eq,
}
use go_zfs.Encoder.Collect.{
  unpack_val, unpack_interface, is_empty_value, split_tag, leaves_out, field_name,
}
use go_zfs.Decoder.Cells.{
  Cell, Slots, plain_cell, struct_cell, no_slots, slot, slot_name, same_kind, same_type, find_slot,
  set_slot,
}

-- The zero value of its type.
unfoldable pub zero_of : Value → Value
zero_of (bool b) = bool false
zero_of (integer k n) = integer k 0
zero_of (string s) = string []
zero_of (integers k xs) = integers k []
zero_of (bools bs) = bools []
zero_of (strings ss) = strings []
zero_of v = v

unfoldable mutual
  unfolding zero_of

  -- A variable of the type of the value, zero and with the value.
  pub zero_cell : Value → Cell
  zero_cell (struct fs) = struct_cell (zero_slots fs)
  zero_cell v = plain_cell (zero_of v)

  pub zero_slots : Fields → Slots
  zero_slots no_fields = no_slots
  zero_slots (field name tag v fs) = slot name tag true (zero_cell v) (zero_slots fs)

unfoldable mutual
  pub cell_of : Value → Cell
  cell_of (struct fs) = struct_cell (slots_of fs)
  cell_of v = plain_cell v

  pub slots_of : Fields → Slots
  slots_of no_fields = no_slots
  slots_of (field name tag v fs) = slot name tag true (cell_of v) (slots_of fs)

abbrev pub IsBasic : Value → Type 0
IsBasic (bool b) = Unit {0}
IsBasic (integer k n) = Unit {0}
IsBasic (string s) = Unit {0}
IsBasic (integers k xs) = Unit {0}
IsBasic (bools bs) = Unit {0}
IsBasic (strings ss) = Unit {0}
IsBasic _ = ⊥

abbrev pub IsWritten : List Bytes → Type 0
IsWritten [] = Unit {0}
IsWritten (option ∷ more) = bytes_eq option (bytes "ro") ≡ false

-- No field goes by the name.
abbrev pub NoField : Bytes → Fields → Type 0
NoField name no_fields = Unit {0}
NoField name (field f tag v fs) = (bytes_eq (slot_name f tag) name ≡ false) × NoField name fs

-- A struct whose fields go by distinct names, none of them read-only, and hold bools, integers,
-- strings, slices of these, and structs like it.
unfoldable mutual
  unfolding split_tag field_name bytes_eq

  pub FieldsSurvive : Fields → Type 0
  FieldsSurvive no_fields = Unit {0}
  FieldsSurvive (field name tag v fs) =
      NoField (slot_name name tag) fs × IsWritten (split_tag tag).1 × Survives v × FieldsSurvive fs

  pub Survives : Value → Type 0
  Survives (struct fs) = FieldsSurvive fs
  Survives v = IsBasic v

unfoldable pub append_slots : Slots → Slots → Slots
append_slots no_slots ts = ts
append_slots (slot f t e c ss) ts = slot f t e c (append_slots ss ts)

pub find_slot-append :
    (name : Bytes) (ss ts : Slots) (x : Bool × Cell)
    → find_slot name ts ≡ some x
    → find_slot name (append_slots ss ts) ≡ some x
unfolding append_slots find_slot
find_slot-append name no_slots ts x e = e
find_slot-append name (slot f t b c ss) ts x e = rw (find_slot-append name ss ts x e)

pub set_slot-append :
    (name : Bytes) (c : Cell) (ss ts : Slots) (x : Bool × Cell)
    → find_slot name ts ≡ some x
    → set_slot name c (append_slots ss ts) ≡ append_slots ss (set_slot name c ts)
unfolding append_slots set_slot
set_slot-append name c no_slots ts x e = refl
set_slot-append name c (slot f t b old ss) ts x e =
    rw (append_slots, set_slot, find_slot-append name ss ts x e, set_slot-append name c ss ts x e)

pub find_slot-zero_slots :
    (name : Bytes) (fs : Fields) → NoField name fs → find_slot name (zero_slots fs) ≡ none
unfolding find_slot zero_slots
find_slot-zero_slots name no_fields h = refl
find_slot-zero_slots name (field f t v fs) (n, h) = rw (find_slot-zero_slots name fs h, n)

pub same_kind_refl : (k : IntKind) → same_kind k k ≡ true
unfolding same_kind
same_kind_refl int8 = refl
same_kind_refl uint8 = refl
same_kind_refl int16 = refl
same_kind_refl uint16 = refl
same_kind_refl int32 = refl
same_kind_refl uint32 = refl
same_kind_refl int64 = refl
same_kind_refl uint64 = refl

pub same_type-zero_of : (v : Value) → IsBasic v → same_type (zero_of v) v ≡ true
unfolding same_type zero_of
same_type-zero_of (bool b) i = refl
same_type-zero_of (integer k n) i = same_kind_refl k
same_type-zero_of (string s) i = refl
same_type-zero_of (integers k xs) i = same_kind_refl k
same_type-zero_of (bools bs) i = refl
same_type-zero_of (strings ss) i = refl
same_type-zero_of _ i = absurd i

pub is_empty_value-zero_of :
    (v : Value) → IsBasic v → is_empty_value (some v) ≡ true → zero_of v ≡ v
unfolding is_empty_value zero_of
is_empty_value-zero_of (bool false) i e = refl
is_empty_value-zero_of (bool true) i e = cc
is_empty_value-zero_of (integer k n) i e = ap (integer k) (ground arith)
is_empty_value-zero_of (string []) i e = refl
is_empty_value-zero_of (string (c ∷ s)) i e = cc
is_empty_value-zero_of (integers k []) i e = refl
is_empty_value-zero_of (integers k (x ∷ xs)) i e = cc
is_empty_value-zero_of (bools []) i e = refl
is_empty_value-zero_of (bools (x ∷ xs)) i e = cc
is_empty_value-zero_of (strings []) i e = refl
is_empty_value-zero_of (strings (x ∷ xs)) i e = cc
is_empty_value-zero_of _ i e = absurd i

pub cell_of-basic : (v : Value) → IsBasic v → cell_of v ≡ plain_cell v
unfolding cell_of
cell_of-basic (struct fs) i = absurd i
cell_of-basic v i = refl

pub zero_cell-basic : (v : Value) → IsBasic v → zero_cell v ≡ plain_cell (zero_of v)
unfolding zero_cell
zero_cell-basic (struct fs) i = absurd i
zero_cell-basic v i = refl

pub zero_cell-cell_of : (v : Value) → IsBasic v → zero_of v ≡ v → zero_cell v ≡ cell_of v
zero_cell-cell_of v i e = rw (zero_cell-basic v i, cell_of-basic v i, e)

empty-cell_of : (v : Value) → Survives v → is_empty_value (some v) ≡ true → zero_cell v ≡ cell_of v
unfolding Survives is_empty_value
empty-cell_of (struct fs) i e = cc
empty-cell_of v i e = zero_cell-cell_of v i (is_empty_value-zero_of v i e)

pub leaves_out-cell_of :
    (options : List Bytes) (v : Value)
    → IsWritten options
    → Survives v
    → leaves_out options (some v) ≡ true
    → zero_cell v ≡ cell_of v
unfolding leaves_out
leaves_out-cell_of [] v w i e = cc
leaves_out-cell_of (option ∷ more) v w i e =
    elim (Bool-cases (bytes_eq option (bytes "omitempty"))) [
      | inl o ↦ empty-cell_of v i (rw o at e)
      | inr o ↦ let e : bytes_eq option (bytes "ro") ≡ true = rw o at e in cc
    ]

pub unpack_val-Survives : (v : Value) → Survives v → unpack_val v ≡ some v
unfolding unpack_val unpack_interface Survives
unpack_val-Survives (bool b) i = refl
unpack_val-Survives (integer k n) i = refl
unpack_val-Survives (string s) i = refl
unpack_val-Survives (integers k xs) i = refl
unpack_val-Survives (bools bs) i = refl
unpack_val-Survives (strings ss) i = refl
unpack_val-Survives (struct fs) i = refl
unpack_val-Survives _ i = absurd i

pub append_slots-slot :
    (done : Slots) (f t : Bytes) (e : Bool) (c : Cell) (ss : Slots)
    → append_slots (append_slots done (slot f t e c no_slots)) ss
      ≡ append_slots done (slot f t e c ss)
unfolding append_slots
append_slots-slot no_slots f t e c ss = refl
append_slots-slot (slot g u b d done) f t e c ss =
    ap (slot g u b d) (append_slots-slot done f t e c ss)
