-- ===== src/Decoder/Safety/Values.antt =====
-- nvlist/decode.go: reading one pair, whatever its bytes are.
use go_zfs.Base.{ℕ, zero, suc, ◌^◌, Bool, true, false, if◌then◌else◌, ltb, leb, ◌==◌, ◌||◌}
use go_zfs.Result.{Result, Ensures, holds, refused, Ensures-bind, Ensures-if}
use go_zfs.Consts
use go_zfs.Consts.{NvType, IntKind, width}
use go_zfs.Decoder.PairReader.{PairReader}
use go_zfs.Decoder.PairReader
use go_zfs.Decoder.Pairs.{
  read_pair_header, read_integer, read_integers, bool_of, read_bool, read_bools, read_string,
  read_strings, read_primitive,
}
use go_zfs.Decoder.Safety.Accesses.{
  Inside, Inside-at, Stays, read_byte-Stays, read_bytes-Stays, read_n-Stays, read_in-Stays,
  read_int-Stays,
}

-- No fault and no want of fuel.
abbrev pub Ends {ℓ} : {A : Type ℓ} → Result A → Type ℓ
Ends = Ensures (λ _. Unit {0})

Inside-if :
    (b : Bool) (p : PairReader) (i : ℕ)
    → Inside p
    → Inside (if b then p else record p { current_byte = i })
Inside-if true p i h = h
Inside-if false p i h = Inside-at p i h

skip_to_align-Inside : (p : PairReader) → Inside p → Inside (PairReader.skip_to_align p)
unfolding PairReader.skip_to_align
skip_to_align-Inside p h = Inside-if _ p _ h

pub read_pair_header-Inside :
    (p : PairReader) → Inside p → Ensures (λ pair. Inside pair.reader) (read_pair_header p)
unfolding read_pair_header
read_pair_header-Inside p h = Ensures-bind (read_int-Stays 2 p h) λ (name_sz, p) h.
    Ensures-if (name_sz == 0 || leb (2 ^ 15) name_sz) (λ _. refused)
      λ _. Ensures-bind (read_int-Stays 2 p h) λ (reserve, p) h.
        Ensures-bind (read_int-Stays 4 p h) λ (value_elem, p) h.
          Ensures-if (leb (2 ^ 31) value_elem) (λ _. refused)
            λ _.
              Ensures-if (ltb 65535 value_elem) (λ _. refused)
                λ _. Ensures-bind (read_int-Stays 4 p h) λ (type, p) h.
                  Ensures-bind (read_n-Stays name_sz p h)
                    λ (name_raw, p) h. holds (skip_to_align-Inside p h.0)

read_integer-Ends : (k : IntKind) (p : PairReader) → Inside p → Ends (read_integer k p)
unfolding read_integer
read_integer-Ends k p h = Ensures-bind (read_int-Stays (width k) p h) λ _ _. holds tt

read_integers-Ends : (k : IntKind) (n : ℕ) (p : PairReader) → Inside p → Ends (read_integers k n p)
unfolding read_integers
read_integers-Ends k n p h = Ensures-bind (read_in-Stays _ _ p h) λ _ _. holds tt

bool_of-Ends : (n : ℕ) → Ends (bool_of n)
unfolding bool_of
bool_of-Ends n =
    Ensures-if (n == 0) (λ _. holds tt) λ _. Ensures-if (n == 1) (λ _. holds tt) λ _. refused

read_bool-Stays : (p : PairReader) → Inside p → Ensures Stays (read_bool p)
unfolding read_bool
read_bool-Stays p h =
    Ensures-bind (read_int-Stays 4 p h) λ (tmp, p) h. Ensures-bind (bool_of-Ends tmp) λ _ _. holds h

read_bools-Ends : (n : ℕ) (p : PairReader) → Inside p → Ends (read_bools n p)
unfolding read_bools
read_bools-Ends zero p h = holds tt
read_bools-Ends (suc n) p h =
    Ensures-bind (read_bool-Stays p h)
      λ (b, p) h. Ensures-bind (read_bools-Ends n p h) λ _ _. holds tt

read_string-Stays : (p : PairReader) → Inside p → Ensures Stays (read_string p)
unfolding read_string
read_string-Stays p h = Ensures-bind (read_bytes-Stays 0 p h) λ _ h. holds h

read_strings-Ends : (n : ℕ) (p : PairReader) → Inside p → Ends (read_strings n p)
unfolding read_strings
read_strings-Ends zero p h = holds tt
read_strings-Ends (suc n) p h =
    Ensures-bind (read_string-Stays p h)
      λ (b, p) h. Ensures-bind (read_strings-Ends n p h) λ _ _. holds tt

-- `setPrimitive` gets a value, or the pair is refused, for each type code.
pub read_primitive-Ends :
    (t : NvType) (n : ℕ) (p : PairReader) → Inside p → Ends (read_primitive t n p)
unfolding read_primitive PairReader.skip_n
read_primitive-Ends NvType.type_unknown n p h = refused
read_primitive-Ends NvType.type_byte n p h = Ensures-bind (read_byte-Stays p h) λ _ _. holds tt
read_primitive-Ends NvType.type_string n p h = Ensures-bind (read_string-Stays p h) λ _ _. holds tt
read_primitive-Ends NvType.type_boolean_value n p h =
    Ensures-bind (read_bool-Stays p h) λ _ _. holds tt
read_primitive-Ends NvType.type_byte_array n p h = Ensures-bind (read_n-Stays n p h) λ _ _. holds tt
read_primitive-Ends NvType.type_string_array n p h =
    Ensures-bind (read_strings-Ends n _ (Inside-at p _ h)) λ _ _. holds tt
read_primitive-Ends NvType.type_boolean_array n p h =
    Ensures-bind (read_bools-Ends n p h) λ _ _. holds tt
read_primitive-Ends NvType.type_int8 n p h =
    Ensures-bind (read_integer-Ends Consts.int8 p h) λ _ _. holds tt
read_primitive-Ends NvType.type_uint8 n p h =
    Ensures-bind (read_integer-Ends Consts.uint8 p h) λ _ _. holds tt
read_primitive-Ends NvType.type_int16 n p h =
    Ensures-bind (read_integer-Ends Consts.int16 p h) λ _ _. holds tt
read_primitive-Ends NvType.type_uint16 n p h =
    Ensures-bind (read_integer-Ends Consts.uint16 p h) λ _ _. holds tt
read_primitive-Ends NvType.type_int32 n p h =
    Ensures-bind (read_integer-Ends Consts.int32 p h) λ _ _. holds tt
read_primitive-Ends NvType.type_uint32 n p h =
    Ensures-bind (read_integer-Ends Consts.uint32 p h) λ _ _. holds tt
read_primitive-Ends NvType.type_int64 n p h =
    Ensures-bind (read_integer-Ends Consts.int64 p h) λ _ _. holds tt
read_primitive-Ends NvType.type_uint64 n p h =
    Ensures-bind (read_integer-Ends Consts.uint64 p h) λ _ _. holds tt
read_primitive-Ends NvType.type_int8_array n p h =
    Ensures-bind (read_integers-Ends Consts.int8 n p h) λ _ _. holds tt
read_primitive-Ends NvType.type_uint8_array n p h =
    Ensures-bind (read_integers-Ends Consts.uint8 n p h) λ _ _. holds tt
read_primitive-Ends NvType.type_int16_array n p h =
    Ensures-bind (read_integers-Ends Consts.int16 n p h) λ _ _. holds tt
read_primitive-Ends NvType.type_uint16_array n p h =
    Ensures-bind (read_integers-Ends Consts.uint16 n p h) λ _ _. holds tt
read_primitive-Ends NvType.type_int32_array n p h =
    Ensures-bind (read_integers-Ends Consts.int32 n p h) λ _ _. holds tt
read_primitive-Ends NvType.type_uint32_array n p h =
    Ensures-bind (read_integers-Ends Consts.uint32 n p h) λ _ _. holds tt
read_primitive-Ends NvType.type_int64_array n p h =
    Ensures-bind (read_integers-Ends Consts.int64 n p h) λ _ _. holds tt
read_primitive-Ends NvType.type_uint64_array n p h =
    Ensures-bind (read_integers-Ends Consts.uint64 n p h) λ _ _. holds tt
read_primitive-Ends _ n p h = holds tt
