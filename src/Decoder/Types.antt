-- ===== src/Decoder/Types.antt =====
-- nvlist/decode.go: the type of a pair, read back from its code, and the case that it selects.
use go_zfs.Base.{ℕ, ◌^◌, ◌≤◌, ◌<◌, ◌≡◌, refl, Bytes, arith}
use go_zfs.Consts.{
  IntKind, int8, uint8, int16, uint16, int32, uint32, int64, uint64, int_kind, NvType, nvtype_code,
  nvtype_of, nvtype_from_kind, nvtype_from_array_kind,
}
use go_zfs.Value.{Entries}
use go_zfs.Format.{NvValue, flag, number, double, text, numbers, flags, texts, list, lists}
use go_zfs.Decoder.Reader.{Reader}
use go_zfs.Decoder.PairReader.{PairReader}
use go_zfs.Decoder.Pairs.{Loop, read_value, read_plain}
use go_zfs.Decoder.Readable.{type_of, elements, Readable}
use go_zfs.Decoder.Primitives.{IsPlain}

-- The code of the type fits its four bytes and stands for the type again.
pub record HasCode (t : NvType) : Type 0 where
  pub survives : nvtype_of (nvtype_code t) ≡ t
  pub small : nvtype_code t < 2 ^ 32

kind-HasCode : (k : IntKind) → HasCode (nvtype_from_kind (int_kind k))
unfolding nvtype_from_kind nvtype_of
kind-HasCode int8 = record { survives = refl; small = omega arith }
kind-HasCode uint8 = record { survives = refl; small = omega arith }
kind-HasCode int16 = record { survives = refl; small = omega arith }
kind-HasCode uint16 = record { survives = refl; small = omega arith }
kind-HasCode int32 = record { survives = refl; small = omega arith }
kind-HasCode uint32 = record { survives = refl; small = omega arith }
kind-HasCode int64 = record { survives = refl; small = omega arith }
kind-HasCode uint64 = record { survives = refl; small = omega arith }

array_kind-HasCode : (k : IntKind) → HasCode (nvtype_from_array_kind (int_kind k))
unfolding nvtype_from_array_kind nvtype_of
array_kind-HasCode int8 = record { survives = refl; small = omega arith }
array_kind-HasCode uint8 = record { survives = refl; small = omega arith }
array_kind-HasCode int16 = record { survives = refl; small = omega arith }
array_kind-HasCode uint16 = record { survives = refl; small = omega arith }
array_kind-HasCode int32 = record { survives = refl; small = omega arith }
array_kind-HasCode uint32 = record { survives = refl; small = omega arith }
array_kind-HasCode int64 = record { survives = refl; small = omega arith }
array_kind-HasCode uint64 = record { survives = refl; small = omega arith }

pub type_of-HasCode : (v : NvValue) → HasCode (type_of v)
unfolding type_of nvtype_of
type_of-HasCode flag = record { survives = refl; small = omega arith }
type_of-HasCode (number k n) = kind-HasCode k
type_of-HasCode (double n) = record { survives = refl; small = omega arith }
type_of-HasCode (text s) = record { survives = refl; small = omega arith }
type_of-HasCode (numbers k xs) = array_kind-HasCode k
type_of-HasCode (flags bs) = record { survives = refl; small = omega arith }
type_of-HasCode (texts ss) = record { survives = refl; small = omega arith }
type_of-HasCode (list l) = record { survives = refl; small = omega arith }
type_of-HasCode (lists ls) = record { survives = refl; small = omega arith }

pub elements-Readable : (v : NvValue) → Readable v → elements v ≤ 65535
unfolding elements Readable
elements-Readable flag h = omega arith
elements-Readable (number k n) h = omega arith
elements-Readable (double n) h = omega arith
elements-Readable (text s) h = omega arith
elements-Readable (numbers k xs) (h, _) = h
elements-Readable (flags bs) h = h
elements-Readable (texts ss) (h, _) = h
elements-Readable (list l) h = omega arith
elements-Readable (lists ls) (h, _) = h

module _ (rec : Loop) (m : Entries) (r : Reader) (name : Bytes) (n : ℕ) (p : PairReader) where
  -- The type is neither that of an nvlist nor that of an array of them.
  abbrev GoesPlain : NvType → Type 0
  GoesPlain t = read_value rec m r name t n p ≡ read_plain m r name t n p

  kind-GoesPlain : (k : IntKind) → GoesPlain (nvtype_from_kind (int_kind k))
  unfolding read_value nvtype_from_kind
  kind-GoesPlain int8 = refl
  kind-GoesPlain uint8 = refl
  kind-GoesPlain int16 = refl
  kind-GoesPlain uint16 = refl
  kind-GoesPlain int32 = refl
  kind-GoesPlain uint32 = refl
  kind-GoesPlain int64 = refl
  kind-GoesPlain uint64 = refl

  array_kind-GoesPlain : (k : IntKind) → GoesPlain (nvtype_from_array_kind (int_kind k))
  unfolding read_value nvtype_from_array_kind
  array_kind-GoesPlain int8 = refl
  array_kind-GoesPlain uint8 = refl
  array_kind-GoesPlain int16 = refl
  array_kind-GoesPlain uint16 = refl
  array_kind-GoesPlain int32 = refl
  array_kind-GoesPlain uint32 = refl
  array_kind-GoesPlain int64 = refl
  array_kind-GoesPlain uint64 = refl

  pub read_value-read_plain :
      (v : NvValue)
      → IsPlain v
      → read_value rec m r name (type_of v) n p ≡ read_plain m r name (type_of v) n p
  unfolding read_value type_of
  read_value-read_plain flag i = refl
  read_value-read_plain (number k x) i = kind-GoesPlain k
  read_value-read_plain (double x) i = refl
  read_value-read_plain (text s) i = refl
  read_value-read_plain (numbers k xs) i = array_kind-GoesPlain k
  read_value-read_plain (flags bs) i = refl
  read_value-read_plain (texts ss) i = refl
  read_value-read_plain (list l) i = absurd i
  read_value-read_plain (lists ls) i = absurd i
