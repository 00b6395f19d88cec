-- ===== src/Decoder/Primitives.antt =====
-- nvlist/decode.go: the cases of the switch on the type of a pair, each on the bytes of its value.
use go_zfs.Base.{
  ℕ, ◌+◌, ◌*◌, ◌%◌, ◌^◌, ◌<◌, ◌≡◌, refl, List, ◌∷◌, ◌++◌, some, Bytes, length, All, append_assoc,
  length-replicate, arith,
}
use go_zfs.Wire.{low_bytes}
use go_zfs.Result.{ok}
use go_zfs.Consts.{
  IntKind, int8, uint8, int16, uint16, int32, uint32, int64, uint64, width, nvtype_from_kind,
  nvtype_from_array_kind, int_kind, type_string_array,
}
use go_zfs.Value.{integer, integers, strings}
use go_zfs.Encoder.Encodable.{NulFree}
use go_zfs.Format.{
  NvValue, flag, number, double, text, numbers, flags, texts, list, lists, encode_ints,
  encode_texts, zeros,
}
use go_zfs.Decoder.PairReader.{skip_n}
use go_zfs.Decoder.Pairs.{read_primitive}
use go_zfs.Decoder.InPair.{Left, Left-advance, here, read_n-Left, read_string-Left}
use go_zfs.Decoder.Readable.{type_of, elements, payload, Readable, value_of}
use go_zfs.Decoder.Payloads.{
  encode_ints-bytes, read_byte-Left, read_integer-Left, read_integers-Left, read_bools-Left,
  read_strings-Left,
}

abbrev pub IsPlain : NvValue → Type 0
IsPlain (list l) = ⊥
IsPlain (lists ls) = ⊥
IsPlain _ = Unit {0}

module _ (whole : Bytes) (at start size p : ℕ) (ys rest : Bytes) where
  read_number :
      (k : IntKind) (n : ℕ)
      → Left whole start size p (low_bytes (width k) n ++ ys) rest
      → n < 256 ^ width k
      → read_primitive (nvtype_from_kind (int_kind k)) 1 (here whole at start size p)
        ≡ ok (some (integer k n))
  unfolding read_primitive nvtype_from_kind low_bytes
  read_number uint8 n l h =
      let e : n % 256 ≡ n = omega arith in
      let l' : Left whole start size p (n ∷ ys) rest = rw (← e) l in
      rw (read_byte-Left whole at start size p n ys rest l')
  read_number int8 n l h = rw (read_integer-Left whole at start size int8 n p ys rest l h)
  read_number int16 n l h = rw (read_integer-Left whole at start size int16 n p ys rest l h)
  read_number uint16 n l h = rw (read_integer-Left whole at start size uint16 n p ys rest l h)
  read_number int32 n l h = rw (read_integer-Left whole at start size int32 n p ys rest l h)
  read_number uint32 n l h = rw (read_integer-Left whole at start size uint32 n p ys rest l h)
  read_number int64 n l h = rw (read_integer-Left whole at start size int64 n p ys rest l h)
  read_number uint64 n l h = rw (read_integer-Left whole at start size uint64 n p ys rest l h)

  read_numbers :
      (k : IntKind) (xs : List ℕ)
      → Left whole start size p (encode_ints (width k) xs ++ ys) rest
      → All (λ x. x < 256 ^ width k) xs
      → read_primitive
          (nvtype_from_array_kind (int_kind k))
          (length xs)
          (here whole at start size p)
        ≡ ok (some (integers k xs))
  unfolding read_primitive nvtype_from_array_kind
  read_numbers uint8 xs l h =
      let l' : Left whole start size p (xs ++ ys) rest = rw (encode_ints-bytes xs h) at l in
      rw (read_n-Left whole at start size p (length xs) xs ys rest l' refl)
  read_numbers int8 xs l h = rw (read_integers-Left whole at start size int8 xs p ys rest l h)
  read_numbers int16 xs l h = rw (read_integers-Left whole at start size int16 xs p ys rest l h)
  read_numbers uint16 xs l h = rw (read_integers-Left whole at start size uint16 xs p ys rest l h)
  read_numbers int32 xs l h = rw (read_integers-Left whole at start size int32 xs p ys rest l h)
  read_numbers uint32 xs l h = rw (read_integers-Left whole at start size uint32 xs p ys rest l h)
  read_numbers int64 xs l h = rw (read_integers-Left whole at start size int64 xs p ys rest l h)
  read_numbers uint64 xs l h = rw (read_integers-Left whole at start size uint64 xs p ys rest l h)

  read_texts :
      (ss : List Bytes)
      → Left whole start size p ((zeros (8 * length ss) ++ encode_texts ss) ++ ys) rest
      → All NulFree ss
      → read_primitive type_string_array (length ss) (here whole at start size p)
        ≡ ok (some (strings ss))
  unfolding read_primitive skip_n
  read_texts ss l h =
      let n = 8 * length ss in
      let l' : Left whole start size p (zeros n ++ (encode_texts ss ++ ys)) rest =
        rw append_assoc at l in
      let after =
        Left-advance (p + n) (zeros n) (encode_texts ss ++ ys) rest l'
          (omega (arith, length-replicate {A = ℕ} n 0)) in
      rw (read_strings-Left whole at start size ss (p + n) ys rest after h)

  pub read_primitive-payload :
      (v : NvValue)
      → IsPlain v
      → Left whole start size p (payload v ++ ys) rest
      → Readable v
      → read_primitive (type_of v) (elements v) (here whole at start size p) ≡ ok (value_of v)
  unfolding payload Readable type_of elements value_of read_primitive
  read_primitive-payload flag i l h = refl
  read_primitive-payload (double n) i l h = refl
  read_primitive-payload (number k n) i l h = read_number k n l h
  read_primitive-payload (numbers k xs) i l (_, h) = read_numbers k xs l h
  read_primitive-payload (text s) i l h = rw (read_string-Left s ys rest whole at start size p h l)
  read_primitive-payload (flags bs) i l h = rw (read_bools-Left whole at start size bs p ys rest l)
  read_primitive-payload (texts ss) i l (_, h) = read_texts ss l h
  read_primitive-payload (list _) i l h = absurd i
  read_primitive-payload (lists _) i l h = absurd i
