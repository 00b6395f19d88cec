-- ===== src/Decoder/Implements.antt =====
-- nvlist/decode.go: readPairs on the bytes of an nvlist, and Unmarshal on top of it.
use go_zfs.Base.{
  ℕ, zero, suc, ◌+◌, ◌≤◌, ◌≡◌, refl, ap, ◌∙◌, [], ◌∷◌, ◌++◌, Bytes, length, length-append, lt→ltb,
  arith,
}
use go_zfs.Base.Position.{At, At-length}
use go_zfs.Wire.{get, of_low_bytes, low_bytes}
use go_zfs.Result.{ok}
use go_zfs.Value.{Entries}
use go_zfs.Format.{NvList, end, pair, encode_list, encode}
use go_zfs.Decoder.Pairs.{set_if, read_pair, read_pairs, unmarshal}
use go_zfs.Decoder.Reads.{reader}
use go_zfs.Decoder.Reader
use go_zfs.Decoder.Reader.{read_nv_header, new_reader}
use go_zfs.Decoder.Slices.{read_full, copy_loop, byte_at}
use go_zfs.Decoder.Readable.{
  type_of, elements, payload, children, pair_size, ReadableList, value_of, read_into,
}
use go_zfs.Decoder.Header.{next_pair-end, value_at, value_pad}
use go_zfs.Decoder.Frames.{length-pair, pair-Framed}
use go_zfs.Decoder.Values.{ReadsLists, length-encode_list, read_value-Reads}

read_end :
    (f : ℕ) (m : Entries) (whole rest : Bytes) (p : ℕ)
    → At whole p (encode_list end ++ rest)
    → read_pairs (suc f) m (reader whole p) ≡ ok (m, reader whole (p + length (encode_list end)))
unfolding read_pairs encode_list
read_end f m whole rest p a = rw (next_pair-end whole rest p a)

pub read_pairs-ReadsLists : (f : ℕ) → ReadsLists f (read_pairs f)
unfolding ReadsLists read_pairs read_pair read_into ReadableList
read_pairs-ReadsLists zero l m whole rest p h fits a = absurd (omega (arith, length-encode_list l))
read_pairs-ReadsLists (suc f) end m whole rest p h fits a = read_end f m whole rest p a
read_pairs-ReadsLists (suc f) (pair name v l) m whole rest p (small, sized, hv, hl) fits a =
    let size = pair_size name v in
    let tail = encode_list l ++ rest in
    let long = length-pair name v l sized in
    let k = pair-Framed name v l whole rest p (small, sized, hv, hl) a in
    let at_value =
      value_at whole name (payload v) (children v ++ tail) p (elements v) (type_of v) in
    let q = p + size + length (children v) in
    rw
      (
        k.next,
        k.header,
        read_value-Reads f (read_pairs f) (read_pairs-ReadsLists f) m name whole
            (value_pad name (payload v)) (children v ++ tail) tail (p + 4) p size at_value
            (p + size) v hv (omega (arith, long)) k.value k.at_children,
        read_pairs-ReadsLists f l (set_if m name (value_of v)) whole rest q hl (omega (arith, long))
            k.at_tail,
      )
      (ap (λ k. ok (read_into m (pair name v l), reader whole k)) (omega (arith, long)))

module _ (whole tail : Bytes)
    (e : whole ≡ 0 ∷ 1 ∷ 0 ∷ 0 ∷ 0 ∷ 0 ∷ 0 ∷ 0 ∷ 1 ∷ 0 ∷ 0 ∷ 0 ∷ tail) where
  encoding-byte : byte_at whole 0 ≡ ok 0
  unfolding byte_at
  encoding-byte = ap (λ w. byte_at w 0) e

  endianness-byte : byte_at whole 1 ≡ ok 1
  unfolding byte_at
  endianness-byte = ap (λ w. byte_at w 1) e

  version-bytes : copy_loop 4 whole 4 ≡ ok (0 ∷ 0 ∷ 0 ∷ 0 ∷ [])
  unfolding copy_loop byte_at
  version-bytes = ap (λ w. copy_loop 4 w 4) e

  flags-bytes : copy_loop 4 whole 8 ≡ ok (1 ∷ 0 ∷ 0 ∷ 0 ∷ [])
  unfolding copy_loop byte_at
  flags-bytes = ap (λ w. copy_loop 4 w 8) e

  -- The header in front of the bytes of the pairs.
  pub read_nv_header-header :
      4 ≤ length tail → read_nv_header (new_reader whole) ≡ ok (reader whole 12)
  unfolding read_nv_header Reader.read_byte Reader.set_encoding Reader.set_endianness Reader.skip_n
      Reader.read_int Reader.read read_full get of_low_bytes
  read_nv_header-header h =
      let n : length whole ≡ 12 + length tail = ap length e ∙ omega arith in
      rw (
        lt→ltb 0 (length whole) (omega arith),
        encoding-byte,
        lt→ltb 1 (length whole) (omega arith),
        endianness-byte,
        lt→ltb 8 (length whole) (omega arith),
        version-bytes,
        lt→ltb 12 (length whole) (omega arith),
        flags-bytes,
      )

abbrev pub header_front : Bytes
header_front = 0 ∷ 1 ∷ 0 ∷ 0 ∷ 0 ∷ 0 ∷ 0 ∷ 0 ∷ 1 ∷ 0 ∷ 0 ∷ 0 ∷ []

-- Every nvlist that fits the fields of its pairs' headers is read back from the bytes that the wire
-- format gives it, whatever follows them: Unmarshal succeeds, and sets each pair in the map in turn.
pub unmarshal-encode :
    (l : NvList) (rest : Bytes) (m : Entries)
    → ReadableList l
    → unmarshal (encode l ++ rest) m ≡ ok (read_into m l)
unfolding unmarshal encode low_bytes ReadsLists
unmarshal-encode l rest m h =
    let whole = encode l ++ rest in
    let tail = encode_list l ++ rest in
    let a : At whole 12 tail = record { front = header_front; splits = refl; lies = refl } in
    let n = length-append (encode_list l) rest in
    let enough : length (encode_list l) ≤ suc (length whole) = omega (arith, At-length tail a, n) in
    rw (
      read_nv_header-header whole tail refl (omega (arith, n, length-encode_list l)),
      read_pairs-ReadsLists (suc (length whole)) l m whole rest 12 h enough a,
    )
