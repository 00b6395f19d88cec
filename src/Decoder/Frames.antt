-- ===== src/Decoder/Frames.antt =====
-- nvlist/decode.go: a pair of an nvlist within the input, and what readPairs makes of its header.
use go_zfs.Base.{
  some, ℕ, ◌+◌, ◌^◌, ◌≤◌, ◌<◌, ◌≡◌, refl, ap, ◌∙◌, ◌++◌, Bytes, length, append_assoc, length-append,
  arith,
}
use go_zfs.Base.Position.{At, At-advance, At-length}
use go_zfs.Wire.{low_bytes, length-low_bytes}
use go_zfs.Result.{ok}
use go_zfs.Format.{NvValue, NvList, pair, encode_list}
use go_zfs.Decoder.Pairs.{read_pair_header, next_pair}
use go_zfs.Decoder.Reads.{reader}
use go_zfs.Decoder.InPair.{here, Left}
use go_zfs.Decoder.Readable.{type_of, elements, payload, children, pair_size, ReadableList}
use go_zfs.Decoder.Header.{
  pair_at, next_pair-At, length-behind_size, value_at, value-Left, value_pad, read_pair_header-Left,
}
use go_zfs.Decoder.Types.{type_of-HasCode, elements-Readable}
use go_zfs.Decoder.Values.{behind, encode_list-pair, length-encode_list}

four_and_more : (a b c d e : Bytes) → (a ++ (b ++ (c ++ d))) ++ e ≡ a ++ (b ++ (c ++ (d ++ e)))
four_and_more a b c d e = rw (append_assoc, append_assoc, append_assoc)

pub length-pair :
    (name : Bytes) (v : NvValue) (l : NvList)
    → pair_size name v < 2 ^ 31
    → length (encode_list (pair name v l))
      ≡ pair_size name v + length (children v) + length (encode_list l)
length-pair name v l h =
    let size = pair_size name v in
    ap length (encode_list-pair name v l h)
    ∙ omega (
      arith,
      length-append (low_bytes 4 size) (behind name v ++ (children v ++ encode_list l)),
      length-append (behind name v) (children v ++ encode_list l),
      length-append (children v) (encode_list l),
      length-low_bytes 4 size,
      length-behind_size name (payload v) (elements v) (type_of v),
    )

-- At `p` stands the pair, and behind it the other pairs and `rest`.
pub record Framed (whole : Bytes) (p : ℕ) (name : Bytes) (v : NvValue) (tail : Bytes) : Type 0 where
  pub next :
      next_pair (reader whole p)
      ≡ ok (
        some (here whole (p + 4) p (pair_size name v) (p + 4)),
        reader whole (p + pair_size name v),
      )
  pub header :
      read_pair_header (here whole (p + 4) p (pair_size name v) (p + 4))
      ≡ ok (
          pair_at whole name
            (payload v)
            (children v ++ tail)
            p
            (elements v)
            (type_of v)
            (pair_size name v)
            (value_at whole name (payload v) (children v ++ tail) p (elements v) (type_of v)))
  pub value :
      Left whole p
        (pair_size name v)
        (value_at whole name (payload v) (children v ++ tail) p (elements v) (type_of v))
        (payload v ++ value_pad name (payload v))
        (children v ++ tail)
  pub at_children : At whole (p + pair_size name v) (children v ++ tail)
  pub at_tail : At whole (p + pair_size name v + length (children v)) tail

pub pair-Framed :
    (name : Bytes) (v : NvValue) (l : NvList) (whole rest : Bytes) (p : ℕ)
    → ReadableList (pair name v l)
    → At whole p (encode_list (pair name v l) ++ rest)
    → Framed whole p name v (encode_list l ++ rest)
unfolding ReadableList
pair-Framed name v l whole rest p (small, sized, hv, hl) a =
    let size = pair_size name v in
    let b = behind name v in
    let t = type_of v in
    let tail = encode_list l ++ rest in
    let a0 : At whole p (low_bytes 4 size ++ (b ++ (children v ++ tail))) =
      rw
        (
          encode_list-pair name v l sized,
          four_and_more (low_bytes 4 size) b (children v) (encode_list l) rest,
        )
        at a in
    let n = length-behind_size name (payload v) (elements v) t in
    let a1 =
      At-advance {q = p + 4} (low_bytes 4 size) (b ++ (children v ++ tail)) a0
        (omega (arith, length-low_bytes 4 size)) in
    let a2 = At-advance {q = p + size} b (children v ++ tail) a1 (omega (arith, n)) in
    let q = p + size + length (children v) in
    let a3 = At-advance {q = q} (children v) tail a2 refl in
    let left : Left whole p size (p + 4) b (children v ++ tail) = record {
      stands = a1;
      ends = omega (arith, n);
    } in
    let total : size + (p + 4) ≤ length whole =
      omega (arith, At-length tail a3, length-append (encode_list l) rest, length-encode_list l) in
    record {
      next = next_pair-At whole (b ++ (children v ++ tail)) p size a0 (omega arith) sized total;
      header =
          read_pair_header-Left whole name (payload v) (children v ++ tail) p (elements v) t size
            left small (elements-Readable v hv) (type_of-HasCode v).small
            (type_of-HasCode v).survives;
      value = value-Left whole name (payload v) (children v ++ tail) p (elements v) t size left;
      at_children = a2;
      at_tail = a3;
    }
