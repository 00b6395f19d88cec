-- ===== src/Decoder/Values.antt =====
-- nvlist/decode.go: the bytes of a pair within those of a list, and the value of a pair with the lists
-- that belong to it.
use native.Mathlib.Nat.{add-zero}
use go_zfs.Base.{
  ℕ, ◌+◌, ◌^◌, ◌≤◌, ◌<◌, ◌≡◌, refl, ap, ◌++◌, Bytes, length, append_assoc, length-append, arith,
}
use go_zfs.Base.Position.{At, At-advance}
use go_zfs.Wire.{low_bytes}
use go_zfs.Result.{ok}
use go_zfs.Value.{Entries, no_entries}
use go_zfs.Format.{
  NvValue, NvList, NvLists, flag, number, double, text, numbers, flags, texts, list, lists, end,
  pair, no_lists, list_and, lists_length, encode_value, encode_list, encode_lists,
}
use go_zfs.Decoder.Pairs.{Loop, set_if, set_primitive, read_maps, read_plain, read_value}
use go_zfs.Decoder.Reads.{reader}
use go_zfs.Decoder.InPair.{Left, here}
use go_zfs.Decoder.Readable.{
  type_of, elements, payload, children, encode_value-parts, pair_size, Readable, ReadableList,
  ReadableLists, value_of, read_into, values_of,
}
use go_zfs.Decoder.Primitives.{IsPlain, read_primitive-payload}
use go_zfs.Decoder.Header.{behind_size, pair_bytes-size}
use go_zfs.Decoder.Types.{read_value-read_plain}

-- Fuel for `f` bytes is enough for every list of at most `f` bytes.
unfoldable pub ReadsLists : ℕ → Loop → Type 0
ReadsLists f rec =
    (l : NvList) (m : Entries) (whole rest : Bytes) (p : ℕ)
    → ReadableList l
    → length (encode_list l) ≤ f
    → At whole p (encode_list l ++ rest)
    → rec m (reader whole p) ≡ ok (read_into m l, reader whole (p + length (encode_list l)))

abbrev pub behind : Bytes → NvValue → Bytes
behind name v = behind_size name (payload v) (elements v) (type_of v)

-- The size of the pair, the rest of it, the lists that belong to it, and the other pairs.
pub encode_list-pair :
    (name : Bytes) (v : NvValue) (l : NvList)
    → pair_size name v < 2 ^ 31
    → encode_list (pair name v l)
      ≡ low_bytes 4 (pair_size name v) ++ (behind name v ++ (children v ++ encode_list l))
unfolding encode_list
encode_list-pair name v l h =
    rw (encode_value-parts name v, pair_bytes-size name (payload v) (elements v) (type_of v) h)
      (rw (append_assoc, append_assoc, append_assoc))

pub length-encode_list : (l : NvList) → 4 ≤ length (encode_list l)
unfolding encode_list
length-encode_list end = omega arith
length-encode_list (pair name v l) =
    omega (arith, length-append (encode_value name v) (encode_list l), length-encode_list l)

module _ (f : ℕ) (rec : Loop) (ih : ReadsLists f rec) where
  pub read_maps-lists :
      (ls : NvLists) (whole rest : Bytes) (p : ℕ)
      → ReadableLists ls
      → length (encode_lists ls) ≤ f
      → At whole p (encode_lists ls ++ rest)
      → read_maps rec (lists_length ls) (reader whole p)
        ≡ ok (values_of ls, reader whole (p + length (encode_lists ls)))
  unfolding read_maps lists_length encode_lists values_of ReadableLists ReadsLists
  read_maps-lists no_lists whole rest p h fits a = rw add-zero
  read_maps-lists (list_and l ls) whole rest p (hl, hs) fits a =
      let a' : At whole p (encode_list l ++ (encode_lists ls ++ rest)) = rw append_assoc at a in
      let q = p + length (encode_list l) in
      let n = length-append (encode_list l) (encode_lists ls) in
      rw
        (
          ih l no_entries whole (encode_lists ls ++ rest) p hl (omega (arith, n)) a',
          read_maps-lists ls whole rest q hs (omega (arith, n))
              (At-advance (encode_list l) (encode_lists ls ++ rest) a' refl),
        )
        (ap (λ k. ok (values_of (list_and l ls), reader whole k)) (omega (arith, n)))

  module _ (m : Entries) (name whole ys rest behind : Bytes) (at start size p q : ℕ) where
    read_plain-eq :
        (v : NvValue)
        → IsPlain v
        → Readable v
        → Left whole start size p (payload v ++ ys) rest
        → read_value rec m
            (reader whole q)
            name
            (type_of v)
            (elements v)
            (here whole at start size p)
          ≡ ok (set_if m name (value_of v), reader whole (q + 0))
    unfolding read_plain
    read_plain-eq v i h l = rw (
      read_value-read_plain rec m (reader whole q) name (elements v) (here whole at start size p) v
          i,
      read_primitive-payload whole at start size p ys rest v i l h,
      add-zero,
    )

    pub read_value-Reads :
        (v : NvValue)
        → Readable v
        → length (children v) ≤ f
        → Left whole start size p (payload v ++ ys) rest
        → At whole q (children v ++ behind)
        → read_value rec m
            (reader whole q)
            name
            (type_of v)
            (elements v)
            (here whole at start size p)
          ≡ ok (set_if m name (value_of v), reader whole (q + length (children v)))
    unfolding children read_value type_of elements value_of Readable ReadsLists set_primitive
        encode_list
    read_value-Reads (list sub) h fits l a = rw (ih sub no_entries whole behind q h fits a)
    read_value-Reads (lists ls) h fits l a = rw (read_maps-lists ls whole behind q h.1 fits a)
    read_value-Reads flag h fits l a = read_plain-eq flag tt h l
    read_value-Reads (number k n) h fits l a = read_plain-eq (number k n) tt h l
    read_value-Reads (double n) h fits l a = read_plain-eq (double n) tt h l
    read_value-Reads (text s) h fits l a = read_plain-eq (text s) tt h l
    read_value-Reads (numbers k xs) h fits l a = read_plain-eq (numbers k xs) tt h l
    read_value-Reads (flags bs) h fits l a = read_plain-eq (flags bs) tt h l
    read_value-Reads (texts ss) h fits l a = read_plain-eq (texts ss) tt h l
