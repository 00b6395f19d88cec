-- ===== src/Decoder/Fill/Rounds.antt =====
-- nvlist/decode.go: the loop over pairs of a struct or of a typed map, on the bytes of an nvlist.
use native.Mathlib.Nat.{add-zero}
use go_zfs.Base.{ℕ, zero, suc, ◌+◌, ◌≤◌, ◌≡◌, refl, ap, ◌∙◌, ◌++◌, Bytes, length, arith}
use go_zfs.Base.Position.{At}
use go_zfs.Result.{Result, ok, err, panic, out_of_fuel, ◌>>=◌, IfOk}
use go_zfs.Consts.{
  IntKind, int8, uint8, int16, uint16, int32, uint32, int64, uint64, int_kind, NvType,
  nvtype_from_kind, nvtype_from_array_kind,
}
use go_zfs.Value.{Values, nvlists}
use go_zfs.Format.{
  NvValue, NvList, flag, number, double, text, numbers, flags, texts, list, lists, end, pair,
  encode_list, encode_lists, lists_length,
}
use go_zfs.Decoder.Reader.{Reader}
use go_zfs.Decoder.PairReader.{PairReader}
use go_zfs.Decoder.Pairs.{Loop, read_pairs, read_maps}
use go_zfs.Decoder.Cells.{Composite, in_map, in_struct, assign, set_entry}
use go_zfs.Decoder.Targets.{
  CompositeLoop, read_simple, read_value_in, read_nested_array, read_pair_in, read_composite,
}
use go_zfs.Decoder.Reads.{reader}
use go_zfs.Decoder.InPair.{here, Left}
use go_zfs.Decoder.Header.{next_pair-end, value_at, value_pad}
use go_zfs.Decoder.Readable.{
  type_of, elements, payload, children, pair_size, Readable, ReadableList, values_of, read_into,
}
use go_zfs.Decoder.Primitives.{IsPlain, read_primitive-payload}
use go_zfs.Decoder.Values.{ReadsLists, length-encode_list, read_maps-lists}
use go_zfs.Decoder.Implements.{read_pairs-ReadsLists}
use go_zfs.Decoder.Frames.{length-pair, pair-Framed}
use go_zfs.Decoder.Fill.Into.{fill, fill_value, fill_array, fill_value-plain, Settled, SettledValue}
use go_zfs.Decoder.Fill.Elements.{with_reader, with_reader-bind, read_nested-fill_nested}

module _ (plain : Loop) (loop : CompositeLoop) (comp : Composite) (r : Reader) (name : Bytes)
    (n : ℕ) (p : PairReader) where
  abbrev GoesSimple : NvType → Type 0
  GoesSimple t = read_value_in plain loop comp r name t n p ≡ read_simple comp r name t n p

  kind-GoesSimple : (k : IntKind) → GoesSimple (nvtype_from_kind (int_kind k))
  unfolding read_value_in nvtype_from_kind
  kind-GoesSimple int8 = refl
  kind-GoesSimple uint8 = refl
  kind-GoesSimple int16 = refl
  kind-GoesSimple uint16 = refl
  kind-GoesSimple int32 = refl
  kind-GoesSimple uint32 = refl
  kind-GoesSimple int64 = refl
  kind-GoesSimple uint64 = refl

  array_kind-GoesSimple : (k : IntKind) → GoesSimple (nvtype_from_array_kind (int_kind k))
  unfolding read_value_in nvtype_from_array_kind
  array_kind-GoesSimple int8 = refl
  array_kind-GoesSimple uint8 = refl
  array_kind-GoesSimple int16 = refl
  array_kind-GoesSimple uint16 = refl
  array_kind-GoesSimple int32 = refl
  array_kind-GoesSimple uint32 = refl
  array_kind-GoesSimple int64 = refl
  array_kind-GoesSimple uint64 = refl

  read_value_in-read_simple : (v : NvValue) → IsPlain v → GoesSimple (type_of v)
  unfolding read_value_in type_of
  read_value_in-read_simple flag i = refl
  read_value_in-read_simple (number k x) i = kind-GoesSimple k
  read_value_in-read_simple (double x) i = refl
  read_value_in-read_simple (text s) i = refl
  read_value_in-read_simple (numbers k xs) i = array_kind-GoesSimple k
  read_value_in-read_simple (flags bs) i = refl
  read_value_in-read_simple (texts ss) i = refl
  read_value_in-read_simple (list l) i = absurd i
  read_value_in-read_simple (lists ls) i = absurd i

pub IsPlain-children : (v : NvValue) → IsPlain v → length (children v) ≡ 0
unfolding children
IsPlain-children flag i = refl
IsPlain-children (number k x) i = refl
IsPlain-children (double x) i = refl
IsPlain-children (text s) i = refl
IsPlain-children (numbers k xs) i = refl
IsPlain-children (flags bs) i = refl
IsPlain-children (texts ss) i = refl
IsPlain-children (list l) i = absurd i
IsPlain-children (lists ls) i = absurd i

read_nested_array-fill_array :
    (comp : Composite) (name : Bytes) (n : ℕ) (vs : Values) (whole : Bytes) (p q : ℕ) (plain : Loop)
    → read_maps plain n (reader whole p) ≡ ok (vs, reader whole q)
    → read_nested_array plain comp (reader whole p) name n
      ≡ with_reader whole q (fill_array comp name vs)
unfolding read_nested_array fill_array
read_nested_array-fill_array (in_struct addressable ss) name n vs whole p q plain e = refl
read_nested_array-fill_array (in_map elt cs) name n vs whole p q plain e =
    rw e (with_reader-bind whole q (assign elt (nvlists vs)) (λ c. set_entry elt cs name c))

pub read_composite-end :
    (f : ℕ) (comp : Composite) (whole rest : Bytes) (p : ℕ)
    → At whole p (encode_list end ++ rest)
    → read_composite (suc f) comp (reader whole p)
      ≡ ok (comp, reader whole (p + length (encode_list end)))
unfolding read_composite encode_list
read_composite-end f comp whole rest p a = rw (next_pair-end whole rest p a)

-- The loop with fuel for `f` bytes sets the pairs of every list of at most `f` bytes.
unfoldable pub SetsPairs : ℕ → CompositeLoop → Type 0
SetsPairs f loop =
    (l : NvList) (comp : Composite) (whole rest : Bytes) (p : ℕ)
    → ReadableList l
    → Settled l comp
    → length (encode_list l) ≤ f
    → At whole p (encode_list l ++ rest)
    → loop comp (reader whole p) ≡ with_reader whole (p + length (encode_list l)) (fill comp l)

module _ (f : ℕ) (loop : CompositeLoop) (ih : SetsPairs f loop) (comp : Composite)
    (name whole ys rest behind : Bytes) (at start size p q : ℕ) where
  abbrev Sets : NvValue → Type 0
  Sets v =
      read_value_in (read_pairs f) loop comp (reader whole q) name (type_of v) (elements v)
        (here whole at start size p)
      ≡ with_reader whole (q + length (children v)) (fill_value comp name v)

  read_value_in-plain :
      (v : NvValue)
      → IsPlain v
      → Readable v
      → Left whole start size p (payload v ++ ys) rest
      → Sets v
  unfolding read_simple
  read_value_in-plain v i h l = rw (
    fill_value-plain comp name v i,
    read_value_in-read_simple (read_pairs f) loop comp (reader whole q) name (elements v)
        (here whole at start size p) v i,
    read_primitive-payload whole at start size p ys rest v i l h,
    IsPlain-children v i,
    add-zero,
  )

  read_value_in-Sets :
      (v : NvValue)
      → Readable v
      → SettledValue comp name v
      → length (children v) ≤ f
      → Left whole start size p (payload v ++ ys) rest
      → At whole q (children v ++ behind)
      → Sets v
  unfolding children read_value_in type_of elements Readable SetsPairs ReadsLists SettledValue
      fill_value
  read_value_in-Sets (list sub) h s fits l a =
      read_nested-fill_nested (read_pairs f) loop (λ c. fill c sub) (λ m. read_into m sub)
        (Settled sub) whole q (q + length (encode_list sub))
        (λ m. read_pairs-ReadsLists f sub m whole behind q h fits a)
        (λ c s. ih sub c whole behind q h s fits a) comp name s
  read_value_in-Sets (lists ls) h s fits l a =
      read_nested_array-fill_array comp name (lists_length ls) (values_of ls) whole q
        (q + length (encode_lists ls)) (read_pairs f)
        (read_maps-lists f (read_pairs f) (read_pairs-ReadsLists f) ls whole behind q h.1 fits a)
  read_value_in-Sets flag h s fits l a = read_value_in-plain flag tt h l
  read_value_in-Sets (number k n) h s fits l a = read_value_in-plain (number k n) tt h l
  read_value_in-Sets (double n) h s fits l a = read_value_in-plain (double n) tt h l
  read_value_in-Sets (text t) h s fits l a = read_value_in-plain (text t) tt h l
  read_value_in-Sets (numbers k xs) h s fits l a = read_value_in-plain (numbers k xs) tt h l
  read_value_in-Sets (flags bs) h s fits l a = read_value_in-plain (flags bs) tt h l
  read_value_in-Sets (texts ss) h s fits l a = read_value_in-plain (texts ss) tt h l

-- A round that set a value goes on with the pairs behind it.
go_on-SetsPairs :
    (f : ℕ) (loop : CompositeLoop) (l : NvList) (whole rest : Bytes) (p : ℕ)
    (set : Result Composite)
    → SetsPairs f loop
    → ReadableList l
    → IfOk (Settled l) set
    → length (encode_list l) ≤ f
    → At whole p (encode_list l ++ rest)
    → (with_reader whole p set >>= λ (c, r). loop c r)
      ≡ with_reader whole (p + length (encode_list l)) (do c ← set; fill c l)
unfolding SetsPairs
go_on-SetsPairs f loop l whole rest p (ok c) ih h s fits a = ih l c whole rest p h s fits a
go_on-SetsPairs f loop l whole rest p (err e) ih h s fits a = refl
go_on-SetsPairs f loop l whole rest p (panic e) ih h s fits a = refl
go_on-SetsPairs f loop l whole rest p out_of_fuel ih h s fits a = refl

pub read_composite-SetsPairs : (f : ℕ) → SetsPairs f (read_composite f)
unfolding SetsPairs fill read_composite read_pair_in ReadableList Settled
read_composite-SetsPairs zero l comp whole rest p h s fits a =
    absurd (omega (arith, length-encode_list l))
read_composite-SetsPairs (suc f) end comp whole rest p h s fits a =
    read_composite-end f comp whole rest p a
read_composite-SetsPairs (suc f) (pair name v l) comp whole rest p (small, sized, hv, hl) (sv, sl)
      fits a =
    let size = pair_size name v in
    let tail = encode_list l ++ rest in
    let k = pair-Framed name v l whole rest p (small, sized, hv, hl) a in
    let long = length-pair name v l sized in
    let at_value =
      value_at whole name (payload v) (children v ++ tail) p (elements v) (type_of v) in
    let q = p + size + length (children v) in
    let ends : q + length (encode_list l) ≡ p + length (encode_list (pair name v l)) =
      omega (arith, long) in
    let ih = read_composite-SetsPairs f in
    rw
      (
        k.next,
        k.header,
        read_value_in-Sets f (read_composite f) ih comp name whole (value_pad name (payload v))
            (children v ++ tail) tail (p + 4) p size at_value (p + size) v hv sv
            (omega (arith, long)) k.value k.at_children,
      )
      (go_on-SetsPairs f (read_composite f) l whole rest q (fill_value comp name v) ih hl sl
          (omega (arith, long)) k.at_tail
        ∙ ap (λ e. with_reader whole e (fill comp (pair name v l))) ends)
