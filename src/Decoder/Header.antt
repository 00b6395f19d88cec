-- ===== src/Decoder/Header.antt =====
-- nvlist/decode.go: the size of a pair, its header and its name, read from the bytes of a pair.
use go_zfs.Base.{
  ℕ, ◌+◌, ◌-◌, ◌%◌, ◌^◌, ◌<◌, ◌≤◌, ◌≡◌, refl, ap, ◌∙◌, false, [], ◌∷◌, ◌++◌, some, none, Bytes,
  length, ◌==◌, append_assoc, length-append, length-replicate, lt→leb, le→ltb, arith,
}
use go_zfs.Base.Position.{At}
use go_zfs.Wire.{low_bytes, length-low_bytes}
use go_zfs.Result.{ok}
use go_zfs.Consts.{NvType, nvtype_code, nvtype_of, nvlist_header_size}
use go_zfs.Encoder.{pad_size}
use go_zfs.Format.{zeros, pair_header, named, pair_body, pair_bytes}
use go_zfs.Decoder.Pairs.{Pair, next_pair, read_pair_header}
use go_zfs.Decoder.Reads.{reader, read_int-At}
use go_zfs.Decoder.InPair.{
  Left, Left-advance, here, read_int-Left, read_n-Left, skip_to_align-here, drop_last,
}

-- The four zero bytes behind the last pair.
pub next_pair-end :
    (whole rest : Bytes) (p : ℕ)
    → At whole p (zeros 4 ++ rest)
    → next_pair (reader whole p) ≡ ok (none, reader whole (p + 4))
unfolding next_pair low_bytes
next_pair-end whole rest p a = rw (read_int-At 3 0 rest whole p a (omega arith))

pub next_pair-At :
    (whole rest : Bytes) (p size : ℕ)
    → At whole p (low_bytes 4 size ++ rest)
    → 4 ≤ size
    → size < 2 ^ 31
    → size + (p + 4) ≤ length whole
    → next_pair (reader whole p)
      ≡ ok (some (here whole (p + 4) p size (p + 4)), reader whole (p + size))
unfolding next_pair
next_pair-At whole rest p size a lo hi fits =
    let nz : (size == 0) ≡ false = ground arith in
    let e : p + 4 + size - 4 ≡ p + size = omega arith in
    rw (
      read_int-At 3 size rest whole p a (omega arith),
      lt→leb (2 ^ 31) size hi,
      nz,
      le→ltb (length whole) (size + (p + 4)) fits,
      e,
    )

five_and_more :
    (a b c d e f : Bytes) → (a ++ (b ++ (c ++ (d ++ e)))) ++ f ≡ a ++ (b ++ (c ++ (d ++ (e ++ f))))
five_and_more a b c d e f = rw (append_assoc, append_assoc, append_assoc, append_assoc)

module _ (name bs : Bytes) (n : ℕ) (t : NvType) where
  abbrev pub size_of : ℕ
  size_of = nvlist_header_size + length (pair_body name bs)

  -- A pair behind its size.
  abbrev pub behind_size : Bytes
  behind_size =
      low_bytes 2 (length name + 1)
      ++ (low_bytes 2 0 ++ (low_bytes 4 n ++ (low_bytes 4 (nvtype_code t) ++ pair_body name bs)))

  pub pair_bytes-size :
      size_of < 2 ^ 31 → pair_bytes name n t bs ≡ low_bytes 4 size_of ++ behind_size
  unfolding pair_bytes pair_header
  pair_bytes-size h =
      let e : size_of % 2 ^ 32 ≡ size_of = omega arith in
      ap (λ s. pair_header s (length name + 1) n t ++ pair_body name bs) e
      ∙ five_and_more (low_bytes 4 size_of) (low_bytes 2 (length name + 1)) (low_bytes 2 0)
          (low_bytes 4 n) (low_bytes 4 (nvtype_code t)) (pair_body name bs)

  pub length-behind_size : 4 + length behind_size ≡ size_of
  length-behind_size = omega (
    arith,
    length-append (low_bytes 2 (length name + 1))
        (low_bytes 2 0 ++ (low_bytes 4 n ++ (low_bytes 4 (nvtype_code t) ++ pair_body name bs))),
    length-append (low_bytes 2 0)
        (low_bytes 4 n ++ (low_bytes 4 (nvtype_code t) ++ pair_body name bs)),
    length-append (low_bytes 4 n) (low_bytes 4 (nvtype_code t) ++ pair_body name bs),
    length-append (low_bytes 4 (nvtype_code t)) (pair_body name bs),
    length-low_bytes 2 (length name + 1),
    length-low_bytes 2 0,
    length-low_bytes 4 n,
    length-low_bytes 4 (nvtype_code t),
  )

append-cons : (xs zs ys : Bytes) (x : ℕ) → (xs ++ x ∷ zs) ++ ys ≡ (xs ++ x ∷ []) ++ (zs ++ ys)
append-cons xs zs ys x = rw (append_assoc, append_assoc)

abbrev name_pad : Bytes → ℕ
name_pad name = pad_size (nvlist_header_size + (length name + 1))

-- The value of a pair and the padding behind it.
abbrev pub value_pad : Bytes → Bytes → Bytes
value_pad name bs = zeros (pad_size (nvlist_header_size + (length (named name) + length bs)))

abbrev pub value_part : Bytes → Bytes → Bytes
value_part name bs = bs ++ value_pad name bs

pub pair_body-named : (name bs : Bytes) → pair_body name bs ≡ named name ++ value_part name bs
unfolding pair_body
pair_body-named name bs = refl

named-zeros : (name : Bytes) → named name ≡ name ++ 0 ∷ zeros (name_pad name)
unfolding named
named-zeros name = refl

pair_body-name :
    (name bs : Bytes)
    → pair_body name bs ≡ (name ++ 0 ∷ []) ++ (zeros (name_pad name) ++ value_part name bs)
pair_body-name name bs =
    pair_body-named name bs
    ∙ ap (λ xs. xs ++ value_part name bs) (named-zeros name)
    ∙ append-cons name (zeros (name_pad name)) (value_part name bs) 0

length-named : (name : Bytes) → length (named name) ≡ length name + 1 + name_pad name
length-named name =
    ap length (named-zeros name)
    ∙ omega (
      arith,
      length-append name (0 ∷ zeros (name_pad name)),
      length-replicate {A = ℕ} (name_pad name) 0,
    )

module _ (whole name bs rest : Bytes) (p n : ℕ) (t : NvType) where
  -- Behind the name and its padding.
  abbrev pub value_at : ℕ
  value_at = p + nvlist_header_size + length (named name)

  abbrev pub pair_at : ℕ → ℕ → Pair
  pair_at size q = record {
    name = name;
    nvp = record { size = size; name_sz = length name + 1; reserve = 0; value_elem = n; type = t };
    reader = here whole (p + 4) p size q;
  }

  abbrev from_type : Bytes
  from_type = low_bytes 4 (nvtype_code t) ++ pair_body name bs

  abbrev from_elements : Bytes
  from_elements = low_bytes 4 n ++ from_type

  abbrev from_reserve : Bytes
  from_reserve = low_bytes 2 0 ++ from_elements

  -- What is left behind each field of the header.
  record Fields (size : ℕ) : Type 0 where
    reserve : Left whole p size (p + 4 + 2) from_reserve rest
    value_elem : Left whole p size (p + 4 + 2 + 2) from_elements rest
    type : Left whole p size (p + 4 + 2 + 2 + 4) from_type rest
    body : Left whole p size (p + 4 + 2 + 2 + 4 + 4) (pair_body name bs) rest

  fields-Left : (size : ℕ) → Left whole p size (p + 4) (behind_size name bs n t) rest → Fields size
  fields-Left size l =
      let l1 =
        Left-advance (p + 4 + 2) (low_bytes 2 (length name + 1)) from_reserve rest l
          (omega (arith, length-low_bytes 2 (length name + 1))) in
      let l2 =
        Left-advance (p + 4 + 2 + 2) (low_bytes 2 0) from_elements rest l1
          (omega (arith, length-low_bytes 2 0)) in
      let l3 =
        Left-advance (p + 4 + 2 + 2 + 4) (low_bytes 4 n) from_type rest l2
          (omega (arith, length-low_bytes 4 n)) in
      record {
        reserve = l1;
        value_elem = l2;
        type = l3;
        body =
            Left-advance (p + 4 + 2 + 2 + 4 + 4) (low_bytes 4 (nvtype_code t)) (pair_body name bs)
              rest l3 (omega (arith, length-low_bytes 4 (nvtype_code t)));
      }

  pub value-Left :
      (size : ℕ)
      → Left whole p size (p + 4) (behind_size name bs n t) rest
      → Left whole p size value_at (value_part name bs) rest
  value-Left size l =
      let b : Left whole p size (p + 4 + 2 + 2 + 4 + 4) (named name ++ value_part name bs) rest =
        rw (← pair_body-named name bs) (fields-Left size l).body in
      Left-advance value_at (named name) (value_part name bs) rest b (omega arith)

  pub read_pair_header-Left :
      (size : ℕ)
      → Left whole p size (p + 4) (behind_size name bs n t) rest
      → length name + 1 < 2 ^ 15
      → n ≤ 65535
      → nvtype_code t < 2 ^ 32
      → nvtype_of (nvtype_code t) ≡ t
      → read_pair_header (here whole (p + 4) p size (p + 4)) ≡ ok (pair_at size value_at)
  unfolding read_pair_header
  read_pair_header-Left size l small few code same =
      let f = fields-Left size l in
      let raw = name ++ 0 ∷ [] in
      let behind = zeros (name_pad name) ++ value_part name bs in
      let nz : (length name + 1 == 0) ≡ false = ground arith in
      let named_left : Left whole p size (p + 4 + 2 + 2 + 4 + 4) (raw ++ behind) rest =
        rw (← pair_body-name name bs) f.body in
      rw
        (
          read_int-Left whole (p + 4) p size (p + 4) 2 (length name + 1) from_reserve rest l
              (omega arith),
          nz,
          read_int-Left whole (p + 4) p size (p + 4 + 2) 2 0 from_elements rest f.reserve
              (omega arith),
          read_int-Left whole (p + 4) p size (p + 4 + 2 + 2) 4 n from_type rest f.value_elem
              (omega arith),
          read_int-Left whole (p + 4) p size (p + 4 + 2 + 2 + 4) 4 (nvtype_code t)
              (pair_body name bs) rest f.type (omega arith),
          read_n-Left whole (p + 4) p size (p + 4 + 2 + 2 + 4 + 4) (length name + 1) raw behind rest
              named_left (length-append name (0 ∷ [])),
          same,
          lt→leb (2 ^ 15) (length name + 1) small,
          lt→leb (2 ^ 31) n (omega arith),
          le→ltb 65535 n few,
          drop_last name,
          skip_to_align-here whole (p + 4) p size (p + 4 + 2 + 2 + 4 + 4 + (length name + 1))
              (nvlist_header_size + (length name + 1)) (omega arith),
        )
        (ap (λ q. ok (pair_at size q)) (omega (arith, length-named name)))
