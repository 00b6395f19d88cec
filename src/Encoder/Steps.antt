-- ===== src/Encoder/Steps.antt =====
-- nvlist/encoder.go: what each method of the writer appends.
use go_zfs.Base.{
  ℕ, zero, suc, ◌+◌, ◌-◌, ◌%◌, ◌^◌, ◌<◌, ◌≡◌, ◌≢◌, refl, sym, ap, ◌∙◌, true, false, [], ◌∷◌, ◌++◌,
  some, Bytes, length, set, lt→ltb, ◌==◌, append_assoc, length-append, arith,
}
use go_zfs.Wire.{little, low_bytes, length-low_bytes}
use go_zfs.Consts.{NvType, type_unknown, nvtype_code, nvlist_header_size}
use go_zfs.Encoder.{
  Writer, done, pad_size, skip_to_align, overwrite, write_int, write_string, write_nv_pair_header,
  is_unknown, end_nv_pair,
}
use go_zfs.Encoder.Encodable.{NulFree}
use go_zfs.Format.{zeros, pair_header}

-- The writer behind the header of the whole, with these bytes and this start of the open pair.
abbrev pub writer : Bytes → ℕ → Writer
writer bs start = record {
  nvlist = bs;
  nvpair_start_byte = start;
  mode_write_from_start_byte = false;
  endianness = some little;
  flags = 1;
  version = 0;
}

pub write_int-writer :
    (n v : ℕ) (bs : Bytes) (start : ℕ)
    → write_int n v (writer bs start) ≡ done (writer (bs ++ low_bytes n v) start)
unfolding write_int
write_int-writer n v bs start = refl

pub write_string-writer :
    (s bs : Bytes) (start : ℕ)
    → NulFree s
    → write_string s (writer bs start) ≡ done (writer (bs ++ (s ++ 0 ∷ [])) start)
unfolding write_string
write_string-writer [] bs start h = refl
write_string-writer (c ∷ s) bs start h =
    ground
      (arith, write_string-writer s (bs ++ (c ∷ [])) start, append_assoc bs (c ∷ []) (s ++ 0 ∷ []))

pub skip_to_align-writer :
    (front body : Bytes) (start n : ℕ)
    → length front ≡ start
    → length body ≡ n
    → skip_to_align (writer (front ++ body) start)
      ≡ writer (front ++ (body ++ zeros (pad_size n))) start
unfolding skip_to_align
skip_to_align-writer front body start n e k =
    let l : length (front ++ body) - start ≡ n = omega (arith, length-append front body) in
    rw (l, append_assoc front body (zeros (pad_size n)))

set-append :
    (front : Bytes) (x b i : ℕ) (rest : Bytes)
    → length front ≡ i
    → set (front ++ (x ∷ rest)) i b ≡ (front ++ (b ∷ [])) ++ rest
set-append [] x b i rest e = rw (← e)
set-append (y ∷ front) x b zero rest e = absurd (omega arith)
set-append (y ∷ front) x b (suc i) rest e =
    ap (λ zs. y ∷ zs) (set-append front x b i rest (omega arith))

-- Where the bytes at `i` are overwritten.
overwrite-append :
    (buf old front rest : Bytes) (i : ℕ)
    → length front ≡ i
    → length old ≡ length buf
    → overwrite buf i (front ++ (old ++ rest)) ≡ some (front ++ (buf ++ rest))
unfolding overwrite
overwrite-append [] [] front rest i e l = refl
overwrite-append [] (x ∷ old) front rest i e l = absurd (omega arith)
overwrite-append (b ∷ buf) [] front rest i e l = absurd (omega arith)
overwrite-append (b ∷ buf) (x ∷ old) front rest i e l =
    rw
      (
        lt→ltb i (length (front ++ (x ∷ (old ++ rest))))
            (omega (arith, length-append front (x ∷ (old ++ rest)))),
        set-append front x b i (old ++ rest) e,
      )
      (overwrite-append buf old (front ++ (b ∷ [])) rest (i + 1)
          (omega (arith, length-append front (b ∷ []))) (omega arith)
        ∙ ap some (append_assoc front (b ∷ []) (buf ++ rest)))

-- The writer while the header of a pair is written.
abbrev over : Bytes → ℕ → Writer
over bs start = record (writer bs start) { mode_write_from_start_byte = true }

write_int-over :
    (n v : ℕ) (front old rest : Bytes) (start : ℕ)
    → length front ≡ start
    → length old ≡ n
    → write_int n v (over (front ++ (old ++ rest)) start)
      ≡ done (over ((front ++ low_bytes n v) ++ rest) (start + n))
unfolding write_int
write_int-over n v front old rest start e l = rw (
  overwrite-append (low_bytes n v) old front rest start e (l ∙ sym (length-low_bytes n v)),
  length-low_bytes n v,
  append_assoc front (low_bytes n v) rest,
)

grow :
    (front : Bytes) (n v start : ℕ)
    → length front ≡ start
    → length (front ++ low_bytes n v) ≡ start + n
grow front n v start e = omega (arith, length-append front (low_bytes n v), length-low_bytes n v)

write_nv_pair_header-writer :
    (front rest : Bytes) (start size name_sz n : ℕ) (t : NvType)
    → length front ≡ start
    → write_nv_pair_header
        (record { size = size; name_sz = name_sz; reserve = 0; value_elem = n; type = t })
        (writer (front ++ (zeros nvlist_header_size ++ rest)) start)
      ≡ done (writer (front ++ (pair_header size name_sz n t ++ rest)) 0)
unfolding write_nv_pair_header write_int pair_header
write_nv_pair_header-writer front rest start size name_sz n t e =
    let f1 = front ++ low_bytes 4 size in
    let f2 = f1 ++ low_bytes 2 name_sz in
    let f3 = f2 ++ low_bytes 2 0 in
    let f4 = f3 ++ low_bytes 4 n in
    let e1 = grow front 4 size start e in
    let e2 = grow f1 2 name_sz (start + 4) e1 in
    let e3 = grow f2 2 0 (start + 4 + 2) e2 in
    let e4 = grow f3 4 n (start + 4 + 2 + 2) e3 in
    rw
      (
        write_int-over 4 size front (zeros 4) (zeros 12 ++ rest) start e refl,
        write_int-over 2 name_sz f1 (zeros 2) (zeros 10 ++ rest) (start + 4) e1 refl,
        write_int-over 2 0 f2 (zeros 2) (zeros 8 ++ rest) (start + 4 + 2) e2 refl,
        write_int-over 4 n f3 (zeros 4) (zeros 4 ++ rest) (start + 4 + 2 + 2) e3 refl,
        write_int-over 4 (nvtype_code t) f4 (zeros 4) rest (start + 4 + 2 + 2 + 4) e4 refl,
      )
      (simp append_assoc)

is_unknown-eq : (t : NvType) → t ≢ type_unknown → is_unknown t ≡ false
unfolding is_unknown
is_unknown-eq type_unknown h = absurd (h refl)
is_unknown-eq _ h = refl

-- `endNvPair` pads the pair and fills its header in.
pub end_nv_pair-writer :
    (front body : Bytes) (start : ℕ) (name_sz n : ℕ) (t : NvType)
    → length front ≡ start
    → 0 < start
    → t ≢ type_unknown
    → let padded = body ++ zeros (pad_size (nvlist_header_size + length body)) in
      end_nv_pair
        (record { size = 0; name_sz = name_sz; reserve = 0; value_elem = n; type = t })
        (writer (front ++ (zeros nvlist_header_size ++ body)) start)
      ≡ done (
          writer
            (front
              ++ (pair_header ((nvlist_header_size + length padded) % 2 ^ 32) name_sz n t
                  ++ padded))
            0)
unfolding end_nv_pair
end_nv_pair-writer front body start name_sz n t e pos known =
    let open_pair = zeros nvlist_header_size ++ body in
    let pad = zeros (pad_size (nvlist_header_size + length body)) in
    let padded = body ++ pad in
    let z : (start == 0) ≡ false = ground arith in
    let s : (length (front ++ (zeros nvlist_header_size ++ padded)) - start)
        ≡ (nvlist_header_size + length padded) =
      omega (
        arith,
        length-append front (zeros nvlist_header_size ++ padded),
        length-append (zeros nvlist_header_size) padded,
      ) in
    let sk =
      skip_to_align-writer front open_pair start (nvlist_header_size + length body) e
        (length-append (zeros nvlist_header_size) body) in
    rw (is_unknown-eq t known, z, sk, s)
      (write_nv_pair_header-writer front padded start _ name_sz n t e)
