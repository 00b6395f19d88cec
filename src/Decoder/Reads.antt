-- ===== src/Decoder/Reads.antt =====
-- nvlist/decode.go: what each method of the readers returns where known bytes stand.
use go_zfs.Base.{
  ℕ, suc, ◌+◌, ◌-◌, ◌^◌, ◌<◌, ◌≡◌, refl, ap, [], ◌∷◌, ◌++◌, some, Bytes, length, ltb, inl, inr,
  Bool-cases, le→leb, length-append, arith,
}
use go_zfs.Base.Position.{At, At-advance, At-length, At-get_elem?}
use go_zfs.Wire.{little, low_bytes, get-low_bytes, length-low_bytes}
use go_zfs.Result.{Result, ok}
use go_zfs.Decoder.Slices.{byte_at, copy_loop, read_full}
use go_zfs.Decoder.Reader.{Reader, native}
use go_zfs.Decoder.Reader
use go_zfs.Decoder.PairReader.{PairReader}

-- A reader behind the header that `Marshal` writes.
abbrev pub reader : Bytes → ℕ → Reader
reader whole p = record {
  nvlist = whole;
  current_byte = p;
  endianness = some little;
  encoding = native;
  flags = 1;
  version = 0;
}

-- A reader of the `size` bytes of a pair from `start` on, at the byte `p`.
abbrev pub pair_reader : Reader → ℕ → ℕ → ℕ → PairReader
pair_reader r start size p = record {
  nvlist = r;
  start_byte = start;
  size_bytes = size;
  current_byte = p;
}

pub copy_loop-At :
    (xs rest whole : Bytes) (p : ℕ)
    → At whole p (xs ++ rest)
    → copy_loop (length xs) whole p ≡ ok xs
unfolding copy_loop
copy_loop-At [] rest whole p a = refl
copy_loop-At (x ∷ xs) rest whole p a = rw (
  At-get_elem? x (xs ++ rest) a,
  byte_at,
  copy_loop-At xs rest whole (p + 1) (At-advance (x ∷ []) (xs ++ rest) a refl),
)

read-At :
    (xs rest whole : Bytes) (p : ℕ)
    → At whole p (xs ++ rest)
    → Reader.read (length xs) (reader whole p) ≡ ok (xs, reader whole (p + length xs))
unfolding Reader.read
read-At xs rest whole p a =
    let l : length whole ≡ p + length xs + length rest =
      omega (arith, At-length (xs ++ rest) a, length-append xs rest) in
    elim (Bool-cases (ltb (p + length xs) (length whole))) [
      | inl more ↦ rw (more, copy_loop-At xs rest whole p a)
      | inr last ↦
          let e : length whole - p ≡ length xs = ground arith in
          let q : length whole ≡ p + length xs = ground arith in
          rw (last, e, copy_loop-At xs rest whole p a) (ap (λ n. ok (xs, reader whole n)) q)
    ]

pub read_full_zero {ℓ} :
    {R : Type ℓ} (read : ℕ → R → Result (Bytes × R)) (r : R) → read_full read 0 r ≡ ok ([], r)
unfolding read_full
read_full_zero read r = refl

pub read_full-eq {ℓ} :
    {R : Type ℓ} (read : ℕ → R → Result (Bytes × R)) (n : ℕ) (xs : Bytes) (r r' : R)
    → length xs ≡ suc n
    → read (length xs) r ≡ ok (xs, r')
    → read_full read (suc n) r ≡ ok (xs, r')
unfolding read_full
read_full-eq read n xs r r' l e = rw (rw l at e, le→leb (suc n) (length xs) (omega arith))

-- An integer of the width read, lowest byte first.
pub read_int-At :
    (n v : ℕ) (rest whole : Bytes) (p : ℕ)
    → At whole p (low_bytes (suc n) v ++ rest)
    → v < 256 ^ suc n
    → Reader.read_int (suc n) (reader whole p) ≡ ok (v, reader whole (p + suc n))
unfolding Reader.read_int
read_int-At n v rest whole p a h =
    let xs = low_bytes (suc n) v in
    let e = length-low_bytes (suc n) v in
    let full = read_full-eq Reader.read n xs (reader whole p) _ e (read-At xs rest whole p a) in
    rw (full, e, get-low_bytes (suc n) v h)
