-- ===== src/Decoder/InPair.antt =====
-- nvlist/decode.go: what the methods of nvPairReader return, given the bytes left in the pair.
use native.Mathlib.Nat.{add-zero}
use go_zfs.Base.{
  ℕ, zero, suc, ◌+◌, ◌-◌, ◌%◌, ◌^◌, ◌<◌, ◌≤◌, ◌≡◌, ap, ap₂, ◌∙◌, false, [], ◌∷◌, ◌++◌, some, Bytes,
  length, take, ◌==◌, le→leb, append_assoc, length-append, take-append, Bool-cases, inl, inr, arith,
}
use go_zfs.Base.Position.{At, At-advance, At-length, At-slice, At-get_elem?}
use go_zfs.Wire.{ByteOrder, little, low_bytes, get, get-low_bytes, length-low_bytes}
use go_zfs.Result.{ok}
use go_zfs.Decoder.Slices.{byte_at, slice}
use go_zfs.Decoder.PairReader.{PairReader}
use go_zfs.Decoder.PairReader
use go_zfs.Decoder.Pairs.{read_string}
use go_zfs.Decoder.Reads.{reader, pair_reader, copy_loop-At, read_full_zero, read_full-eq}
use go_zfs.Encoder.{pad_size}
use go_zfs.Encoder.Encodable.{NulFree}

-- `left` is what is left of the pair at `p`, and `rest` follows the pair.
pub record Left (whole : Bytes) (start size p : ℕ) (left rest : Bytes) : Type 0 where
  pub stands : At whole p (left ++ rest)
  pub ends : p + length left ≡ start + size

module _ (whole : Bytes) (at start size : ℕ) where
  -- The reader of the pair at `p`.
  abbrev pub here : ℕ → PairReader
  here p = pair_reader (reader whole at) start size p

module _ {whole : Bytes} {start size p : ℕ} where
  pub Left-advance :
      (q : ℕ) (xs ys rest : Bytes)
      → Left whole start size p (xs ++ ys) rest
      → p + length xs ≡ q
      → Left whole start size q ys rest
  Left-advance q xs ys rest k e = record {
    stands = At-advance xs (ys ++ rest) (rw append_assoc at k.stands) e;
    ends = omega (arith, k.ends, length-append xs ys);
  }

  Left-fits :
      (xs ys rest : Bytes) → Left whole start size p (xs ++ ys) rest → p + length xs ≤ start + size
  Left-fits xs ys rest k = omega (arith, k.ends, length-append xs ys)

  Left-length :
      (left rest : Bytes) → Left whole start size p left rest → start + size ≤ length whole
  Left-length left rest k =
      omega (arith, k.ends, At-length (left ++ rest) k.stands, length-append left rest)

module _ (whole : Bytes) (at start size p : ℕ) where
  pair_read-Left :
      (xs ys rest : Bytes)
      → Left whole start size p (xs ++ ys) rest
      → PairReader.read (length xs) (here whole at start size p)
        ≡ ok (xs, here whole at start size (p + length xs))
  unfolding PairReader.read
  pair_read-Left xs ys rest k = rw (
    le→leb (p + length xs) (start + size) (Left-fits xs ys rest k),
    copy_loop-At xs (ys ++ rest) whole p (rw append_assoc at k.stands),
  )

  pub read_in-Left {ℓ} :
      {A : Type ℓ} (decode : ByteOrder → Bytes → A) (n : ℕ) (xs ys rest : Bytes)
      → Left whole start size p (xs ++ ys) rest
      → length xs ≡ n
      → PairReader.read_in decode (some little) n (here whole at start size p)
        ≡ ok (decode little xs, here whole at start size (p + n))
  unfolding PairReader.read_in
  read_in-Left decode zero [] ys rest k e = rw (read_full_zero PairReader.read, add-zero)
  read_in-Left decode zero (x ∷ xs) ys rest k e = absurd (omega arith)
  read_in-Left decode (suc n) xs ys rest k e = rw (
    read_full-eq PairReader.read n xs (here whole at start size p) _ e
        (pair_read-Left xs ys rest k),
    e,
  )

  pub read_int-Left :
      (n v : ℕ) (ys rest : Bytes)
      → Left whole start size p (low_bytes n v ++ ys) rest
      → v < 256 ^ n
      → PairReader.read_int n (here whole at start size p)
        ≡ ok (v, here whole at start size (p + n))
  unfolding PairReader.read_int
  read_int-Left n v ys rest k h =
      rw (read_in-Left get n (low_bytes n v) ys rest k (length-low_bytes n v), get-low_bytes n v h)

  pub read_n-Left :
      (n : ℕ) (xs ys rest : Bytes)
      → Left whole start size p (xs ++ ys) rest
      → length xs ≡ n
      → PairReader.read_n n (here whole at start size p) ≡ ok (xs, here whole at start size (p + n))
  unfolding PairReader.read_n slice
  read_n-Left n xs ys rest k e =
      let f = Left-fits xs ys rest k in
      rw (← e) (
        rw (
          le→leb (p + length xs) (start + size) f,
          le→leb (p + length xs) (length whole) (omega (arith, Left-length (xs ++ ys) rest k)),
          At-slice xs (ys ++ rest) (rw append_assoc at k.stands),
        ))

-- `left` is what has been read of the string.
read_bytes_loop-Left :
    (s seen ys rest whole : Bytes) (at start size begin p rounds : ℕ)
    → NulFree s
    → At whole begin (seen ++ (s ++ (0 ∷ (ys ++ rest))))
    → begin + length seen ≡ p
    → length s < rounds
    → PairReader.read_bytes_loop rounds begin 0 (here whole at start size p)
      ≡ ok (seen ++ (s ++ 0 ∷ []), here whole at start size (p + length s + 1))
unfolding PairReader.read_bytes_loop byte_at slice
read_bytes_loop-Left s seen ys rest whole at start size begin p zero h a e l = absurd (omega arith)
read_bytes_loop-Left [] seen ys rest whole at start size begin p (suc rounds) h a e l =
    let b = At-get_elem? 0 (ys ++ rest) (At-advance seen (0 ∷ (ys ++ rest)) a e) in
    let n : p + 1 - begin ≡ length (seen ++ 0 ∷ []) = omega (arith, length-append seen (0 ∷ [])) in
    let a' : At whole begin ((seen ++ 0 ∷ []) ++ (ys ++ rest)) =
      rw (append_assoc seen (0 ∷ [])) a in
    rw
      (
        b,
        n,
        le→leb (begin + length (seen ++ 0 ∷ [])) (length whole) (
            omega (
              arith,
              At-length ((seen ++ 0 ∷ []) ++ (ys ++ rest)) a',
              length-append (seen ++ 0 ∷ []) (ys ++ rest),
            )),
        At-slice (seen ++ 0 ∷ []) (ys ++ rest) a',
      )
      (ap (λ q. ok (seen ++ 0 ∷ [], here whole at start size q)) (omega arith))
read_bytes_loop-Left (c ∷ s) seen ys rest whole at start size begin p (suc rounds) (nz, h) a e l =
    let b =
      At-get_elem? c (s ++ (0 ∷ (ys ++ rest)))
        (At-advance seen (c ∷ (s ++ (0 ∷ (ys ++ rest)))) a e) in
    let a' : At whole begin ((seen ++ c ∷ []) ++ (s ++ (0 ∷ (ys ++ rest)))) =
      rw (append_assoc seen (c ∷ [])) a in
    let z : (c == 0) ≡ false = ground arith in
    rw (b, z)
      (read_bytes_loop-Left s (seen ++ c ∷ []) ys rest whole at start size begin (p + 1) rounds h a'
          (omega (arith, length-append seen (c ∷ []))) (omega arith)
        ∙ ap₂ (λ bs q. ok (bs, here whole at start size q))
            (append_assoc seen (c ∷ []) (s ++ 0 ∷ [])) (omega arith))

pub drop_last : (s : Bytes) → take (length (s ++ 0 ∷ []) - 1) (s ++ 0 ∷ []) ≡ s
drop_last s =
    let e : length (s ++ 0 ∷ []) - 1 ≡ length s = omega (arith, length-append s (0 ∷ [])) in
    rw e (take-append s (0 ∷ []))

pub read_string-Left :
    (s ys rest whole : Bytes) (at start size p : ℕ)
    → NulFree s
    → Left whole start size p ((s ++ 0 ∷ []) ++ ys) rest
    → read_string (here whole at start size p) ≡ ok (s, here whole at start size (p + length s + 1))
unfolding read_string PairReader.read_bytes
read_string-Left s ys rest whole at start size p h k =
    let a : At whole p (s ++ (0 ∷ (ys ++ rest))) =
      rw (append_assoc (s ++ 0 ∷ []) ys rest, append_assoc s (0 ∷ [])) at k.stands in
    let l : length s < start + size + 1 - p =
      omega (arith, k.ends, length-append (s ++ 0 ∷ []) ys, length-append s (0 ∷ [])) in
    rw (
      read_bytes_loop-Left s [] ys rest whole at start size p p (start + size + 1 - p) h a
          (omega arith) l,
      drop_last s,
    )

-- The padding of a pair in native encoding.
pub skip_to_align-here :
    (whole : Bytes) (at start size p n : ℕ)
    → start + n ≡ p
    → PairReader.skip_to_align (here whole at start size p)
      ≡ here whole at start size (p + pad_size n)
unfolding PairReader.skip_to_align pad_size
skip_to_align-here whole at start size p n e =
    let l : p - start ≡ n = omega arith in
    rw l (elim (Bool-cases (n % 8 == 0)) [ inl z ↦ rw (z, add-zero) | inr z ↦ rw z ])
