-- ===== src/Decoder/Payloads.antt =====
-- nvlist/decode.go: the value of a pair, read back from its payload.
use go_zfs.Base.{
  ℕ, ◌+◌, ◌*◌, ◌%◌, ◌^◌, ◌<◌, ◌≡◌, refl, ap₂, Bool, true, false, List, [], ◌∷◌, ◌++◌, Bytes, length,
  take, drop, All, le→leb, if◌then◌else◌, append_assoc, length-append, take-append, drop-append,
  arith,
}
use go_zfs.Wire.{little, low_bytes, get-low_bytes, length-low_bytes}
use go_zfs.Result.{ok}
use go_zfs.Consts.{IntKind, width}
use go_zfs.Value.{Value, integers}
use go_zfs.Encoder.Encodable.{NulFree}
use go_zfs.Format.{encode_ints, encode_flags, encode_texts}
use go_zfs.Decoder.PairReader.{PairReader, read_byte}
use go_zfs.Decoder.Slices.{byte_at}
use go_zfs.Base.Position.{At-get_elem?}
use go_zfs.Decoder.Pairs.{
  read_integer, split_ints, read_integers, bool_of, read_bool, read_bools, read_strings,
}
use go_zfs.Decoder.InPair.{Left, Left-advance, here, read_in-Left, read_int-Left, read_string-Left}

pub length-encode_ints : (w : ℕ) (xs : List ℕ) → length (encode_ints w xs) ≡ length xs * w
unfolding encode_ints
length-encode_ints w [] = omega arith
length-encode_ints w (x ∷ xs) = omega (
  arith,
  length-append (low_bytes w x) (encode_ints w xs),
  length-low_bytes w x,
  length-encode_ints w xs,
)

take-low_bytes : (w x : ℕ) (bs : Bytes) → take w (low_bytes w x ++ bs) ≡ low_bytes w x
take-low_bytes w x bs = rw (length-low_bytes w x) at (take-append (low_bytes w x) bs)

drop-low_bytes : (w x : ℕ) (bs : Bytes) → drop w (low_bytes w x ++ bs) ≡ bs
drop-low_bytes w x bs = rw (length-low_bytes w x) at (drop-append (low_bytes w x) bs)

split_ints-encode_ints :
    (w : ℕ) (xs : List ℕ)
    → All (λ x. x < 256 ^ w) xs
    → split_ints little w (length xs) (encode_ints w xs) ≡ xs
unfolding split_ints encode_ints
split_ints-encode_ints w [] h = refl
split_ints-encode_ints w (x ∷ xs) (hx, h) = rw (
  take-low_bytes w x (encode_ints w xs),
  drop-low_bytes w x (encode_ints w xs),
  get-low_bytes w x hx,
  split_ints-encode_ints w xs h,
)

-- A slice of uint8 is its bytes.
pub encode_ints-bytes : (xs : List ℕ) → All (λ x. x < 256 ^ 1) xs → encode_ints 1 xs ≡ xs
unfolding encode_ints low_bytes
encode_ints-bytes [] h = refl
encode_ints-bytes (x ∷ xs) (hx, h) =
    let e : x % 256 ≡ x = omega arith in ap₂ (λ y ys. y ∷ ys) e (encode_ints-bytes xs h)

module _ (whole : Bytes) (at start size : ℕ) where
  abbrev p_at : ℕ → PairReader
  p_at p = here whole at start size p

  pub read_byte-Left :
      (p x : ℕ) (ys rest : Bytes)
      → Left whole start size p (x ∷ ys) rest
      → read_byte (p_at p) ≡ ok (x, p_at (p + 1))
  unfolding read_byte byte_at
  read_byte-Left p x ys rest k =
      rw (le→leb p (start + size) (omega (arith, k.ends)), At-get_elem? x (ys ++ rest) k.stands)

  pub read_integer-Left :
      (k : IntKind) (n p : ℕ) (ys rest : Bytes)
      → Left whole start size p (low_bytes (width k) n ++ ys) rest
      → n < 256 ^ width k
      → read_integer k (p_at p) ≡ ok (Value.integer k n)
  unfolding read_integer
  read_integer-Left k n p ys rest l h =
      rw (read_int-Left whole at start size p (width k) n ys rest l h)

  pub read_integers-Left :
      (k : IntKind) (xs : List ℕ) (p : ℕ) (ys rest : Bytes)
      → Left whole start size p (encode_ints (width k) xs ++ ys) rest
      → All (λ x. x < 256 ^ width k) xs
      → read_integers k (length xs) (p_at p) ≡ ok (integers k xs)
  unfolding read_integers
  read_integers-Left k xs p ys rest l h = rw (
    read_in-Left whole at start size p (λ o. split_ints o (width k) (length xs))
        (length xs * width k) (encode_ints (width k) xs) ys rest l
        (length-encode_ints (width k) xs),
    split_ints-encode_ints (width k) xs h,
  )

  read_bool-Left :
      (b : Bool) (p : ℕ) (ys rest : Bytes)
      → Left whole start size p (low_bytes 4 (if b then 1 else 0) ++ ys) rest
      → read_bool (p_at p) ≡ ok (b, p_at (p + 4))
  unfolding read_bool bool_of
  read_bool-Left true p ys rest l =
      rw (read_int-Left whole at start size p 4 1 ys rest l (omega arith))
  read_bool-Left false p ys rest l =
      rw (read_int-Left whole at start size p 4 0 ys rest l (omega arith))

  pub read_bools-Left :
      (bs : List Bool) (p : ℕ) (ys rest : Bytes)
      → Left whole start size p (encode_flags bs ++ ys) rest
      → read_bools (length bs) (p_at p) ≡ ok bs
  unfolding read_bools encode_flags
  read_bools-Left [] p ys rest l = refl
  read_bools-Left (b ∷ bs) p ys rest l =
      let n = low_bytes 4 (if b then 1 else 0) in
      let l' : Left whole start size p (n ++ (encode_flags bs ++ ys)) rest = rw append_assoc at l in
      let e = length-low_bytes 4 (if b then 1 else 0) in
      let after = Left-advance (p + 4) n (encode_flags bs ++ ys) rest l' (omega (arith, e)) in
      rw (
        read_bool-Left b p (encode_flags bs ++ ys) rest l',
        read_bools-Left bs (p + 4) ys rest after,
      )

  pub read_strings-Left :
      (ss : List Bytes) (p : ℕ) (ys rest : Bytes)
      → Left whole start size p (encode_texts ss ++ ys) rest
      → All NulFree ss
      → read_strings (length ss) (p_at p) ≡ ok ss
  unfolding read_strings encode_texts
  read_strings-Left [] p ys rest l h = refl
  read_strings-Left (s ∷ ss) p ys rest l (hs, h) =
      let l' : Left whole start size p ((s ++ 0 ∷ []) ++ (encode_texts ss ++ ys)) rest =
        rw (append_assoc (s ++ 0 ∷ []) (encode_texts ss) ys) at l in
      let after =
        Left-advance (p + length s + 1) (s ++ 0 ∷ []) (encode_texts ss ++ ys) rest l'
          (omega (arith, length-append s (0 ∷ []))) in
      rw (
        read_string-Left s (encode_texts ss ++ ys) rest whole at start size p hs l',
        read_strings-Left ss (p + length s + 1) ys rest after h,
      )
