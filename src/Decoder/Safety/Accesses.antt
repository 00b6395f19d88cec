-- ===== src/Decoder/Safety/Accesses.antt =====
-- nvlist/decode.go: the readers' methods stay inside the input.
use go_zfs.Base.{
  ℕ, zero, suc, ◌+◌, ◌-◌, ◌≤◌, ◌<◌, ◌≡◌, refl, Option, some, none, Bytes, length, length-take_le,
  length-drop, get_elem?-lt, ltb, leb, le→leb, ◌==◌, arith, drop,
}
use native.Mathlib.Decide.{dec_le}
use go_zfs.Result.{Result, Ensures, holds, refused, Ensures-bind, Ensures-mono, Ensures-if}
use go_zfs.Wire.{ByteOrder, get}
use go_zfs.Decoder.Slices.{byte_at, slice, copy_loop, read_full}
use go_zfs.Decoder.Reader.{Reader}
use go_zfs.Decoder.Reader
use go_zfs.Decoder.PairReader.{PairReader, end_byte}
use go_zfs.Decoder.PairReader

pub byte_at-Ensures : (bs : Bytes) (i : ℕ) → i < length bs → Ensures (λ _. Unit {0}) (byte_at bs i)
unfolding byte_at
byte_at-Ensures bs i h = rw ((get_elem?-lt bs i h).1, byte_at) (holds tt)

pub slice-Ensures :
    (bs : Bytes) (i n : ℕ) → i + n ≤ length bs → Ensures (λ xs. length xs ≡ n) (slice bs i n)
unfolding slice
slice-Ensures bs i n h =
    rw (le→leb (i + n) (length bs) h)
      (holds (length-take_le n (drop i bs) (omega (arith, length-drop i bs))))

pub copy_loop-Ensures :
    (n : ℕ) (bs : Bytes) (i : ℕ)
    → i + n ≤ length bs
    → Ensures (λ xs. length xs ≡ n) (copy_loop n bs i)
unfolding copy_loop
copy_loop-Ensures zero bs i h = holds refl
copy_loop-Ensures (suc n) bs i h =
    Ensures-bind (byte_at-Ensures bs i (omega arith)) λ b _.
      Ensures-bind (copy_loop-Ensures n bs (i + 1) (omega arith)) λ rest e. holds (omega arith)

-- The bytes from `i` up to `e`, if there are any.
rest-Ensures :
    (bs : Bytes) (e i : ℕ)
    → e ≤ length bs
    → Ensures (λ xs. length xs ≡ e - i) (copy_loop (e - i) bs i)
unfolding copy_loop
rest-Ensures bs e i l = elim (dec_le i e) [
  | yes h ↦ copy_loop-Ensures (e - i) bs i (omega arith)
  | no h ↦ let none_left : e - i ≡ 0 = omega arith in rw (none_left, copy_loop) (holds refl)
]

-- A method of a reader with a byte order reads on by `n` bytes, and changes nothing else.
pub record Moved (n : ℕ) (r r' : Reader) : Type 0 where
  pub same_nvlist : r'.nvlist ≡ r.nvlist
  pub same_endianness : r'.endianness ≡ r.endianness
  pub same_encoding : r'.encoding ≡ r.encoding
  pub moved : r'.current_byte ≡ r.current_byte + n
  pub inside : r'.current_byte ≤ length r.nvlist

read-Ensures :
    (n : ℕ) (r : Reader)
    → 0 < n
    → Ensures (λ (bs, r'). n ≤ length bs → Moved n r r') (Reader.read n r)
unfolding Reader.read
read-Ensures n r pos =
    Ensures-if (ltb (r.current_byte + n) (length r.nvlist))
      (λ h. Ensures-bind (copy_loop-Ensures n r.nvlist r.current_byte (ground arith)) λ bs e.
        holds (λ _. record {
          same_nvlist = refl;
          same_endianness = refl;
          same_encoding = refl;
          moved = refl;
          inside = ground arith;
        }))
      (λ h.
        Ensures-bind (rest-Ensures r.nvlist (length r.nvlist) r.current_byte (omega arith)) λ bs e.
          holds (λ g. record {
            same_nvlist = refl;
            same_endianness = refl;
            same_encoding = refl;
            moved = ground arith;
            inside = omega arith;
          }))

-- A buffer that is filled was read by one call.
read_full-Ensures {ℓ κ} :
    {R : Type ℓ} (P : R → Type κ) (read : ℕ → R → Result (Bytes × R)) (n : ℕ) (r : R)
    → 0 < n
    → Ensures (λ (bs, r'). n ≤ length bs → P r') (read n r)
    → Ensures (λ (bs, r'). P r') (read_full read n r)
unfolding read_full
read_full-Ensures P read zero r pos h = absurd (omega arith)
read_full-Ensures P read (suc n) r pos h = Ensures-bind h λ (bs, r') p.
    Ensures-if (leb (suc n) (length bs)) (λ e. holds (p (ground arith)))
      (λ e. Ensures-if (ltb 0 (length bs)) (λ _. refused) (λ _. refused))

read_int_in-Ensures :
    (e : Option ByteOrder) {o : ByteOrder} (n : ℕ) (r : Reader)
    → e ≡ some o
    → 0 < n
    → Ensures (λ (v, r'). Moved n r r') (Reader.read_int_in e n r)
unfolding Reader.read_int_in
read_int_in-Ensures none n r e pos = cc
read_int_in-Ensures (some o) n r e pos =
    Ensures-bind (read_full-Ensures (Moved n r) Reader.read n r pos (read-Ensures n r pos))
      λ (bs, r') m. holds m

pub read_int-Ensures :
    (n : ℕ) (r : Reader) {o : ByteOrder}
    → r.endianness ≡ some o
    → 0 < n
    → Ensures (λ (v, r'). Moved n r r') (Reader.read_int n r)
unfolding Reader.read_int
read_int-Ensures n r e pos = read_int_in-Ensures r.endianness n r e pos

-- What holds of a pair's reader at every step: it has a byte order, and its pair ends before the
-- last byte of the input.
pub record Inside (p : PairReader) : Type 0 where
  pub order : ByteOrder
  pub has_order : p.nvlist.endianness ≡ some order
  pub fits : end_byte p < length p.nvlist.nvlist

-- The reader of the same pair, at another byte.
pub Inside-at : (p : PairReader) (i : ℕ) → Inside p → Inside (record p { current_byte = i })
Inside-at p i h = record { order = h.order; has_order = h.has_order; fits = h.fits }

abbrev pub Stays {ℓ} : {A : Type ℓ} → A × PairReader → Type 0
Stays (a, p) = Inside p

pub read_byte-Stays : (p : PairReader) → Inside p → Ensures Stays (PairReader.read_byte p)
unfolding PairReader.read_byte
read_byte-Stays p h =
    Ensures-if (leb p.current_byte (end_byte p))
      (λ e.
        Ensures-bind (byte_at-Ensures p.nvlist.nvlist p.current_byte (ground (arith, h.fits)))
          λ b _. holds (Inside-at p _ h))
      (λ e. refused)

read_bytes_loop-Stays :
    (rounds start delim : ℕ) (p : PairReader)
    → start ≤ p.current_byte
    → p.current_byte + rounds ≤ end_byte p + 1
    → Inside p
    → Ensures Stays (PairReader.read_bytes_loop rounds start delim p)
unfolding PairReader.read_bytes_loop
read_bytes_loop-Stays zero start delim p s l h = refused
read_bytes_loop-Stays (suc rounds) start delim p s l h =
    Ensures-bind (byte_at-Ensures p.nvlist.nvlist p.current_byte (omega (arith, h.fits))) λ b _.
      Ensures-if (b == delim)
        (λ _.
          Ensures-bind
            (slice-Ensures p.nvlist.nvlist start (p.current_byte + 1 - start)
              (omega (arith, h.fits)))
            λ val _. holds (Inside-at p _ h))
        (λ _.
          read_bytes_loop-Stays rounds start delim (record p { current_byte = p.current_byte + 1 })
            (omega arith) (omega arith) (Inside-at p _ h))

pub read_bytes-Stays :
    (delim : ℕ) (p : PairReader)
    → Inside p
    → Ensures (λ (bs, p'). Inside p') (PairReader.read_bytes delim p)
unfolding PairReader.read_bytes
read_bytes-Stays delim p h = elim (dec_le p.current_byte (end_byte p)) [
  | yes l ↦ read_bytes_loop-Stays _ _ delim p (omega arith) (omega arith) h
  | no l ↦
      let e : end_byte p + 1 - p.current_byte ≡ 0 = omega arith in
      rw (e, PairReader.read_bytes_loop) refused
]

pub read_n-Stays :
    (n : ℕ) (p : PairReader)
    → Inside p
    → Ensures (λ (bs, p'). Inside p' × (length bs ≡ n)) (PairReader.read_n n p)
unfolding PairReader.read_n
read_n-Stays n p h =
    Ensures-if (leb (p.current_byte + n) (end_byte p))
      (λ e.
        Ensures-bind (slice-Ensures p.nvlist.nvlist p.current_byte n (ground (arith, h.fits)))
          λ bs l. holds (Inside-at p _ h, l))
      (λ e. refused)

read-Stays : (n : ℕ) (p : PairReader) → Inside p → Ensures Stays (PairReader.read n p)
unfolding PairReader.read
read-Stays n p h =
    Ensures-if (leb (p.current_byte + n) (end_byte p))
      (λ e.
        Ensures-bind (copy_loop-Ensures n p.nvlist.nvlist p.current_byte (ground (arith, h.fits)))
          λ bs _. holds (Inside-at p _ h))
      (λ e.
        Ensures-bind
          (rest-Ensures p.nvlist.nvlist (end_byte p) p.current_byte (omega (arith, h.fits)))
          λ bs _. holds (Inside-at p _ h))

read_full-Stays :
    (n : ℕ) (p : PairReader) → Inside p → Ensures Stays (read_full PairReader.read n p)
unfolding read_full
read_full-Stays zero p h = holds h
read_full-Stays (suc n) p h =
    read_full-Ensures Inside PairReader.read (suc n) p (omega arith)
      (Ensures-mono (read-Stays (suc n) p h) λ _ k _. k)

read_in_order-Stays {ℓ} :
    {A : Type ℓ} (decode : ByteOrder → Bytes → A) (e : Option ByteOrder) {o : ByteOrder} (n : ℕ)
    (p : PairReader)
    → e ≡ some o
    → Inside p
    → Ensures Stays (PairReader.read_in decode e n p)
unfolding PairReader.read_in
read_in_order-Stays decode none n p e h = cc
read_in_order-Stays decode (some o) n p e h =
    Ensures-bind (read_full-Stays n p h) λ (bs, p') k. holds k

pub read_in-Stays {ℓ} :
    {A : Type ℓ} (decode : ByteOrder → Bytes → A) (n : ℕ) (p : PairReader)
    → Inside p
    → Ensures Stays (PairReader.read_in decode p.nvlist.endianness n p)
read_in-Stays decode n p h = read_in_order-Stays decode p.nvlist.endianness n p h.has_order h

pub read_int-Stays : (n : ℕ) (p : PairReader) → Inside p → Ensures Stays (PairReader.read_int n p)
unfolding PairReader.read_int
read_int-Stays n p h = read_in-Stays get n p h
