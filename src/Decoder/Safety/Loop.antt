-- ===== src/Decoder/Safety/Loop.antt =====
-- nvlist/decode.go: readPairs returns on every input.
use go_zfs.Base.{
  ℕ, zero, suc, ◌+◌, ◌-◌, ◌^◌, ◌≤◌, ◌<◌, ◌≡◌, refl, Option, some, none, Bytes, length, ltb, leb,
  ◌==◌, arith, ◌∙◌, ap,
}
use go_zfs.Result.{ok, ◌>>=◌, Ensures, holds, refused, Ensures-bind, Ensures-mono, Ensures-if}
use go_zfs.Wire.{ByteOrder}
use go_zfs.Consts.{NvType, type_nvlist, type_nvlist_array}
use go_zfs.Value.{Entries}
use go_zfs.Decoder.Reader.{Reader, Encoding, native, xdr}
use go_zfs.Decoder.Reader
use go_zfs.Decoder.PairReader.{PairReader}
use go_zfs.Decoder.Pairs.{Loop, next_pair, read_maps, read_plain, read_value, read_pair, read_pairs}
use go_zfs.Decoder.Safety.Accesses.{Inside, Moved, read_int-Ensures}
use go_zfs.Decoder.Safety.Values.{read_pair_header-Inside, read_primitive-Ends}

-- `r'` is `r` further on in the same input, not behind its end.
pub record After (r r' : Reader) : Type 0 where
  pub same_nvlist : r'.nvlist ≡ r.nvlist
  pub same_endianness : r'.endianness ≡ r.endianness
  pub forward : r.current_byte ≤ r'.current_byte
  pub inside : r'.current_byte ≤ length r.nvlist

pub After-refl : (r : Reader) → r.current_byte ≤ length r.nvlist → After r r
After-refl r h = record {
  same_nvlist = refl;
  same_endianness = refl;
  forward = omega arith;
  inside = h;
}

pub After-trans : {r s t : Reader} → After r s → After s t → After r t
After-trans a b = record {
  same_nvlist = b.same_nvlist ∙ a.same_nvlist;
  same_endianness = b.same_endianness ∙ a.same_endianness;
  forward = omega (arith, a.forward, b.forward);
  inside = omega (arith, b.inside, ap length a.same_nvlist);
}

abbrev pub InsideOf : Option PairReader → Type 0
InsideOf none = Unit {0}
InsideOf (some p) = Inside p

-- The reader goes on at `i`.
Moved-After :
    {r r' : Reader} {n : ℕ} (i : ℕ)
    → Moved n r r'
    → r.current_byte ≤ i
    → i ≤ length r.nvlist
    → After r (record r' { current_byte = i })
Moved-After i m h k = record {
  same_nvlist = m.same_nvlist;
  same_endianness = m.same_endianness;
  forward = h;
  inside = k;
}

-- The two ways of the encodings behind a pair of `size` bytes.
behind_pair :
    (e : Encoding) (r r' : Reader) (p : PairReader) (size : ℕ)
    → Moved 4 r r'
    → Inside p
    → 0 < size
    → size + r'.current_byte ≤ length r.nvlist
    → let after = record r' { current_byte = r'.current_byte + size - 4 } in
      Ensures
        (λ (next, s). After r s × (r.current_byte < s.current_byte) × InsideOf next)
        (elim e [ native ↦ ok (some p, after) | xdr ↦ ok (some p, Reader.skip_n 4 after) ])
unfolding Reader.skip_n
behind_pair native r r' p size m i pos fits =
    holds
      (Moved-After _ m (omega (arith, m.moved)) (omega (arith, m.moved)), omega (arith, m.moved), i)
behind_pair xdr r r' p size m i pos fits =
    holds
      (Moved-After _ m (omega (arith, m.moved)) (omega (arith, m.moved)), omega (arith, m.moved), i)

pub next_pair-Ensures :
    (r : Reader) {o : ByteOrder}
    → r.endianness ≡ some o
    → Ensures
        (λ (next, s). After r s × (r.current_byte < s.current_byte) × InsideOf next)
        (next_pair r)
unfolding next_pair
next_pair-Ensures r {o} e = Ensures-bind (read_int-Ensures 4 r e (omega arith)) λ (size, r') m.
    Ensures-if (leb (2 ^ 31) size) (λ _. refused)
      λ _.
        Ensures-if (size == 0)
          (λ _.
            holds (Moved-After _ m (omega (arith, m.moved)) m.inside, omega (arith, m.moved), tt))
          λ pos.
            Ensures-if (ltb (length r.nvlist) (size + r'.current_byte)) (λ _. refused)
              λ fits.
                behind_pair r.encoding r r' _ size m
                  (record {
                    order = o;
                    has_order = m.same_endianness ∙ e;
                    fits = ground (arith, m.moved, m.same_nvlist);
                  })
                  (ground arith) (ground arith)

-- `rec` returns from wherever `fuel` covers what is left of the input.
abbrev pub Returns : ℕ → Loop → Type 0
Returns fuel rec =
    (m : Entries) (r : Reader) (o : ByteOrder)
    → r.endianness ≡ some o
    → length r.nvlist < r.current_byte + fuel
    → 0 < fuel
    → Ensures (λ (_, s). After r s) (rec m r)

-- A reader with a byte order, not behind the end of its input, and within `fuel` of it.
pub record Ready (fuel : ℕ) (r : Reader) : Type 0 where
  pub order : ByteOrder
  pub has_order : r.endianness ≡ some order
  pub within : r.current_byte ≤ length r.nvlist
  pub covered : length r.nvlist < r.current_byte + fuel

pub Ready-After : {fuel : ℕ} {r s : Reader} → Ready fuel r → After r s → Ready fuel s
Ready-After d a = record {
  order = d.order;
  has_order = a.same_endianness ∙ d.has_order;
  within = omega (arith, a.inside, ap length a.same_nvlist);
  covered = omega (arith, a.forward, ap length a.same_nvlist, d.covered);
}

pub Returns-Ready :
    {fuel : ℕ} (rec : Loop) (m : Entries) (r : Reader)
    → Returns fuel rec
    → Ready fuel r
    → Ensures (λ (_, s). After r s) (rec m r)
Returns-Ready rec m r h d = h m r d.order d.has_order d.covered (omega (arith, d.within, d.covered))

pub read_maps-Ensures :
    {fuel : ℕ} (rec : Loop) (n : ℕ) (r : Reader)
    → Returns fuel rec
    → Ready fuel r
    → Ensures (λ (_, s). After r s) (read_maps rec n r)
unfolding read_maps
read_maps-Ensures rec zero r h d = holds (After-refl r d.within)
read_maps-Ensures rec (suc n) r h d = Ensures-bind (Returns-Ready rec _ r h d) λ (m, r') a.
    Ensures-bind (read_maps-Ensures rec n r' h (Ready-After d a))
      λ (vs, s) b. holds (After-trans a b)

read_plain-Ensures :
    (m : Entries) (r : Reader) (name : Bytes) (t : NvType) (n : ℕ) (p : PairReader)
    → r.current_byte ≤ length r.nvlist
    → Inside p
    → Ensures (λ (_, s). After r s) (read_plain m r name t n p)
unfolding read_plain
read_plain-Ensures m r name t n p w i =
    Ensures-bind (read_primitive-Ends t n p i) λ _ _. holds (After-refl r w)

read_value-Ensures :
    {fuel : ℕ} (rec : Loop) (m : Entries) (r : Reader) (name : Bytes) (t : NvType) (n : ℕ)
    (p : PairReader)
    → Returns fuel rec
    → Ready fuel r
    → Inside p
    → Ensures (λ (_, s). After r s) (read_value rec m r name t n p)
unfolding read_value
read_value-Ensures rec m r name type_nvlist n p h d i =
    Ensures-bind (Returns-Ready rec _ r h d) λ _ a. holds a
read_value-Ensures rec m r name type_nvlist_array n p h d i =
    Ensures-bind (read_maps-Ensures rec n r h d) λ _ a. holds a
read_value-Ensures rec m r name t n p h d i = read_plain-Ensures m r name t n p d.within i

read_pair-Ensures :
    {fuel : ℕ} (rec : Loop) (m : Entries) (r : Reader) (p : PairReader)
    → Returns fuel rec
    → Ready fuel r
    → Inside p
    → Ensures (λ (_, s). After r s) (read_pair rec m r p)
unfolding read_pair
read_pair-Ensures rec m r p h d i =
    Ensures-bind (read_pair_header-Inside p i) λ pair j. read_value-Ensures rec m r _ _ _ _ h d j

-- A round of the loop, and the rest of it, from behind the size of the pair.
read_round-Ensures :
    {fuel : ℕ} (rec : Loop) (m : Entries) (r : Reader) (next : Option PairReader)
    → Returns fuel rec
    → Ready fuel r
    → InsideOf next
    → Ensures
        (λ (_, s). After r s)
        (elim next [ none ↦ ok (m, r) | some p ↦ read_pair rec m r p >>= λ (m, r). rec m r ])
read_round-Ensures rec m r none h d i = holds (After-refl r d.within)
read_round-Ensures rec m r (some p) h d i =
    Ensures-bind (read_pair-Ensures rec m r p h d i)
      λ (m', s) a. Ensures-mono (Returns-Ready rec m' s h (Ready-After d a)) λ _ b. After-trans a b

-- Each pair takes a byte at least.
pub read_pairs-Returns : (fuel : ℕ) → Returns fuel (read_pairs fuel)
unfolding read_pairs
read_pairs-Returns zero m r o e c z = absurd (omega arith)
read_pairs-Returns (suc fuel) m r o e c z =
    Ensures-bind (next_pair-Ensures r e) λ (next, s) (a, step, i).
      let d : Ready fuel s = record {
        order = o;
        has_order = a.same_endianness ∙ e;
        within = omega (arith, a.inside, ap length a.same_nvlist);
        covered = omega (arith, step, ap length a.same_nvlist);
      } in
      Ensures-mono (read_round-Ensures (read_pairs fuel) m s next (read_pairs-Returns fuel) d i)
        λ _ b. After-trans a b
