-- ===== src/Wire.antt =====
-- Fixed-size integers as bytes: what encoding/binary reads and writes in either byte order.
use go_zfs.Base.{
  ℕ, zero, suc, ◌+◌, ◌*◌, ◌/◌, ◌%◌, ◌^◌, ◌<◌, ◌≡◌, refl, ap, ◌∙◌, [], ◌∷◌, arith, Bytes, length,
}
use mathlib.Core.List.{reverse, reverse-reverse}
use native.Mathlib.Nat.{pow-suc}

-- binary.BigEndian and binary.LittleEndian.
pub data ByteOrder : Type 0 where
  big little : ByteOrder

-- The `w` low bytes of `v`, lowest first.
unfoldable pub low_bytes : ℕ → ℕ → Bytes
low_bytes zero v = []
low_bytes (suc w) v = v % 256 ∷ low_bytes w (v / 256)

-- The number whose bytes these are, lowest first.
unfoldable pub of_low_bytes : Bytes → ℕ
of_low_bytes [] = 0
of_low_bytes (b ∷ bs) = b + 256 * of_low_bytes bs

unfoldable pub put : ByteOrder → ℕ → ℕ → Bytes
put little w v = low_bytes w v
put big w v = reverse (low_bytes w v)

unfoldable pub get : ByteOrder → Bytes → ℕ
get little bs = of_low_bytes bs
get big bs = of_low_bytes (reverse bs)

pub length-low_bytes : (w v : ℕ) → length (low_bytes w v) ≡ w
unfolding low_bytes
length-low_bytes zero v = refl
length-low_bytes (suc w) v = ap suc (length-low_bytes w (v / 256))

of_low_bytes-low_bytes : (w v : ℕ) → v < 256 ^ w → of_low_bytes (low_bytes w v) ≡ v
unfolding low_bytes of_low_bytes
of_low_bytes-low_bytes zero v h = omega arith
of_low_bytes-low_bytes (suc w) v h =
    omega (arith, of_low_bytes-low_bytes w (v / 256) (omega (arith, pow-suc 256 w)))

pub get-low_bytes : (w v : ℕ) → v < 256 ^ w → get little (low_bytes w v) ≡ v
unfolding get
get-low_bytes w v h = of_low_bytes-low_bytes w v h

-- An integer that fits the width is read back from the bytes that were written, in either order.
pub get-put : (o : ByteOrder) (w v : ℕ) → v < 256 ^ w → get o (put o w v) ≡ v
unfolding put get
get-put little w v h = of_low_bytes-low_bytes w v h
get-put big w v h = ap of_low_bytes (reverse-reverse _) ∙ of_low_bytes-low_bytes w v h
