-- ===== src/Decoder/Safety/Total.antt =====
-- nvlist/decode.go: the header, and Unmarshal as a whole.
use go_zfs.Base.{◌≤◌, ℕ, suc, ◌≡◌, refl, ◌∙◌, ap, some, Bytes, length, ltb, ◌==◌, arith}
use go_zfs.Result.{Ensures, holds, refused, Ensures-bind, Ensures-if}
use go_zfs.Wire.{ByteOrder, big, little}
use go_zfs.Value.{Entries}
use go_zfs.Decoder.Reader.{
  Reader, read_byte, set_encoding, set_endianness, read_nv_header, new_reader,
}
use go_zfs.Decoder.Reader
use go_zfs.Decoder.Pairs.{unmarshal}
use go_zfs.Decoder.Safety.Accesses.{byte_at-Ensures, read_int-Ensures}
use go_zfs.Decoder.Safety.Values.{Ends}
use go_zfs.Decoder.Safety.Loop.{read_pairs-Returns}

read_byte-Ensures : (r : Reader) → Ensures (λ (b, s). s.nvlist ≡ r.nvlist) (read_byte r)
unfolding read_byte
read_byte-Ensures r =
    Ensures-if (ltb r.current_byte (length r.nvlist))
      (λ h. Ensures-bind (byte_at-Ensures r.nvlist r.current_byte (ground arith)) λ _ _. holds refl)
      (λ _. refused)

set_encoding-Ensures : (b : ℕ) (r : Reader) → Ensures (λ s. s.nvlist ≡ r.nvlist) (set_encoding b r)
unfolding set_encoding
set_encoding-Ensures b r =
    Ensures-if (b == 0) (λ _. holds refl) λ _. Ensures-if (b == 1) (λ _. holds refl) λ _. refused

-- Behind the header the reader has a byte order.
abbrev pub Ordered : Bytes → Reader → Type 0
Ordered input s = (o : ByteOrder) × (s.endianness ≡ some o) × (s.nvlist ≡ input)

set_endianness-Ensures : (b : ℕ) (r : Reader) → Ensures (Ordered r.nvlist) (set_endianness b r)
unfolding set_endianness
set_endianness-Ensures b r =
    Ensures-if (b == 0) (λ _. holds (big, refl, refl))
      λ _. Ensures-if (b == 1) (λ _. holds (little, refl, refl)) λ _. refused

-- It stands behind the header, not behind the end of the input.
abbrev pub Started : Bytes → Reader → Type 0
Started input s = Ordered input s × (s.current_byte ≤ length input)

pub read_nv_header-Ensures : (r : Reader) → Ensures (Started r.nvlist) (read_nv_header r)
unfolding read_nv_header Reader.skip_n
read_nv_header-Ensures r = Ensures-bind (read_byte-Ensures r) λ (b₁, r₁) e₁.
    Ensures-bind (set_encoding-Ensures b₁ r₁) λ r₂ e₂.
      Ensures-bind (read_byte-Ensures r₂) λ (b₃, r₃) e₃.
        Ensures-bind (set_endianness-Ensures b₃ r₃) λ r₄ (o, e₄, n₄).
          Ensures-bind (read_int-Ensures 4 (Reader.skip_n 2 r₄) e₄ (omega arith)) λ (v, r₅) m.
            Ensures-bind
              (read_int-Ensures 4 (record r₅ { version = v }) (m.same_endianness ∙ e₄)
                (omega arith))
              λ (f, r₆) k.
                let n = m.same_nvlist ∙ n₄ ∙ e₃ ∙ e₂ ∙ e₁ in
                holds (
                  (o, k.same_endianness ∙ m.same_endianness ∙ e₄, k.same_nvlist ∙ n),
                  omega (arith, k.inside, ap length n),
                )

-- On every input, well formed or not and in either encoding and byte order, `Unmarshal` into a map
-- returns a map or an error: it does not panic, so that no index is ever out of range, and the
-- loop over pairs ends within one round for each byte of the input and one more.
pub unmarshal-Ends : (input : Bytes) (m : Entries) → Ends (unmarshal input m)
unfolding unmarshal
unmarshal-Ends input m =
    Ensures-bind (read_nv_header-Ensures (new_reader input)) λ r ((o, e, n), _).
      Ensures-bind
        (read_pairs-Returns (suc (length input)) m r o e (omega (arith, ap length n)) (omega arith))
        λ _ _. holds tt
