-- ===== src/Decoder/Fuzz.antt =====
-- nvlist/fuzz.go: the entry point of the fuzzer.
use go_zfs.Base.{ℕ, ◌≡◌, refl, none, Bytes}
use go_zfs.Result.{
  Result, ok, err, panic, out_of_fuel, ◌>>=◌, invalid_data, Ensures, holds, refused,
}
use go_zfs.Decoder.Reader.{Reader, new_reader, read_nv_header}
use go_zfs.Decoder.Cells.{Cell, any_cell, ptr_cell}
use go_zfs.Decoder.Targets.{read_cell, read_elem, unmarshal_into}
use go_zfs.Decoder.Safety.Total.{read_nv_header-Ensures}

-- `&out`: a pointer to the pointer to a nil interface that `new` returns.
abbrev fuzz_out : Cell
fuzz_out = ptr_cell (ptr_cell (any_cell none))

abbrev pub fuzz_result : Result Cell → Result ℕ
fuzz_result (ok c) = ok 1
fuzz_result (err e) = ok 0
fuzz_result (panic p) = panic p
fuzz_result out_of_fuel = out_of_fuel

-- `Fuzz`
unfoldable pub fuzz : Bytes → Result ℕ
unfolding unmarshal_into
fuzz input = fuzz_result (unmarshal_into input fuzz_out)

-- On every input `Fuzz` returns 0, without a panic: its target is no target of `Unmarshal`.
pub fuzz_never_accepts : (input : Bytes) → fuzz input ≡ ok 0
unfolding fuzz unmarshal_into read_cell read_elem
fuzz_never_accepts input =
    after (read_nv_header (new_reader input)) (read_nv_header-Ensures (new_reader input))
  where
    after :
        {P : Reader → Type 0} (r : Result Reader)
        → Ensures P r
        → fuzz_result (r >>= λ r. err invalid_data) ≡ ok 0
    after (ok r) (holds h) = refl
    after (err e) refused = refl
    after (panic p) h = elim h [ ]
    after out_of_fuel h = elim h [ ]
