-- ===== src/Decoder/Fill.antt =====
-- nvlist/decode.go: Unmarshal into any target, on the bytes of an nvlist.
pub mod Into
pub mod Elements
pub mod Rounds
pub mod Flat
pub mod Missing
use go_zfs.Base.{ℕ, suc, ◌+◌, ◌≤◌, ◌≡◌, refl, false, ◌++◌, Bytes, length, length-append, arith}
use go_zfs.Base.Position.{At, At-length}
use go_zfs.Result.{Result, ok, err, panic, out_of_fuel, ◌>>=◌}
use go_zfs.Wire.{low_bytes}
use go_zfs.Format.{NvList, encode_list, encode}
use go_zfs.Decoder.Pairs.{read_pairs}
use go_zfs.Decoder.Cells.{Cell}
use go_zfs.Decoder.Targets.{read_composite, unmarshal_into}
use go_zfs.Decoder.Readable.{ReadableList, read_into}
use go_zfs.Decoder.Values.{ReadsLists, length-encode_list}
use go_zfs.Decoder.Implements.{header_front, read_nv_header-header, read_pairs-ReadsLists}
use go_zfs.Decoder.Fill.Into.{fill, fill_cell, Settled, SettledCell}
use go_zfs.Decoder.Fill.Elements.{with_reader, read_cell-fill_pointed}
use go_zfs.Decoder.Fill.Rounds.{SetsPairs, read_composite-SetsPairs}

drop_reader :
    (whole : Bytes) (p : ℕ) (res : Result Cell) → (with_reader whole p res >>= λ (c, r). ok c) ≡ res
drop_reader whole p (ok c) = refl
drop_reader whole p (err e) = refl
drop_reader whole p (panic f) = refl
drop_reader whole p out_of_fuel = refl

-- An nvlist is read from the bytes that the wire format gives it, whatever follows them, into any
-- target: each pair is set in turn in the field of its name, if that can be set, or in the map, until
-- one does not fit, and a nested nvlist in the same way in the field or in a new element. The names,
-- the sizes of the pairs and the integers fit their fields, arrays have at most 65535 elements and
-- texts no null byte; and wherever a nested nvlist comes to a struct while the pairs are set, the
-- struct has a field of its name that can be set.
pub unmarshal_into-fill_cell :
    (l : NvList) (rest : Bytes) (c : Cell)
    → ReadableList l
    → SettledCell c l
    → unmarshal_into (encode l ++ rest) c ≡ fill_cell c l
unfolding unmarshal_into encode low_bytes fill_cell SettledCell SetsPairs ReadsLists
unmarshal_into-fill_cell l rest c h s =
    let whole = encode l ++ rest in
    let tail = encode_list l ++ rest in
    let f = suc (length whole) in
    let a : At whole 12 tail = record { front = header_front; splits = refl; lies = refl } in
    let n = length-append (encode_list l) rest in
    let enough : length (encode_list l) ≤ f = omega (arith, At-length tail a, n) in
    rw
      (
        read_nv_header-header whole tail refl (omega (arith, n, length-encode_list l)),
        read_cell-fill_pointed (read_pairs f) (read_composite f) (λ c. fill c l)
            (λ m. read_into m l) (Settled l) whole 12 (12 + length (encode_list l))
            (λ m. read_pairs-ReadsLists f l m whole rest 12 h enough a)
            (λ c s. read_composite-SetsPairs f l c whole rest 12 h s enough a) false c s,
      )
      (drop_reader whole (12 + length (encode_list l)) (fill_cell c l))
