-- ===== src/Decoder/Fill/Missing.antt =====
-- nvlist/decode.go: a nested nvlist that comes to a struct without a field for it.
use go_zfs.Base.{ℕ, suc, ◌+◌, ◌≤◌, ◌≡◌, refl, true, none, ◌++◌, Bytes, length, length-append, arith}
use go_zfs.Base.Position.{At, At-length}
use go_zfs.Result.{Result, ok, err, panic, out_of_fuel, ◌>>=◌}
use go_zfs.Wire.{low_bytes}
use go_zfs.Format.{NvList, list, pair, encode_list, encode}
use go_zfs.Decoder.Cells.{Cell, Composite, Slots, struct_cell, ptr_cell, settable, in_struct}
use go_zfs.Decoder.Targets.{
  leave_map, read_elem, read_cell, read_field, read_nested, read_value_in, read_pair_in,
  read_composite, unmarshal_into,
}
use go_zfs.Decoder.Reader.{Reader}
use go_zfs.Decoder.Reads.{reader}
use go_zfs.Decoder.Readable.{type_of, children, pair_size, Readable, ReadableList}
use go_zfs.Decoder.Values.{length-encode_list}
use go_zfs.Decoder.Frames.{length-pair, pair-Framed}
use go_zfs.Decoder.Implements.{header_front, read_nv_header-header}
use go_zfs.Decoder.Fill.Into.{fill, fill_elem, fill_pointed, fill_cell, Settled}
use go_zfs.Decoder.Fill.Elements.{with_reader}
use go_zfs.Decoder.Fill.Rounds.{SetsPairs, read_composite-SetsPairs}

abbrev leave : Slots → Composite × Reader → Result (Cell × Reader)
leave ss (c, r) = ok (leave_map (struct_cell ss) c, r)

abbrev point : Cell × Reader → Result (Cell × Reader)
point (c, r) = ok (ptr_cell c, r)

struct-left :
    (ss : Slots) (whole : Bytes) (q : ℕ) (res : Result Composite)
    → (with_reader whole q res >>= leave ss >>= point >>= λ (c, r). ok c)
      ≡ (res >>= (λ c. ok (leave_map (struct_cell ss) c)) >>= λ c. ok (ptr_cell c))
struct-left ss whole q (ok c) = refl
struct-left ss whole q (err e) = refl
struct-left ss whole q (panic f) = refl
struct-left ss whole q out_of_fuel = refl

module _ (ss : Slots) (name : Bytes) (sub l : NvList) (missing : settable name true ss ≡ none)
    (h : ReadableList (pair name (list sub) l)) (s : Settled sub (in_struct true ss)) where
  read_composite-missing :
      (f : ℕ) (whole rest : Bytes) (p : ℕ)
      → length (encode_list (pair name (list sub) l)) ≤ suc f
      → At whole p (encode_list (pair name (list sub) l) ++ rest)
      → read_composite (suc f) (in_struct true ss) (reader whole p)
        ≡ with_reader whole
            (p + pair_size name (list sub) + length (encode_list sub))
            (fill (in_struct true ss) sub)
  unfolding read_composite read_pair_in read_value_in read_nested read_field type_of children
      ReadableList Readable SetsPairs
  read_composite-missing f whole rest p fits a =
      let k = pair-Framed name (list sub) l whole rest p h a in
      let q = p + pair_size name (list sub) in
      rw (k.next, k.header, missing)
        (read_composite-SetsPairs f sub (in_struct true ss) whole (encode_list l ++ rest) q h.2 s
          (omega (arith, fits, length-pair name (list sub) l h.1)) k.at_children)

  -- A pair in front whose value is an nvlist, for a pointer to a struct without a field of its name that
  -- can be set: the result is that of setting the pairs of that nvlist in turn in the struct itself,
  -- until one does not fit, and none of the pairs behind it is read. The names, the sizes of the pairs
  -- and the integers fit their fields, arrays have at most 65535 elements and texts no null byte; and
  -- wherever an nvlist inside that nvlist comes to a struct while its pairs are set, the struct has a
  -- field of its name that can be set.
  pub unmarshal_into-missing :
      (rest : Bytes)
      → unmarshal_into (encode (pair name (list sub) l) ++ rest) (ptr_cell (struct_cell ss))
        ≡ fill_cell (ptr_cell (struct_cell ss)) sub
  unfolding unmarshal_into read_cell read_elem encode low_bytes fill_cell fill_pointed fill_elem
  unmarshal_into-missing rest =
      let whole = encode (pair name (list sub) l) ++ rest in
      let mine = encode_list (pair name (list sub) l) in
      let tail = mine ++ rest in
      let a : At whole 12 tail = record { front = header_front; splits = refl; lies = refl } in
      let n = length-append mine rest in
      let m = length-encode_list (pair name (list sub) l) in
      let q = 12 + pair_size name (list sub) + length (encode_list sub) in
      rw
        (
          read_nv_header-header whole tail refl (omega (arith, n, m)),
          read_composite-missing (length whole) whole rest 12 (omega (arith, At-length tail a, n))
              a,
        )
        (struct-left ss whole q (fill (in_struct true ss) sub))
