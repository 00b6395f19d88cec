-- ===== src/Decoder/ByValue.antt =====
-- nvlist/decode.go: a struct that is given to Unmarshal by value, and so is not addressable.
use go_zfs.Base.{
  ℕ, zero, suc, ◌≡◌, refl, false, ◌&&◌, Option, some, none, Bytes, length, if◌then◌else◌,
}
use go_zfs.Result.{Result, ok, err, panic, out_of_fuel, ◌>>=◌, IfOk, IfOk-bind}
use go_zfs.Consts.{NvType, type_nvlist, type_nvlist_array}
use go_zfs.Value.{Value}
use go_zfs.Decoder.Reader.{Reader, read_nv_header, new_reader}
use go_zfs.Decoder.PairReader.{PairReader}
use go_zfs.Decoder.Pairs.{Loop, next_pair, read_pair_header, read_primitive, read_pairs}
use go_zfs.Decoder.Cells.{
  Cell, Slots, struct_cell, find_slot, settable, set_field, Composite, in_struct, set_primitive_in,
}
use go_zfs.Decoder.Targets.{
  CompositeLoop, leave_map, read_cell, read_elem, read_field, read_nested, read_nested_array,
  set_if_some, read_simple, read_value_in, read_pair_in, read_composite, unmarshal_into,
}

module _ (ss : Slots) where
  abbrev Same : Composite → Type 0
  Same comp = comp ≡ in_struct false ss

  abbrev Kept : Result (Composite × Reader) → Type 0
  Kept = IfOk λ (comp, r). Same comp

  settable-false : (name : Bytes) → settable name false ss ≡ none
  unfolding settable
  settable-false name =
      elim (find_slot name ss)
        as (λ found.
          (elim found [
            | some (exported, c) ↦ if false && exported then some c else none
            | none ↦ none
          ])
          ≡ none) [ some (exported, c) ↦ refl | none ↦ refl ]

  set_primitive_in-Same :
      (name : Bytes) (v : Value)
      → set_primitive_in (in_struct false ss) name v ≡ ok (in_struct false ss)
  unfolding set_primitive_in set_field
  set_primitive_in-Same name v = rw (settable-false name)

  read_simple-Kept :
      (r : Reader) (name : Bytes) (t : NvType) (n : ℕ) (p : PairReader)
      → Kept (read_simple (in_struct false ss) r name t n p)
  unfolding read_simple
  read_simple-Kept r name t n p =
      IfOk-bind (λ (comp, r). Same comp) (read_primitive t n p) _ λ v. set v
    where
      set :
          (v : Option Value)
          → Kept (set_if_some (in_struct false ss) name v >>= λ comp. ok (comp, r))
      set none = refl
      set (some v) = rw (set_primitive_in-Same name v)

  Kept-bind :
      (res : Result (Composite × Reader)) (f : Composite × Reader → Result (Composite × Reader))
      → Kept res
      → ((r : Reader) → Kept (f (in_struct false ss, r)))
      → Kept (res >>= f)
  Kept-bind (ok (comp, r)) f h k = rw (h) (k r)
  Kept-bind (err e) f h k = tt
  Kept-bind (panic p) f h k = tt
  Kept-bind out_of_fuel f h k = tt

  module _ (plain : Loop) (loop : CompositeLoop) where
    read_nested-Kept :
        (r : Reader) (name : Bytes) → Kept (read_nested plain loop (in_struct false ss) r name)
    unfolding read_nested read_field
    read_nested-Kept r name = rw (settable-false name)

    read_value_in-Kept :
        (r : Reader) (name : Bytes) (t : NvType) (n : ℕ) (p : PairReader)
        → Kept (read_value_in plain loop (in_struct false ss) r name t n p)
    unfolding read_value_in read_nested_array
    read_value_in-Kept r name type_nvlist n p = read_nested-Kept r name
    read_value_in-Kept r name type_nvlist_array n p = tt
    read_value_in-Kept r name t n p = read_simple-Kept r name t n p

    read_pair_in-Kept :
        (r : Reader) (p : PairReader) → Kept (read_pair_in plain loop (in_struct false ss) r p)
    unfolding read_pair_in
    read_pair_in-Kept r p =
        IfOk-bind (λ (comp, r). Same comp) (read_pair_header p) _
          λ pair. read_value_in-Kept r pair.name pair.nvp.type pair.nvp.value_elem pair.reader

    -- A round of the loop, and the rest of it.
    round-Kept :
        (next : Option PairReader) (r : Reader)
        → ((r : Reader) → Kept (loop (in_struct false ss) r))
        → Kept (elim next [
          | none ↦ ok (in_struct false ss, r)
          | some p ↦ read_pair_in plain loop (in_struct false ss) r p >>= λ (comp, r). loop comp r
        ])
    round-Kept none r again = refl
    round-Kept (some p) r again =
        Kept-bind (read_pair_in plain loop (in_struct false ss) r p) _ (read_pair_in-Kept r p) again

  read_composite-Kept : (fuel : ℕ) (r : Reader) → Kept (read_composite fuel (in_struct false ss) r)
  unfolding read_composite
  read_composite-Kept zero r = tt
  read_composite-Kept (suc fuel) r =
      IfOk-bind (λ (comp, r). Same comp) (next_pair r) _
        λ (next, r).
          round-Kept (read_pairs fuel) (read_composite fuel) next r (read_composite-Kept fuel)

  abbrev left : Result (Composite × Reader) → Result (Cell × Reader)
  left res = do (comp, r) ← res; ok (leave_map (struct_cell ss) comp, r)

  leave-Kept :
      (res : Result (Composite × Reader))
      → Kept res
      → IfOk (λ c. c ≡ struct_cell ss) (left res >>= λ (c, r). ok c)
  leave-Kept (ok (comp, r)) h = rw h
  leave-Kept (err e) h = tt
  leave-Kept (panic p) h = tt
  leave-Kept out_of_fuel h = tt

  unmarshal_into-IfOk :
      (input : Bytes) → IfOk (λ c. c ≡ struct_cell ss) (unmarshal_into input (struct_cell ss))
  unfolding unmarshal_into read_cell read_elem
  unmarshal_into-IfOk input =
      IfOk-bind (λ c. c ≡ struct_cell ss) (read_nv_header (new_reader input)) _
        λ r.
          let res = read_composite (suc (length input)) (in_struct false ss) r in
          leave-Kept res (read_composite-Kept (suc (length input)) r)

  -- Whatever the input, `Unmarshal` into a struct that is given by value leaves it as it was, if it
  -- returns without an error.
  pub unmarshal_into-by_value :
      (input : Bytes) (c : Cell) → unmarshal_into input (struct_cell ss) ≡ ok c → c ≡ struct_cell ss
  unmarshal_into-by_value input c e = rw e at (unmarshal_into-IfOk input)
