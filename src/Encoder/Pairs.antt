-- ===== src/Encoder/Pairs.antt =====
-- nvlist/encoder.go: writeNvPairs, and Marshal on top of it.
use go_zfs.Base.{
  ℕ, zero, suc, ◌+◌, ◌-◌, ◌*◌, ◌^◌, Bool, true, false, List, [], ◌∷◌, Option, some, none, Bytes,
  length, leb, if◌then◌else◌,
}
use go_zfs.Result.{Error, invalid_value, elem_of_interface}
use go_zfs.Result
use go_zfs.Consts.{
  NvType, NvPair, int_kind, float64_kind, width, type_boolean, type_nvlist, type_string,
  type_boolean_array, type_string_array, type_nvlist_array, nvtype_from_kind,
  nvtype_from_array_kind, unique_name_flag,
}
use go_zfs.Value.{
  Value, Values, bool, integer, float64, string, integers, bools, strings, nvlists, interface_slice,
  other_slice, mapping, other_map, struct, ptr, interface, nil_ptr, nil_interface, other, no_values,
  value, values_length, depth,
}
use go_zfs.Encoder.{
  Writer, Outcome, done, failed, panicked, out_of_fuel, ◌>>=◌, ignore_error, skip_n, skip_to_align,
  write_int, write_string, write_nv_header, start_nv_pair, end_nv_pair, write_nv_pair_header,
  write_nvlist_header,
}
use go_zfs.Encoder.Collect.{unpack_val, Pairs, collect}

unfoldable pub write_ints : ℕ → List ℕ → Writer → Outcome
write_ints n [] w = done w
write_ints n (x ∷ xs) w = write_int n x w >>= write_ints n xs

unfoldable pub write_bools : List Bool → Writer → Outcome
write_bools [] w = done w
write_bools (b ∷ bs) w = write_int 4 (if b then 1 else 0) w >>= write_bools bs

unfoldable pub write_strings : List Bytes → Writer → Outcome
write_strings [] w = done w
write_strings (s ∷ ss) w = ignore_error (write_string s w) >>= write_strings ss

unfoldable pub write_nvlist_headers : ℕ → Writer → Outcome
write_nvlist_headers zero w = done w
write_nvlist_headers (suc n) w = write_nvlist_header w >>= write_nvlist_headers n

-- `writeNvPairs` of each element; `rec` is `writeNvPairs`.
unfoldable pub write_children : (Value → Writer → Outcome) → Values → Writer → Outcome
write_children rec no_values w = done w
write_children rec (value v vs) w = rec v w >>= write_children rec vs

-- `if err := w.writeNvPairs(vals[i]); err != nil { return nil }`: an error ends the enclosing call
-- too, but with no error; otherwise the loop goes on with `next`.
unfoldable pub after_nested : (Writer → Outcome) → Outcome → Outcome
after_nested next (done w) = next w
after_nested next (failed e w) = done w
after_nested next (panicked p) = panicked p
after_nested next out_of_fuel = out_of_fuel

-- The check on the length of a slice, and what is written for it.
abbrev checked_length : ℕ → Writer → (Writer → Outcome) → Outcome
checked_length n w write_slice =
    if leb (2 ^ 31 - 1) n then failed invalid_value w else write_slice w

abbrev pub new_pair : ℕ → ℕ → NvType → NvPair
new_pair name_sz n t = record { size = 0; name_sz = name_sz; reserve = 0; value_elem = n; type = t }

-- The `switch t` on the kind of a value, after the name has been written; `next` is the rest of the
-- loop.
unfoldable pub write_value :
    (Value → Writer → Outcome) → (Writer → Outcome) → ℕ → Value → Writer → Outcome
write_value rec next name_sz (integer k n) w = do
  w ← write_int (width k) n w
  w ← end_nv_pair (new_pair name_sz 1 (nvtype_from_kind (int_kind k))) w
  next w
write_value rec next name_sz (float64 n) w = do
  w ← write_int 8 n w
  w ← end_nv_pair (new_pair name_sz 1 (nvtype_from_kind float64_kind)) w
  next w
write_value rec next name_sz (bool b) w = do
  w ← end_nv_pair (new_pair name_sz 0 type_boolean) w
  next w
write_value rec next name_sz (mapping es) w = do
  w ← write_nvlist_header w
  w ← end_nv_pair (new_pair name_sz 1 type_nvlist) w
  after_nested next (rec (mapping es) w)
write_value rec next name_sz (other_map n) w = do
  w ← write_nvlist_header w
  w ← end_nv_pair (new_pair name_sz 1 type_nvlist) w
  after_nested next (rec (other_map n) w)
write_value rec next name_sz (struct fs) w = do
  w ← write_nvlist_header w
  w ← end_nv_pair (new_pair name_sz 1 type_nvlist) w
  after_nested next (rec (struct fs) w)
write_value rec next name_sz (string s) w = do
  w ← ignore_error (write_string s w)
  w ← end_nv_pair (new_pair name_sz 1 type_string) w
  next w
write_value rec next name_sz (integers k xs) w = checked_length (length xs) w λ w. do
  w ← write_ints (width k) xs w
  w ← end_nv_pair (new_pair name_sz (length xs) (nvtype_from_array_kind (int_kind k))) w
  next w
write_value rec next name_sz (bools bs) w = checked_length (length bs) w λ w. do
  w ← write_bools bs w
  w ← end_nv_pair (new_pair name_sz (length bs) type_boolean_array) w
  next w
write_value rec next name_sz (strings ss) w = checked_length (length ss) w λ w. do
  w ← write_strings ss (skip_n (8 * length ss) w)
  w ← end_nv_pair (new_pair name_sz (length ss) type_string_array) w
  next w
write_value rec next name_sz (nvlists vs) w = checked_length (values_length vs) w λ w. do
  w ← write_nvlist_headers (values_length vs) (skip_n (8 * values_length vs) w)
  w ← end_nv_pair (new_pair name_sz (values_length vs) type_nvlist_array) w
  w ← write_children rec vs w
  next w
write_value rec next name_sz (interface_slice n) w =
    checked_length n w λ w. panicked elem_of_interface
write_value rec next name_sz (other_slice n) w = checked_length n w λ w. failed invalid_value w
write_value rec next name_sz (ptr v) w = failed invalid_value w
write_value rec next name_sz (interface v) w = failed invalid_value w
write_value rec next name_sz nil_ptr w = failed invalid_value w
write_value rec next name_sz nil_interface w = failed invalid_value w
write_value rec next name_sz (other zero?) w = failed invalid_value w

unfoldable pub is_false : Value → Bool
is_false (bool false) = true
is_false _ = false

-- One round of the loop over `names` and `vals`.
unfoldable pub write_pair :
    (Value → Writer → Outcome) → (Writer → Outcome) → Bytes → Value → Writer → Outcome
unfolding is_false
write_pair rec next name val w =
    let name_len = length name + 1 in
    if leb (2 ^ 15 - 1) name_len
    then failed invalid_value w
    else if is_false val
    then next w
    else (do
      w ← ignore_error (write_string name (start_nv_pair w))
      write_value rec next name_len val (skip_to_align w))

-- The loop, and the trailer behind it.
unfoldable pub write_loop : (Value → Writer → Outcome) → Pairs → Writer → Outcome
write_loop rec [] w = done (skip_n 4 w)
write_loop rec ((name, val) ∷ pairs) w = write_pair rec (write_loop rec pairs) name val w

abbrev pub write_collected : (Value → Writer → Outcome) → Option Pairs → Writer → Outcome
write_collected rec none w = failed invalid_value w
write_collected rec (some pairs) w = write_loop rec pairs w

-- The fuel is how deep values may be nested.
unfoldable pub write_nv_pairs : ℕ → Value → Writer → Outcome
write_nv_pairs zero v w = out_of_fuel
write_nv_pairs (suc fuel) v w = elim (unpack_val v) [
  | none ↦ done w
  | some u ↦ write_collected (write_nv_pairs fuel) (collect u) w
]

abbrev pub new_writer : Writer
new_writer = record {
  nvlist = [];
  nvpair_start_byte = 0;
  mode_write_from_start_byte = false;
  endianness = none;
  flags = unique_name_flag;
  version = 0;
}

abbrev pub written : Outcome → Result.Result Bytes
written (done w) = Result.ok w.nvlist
written (failed e w) = Result.err e
written (panicked p) = Result.panic p
written out_of_fuel = Result.out_of_fuel

-- One level of fuel for each level of the value, and one for the call itself.
unfoldable pub marshal : Value → Result.Result Bytes
unfolding write_nv_header write_nv_pairs write_loop write_pair write_value unpack_val collect
    nvtype_from_kind nvtype_from_array_kind skip_n skip_to_align start_nv_pair end_nv_pair
    write_nv_pair_header write_int write_string write_nvlist_header write_ints write_bools
    write_strings write_nvlist_headers write_children after_nested values_length depth
marshal v = written (write_nv_header new_writer >>= write_nv_pairs (suc (depth v)) v)
