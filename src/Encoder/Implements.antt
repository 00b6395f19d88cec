-- ===== src/Encoder/Implements.antt =====
-- nvlist/encoder.go: writeNvPairs and Marshal against the wire format.
pub mod Swallowed
use go_zfs.Base.{
  ℕ, zero, suc, ◌+◌, ◌-◌, ◌^◌, ◌<◌, ◌≡◌, ◌≢◌, refl, ap, ◌∙◌, true, false, [], ◌∷◌, ◌++◌, Option,
  some, none, Bytes, length, lt→leb, append_assoc, append-nil, length-append, ◌⊎◌, inl, inr,
  Bool-cases, arith,
}
use go_zfs.Value.{
  Value, Entries, Fields, bool, mapping, other_map, struct, ptr, interface, nil_ptr, nil_interface,
  no_entries, entry, no_fields, field, depth, entries_depth, fields_depth,
}
use go_zfs.Wire.{low_bytes}
use go_zfs.Result
use go_zfs.Encoder.{Writer, Outcome, skip_n}
use go_zfs.Encoder.Collect.{
  Pairs, unpack_interface, unpack_val, split_tag, leaves_out, collect_entries, collect_fields,
  collect, add_valid,
}
use go_zfs.Encoder.Pairs.{
  write_collected, written, is_false, write_pair, write_loop, write_nv_pairs, marshal,
}
use go_zfs.Encoder.Encodable.{
  IsName, IsDirect, IsList, Encodable, EncodableEntries, EncodableFields,
}
use go_zfs.Encoder.Steps.{writer}
use go_zfs.Encoder.Payloads.{
  Writes, WritesLists, encode_item, write_name-writer, align_name-writer, write_value-writer,
}
use go_zfs.Format.{
  NvValue, NvList, end, add_pair, encode_list, encode, nvvalue_of, nvlist_of, entries_list,
  fields_list,
}
use go_zfs.Encoder.Writable.{
  AllWritable, pairs_list, write_loop-Writes, unpack_interface-direct, collect_entries-AllWritable,
  collect_fields-AllWritable,
}

-- A map or a struct itself.
collected-Writes :
    (f : ℕ) (rec : Value → Writer → Outcome) (u : Value)
    → WritesLists f rec
    → IsDirect u
    → IsList u
    → Encodable u
    → depth u < suc f
    → Writes (write_collected rec (collect u)) (encode_list (nvlist_of u))
unfolding collect Encodable depth nvlist_of
collected-Writes f rec (mapping es) h i l e d bs pos =
    let (a, same) = collect_entries-AllWritable f es e (omega arith) in
    rw (← same) (write_loop-Writes f rec (collect_entries es) h a bs pos)
collected-Writes f rec (struct fs) h i l e d bs pos =
    let (a, same) = collect_fields-AllWritable f fs e (omega arith) in
    rw (← same) (write_loop-Writes f rec (collect_fields fs) h a bs pos)
collected-Writes f rec (other_map zero) h i l e d bs pos = write_loop-Writes f rec [] h tt bs pos
collected-Writes f rec (other_map (suc n)) h i l e d bs pos = absurd (omega arith)
collected-Writes f rec (ptr v) h i l e d bs pos = absurd i
collected-Writes f rec (interface v) h i l e d bs pos = absurd i
collected-Writes f rec _ h i l e d bs pos = absurd l

-- `unpackVal` of a map or a struct, or of a pointer to one.
record UnpackedList (v u : Value) : Type 0 where
  unpacks : unpack_val v ≡ some u
  direct : IsDirect u
  is_list : IsList u
  encodable : Encodable u
  same_list : nvlist_of v ≡ nvlist_of u
  same_depth : depth u ≡ depth v

unpack_val-list : (v : Value) → IsList v → Encodable v → (u : Value) × UnpackedList v u
unfolding unpack_val unpack_interface Encodable depth nvlist_of
unpack_val-list (ptr v) l (i, e) = (
  v,
  record {
    unpacks = unpack_interface-direct v i;
    direct = i;
    is_list = l;
    encodable = e;
    same_list = refl;
    same_depth = refl;
  },
)
unpack_val-list (interface v) l (i, e) = (
  v,
  record {
    unpacks = refl;
    direct = i;
    is_list = l;
    encodable = e;
    same_list = refl;
    same_depth = refl;
  },
)
unpack_val-list (mapping es) l e = (
  mapping es,
  record {
    unpacks = refl;
    direct = tt;
    is_list = tt;
    encodable = e;
    same_list = refl;
    same_depth = refl;
  },
)
unpack_val-list (struct fs) l e = (
  struct fs,
  record {
    unpacks = refl;
    direct = tt;
    is_list = tt;
    encodable = e;
    same_list = refl;
    same_depth = refl;
  },
)
unpack_val-list (other_map n) l e = (
  other_map n,
  record {
    unpacks = refl;
    direct = tt;
    is_list = tt;
    encodable = e;
    same_list = refl;
    same_depth = refl;
  },
)
unpack_val-list _ l e = absurd l

write_nv_pairs-WritesLists : (f : ℕ) → WritesLists f (write_nv_pairs f)
unfolding write_nv_pairs
write_nv_pairs-WritesLists zero u e l d bs pos = absurd (omega arith)
write_nv_pairs-WritesLists (suc f) v e l d bs pos =
    let (u, k) = unpack_val-list v l e in
    rw (k.unpacks, write_nv_pairs, k.same_list)
      (collected-Writes f (write_nv_pairs f) u (write_nv_pairs-WritesLists f) k.direct k.is_list
        k.encodable (omega (arith, k.same_depth)) bs pos)

-- What `Marshal` writes in front of the pairs.
pub whole_header : Bytes
unfolding low_bytes
whole_header = 0 ∷ 1 ∷ 0 ∷ 0 ∷ (low_bytes 4 0 ++ low_bytes 4 1)

-- For every map or struct that can be encoded, maybe behind a pointer or an interface, `Marshal`
-- succeeds, and returns the bytes that the wire format gives to the nvlist that the value stands for.
pub marshal-encode :
    (v : Value) → Encodable v → IsList v → marshal v ≡ Result.ok (encode (nvlist_of v))
unfolding marshal encode whole_header
marshal-encode v e l =
    ap written
      (write_nv_pairs-WritesLists (suc (depth v)) v e l (omega arith) whole_header (omega arith))
