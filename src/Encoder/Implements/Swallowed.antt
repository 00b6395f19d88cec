-- ===== src/Encoder/Implements/Swallowed.antt =====
-- nvlist/encoder.go: a nested map that is refused, whose error writeNvPairs drops.
use go_zfs.Base.{
  ℕ, suc, ◌+◌, ◌-◌, ◌^◌, ◌<◌, ◌≤◌, ◌≡◌, refl, ap, ◌∙◌, [], ◌∷◌, ◌++◌, Option, some, none, Bytes,
  length, lt→leb, append_assoc, length-append, arith,
}
use go_zfs.Result.{Result, err, invalid_value}
use go_zfs.Consts.{type_nvlist}
use go_zfs.Value.{
  Value, Entries, mapping, other_map, interface, no_entries, entry, entries_depth, depth,
}
use go_zfs.Encoder.{Writer, Outcome, done, failed}
use go_zfs.Encoder.Collect.{
  Pairs, unpack_val, unpack_interface, add_valid, collect_entries, collect,
}
use go_zfs.Encoder.Pairs.{
  is_false, write_pair, write_loop, write_value, write_nv_pairs, after_nested, written, marshal,
}
use go_zfs.Encoder.Encodable.{IsName, EncodableEntries}
use go_zfs.Encoder.Steps.{writer}
use go_zfs.Encoder.Elements.{write_nvlist_header-writer}
use go_zfs.Encoder.Payloads.{encode_item, write_name-writer, align_name-writer, opened, close}
use go_zfs.Encoder.Writable.{
  AllWritable, pairs_list, write_pair-writer, collect_entries-AllWritable,
}
use go_zfs.Encoder.Implements.{write_nv_pairs-WritesLists, whole_header}
use go_zfs.Format.{
  NvValue, NvList, end, pair, add_pair, nvvalue_of, entries_list, encode_value, pair_bytes,
  list_header,
}
use go_zfs.RoundTrip.Maps.{append}

-- The bytes of the pairs, without the trailer.
unfoldable pub pairs_bytes : NvList → Bytes
pairs_bytes end = []
pairs_bytes (pair name v l) = encode_value name v ++ pairs_bytes l

pairs_bytes-add_pair :
    (name : Bytes) (x : Option NvValue) (l : NvList)
    → pairs_bytes (add_pair name x l) ≡ encode_item name x ++ pairs_bytes l
unfolding pairs_bytes
pairs_bytes-add_pair name none l = refl
pairs_bytes-add_pair name (some x) l = refl

-- A map whose keys are no strings.
abbrev pub refused : ℕ → Value
refused n = other_map (suc n)

module _ (f n : ℕ) (name : Bytes) (more : Pairs) (is_name : IsName name) where
  abbrev rec : Value → Writer → Outcome
  rec = write_nv_pairs (suc f)

  rec-refused : (w : Writer) → rec (refused n) w ≡ failed invalid_value w
  unfolding write_nv_pairs collect unpack_val unpack_interface
  rec-refused w = refl

  -- The header of its pair is written, and nothing behind it.
  write_pair-refused :
      (bs : Bytes)
      → 0 < length bs
      → write_pair rec (write_loop rec more) name (refused n) (writer bs 0)
        ≡ done (writer (bs ++ pair_bytes name 1 type_nvlist list_header) 0)
  unfolding write_pair write_value is_false after_nested
  write_pair-refused bs pos = rw (
    lt→leb (2 ^ 15 - 1) (length name + 1) is_name.1,
    write_name-writer name bs is_name.0,
    align_name-writer name bs,
    write_nvlist_header-writer (opened bs name) (length bs),
    close bs name list_header 1 type_nvlist pos (λ p. cc),
    rec-refused (writer (bs ++ pair_bytes name 1 type_nvlist list_header) 0),
  )

  write_loop-refused :
      (pairs : Pairs) (bs : Bytes)
      → AllWritable (suc f) pairs
      → 0 < length bs
      → write_loop rec (pairs ++ (name, refused n) ∷ more) (writer bs 0)
        ≡ done (
            writer
              (bs ++ (pairs_bytes (pairs_list pairs) ++ pair_bytes name 1 type_nvlist list_header))
              0)
  unfolding write_loop pairs_bytes
  write_loop-refused [] bs a pos = write_pair-refused bs pos
  write_loop-refused ((nm, u) ∷ pairs) bs (m, i, e, d, rest) pos =
      let out = encode_item nm (nvvalue_of u) in
      write_pair-writer (suc f) rec (write_loop rec (pairs ++ (name, refused n) ∷ more)) nm bs u
        (write_nv_pairs-WritesLists (suc f)) m i e d pos
      ∙ write_loop-refused pairs (bs ++ out) rest (omega (arith, length-append bs out))
      ∙ rw (
        pairs_bytes-add_pair nm (nvvalue_of u) (pairs_list pairs),
        append_assoc bs out
            (pairs_bytes (pairs_list pairs) ++ pair_bytes name 1 type_nvlist list_header),
        append_assoc out (pairs_bytes (pairs_list pairs))
            (pair_bytes name 1 type_nvlist list_header),
      )

collect_entries-append :
    (es fs : Entries) → collect_entries (append es fs) ≡ collect_entries es ++ collect_entries fs
unfolding collect_entries append
collect_entries-append no_entries fs = refl
collect_entries-append (entry name v es) fs =
    added name (unpack_val v) (collect_entries es) (collect_entries fs)
      (collect_entries-append es fs)
  where
    added :
        (name : Bytes) (u : Option Value) (ps qs : Pairs)
        → collect_entries (append es fs) ≡ ps ++ qs
        → add_valid name u (collect_entries (append es fs)) ≡ add_valid name u ps ++ qs
    added name none ps qs e = e
    added name (some u) ps qs e = ap (λ ps. (name, u) ∷ ps) e

entries_depth-append : (es fs : Entries) → entries_depth es ≤ entries_depth (append es fs)
unfolding entries_depth append
entries_depth-append no_entries fs = omega arith
entries_depth-append (entry name v es) fs = omega (arith, entries_depth-append es fs)

-- A map with entries that can be encoded, behind them one whose value is a map with keys that are no
-- strings, and then any others: `Marshal`, which refuses the inner map by itself, succeeds, and returns
-- the header of the list, the pairs of the entries in front and the header of the pair of the inner map.
-- The entries behind it are not there, and neither are the ends of the two lists.
pub marshal-swallowed :
    (es more : Entries) (name : Bytes) (n : ℕ)
    → EncodableEntries es
    → IsName name
    → (marshal (refused n) ≡ err invalid_value)
      × (marshal (mapping (append es (entry name (interface (refused n)) more)))
          ≡ Result.ok (
              whole_header
              ++ (pairs_bytes (entries_list es) ++ pair_bytes name 1 type_nvlist list_header)))
unfolding marshal write_nv_pairs collect unpack_val unpack_interface depth whole_header
    collect_entries
marshal-swallowed es more name n e is_name =
    let all = append es (entry name (interface (refused n)) more) in
    let (a, same) =
      collect_entries-AllWritable (suc (entries_depth all)) es e
        (omega (arith, entries_depth-append es (entry name (interface (refused n)) more))) in
    let loop : write_loop (write_nv_pairs (suc (entries_depth all))) (collect_entries all)
          (writer whole_header 0)
        ≡ done (
            writer
              (whole_header
                ++ (pairs_bytes (entries_list es) ++ pair_bytes name 1 type_nvlist list_header))
              0) =
      rw (collect_entries-append es (entry name (interface (refused n)) more), ← same)
        (write_loop-refused (entries_depth all) n name (collect_entries more) is_name
          (collect_entries es) whole_header a (omega arith)) in
    (refl, ap written loop)
