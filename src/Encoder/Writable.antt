-- ===== src/Encoder/Writable.antt =====
-- nvlist/encoder.go: the pairs that writeNvPairs collects, and the loop that writes them.
use go_zfs.Base.{
  ℕ, ◌+◌, ◌-◌, ◌^◌, ◌<◌, ◌≡◌, ◌≢◌, refl, ap, ◌∙◌, true, false, [], ◌∷◌, ◌++◌, Option, some, none,
  Bytes, length, lt→leb, append_assoc, append-nil, length-append, ◌⊎◌, inl, inr, Bool-cases, arith,
}
use go_zfs.Value.{
  Value, Entries, Fields, bool, ptr, interface, nil_ptr, nil_interface, no_entries, entry,
  no_fields, field, depth, entries_depth, fields_depth,
}
use go_zfs.Encoder.{Writer, Outcome, skip_n}
use go_zfs.Encoder.Collect.{
  Pairs, unpack_interface, unpack_val, split_tag, leaves_out, collect_entries, collect_fields,
  add_valid,
}
use go_zfs.Encoder.Pairs.{is_false, write_pair, write_loop}
use go_zfs.Encoder.Encodable.{IsName, IsDirect, Encodable, EncodableEntries, EncodableFields}
use go_zfs.Encoder.Steps.{writer}
use go_zfs.Encoder.Payloads.{
  Writes, WritesLists, encode_item, write_name-writer, align_name-writer, write_value-writer,
}
use go_zfs.Format.{
  NvValue, NvList, end, add_pair, encode_list, nvvalue_of, nvlist_of, entries_list, fields_list,
}

-- What `unpackVal` makes of a value, against the value itself.
record Unpacked (v : Value) (u : Value) : Type 0 where
  direct : IsDirect u
  encodable : Encodable u
  same_value : nvvalue_of v ≡ nvvalue_of u
  same_depth : depth u ≡ depth v

-- The pairs that `writeNvPairs` collects can be written one by one.
abbrev pub AllWritable : ℕ → Pairs → Type 0
AllWritable f [] = Unit {0}
AllWritable f ((name, u) ∷ pairs) =
    IsName name × IsDirect u × Encodable u × (depth u < f) × AllWritable f pairs

abbrev pub pairs_list : Pairs → NvList
pairs_list [] = end
pairs_list ((name, u) ∷ pairs) = add_pair name (nvvalue_of u) (pairs_list pairs)

encode-add_pair :
    (name : Bytes) (x : Option NvValue) (l : NvList)
    → encode_list (add_pair name x l) ≡ encode_item name x ++ encode_list l
unfolding encode_list
encode-add_pair name none l = refl
encode-add_pair name (some x) l = refl

is_false-cases : (u : Value) → (u ≡ bool false) ⊎ ((is_false u ≡ false) × (u ≢ bool false))
unfolding is_false
is_false-cases (bool false) = inl refl
is_false-cases (bool true) = inr (refl, λ p. cc)
is_false-cases _ = inr (refl, λ p. cc)

pub write_pair-writer :
    (f : ℕ) (rec : Value → Writer → Outcome) (next : Writer → Outcome) (name bs : Bytes) (u : Value)
    → WritesLists f rec
    → IsName name
    → IsDirect u
    → Encodable u
    → depth u < f
    → 0 < length bs
    → write_pair rec next name u (writer bs 0)
      ≡ next (writer (bs ++ encode_item name (nvvalue_of u)) 0)
unfolding write_pair nvvalue_of
write_pair-writer f rec next name bs u h (nul_free, short) i e d pos = elim (is_false-cases u) [
  | inl p ↦ rw (lt→leb (2 ^ 15 - 1) (length name + 1) short, p, append-nil bs)
  | inr (q, nf) ↦
      rw
        (
          lt→leb (2 ^ 15 - 1) (length name + 1) short,
          q,
          write_name-writer name bs nul_free,
          align_name-writer name bs,
        )
        (write_value-writer f rec next name bs h pos u i e d nf)
]

pub write_loop-Writes :
    (f : ℕ) (rec : Value → Writer → Outcome) (pairs : Pairs)
    → WritesLists f rec
    → AllWritable f pairs
    → Writes (write_loop rec pairs) (encode_list (pairs_list pairs))
unfolding write_loop skip_n
write_loop-Writes f rec [] h a bs pos = unfold encode_list in refl
write_loop-Writes f rec ((name, u) ∷ pairs) h (n, i, e, d, rest) bs pos =
    let out = encode_item name (nvvalue_of u) in
    write_pair-writer f rec (write_loop rec pairs) name bs u h n i e d pos
    ∙ write_loop-Writes f rec pairs h rest (bs ++ out) (omega (arith, length-append bs out))
    ∙ rw (
      encode-add_pair name (nvvalue_of u) (pairs_list pairs),
      append_assoc bs out (encode_list (pairs_list pairs)),
    )

pub unpack_interface-direct : (v : Value) → IsDirect v → unpack_interface v ≡ some v
unfolding unpack_interface
unpack_interface-direct (interface v) i = absurd i
unpack_interface-direct nil_interface i = absurd i
unpack_interface-direct _ i = refl

-- `unpackVal` of a value that can be written: nothing for a nil, and otherwise the value that
-- stands behind at most one pointer or interface.
unpack_val-cases :
    (v : Value)
    → Encodable v
    → ((unpack_val v ≡ none) × (nvvalue_of v ≡ none))
      ⊎ ((u : Value) × (unpack_val v ≡ some u) × Unpacked v u)
unfolding unpack_val unpack_interface nvvalue_of depth Encodable
unpack_val-cases nil_ptr e = inl (refl, refl)
unpack_val-cases nil_interface e = inl (refl, refl)
unpack_val-cases (interface v) (i, e) =
    inr (v, refl, record { direct = i; encodable = e; same_value = refl; same_depth = refl })
unpack_val-cases (ptr v) (i, e) = inr (
  v,
  unpack_interface-direct v i,
  record { direct = i; encodable = e; same_value = refl; same_depth = refl },
)
unpack_val-cases v e =
    inr (v, refl, record { direct = tt; encodable = e; same_value = refl; same_depth = refl })

add_valid-AllWritable :
    (f : ℕ) (name : Bytes) (v : Value) (pairs : Pairs) (l : NvList)
    → IsName name
    → Encodable v
    → depth v < f
    → AllWritable f pairs
    → pairs_list pairs ≡ l
    → AllWritable f (add_valid name (unpack_val v) pairs)
      × (pairs_list (add_valid name (unpack_val v) pairs) ≡ add_pair name (nvvalue_of v) l)
add_valid-AllWritable f name v pairs l n e d rest same = elim (unpack_val-cases v e) [
  | inl (p, q) ↦ rw (p, q) (rest, same)
  | inr (u, p, k) ↦
      rw (p, k.same_value)
        (
          (n, k.direct, k.encodable, omega (arith, k.same_depth), rest),
          ap (add_pair name (nvvalue_of u)) same,
        )
]

pub collect_entries-AllWritable :
    (f : ℕ) (es : Entries)
    → EncodableEntries es
    → entries_depth es < f
    → AllWritable f (collect_entries es) × (pairs_list (collect_entries es) ≡ entries_list es)
unfolding collect_entries Encodable depth nvlist_of
collect_entries-AllWritable f no_entries e d = (tt, refl)
collect_entries-AllWritable f (entry name v es) (n, e, es_ok) d =
    let (rest, same) = collect_entries-AllWritable f es es_ok (omega arith) in
    add_valid-AllWritable f name v _ _ n e (omega arith) rest same

pub collect_fields-AllWritable :
    (f : ℕ) (fs : Fields)
    → EncodableFields fs
    → fields_depth fs < f
    → AllWritable f (collect_fields fs) × (pairs_list (collect_fields fs) ≡ fields_list fs)
unfolding collect_fields Encodable depth nvlist_of
collect_fields-AllWritable f no_fields e d = (tt, refl)
collect_fields-AllWritable f (field name tag v fs) (e, fs_ok) d =
    let (rest, same) = collect_fields-AllWritable f fs fs_ok (omega arith) in
    elim (Bool-cases (leaves_out (split_tag tag).1 (unpack_val v))) [
      | inl out ↦ rw out (rest, same)
      | inr stays ↦
          let (n, e') = rw stays at e in
          rw stays (add_valid-AllWritable f _ v _ _ n e' (omega arith) rest same)
    ]
