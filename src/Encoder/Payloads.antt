-- ===== src/Encoder/Payloads.antt =====
-- nvlist/encoder.go: what is written for one value, between the name and the next pair.
use go_zfs.Base.{
  ℕ, suc, ◌+◌, ◌-◌, ◌*◌, ◌^◌, ◌<◌, ◌≡◌, ◌≢◌, refl, ap, ◌∙◌, true, false, [], ◌∷◌, ◌++◌, Option,
  some, none, Bytes, length, lt→leb, append_assoc, append-nil, length-append, arith,
}
use go_zfs.Wire.{low_bytes}
use go_zfs.Consts.{
  IntKind, NvType, width, type_unknown, int_kind, nvtype_from_kind, nvtype_from_array_kind,
  nvlist_header_size, type_nvlist, type_boolean, type_double, type_string, type_boolean_array,
  type_string_array, type_nvlist_array,
}
use go_zfs.Value.{
  Value, Values, bool, integer, float64, string, integers, bools, strings, nvlists, interface_slice,
  other_slice, mapping, other_map, struct, ptr, interface, nil_ptr, nil_interface, other, no_values,
  value, values_length, depth, values_depth,
}
use go_zfs.Encoder.{
  Writer, Outcome, done, ◌>>=◌, skip_n, write_string, start_nv_pair, end_nv_pair, skip_to_align,
  write_nvlist_header,
}
use go_zfs.Encoder.Pairs.{write_children, after_nested, write_value, new_pair}
use go_zfs.Encoder.Encodable.{NulFree, IsDirect, IsList, Encodable, AreEncodable}
use go_zfs.Encoder.Steps.{
  writer, write_int-writer, write_string-writer, skip_to_align-writer, end_nv_pair-writer,
}
use go_zfs.Encoder.Elements.{
  write_ints-writer, write_bools-writer, write_strings-writer, write_nvlist_header-writer,
  write_nvlist_headers-writer,
}
use go_zfs.Format.{
  zeros, named, pair_body, pair_bytes, list_header, list_headers, encode_ints, encode_flags,
  encode_texts, encode_value, encode_list, encode_lists, lists_length, NvValue, nvvalue_of,
  nvlist_of, nvlists_of,
}

-- The bytes with a pair open behind them, its name written.
abbrev pub opened : Bytes → Bytes → Bytes
opened bs name = bs ++ (zeros nvlist_header_size ++ named name)

-- `startNvPair` and the name.
pub write_name-writer :
    (name bs : Bytes)
    → NulFree name
    → write_string name (start_nv_pair (writer bs 0))
      ≡ done (writer (bs ++ (zeros nvlist_header_size ++ (name ++ 0 ∷ []))) (length bs))
unfolding start_nv_pair
write_name-writer name bs h =
    write_string-writer name (bs ++ zeros nvlist_header_size) (length bs) h
    ∙ rw (append_assoc bs (zeros nvlist_header_size) (name ++ 0 ∷ []))

-- The padding behind it.
pub align_name-writer :
    (name bs : Bytes)
    → skip_to_align (writer (bs ++ (zeros nvlist_header_size ++ (name ++ 0 ∷ []))) (length bs))
      ≡ writer (opened bs name) (length bs)
unfolding named
align_name-writer name bs =
    skip_to_align-writer bs (zeros nvlist_header_size ++ (name ++ 0 ∷ [])) (length bs)
      (nvlist_header_size + (length name + 1)) refl (omega (arith, length-append name (0 ∷ [])))
    ∙ rw (append_assoc name (0 ∷ []))

-- A pair is closed behind its payload.
pub close :
    (bs name payload : Bytes) (n : ℕ) (t : NvType)
    → 0 < length bs
    → t ≢ type_unknown
    → end_nv_pair (new_pair (length name + 1) n t) (writer (opened bs name ++ payload) (length bs))
      ≡ done (writer (bs ++ pair_bytes name n t payload) 0)
unfolding pair_bytes pair_body
close bs name payload n t pos known =
    let e : opened bs name ++ payload
        ≡ bs ++ (zeros nvlist_header_size ++ (named name ++ payload)) =
      append_assoc bs (zeros nvlist_header_size ++ named name) payload in
    rw e (
      end_nv_pair-writer bs (named name ++ payload) (length bs) (length name + 1) n t refl pos known
      ∙ rw (length-append (named name) payload, append_assoc (named name) payload))

-- From any writer behind the header and between two pairs, `act` appends `out`.
abbrev pub Writes : (Writer → Outcome) → Bytes → Type 0
Writes act out =
    (front : Bytes) → 0 < length front → act (writer front 0) ≡ done (writer (front ++ out) 0)

-- `rec` writes the lists that are nested less than `f` deep.
abbrev pub WritesLists : ℕ → (Value → Writer → Outcome) → Type 0
WritesLists f rec =
    (u : Value) → Encodable u → IsList u → depth u < f → Writes (rec u) (encode_list (nvlist_of u))

write_children-Writes :
    (f : ℕ) (rec : Value → Writer → Outcome) (vs : Values)
    → WritesLists f rec
    → AreEncodable vs
    → values_depth vs < f
    → Writes (write_children rec vs) (encode_lists (nvlists_of vs))
unfolding write_children AreEncodable depth nvlist_of encode_list
write_children-Writes f rec no_values h e d front pos = rw append-nil
write_children-Writes f rec (value v vs) h (l, e, es) d front pos =
    let out = encode_list (nvlist_of v) in
    rw (h v e l (omega arith) front pos) (
      write_children-Writes f rec vs h es (omega arith) (front ++ out)
        (omega (arith, length-append front out))
      ∙ rw (append_assoc front out (encode_lists (nvlists_of vs))))

kind_known : (k : IntKind) → nvtype_from_kind (int_kind k) ≢ type_unknown
unfolding nvtype_from_kind
kind_known k e = ground arith

array_kind_known : (k : IntKind) → nvtype_from_array_kind (int_kind k) ≢ type_unknown
unfolding nvtype_from_array_kind
array_kind_known k e = ground arith

lists_length-nvlists_of : (vs : Values) → lists_length (nvlists_of vs) ≡ values_length vs
unfolding lists_length nvlist_of values_length
lists_length-nvlists_of no_values = refl
lists_length-nvlists_of (value v vs) = ap suc (lists_length-nvlists_of vs)

-- What follows the name of a value of its own kind.
abbrev pub encode_item : Bytes → Option NvValue → Bytes
encode_item name none = []
encode_item name (some x) = encode_value name x

module _ (f : ℕ) (rec : Value → Writer → Outcome) (next : Writer → Outcome) (name bs : Bytes)
    (h : WritesLists f rec) (pos : 0 < length bs) where
  nested :
      (v : Value)
      → Encodable v
      → IsList v
      → depth v < f
      → (do
        w ← write_nvlist_header (writer (opened bs name) (length bs))
        w ← end_nv_pair (new_pair (length name + 1) 1 type_nvlist) w
        after_nested next (rec v w))
        ≡ next (
            writer
              (bs ++ (pair_bytes name 1 type_nvlist list_header ++ encode_list (nvlist_of v)))
              0)
  unfolding after_nested
  nested v e l d =
      let front = bs ++ pair_bytes name 1 type_nvlist list_header in
      rw (
        write_nvlist_header-writer (opened bs name) (length bs),
        close bs name list_header 1 type_nvlist pos (λ p. cc),
        h v e l d front
            (omega (arith, length-append bs (pair_bytes name 1 type_nvlist list_header))),
        append_assoc bs (pair_bytes name 1 type_nvlist list_header) (encode_list (nvlist_of v)),
      )

  pub write_value-writer :
      (v : Value)
      → IsDirect v
      → Encodable v
      → depth v < f
      → v ≢ bool false
      → write_value rec next (length name + 1) v (writer (opened bs name) (length bs))
        ≡ next (writer (bs ++ encode_item name (nvvalue_of v)) 0)
  unfolding write_value Encodable nvvalue_of encode_value depth skip_n nvtype_from_kind
  write_value-writer (bool true) i e d nf =
      rw (← append-nil (opened bs name), close bs name [] 0 type_boolean pos (λ p. cc))
  write_value-writer (bool false) i e d nf = absurd (nf refl)
  write_value-writer (integer k n) i e d nf = rw (
    write_int-writer,
    close bs name (low_bytes (width k) n) 1 (nvtype_from_kind (int_kind k)) pos (kind_known k),
  )
  write_value-writer (float64 n) i e d nf =
      rw (write_int-writer, close bs name (low_bytes 8 n) 1 type_double pos (λ p. cc))
  write_value-writer (string s) i e d nf =
      rw (write_string-writer s _ _ e, close bs name (s ++ 0 ∷ []) 1 type_string pos (λ p. cc))
  write_value-writer (integers k xs) i e d nf = rw (
    lt→leb (2 ^ 31 - 1) (length xs) e,
    write_ints-writer,
    close bs name (encode_ints (width k) xs) (length xs) (nvtype_from_array_kind (int_kind k)) pos
        (array_kind_known k),
  )
  write_value-writer (bools xs) i e d nf = rw (
    lt→leb (2 ^ 31 - 1) (length xs) e,
    write_bools-writer,
    close bs name (encode_flags xs) (length xs) type_boolean_array pos (λ p. cc),
  )
  write_value-writer (strings ss) i e d nf = rw (
    lt→leb (2 ^ 31 - 1) (length ss) e.0,
    write_strings-writer ss (opened bs name ++ zeros (8 * length ss)) (length bs) e.1,
    append_assoc (opened bs name) (zeros (8 * length ss)) (encode_texts ss),
    close bs name (zeros (8 * length ss) ++ encode_texts ss) (length ss) type_string_array pos
        (λ p. cc),
  )
  write_value-writer (nvlists vs) i e d nf =
      let n = values_length vs in
      let payload = zeros (8 * n) ++ list_headers n in
      let front = bs ++ pair_bytes name n type_nvlist_array payload in
      rw (
        lists_length-nvlists_of vs,
        lt→leb (2 ^ 31 - 1) n e.0,
        write_nvlist_headers-writer n (opened bs name ++ zeros (8 * n)) (length bs),
        append_assoc (opened bs name) (zeros (8 * n)) (list_headers n),
        close bs name payload n type_nvlist_array pos (λ p. cc),
        write_children-Writes f rec vs h e.1 (omega arith) front
            (omega (arith, length-append bs (pair_bytes name n type_nvlist_array payload))),
        append_assoc bs (pair_bytes name n type_nvlist_array payload)
            (encode_lists (nvlists_of vs)),
      )
  write_value-writer (mapping es) i e d nf = nested (mapping es) e tt d
  write_value-writer (struct fs) i e d nf = nested (struct fs) e tt d
  write_value-writer (other_map n) i e d nf = nested (other_map n) e tt d
  write_value-writer (interface_slice n) i e d nf = absurd e
  write_value-writer (other_slice n) i e d nf = absurd e
  write_value-writer (other b) i e d nf = absurd e
  write_value-writer (ptr v) i e d nf = absurd i
  write_value-writer (interface v) i e d nf = absurd i
  write_value-writer nil_ptr i e d nf = absurd i
  write_value-writer nil_interface i e d nf = absurd i
