-- ===== src/Encoder/Encodable.antt =====
-- nvlist/encoder.go: the values that writeNvPairs writes in full.
use go_zfs.Base.{ℕ, ◌+◌, ◌-◌, ◌^◌, ◌<◌, ◌≡◌, ◌≢◌, Bytes, length, All, if◌then◌else◌}
use go_zfs.Value.{
  Value, Values, Entries, Fields, string, integers, bools, strings, nvlists, interface_slice,
  other_slice, mapping, other_map, struct, ptr, interface, nil_ptr, nil_interface, other, no_values,
  value, no_entries, entry, no_fields, field, values_length,
}
use go_zfs.Encoder.Collect.{unpack_val, split_tag, leaves_out, field_name}

abbrev pub NulFree : Bytes → Type 0
NulFree = All (λ c. c ≢ 0)

-- With its null byte a name is shorter than math.MaxInt16.
abbrev pub IsName : Bytes → Type 0
IsName name = NulFree name × (length name + 1 < 2 ^ 15 - 1)

abbrev pub Fits : ℕ → Type 0
Fits n = n < 2 ^ 31 - 1

-- Neither a pointer nor an interface value.
abbrev pub IsDirect : Value → Type 0
IsDirect (ptr v) = ⊥
IsDirect (interface v) = ⊥
IsDirect nil_ptr = ⊥
IsDirect nil_interface = ⊥
IsDirect _ = Unit {0}

-- A map or a struct, maybe behind a pointer or an interface.
abbrev pub IsList : Value → Type 0
IsList (mapping es) = Unit {0}
IsList (struct fs) = Unit {0}
IsList (other_map n) = Unit {0}
IsList (ptr v) = IsList v
IsList (interface v) = IsList v
IsList _ = ⊥

unfoldable mutual
  unfolding split_tag leaves_out unpack_val field_name values_length

  pub Encodable : Value → Type 0
  Encodable (string s) = NulFree s
  Encodable (integers k xs) = Fits (length xs)
  Encodable (bools bs) = Fits (length bs)
  Encodable (strings ss) = Fits (length ss) × All NulFree ss
  Encodable (nvlists vs) = Fits (values_length vs) × AreEncodable vs
  Encodable (mapping es) = EncodableEntries es
  Encodable (struct fs) = EncodableFields fs
  Encodable (other_map n) = n ≡ 0
  Encodable (ptr v) = IsDirect v × Encodable v
  Encodable (interface v) = IsDirect v × Encodable v
  Encodable (interface_slice n) = ⊥
  Encodable (other_slice n) = ⊥
  Encodable (other b) = ⊥
  Encodable _ = Unit {0}

  pub AreEncodable : Values → Type 0
  AreEncodable no_values = Unit {0}
  AreEncodable (value v vs) = IsList v × Encodable v × AreEncodable vs

  pub EncodableEntries : Entries → Type 0
  EncodableEntries no_entries = Unit {0}
  EncodableEntries (entry name v es) = IsName name × Encodable v × EncodableEntries es

  -- A field that its tag leaves out may hold anything.
  pub EncodableFields : Fields → Type 0
  EncodableFields no_fields = Unit {0}
  EncodableFields (field name tag v fs) =
      let (head, options) = split_tag tag in
      (if leaves_out options (unpack_val v)
        then Unit {0}
        else (IsName (field_name head name) × Encodable v))
      × EncodableFields fs
