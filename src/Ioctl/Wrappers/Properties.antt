-- ===== src/Ioctl/Wrappers/Properties.antt =====
-- ioctl/wrappers.go: the properties of a dataset that the kernel answers, as DatasetListNext returns them.
use go_zfs.Base.{
  ℕ, ◌*◌, ◌<◌, ◌≤◌, ◌≡◌, refl, ap, ◌∙◌, true, List, [], ◌∷◌, ◌++◌, Option, some, none, Bytes,
  length, replicate, length-replicate, arith,
}
use go_zfs.Result.{ok}
use go_zfs.Consts.{uint64}
use go_zfs.Value.{Value, integer, string, bytes, bytes_eq}
use go_zfs.Format.{NvValue, NvList, number, text, list, end, pair, encode}
use go_zfs.Encoder.Collect.{split_tag, field_name}
use go_zfs.Decoder.Cells.{
  Cell, Cells, any_cell, plain_cell, map_cell, struct_cell, no_cells, no_slots, slot, same_type,
  same_kind, assign, set_cell, find_slot, set_slot, settable, set_field, set_entry,
  set_primitive_in, in_map,
}
use go_zfs.Decoder.Targets.{new_element, unmarshal_into}
use go_zfs.Decoder.Readable.{ReadableList, value_of}
use go_zfs.Decoder.Fill.Into.{
  fill, fill_value, fill_nested, fill_elem, fill_pointed, fill_cell, Settled, SettledValue,
  SettledNested, SettledElem, SettledPointed, SettledCell,
}
use go_zfs.Decoder.Fill.Flat.{IsFlat, IsFlat-Settled}
use go_zfs.Decoder.Fill.{unmarshal_into-fill_cell}
use go_zfs.Ioctl.{Cmd, Kernel, enomem, unmarshal_response}
use go_zfs.Ioctl.Types.{Others}
use go_zfs.Ioctl.Numbers.{Platform}
use go_zfs.Ioctl.Buffers.{delimited_buf_to_string}
use go_zfs.Ioctl.Wrappers.{Call}
use go_zfs.Ioctl.Wrappers.Requests.{props_with_source}
use go_zfs.Ioctl.Wrappers.Datasets.{Listed, dataset_list_next}
use go_zfs.Ioctl.Wrappers.Listing.{Lists, listing, answer, dataset_list_next-Lists}

-- The value of a property.
pub data Setting : Type 0 where
  numeric : ℕ → Setting
  textual : Bytes → Setting

-- A property: its name, its value, and where the value comes from.
pub record Property : Type 0 where
  pub name : Bytes
  pub value : Setting
  pub source : Bytes

abbrev nvvalue_of_setting : Setting → NvValue
nvvalue_of_setting (numeric n) = number uint64 n
nvvalue_of_setting (textual s) = text s

abbrev value_of_setting : Setting → Value
value_of_setting (numeric n) = integer uint64 n
value_of_setting (textual s) = string s

abbrev setting_list : Setting → Bytes → NvList
setting_list v source =
    pair (bytes "value") (nvvalue_of_setting v) (pair (bytes "source") (text source) end)

-- The nvlist that the kernel makes of properties.
unfoldable pub properties_list : List Property → NvList
properties_list [] = end
properties_list (p ∷ ps) = pair p.name (list (setting_list p.value p.source)) (properties_list ps)

-- A `PropWithSource`, and one that is zero.
abbrev property_cell : Option Value → Bytes → Cell
property_cell value source = struct_cell (
    slot (bytes "Value") (bytes "value") true (any_cell value)
      (slot (bytes "Source") (bytes "source") true (plain_cell (string source)) no_slots))

abbrev zero_property : Cell
zero_property = property_cell none []

abbrev with_property : Cells → Property → Cells
with_property cs p = set_cell cs p.name (property_cell (some (value_of_setting p.value)) p.source)

-- The map with the properties, set in turn.
unfoldable pub with_properties : Cells → List Property → Cells
with_properties cs [] = cs
with_properties cs (p ∷ ps) = with_properties (with_property cs p) ps

fill_value-setting :
    (cs : Cells) (name : Bytes) (v : Setting) (source : Bytes)
    → fill_value (in_map zero_property (some cs)) name (list (setting_list v source))
      ≡ ok (
          in_map zero_property
            (some (set_cell cs name (property_cell (some (value_of_setting v)) source))))
unfolding fill_value fill_nested fill_elem fill new_element set_entry set_primitive_in set_field
    settable find_slot set_slot assign same_type same_kind split_tag field_name bytes_eq value_of
fill_value-setting cs name (numeric n) source = refl
fill_value-setting cs name (textual s) source = refl

setting_list-IsFlat : (v : Setting) (source : Bytes) → IsFlat (setting_list v source)
setting_list-IsFlat (numeric n) source = (tt, (tt, tt))
setting_list-IsFlat (textual s) source = (tt, (tt, tt))

SettledValue-setting :
    (cs : Cells) (name : Bytes) (v : Setting) (source : Bytes)
    → SettledValue (in_map zero_property (some cs)) name (list (setting_list v source))
unfolding SettledValue SettledNested SettledElem new_element
SettledValue-setting cs name v source =
    IsFlat-Settled (setting_list v source) _ (setting_list-IsFlat v source)

fill-properties :
    (ps : List Property) (cs : Cells)
    → fill (in_map zero_property (some cs)) (properties_list ps)
      ≡ ok (in_map zero_property (some (with_properties cs ps)))
unfolding fill properties_list with_properties
fill-properties [] cs = refl
fill-properties (p ∷ ps) cs =
    rw (fill_value-setting cs p.name p.value p.source) (fill-properties ps (with_property cs p))

Settled-properties :
    (ps : List Property) (cs : Cells)
    → Settled (properties_list ps) (in_map zero_property (some cs))
unfolding Settled properties_list
Settled-properties [] cs = tt
Settled-properties (p ∷ ps) cs = (
  SettledValue-setting cs p.name p.value p.source,
  rw (fill_value-setting cs p.name p.value p.source) (Settled-properties ps (with_property cs p)),
)

abbrev pub properties_cell : List Property → Cell
properties_cell ps = map_cell zero_property (with_properties no_cells ps)

unmarshal_into-properties :
    (ps : List Property) (rest : Bytes)
    → ReadableList (properties_list ps)
    → unmarshal_into (encode (properties_list ps) ++ rest) props_with_source
      ≡ ok (properties_cell ps)
unfolding fill_cell fill_pointed fill_elem SettledCell SettledPointed SettledElem
unmarshal_into-properties ps rest h =
    unmarshal_into-fill_cell (properties_list ps) rest props_with_source h
      (Settled-properties ps no_cells)
    ∙ rw (fill-properties ps no_cells) refl

abbrev pub listed_in : Cmd Others → Listed
listed_in c = (delimited_buf_to_string c.name, c.others.cookie, c.others.objset_stats)

module _ {S : Type 0} (kernel : Kernel S Others) (p : Platform) (name : Bytes) (cursor : ℕ)
    (ps : List Property) where
  -- The call returns what the command of an answer has, and all the properties.
  unfoldable pub ListsProperties : ℕ → Call S (Listed × Option Cell) → Type 0
  ListsProperties need call =
      (len : ℕ) × (s : S) × (need ≤ len)
      × (call.value
          ≡ (listed_in (answer kernel p name cursor len s).cmd, some (properties_cell ps)))
      × (call.error ≡ none)

  -- For a kernel that answers ENOMEM until the buffer has the bytes that it needs, at most 32 MiB, and
  -- from then on succeeds with a buffer that starts with the nvlist of the properties of a dataset, one
  -- nvlist of a value and a source for each: DatasetListNext returns the name, the next cursor and the
  -- statistics of that answer's command, and the map with all these properties, without an error.
  pub dataset_list_next-ListsProperties :
      (need : ℕ) (s : S)
      → ReadableList (properties_list ps)
      → need ≤ 32 * 1024 * 1024
      → ((i : ℕ) (c : Cmd Others) (dst : Bytes) (s : S)
          → length dst < need
          → (kernel i c dst s).errno ≡ enomem)
      → ((i : ℕ) (c : Cmd Others) (dst : Bytes) (s : S)
          → need ≤ length dst
          → (kernel i c dst s).errno ≡ 0)
      → ((i : ℕ) (c : Cmd Others) (dst : Bytes) (s : S)
          → need ≤ length dst
          → (rest : Bytes) × ((kernel i c dst s).dst ≡ encode (properties_list ps) ++ rest))
      → ListsProperties need (dataset_list_next kernel p name cursor s)
  unfolding ListsProperties Lists listing unmarshal_response
  dataset_list_next-ListsProperties need s h small asks serves fills =
      let (len, t, enough, _, value, error) =
        dataset_list_next-Lists kernel p name cursor need s small asks serves in
      let n : need ≤ length (replicate len 0) = omega (arith, length-replicate {A = ℕ} len 0) in
      let (rest, e) = fills _ _ (replicate len 0) t n in
      let read : unmarshal_into (answer kernel p name cursor len t).dst props_with_source
          ≡ ok (properties_cell ps) =
        ap (λ bs. unmarshal_into bs props_with_source) e ∙ unmarshal_into-properties ps rest h in
      (len, t, enough, value ∙ rw read refl, error ∙ rw read refl)
