-- ===== src/RoundTrip/Structs.antt =====
-- nvlist: the structs that come back from Unmarshal as they were given to Marshal.
pub mod Targets
pub mod Outcomes
use go_zfs.Base.{
  ◌≡◌, refl, sym, ap, ◌∙◌, Bool, true, false, Bool-cases, inl, inr, List, [], ◌∷◌, some, none,
  Bytes, append-nil,
}
use go_zfs.Result.{ok, ◌>>=◌, IfOk}
use go_zfs.Value.{Value, Fields, struct, no_fields, field}
use go_zfs.Value.Compare.{bytes_eq_refl}
use go_zfs.Encoder.Collect.{unpack_val, split_tag, leaves_out}
use go_zfs.Encoder.Pairs.{marshal}
use go_zfs.Encoder.Encodable.{Encodable}
use go_zfs.Encoder.Implements.{marshal-encode}
use go_zfs.Format.{nvlist_of, fields_list, encode}
use go_zfs.Decoder.Readable.{ReadableList}
use go_zfs.Decoder.Cells.{
  Slots, struct_cell, ptr_cell, no_slots, slot, slot_name, find_slot, set_slot, settable, Composite,
  in_struct,
}
use go_zfs.Decoder.Targets.{unmarshal_into}
use go_zfs.Decoder.Fill.Into.{
  fill_elem, fill_pointed, fill, fill_cell, SettledElem, SettledPointed, Settled, SettledCell,
}
use go_zfs.Decoder.Fill.{unmarshal_into-fill_cell}
use go_zfs.RoundTrip.Structs.Targets.{
  zero_cell, zero_slots, cell_of, slots_of, IsWritten, NoField, Survives, FieldsSurvive,
  append_slots, append_slots-slot, find_slot-append, set_slot-append, find_slot-zero_slots,
  leaves_out-cell_of, unpack_val-Survives,
}
use go_zfs.RoundTrip.Structs.Outcomes.{
  unwritten, written, Outcome, IsBasic-Outcome, struct-Outcome, Fills,
}

module _ (name tag : Bytes) (v : Value) (fs : Fields) (unique : NoField (slot_name name tag) fs)
    (survives : Survives v) (done : Slots) (to : Composite) where
  abbrev nm : Bytes
  nm = slot_name name tag

  abbrev before : Slots
  before = slot name tag true (zero_cell v) (zero_slots fs)

  abbrev after : Slots
  after = slot name tag true (cell_of v) (zero_slots fs)

  find-before : find_slot nm before ≡ some (true, zero_cell v)
  unfolding find_slot
  find-before = rw (find_slot, find_slot-zero_slots nm fs unique, bytes_eq_refl nm)

  set-before : set_slot nm (cell_of v) before ≡ after
  unfolding set_slot
  set-before = rw (set_slot, find_slot-zero_slots nm fs unique, bytes_eq_refl nm)

  settable-before : settable nm true (append_slots done before) ≡ some (zero_cell v)
  unfolding settable
  settable-before = rw (settable, find_slot-append nm done before (true, zero_cell v) find-before)

  set-done : set_slot nm (cell_of v) (append_slots done before) ≡ append_slots done after
  set-done =
      rw (set_slot-append nm (cell_of v) done before (true, zero_cell v) find-before, set-before)

  abbrev FillsFrom : Slots → Fields → Type 0
  FillsFrom ss gs = Fills (in_struct true (append_slots done ss)) (fields_list gs) to

  -- The pair of a field puts its value in the place of the zero.
  field-Fills :
      Outcome v
      → IsWritten (split_tag tag).1
      → FillsFrom after fs
      → FillsFrom before (field name tag v fs)
  unfolding fields_list fill Settled
  field-Fills o w f = elim (Bool-cases (leaves_out (split_tag tag).1 (some v))) [
    | inl out ↦
        rw
          (
            unpack_val-Survives v survives,
            out,
            leaves_out-cell_of (split_tag tag).1 v w survives out,
          )
          f
    | inr kept ↦ elim o [
      | unwritten e z ↦ rw (unpack_val-Survives v survives, kept, e, z) f
      | written x e fills ↦
          let set = fills nm (append_slots done before) settable-before in
          let set_eq = rw set-done at set.0 in
          rw (unpack_val-Survives v survives, kept, e)
            record { fills = rw set_eq f.fills; settles = (set.1, rw set_eq f.settles) }
    ]
  ]

zero_slots-field :
    (name tag : Bytes) (v : Value) (fs : Fields) (done : Slots)
    → NoField (slot_name name tag) fs
    → Survives v
    → IsWritten (split_tag tag).1
    → Outcome v
    → Fills
        (in_struct true (
          append_slots
            (append_slots done (slot name tag true (cell_of v) no_slots))
            (zero_slots fs)))
        (fields_list fs)
        (in_struct true (
          append_slots (append_slots done (slot name tag true (cell_of v) no_slots)) (slots_of fs)))
    → Fills
        (in_struct true (append_slots done (zero_slots (field name tag v fs))))
        (fields_list (field name tag v fs))
        (in_struct true (append_slots done (slots_of (field name tag v fs))))
unfolding zero_slots slots_of
zero_slots-field name tag v fs done unique i w o f =
    field-Fills name tag v fs unique i done
      (in_struct true (append_slots done (slots_of (field name tag v fs)))) o w
      (rw
        (
          append_slots-slot done name tag true (cell_of v) (zero_slots fs),
          append_slots-slot done name tag true (cell_of v) (slots_of fs),
        )
        at f)

zero_slots-Fills :
    (fs : Fields) (done : Slots)
    → FieldsSurvive fs
    → Fills
        (in_struct true (append_slots done (zero_slots fs)))
        (fields_list fs)
        (in_struct true (append_slots done (slots_of fs)))
unfolding zero_slots slots_of FieldsSurvive Survives fields_list fill Settled append_slots
zero_slots-Fills no_fields done h = record { fills = refl; settles = tt }
zero_slots-Fills (field name tag (struct gs) fs) done (unique, w, i, h) =
    zero_slots-field name tag (struct gs) fs done unique i w
      (struct-Outcome gs (zero_slots-Fills gs no_slots i))
      (zero_slots-Fills fs (append_slots done (slot name tag true (cell_of (struct gs)) no_slots))
        h)
zero_slots-Fills (field name tag v fs) done (unique, w, i, h) =
    zero_slots-field name tag v fs done unique i w (IsBasic-Outcome v i)
      (zero_slots-Fills fs (append_slots done (slot name tag true (cell_of v) no_slots)) h)

-- A struct whose fields go by distinct names, have no option but `omitempty`, and hold bools, integers,
-- strings, slices of these, or structs like it: if it can be encoded, and its nvlist fits the fields of
-- its pairs' headers, Unmarshal fills a zero struct of its type from its marshalled bytes with the same
-- values.
pub unmarshal_into-marshal :
    (fs : Fields)
    → FieldsSurvive fs
    → Encodable (struct fs)
    → ReadableList (fields_list fs)
    → (marshal (struct fs) >>= λ bs. unmarshal_into bs (ptr_cell (struct_cell (zero_slots fs))))
      ≡ ok (ptr_cell (struct_cell (slots_of fs)))
unfolding fill_cell fill_pointed fill_elem SettledCell SettledPointed SettledElem nvlist_of
    append_slots
unmarshal_into-marshal fs s e h =
    let target = ptr_cell (struct_cell (zero_slots fs)) in
    let l = fields_list fs in
    let f = zero_slots-Fills fs no_slots s in
    rw (marshal-encode (struct fs) e tt) (
      ap (λ bs. unmarshal_into bs target) (sym (append-nil (encode l)))
      ∙ unmarshal_into-fill_cell l [] target h f.settles
      ∙ rw f.fills)
