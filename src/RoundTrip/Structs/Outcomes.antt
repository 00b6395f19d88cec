-- ===== src/RoundTrip/Structs/Outcomes.antt =====
-- nvlist: a field of a struct that comes back from Unmarshal, and the pair of it.
use go_zfs.Base.{◌≡◌, refl, true, false, some, none, Bytes}
use go_zfs.Result.{ok}
use go_zfs.Value.{Value, Fields, bool, integer, string, integers, bools, strings, struct}
use go_zfs.Format.{
  NvValue, NvList, flag, number, text, numbers, flags, texts, list, nvvalue_of, fields_list,
}
use go_zfs.Decoder.Readable.{value_of}
use go_zfs.Decoder.Primitives.{IsPlain}
use go_zfs.Decoder.Cells.{
  Slots, plain_cell, set_slot, settable, Composite, in_struct, assign, set_field, set_primitive_in,
}
use go_zfs.Decoder.Fill.Into.{
  fill_elem, fill_pointed, fill_field, fill_nested, fill, fill_value, fill_value-plain, SettledElem,
  SettledPointed, SettledField, SettledNested, SettledValue, Settled,
}
use go_zfs.Decoder.Fill.Flat.{IsPlain-SettledValue}
use go_zfs.RoundTrip.Structs.Targets.{
  zero_of, zero_cell, zero_slots, cell_of, slots_of, IsBasic, same_type-zero_of, cell_of-basic,
  zero_cell-basic, zero_cell-cell_of,
}

abbrev FillsField : Value → NvValue → Type 0
FillsField v w =
    (name : Bytes) (ss : Slots)
    → settable name true ss ≡ some (zero_cell v)
    → (fill_value (in_struct true ss) name w ≡ ok (in_struct true (set_slot name (cell_of v) ss)))
      × SettledValue (in_struct true ss) name w

-- A value that is not written is the zero value of its type.
pub data Outcome (v : Value) : Type 0 where
  unwritten : nvvalue_of v ≡ none → zero_cell v ≡ cell_of v → Outcome v
  written : (w : NvValue) → nvvalue_of v ≡ some w → FillsField v w → Outcome v

plain-FillsField :
    (v : Value) (w : NvValue) → IsBasic v → IsPlain w → value_of w ≡ some v → FillsField v w
unfolding set_primitive_in set_field assign
plain-FillsField v w i p e name ss s =
    let s : settable name true ss ≡ some (plain_cell (zero_of v)) = rw (zero_cell-basic v i) at s in
    (
      rw (
        fill_value-plain (in_struct true ss) name w p,
        e,
        set_primitive_in,
        s,
        same_type-zero_of v i,
        cell_of-basic v i,
      ),
      IsPlain-SettledValue (in_struct true ss) name w p,
    )

pub IsBasic-Outcome : (v : Value) → IsBasic v → Outcome v
unfolding nvvalue_of value_of zero_of
IsBasic-Outcome (bool false) i = unwritten refl (zero_cell-cell_of (bool false) i refl)
IsBasic-Outcome (bool true) i = written flag refl (plain-FillsField (bool true) flag i tt refl)
IsBasic-Outcome (integer k n) i =
    written (number k n) refl (plain-FillsField (integer k n) (number k n) i tt refl)
IsBasic-Outcome (string s) i =
    written (text s) refl (plain-FillsField (string s) (text s) i tt refl)
IsBasic-Outcome (integers k xs) i =
    written (numbers k xs) refl (plain-FillsField (integers k xs) (numbers k xs) i tt refl)
IsBasic-Outcome (bools bs) i =
    written (flags bs) refl (plain-FillsField (bools bs) (flags bs) i tt refl)
IsBasic-Outcome (strings ss) i =
    written (texts ss) refl (plain-FillsField (strings ss) (texts ss) i tt refl)
IsBasic-Outcome _ i = absurd i

-- The pairs make `comp'` of `comp`, and every nested nvlist comes to a field.
pub record Fills (comp : Composite) (l : NvList) (comp' : Composite) : Type 0 where
  pub fills : fill comp l ≡ ok comp'
  pub settles : Settled l comp

pub struct-Outcome :
    (fs : Fields)
    → Fills (in_struct true (zero_slots fs)) (fields_list fs) (in_struct true (slots_of fs))
    → Outcome (struct fs)
unfolding nvvalue_of zero_cell cell_of fill_value fill_nested fill_field fill_pointed fill_elem
    SettledValue SettledNested SettledField SettledPointed SettledElem
struct-Outcome fs f =
    written (list (fields_list fs)) refl λ name ss s. (rw (s, f.fills), rw s f.settles)
