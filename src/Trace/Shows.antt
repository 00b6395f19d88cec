-- ===== src/Trace/Shows.antt =====
-- ioctl/trace/main.go: what the tracer prints of an nvlist.
use mathlib.Core.Path.{subst}
use go_zfs.Base.{ℕ, ◌≡◌, refl, sym, ◌∙◌, false, [], ◌∷◌, ◌++◌, some, Bytes, ◌==◌}
use go_zfs.Result.{ok}
use go_zfs.Value.{Value, mapping, no_entries}
use go_zfs.Encoder.Pairs.{marshal}
use go_zfs.Encoder.Encodable.{Encodable, IsList}
use go_zfs.Encoder.Implements.{marshal-encode}
use go_zfs.Format.{NvList, nvlist_of, encode}
use go_zfs.Decoder.Cells.{Cell, any_cell, ptr_cell}
use go_zfs.Decoder.Targets.{unmarshal_into}
use go_zfs.Decoder.Readable.{ReadableList, read_into}
use go_zfs.Decoder.Fill.Into.{
  fill_elem, fill_pointed, fill_cell, SettledElem, SettledPointed, SettledCell,
}
use go_zfs.Decoder.Fill.{unmarshal_into-fill_cell}
use go_zfs.Trace.{
  Tracee, Packages, printed, json_line, new_interface_target, show_json, show_nvlist,
}

-- The target of the tracer holds the map of the pairs.
abbrev pub filled_interface : NvList → Cell
filled_interface l = ptr_cell (any_cell (some (mapping (read_into no_entries l))))

unmarshal_into-filled_interface :
    (l : NvList) (rest : Bytes)
    → ReadableList l
    → unmarshal_into (encode l ++ rest) new_interface_target ≡ ok (filled_interface l)
unfolding fill_cell fill_pointed fill_elem SettledCell SettledPointed SettledElem
unmarshal_into-filled_interface l rest h = unmarshal_into-fill_cell l rest new_interface_target h tt

ok-injective : (a b : Bytes) → ok a ≡ ok b → a ≡ b
ok-injective a b e = cc

module _ {T : Type 0} (tracee : Tracee T) (packages : Packages) where
  -- Where a command of the traced process points to the bytes that Marshal makes of a map or a struct,
  -- maybe with others behind them, the tracer prints the JSON of a map with the pairs of its nvlist.
  pub show_nvlist-marshal :
      (label : Bytes) (pointer size : ℕ) (t : T) (v : Value) (rest text : Bytes)
      → (pointer == 0) ≡ false
      → Encodable v
      → IsList v
      → ReadableList (nvlist_of v)
      → (bs : Bytes) → marshal v ≡ ok bs
      → tracee.peek pointer size t ≡ some (bs ++ rest)
      → packages.json (filled_interface (nvlist_of v)) ≡ some text
      → show_nvlist tracee packages label pointer size t ≡ printed (json_line label text ∷ [])
  unfolding show_nvlist show_json
  show_nvlist-marshal label pointer size t v rest text n e hl h bs m peek json =
      let l = nvlist_of v in
      let same = ok-injective (encode l) bs (sym (marshal-encode v e hl) ∙ m) in
      let read : unmarshal_into (bs ++ rest) new_interface_target ≡ ok (filled_interface l) =
        subst (λ bs. unmarshal_into (bs ++ rest) new_interface_target ≡ ok (filled_interface l))
          same (unmarshal_into-filled_interface l rest h) in
      rw (n, peek, read, show_json, json) refl
