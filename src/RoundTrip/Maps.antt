-- ===== src/RoundTrip/Maps.antt =====
-- nvlist: the maps that come back from Unmarshal as they were given to Marshal.
use go_zfs.Base.{◌≡◌, refl, sym, ap, ap₂, ◌∙◌, true, false, ◌&&◌, ◌==◌, [], ◌∷◌, some, Bytes, arith}
use go_zfs.Result.{ok, ◌>>=◌}
use go_zfs.RoundTrip.{unmarshal-marshal}
use go_zfs.Encoder.Encodable.{Encodable}
use go_zfs.Encoder.Pairs.{marshal}
use go_zfs.Value.{
  Value, Values, Entries, bool, integer, string, integers, bools, strings, nvlists, mapping,
  interface, no_values, value, no_entries, entry, bytes_eq,
}
use go_zfs.Format.{NvValue, nvvalue_of, nvlist_of, entries_list, nvlists_of}
use go_zfs.Decoder.Pairs.{unmarshal, set_map_index, set_primitive}
use go_zfs.Decoder.Readable.{ReadableList, value_of, read_into, values_of}

-- No entry has the key.
unfoldable pub Fresh : Bytes → Entries → Type 0
Fresh k no_entries = Unit {0}
Fresh k (entry j v es) = (bytes_eq j k ≡ false) × Fresh k es

unfoldable pub append : Entries → Entries → Entries
append no_entries fs = fs
append (entry k v es) fs = entry k v (append es fs)

-- Every entry of the map is an interface value, as in a `map[string]interface{}`, its keys are
-- distinct, and it holds maps, slices of such maps, and what else comes back: no false, no float64, no
-- struct and no pointer.
unfoldable mutual
  unfolding Fresh

  pub Survives : Value → Type 0
  Survives (bool true) = Unit {0}
  Survives (integer k n) = Unit {0}
  Survives (string s) = Unit {0}
  Survives (integers k xs) = Unit {0}
  Survives (bools bs) = Unit {0}
  Survives (strings ss) = Unit {0}
  Survives (nvlists vs) = MapsSurvive vs
  Survives (mapping es) = EntriesSurvive es
  Survives _ = ⊥

  pub MapsSurvive : Values → Type 0
  MapsSurvive no_values = Unit {0}
  MapsSurvive (value (mapping es) vs) = EntriesSurvive es × MapsSurvive vs
  MapsSurvive _ = ⊥

  pub EntriesSurvive : Entries → Type 0
  EntriesSurvive no_entries = Unit {0}
  EntriesSurvive (entry k (interface v) es) = Fresh k es × Survives v × EntriesSurvive es
  EntriesSurvive _ = ⊥

-- No key of the second map is one of the first.
unfoldable pub Apart : Entries → Entries → Type 0
Apart m no_entries = Unit {0}
Apart m (entry k v es) = Fresh k m × Apart m es

set_map_index-Fresh :
    (m : Entries) (k : Bytes) (v : Value)
    → Fresh k m
    → set_map_index m k v ≡ append m (entry k v no_entries)
unfolding set_map_index Fresh append
set_map_index-Fresh no_entries k v h = refl
set_map_index-Fresh (entry j u es) k v (n, h) = rw (n, set_map_index-Fresh es k v h)

append_assoc : (a b c : Entries) → append (append a b) c ≡ append a (append b c)
unfolding append
append_assoc no_entries b c = refl
append_assoc (entry k v a) b c = ap (entry k v) (append_assoc a b c)

append_empty : (a : Entries) → append a no_entries ≡ a
unfolding append
append_empty no_entries = refl
append_empty (entry k v a) = ap (entry k v) (append_empty a)

bytes_eq_comm : (a b : Bytes) → bytes_eq a b ≡ bytes_eq b a
unfolding bytes_eq
bytes_eq_comm [] [] = refl
bytes_eq_comm [] (y ∷ b) = refl
bytes_eq_comm (x ∷ a) [] = refl
bytes_eq_comm (x ∷ a) (y ∷ b) =
    let e : (x == y) ≡ (y == x) = ground arith in ap₂ (λ p q. p && q) e (bytes_eq_comm a b)

Fresh-append :
    (k j : Bytes) (v : Value) (m : Entries)
    → Fresh k m
    → bytes_eq j k ≡ false
    → Fresh k (append m (entry j v no_entries))
unfolding Fresh append
Fresh-append k j v no_entries h n = (n, tt)
Fresh-append k j v (entry i u m) (o, h) n = (o, Fresh-append k j v m h n)

Apart-append :
    (m es : Entries) (k : Bytes) (v : Value)
    → Apart m es
    → Fresh k es
    → Apart (append m (entry k v no_entries)) es
unfolding Apart Fresh
Apart-append m no_entries k v a h = tt
Apart-append m (entry j u es) k v (f, a) (n, h) =
    (Fresh-append j k v m f (bytes_eq_comm k j ∙ n), Apart-append m es k v a h)

Apart-empty : (es : Entries) → Apart no_entries es
unfolding Apart Fresh
Apart-empty no_entries = tt
Apart-empty (entry k v es) = (tt, Apart-empty es)

-- A value is some value of the wire format, which is read back as it.
abbrev Back : Value → Type 0
Back v = (n : NvValue) × (nvvalue_of v ≡ some n) × (value_of n ≡ some v)

mutual
  unfolding Survives nvvalue_of nvlist_of entries_list value_of read_into values_of set_primitive
      Apart append

  value-Back : (v : Value) → Survives v → Back v
  value-Back (bool true) h = (_, refl, refl)
  value-Back (bool false) h = absurd h
  value-Back (integer k n) h = (_, refl, refl)
  value-Back (string s) h = (_, refl, refl)
  value-Back (integers k xs) h = (_, refl, refl)
  value-Back (bools bs) h = (_, refl, refl)
  value-Back (strings ss) h = (_, refl, refl)
  value-Back (nvlists vs) h = (_, refl, ap (λ us. some (nvlists us)) (values_of-nvlists_of vs h))
  value-Back (mapping es) h = (
    _,
    refl,
    ap (λ fs. some (mapping fs)) (read_into-entries_list es no_entries h (Apart-empty es)),
  )
  value-Back _ h = absurd h

  values_of-nvlists_of : (vs : Values) → MapsSurvive vs → values_of (nvlists_of vs) ≡ vs
  values_of-nvlists_of no_values h = refl
  values_of-nvlists_of (value (mapping es) vs) (h, hs) =
      ap₂ (λ fs us. value (mapping fs) us) (read_into-entries_list es no_entries h (Apart-empty es))
        (values_of-nvlists_of vs hs)
  values_of-nvlists_of (value _ vs) h = absurd h

  read_into-entries_list :
      (es m : Entries)
      → EntriesSurvive es
      → Apart m es
      → read_into m (entries_list es) ≡ append m es
  read_into-entries_list no_entries m h a = sym (append_empty m)
  read_into-entries_list (entry k (interface v) es) m (f, h, hs) (g, a) =
      let (n, x, y) = value-Back v h in
      let e = set_map_index-Fresh m k (interface v) g in
      rw (x, y, e)
        (read_into-entries_list es (append m (entry k (interface v) no_entries)) hs
            (Apart-append m es k (interface v) a f)
          ∙ append_assoc m (entry k (interface v) no_entries) es)
  read_into-entries_list (entry k _ es) m h a = absurd h

-- A map[string]interface{} whose values are of the kinds that come back, with distinct keys, that can
-- be encoded and fits the headers of the pairs, comes back from Marshal and Unmarshal as it was: its
-- entries, nested maps included, are added to those of the map that Unmarshal is given, of which
-- none may have one of their keys.
pub unmarshal-marshal_same :
    (es m : Entries)
    → Encodable (mapping es)
    → ReadableList (entries_list es)
    → EntriesSurvive es
    → Apart m es
    → (marshal (mapping es) >>= λ bs. unmarshal bs m) ≡ ok (append m es)
unfolding nvlist_of
unmarshal-marshal_same es m e r s a =
    unmarshal-marshal (mapping es) m e tt r ∙ ap ok (read_into-entries_list es m s a)
