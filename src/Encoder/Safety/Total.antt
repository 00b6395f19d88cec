-- ===== src/Encoder/Safety/Total.antt =====
-- nvlist/encoder.go: writeNvPairs ends, with as much fuel as values are nested.
use native.Mathlib.Nat.{le-max_left, le-max_right}
use go_zfs.Base.{
  ℕ, zero, suc, ◌+◌, ◌-◌, ◌*◌, ◌^◌, ◌<◌, ◌≤◌, ◌≡◌, refl, false, Bool-cases, inl, inr, [], ◌∷◌,
  Option, some, none, Bytes, length, replicate, leb, if◌then◌else◌, arith,
}
use go_zfs.Result.{elem_of_interface, invalid_value, Unless, gives, rejects, panics}
use go_zfs.Result
use go_zfs.Wire.{put, low_bytes}
use go_zfs.Consts.{NvPair, width, nvtype_from_kind}
use go_zfs.Value.{
  Value, Values, bool, integer, float64, string, integers, bools, strings, nvlists, interface_slice,
  other_slice, mapping, other_map, struct, no_values, value, values_length, depth, values_depth,
}
use go_zfs.Encoder.{
  Writer, Outcome, done, failed, ◌>>=◌, skip_n, is_unknown, end_nv_pair, write_nv_header, write_int,
  write_int_in, write, start_nv_pair, skip_to_align,
}
use go_zfs.Encoder.Collect.{unpack_val, Pairs, collect_entries, collect_fields, collect}
use go_zfs.Encoder.Pairs.{
  write_children, after_nested, write_value, is_false, write_pair, write_loop, write_collected,
  write_nv_pairs, new_writer, written, marshal,
}
use go_zfs.Encoder.Safety.Payloads.{
  write_ints-Open, write_bools-Open, write_strings-Open, write_nvlist_headers-Open, skip_n-Open,
  kind-known, array_kind-known,
}
use go_zfs.Encoder.Safety.Shallow.{
  Shallow, unpack_val-depth, collect_entries-Shallow, collect_fields-Shallow,
}
use go_zfs.Encoder.Safety.{
  Fine, finished, stopped, interfaces, Fine-bind, Fine-ignore_error, Ready, Open, append-Ready,
  write_int-Open, write_string-Open, write_nvlist_header-Open, start_nv_pair-Open,
  skip_to_align-Open, end_nv_pair-Ready,
}

-- A call that ends for every value nested less deep.
abbrev Writes : ℕ → (Value → Writer → Outcome) → Type 0
Writes f rec = (v : Value) (w : Writer) → depth v < f → Ready w → Fine Ready (rec v w)

abbrev Next : (Writer → Outcome) → Type 0
Next next = (w : Writer) → Ready w → Fine Ready (next w)

after_nested-Ready :
    {next : Writer → Outcome} {o : Outcome}
    → Next next
    → Fine Ready o
    → Fine Ready (after_nested next o)
unfolding after_nested
after_nested-Ready k (finished d) = k _ d
after_nested-Ready k (stopped d) = finished d
after_nested-Ready k interfaces = interfaces

module _ (f : ℕ) (rec : Value → Writer → Outcome) (writes : Writes f rec) where
  write_children-Ready :
      (vs : Values) (w : Writer)
      → values_depth vs < f
      → Ready w
      → Fine Ready (write_children rec vs w)
  unfolding write_children values_depth
  write_children-Ready no_values w l d = finished d
  write_children-Ready (value v vs) w l d =
      Fine-bind (writes v w (omega (arith, le-max_left (depth v) (values_depth vs))) d) (λ w d. d)
        λ w d. write_children-Ready vs w (omega (arith, le-max_right (depth v) (values_depth vs))) d

  module _ (next : Writer → Outcome) (goes_on : Next next) where
    -- The end of a pair, and the rest of the loop.
    end-Ready :
        {o : Outcome} (nvp : NvPair) (rest : Writer → Outcome)
        → is_unknown nvp.type ≡ false
        → Next rest
        → Fine Open o
        → Fine Ready (o >>= λ w. end_nv_pair nvp w >>= rest)
    end-Ready nvp rest known k h =
        Fine-bind h (λ w d. d.ready) λ w d. Fine-bind (end_nv_pair-Ready nvp w known d) (λ w d. d) k

    checked-Ready :
        (n : ℕ) (w : Writer) (o : Outcome)
        → Open w
        → Fine Ready o
        → Fine Ready (if leb (2 ^ 31 - 1) n then failed invalid_value w else o)
    checked-Ready n w o d h = elim (Bool-cases (leb (2 ^ 31 - 1) n)) [
      | inl e ↦ rw e (stopped d.ready)
      | inr e ↦ rw e h
    ]

    write_value-Ready :
        (name_sz : ℕ) (v : Value) (w : Writer)
        → depth v < f
        → Open w
        → Fine Ready (write_value rec next name_sz v w)
    unfolding write_value is_unknown depth nvtype_from_kind
    write_value-Ready name_sz (integer k n) w l d =
        end-Ready _ next (kind-known k) goes_on (write_int-Open (width k) n w d)
    write_value-Ready name_sz (float64 n) w l d =
        end-Ready _ next refl goes_on (write_int-Open 8 n w d)
    write_value-Ready name_sz (bool b) w l d =
        Fine-bind (end_nv_pair-Ready _ w refl d) (λ w d. d) goes_on
    write_value-Ready name_sz (mapping es) w l d =
        end-Ready _ _ refl (λ w d. after_nested-Ready goes_on (writes (mapping es) w l d))
          (write_nvlist_header-Open w d)
    write_value-Ready name_sz (other_map n) w l d =
        end-Ready _ _ refl (λ w d. after_nested-Ready goes_on (writes (other_map n) w l d))
          (write_nvlist_header-Open w d)
    write_value-Ready name_sz (struct fs) w l d =
        end-Ready _ _ refl (λ w d. after_nested-Ready goes_on (writes (struct fs) w l d))
          (write_nvlist_header-Open w d)
    write_value-Ready name_sz (string s) w l d =
        end-Ready _ next refl goes_on (Fine-ignore_error (write_string-Open s w d))
    write_value-Ready name_sz (integers k xs) w l d =
        checked-Ready (length xs) w _ d
          (end-Ready _ next (array_kind-known k) goes_on (write_ints-Open (width k) xs w d))
    write_value-Ready name_sz (bools bs) w l d =
        checked-Ready (length bs) w _ d (end-Ready _ next refl goes_on (write_bools-Open bs w d))
    write_value-Ready name_sz (strings ss) w l d = checked-Ready (length ss) w _ d (
        end-Ready _ next refl goes_on
          (write_strings-Open ss (skip_n (8 * length ss) w) (skip_n-Open (8 * length ss) w d)))
    write_value-Ready name_sz (nvlists vs) w l d =
        let n = values_length vs in
        checked-Ready n w _ d (
          end-Ready _ _ refl
            (λ w d. Fine-bind (write_children-Ready vs w (omega arith) d) (λ w d. d) goes_on)
            (write_nvlist_headers-Open n (skip_n (8 * n) w) (skip_n-Open (8 * n) w d)))
    write_value-Ready name_sz (interface_slice n) w l d = checked-Ready n w _ d interfaces
    write_value-Ready name_sz (other_slice n) w l d = checked-Ready n w _ d (stopped d.ready)
    write_value-Ready name_sz _ w l d = stopped d.ready

    write_pair-Ready :
        (name : Bytes) (v : Value) (w : Writer)
        → depth v < f
        → Ready w
        → Fine Ready (write_pair rec next name v w)
    unfolding write_pair
    write_pair-Ready name v w l d = elim (Bool-cases (leb (2 ^ 15 - 1) (length name + 1))) [
      | inl e ↦ rw e (stopped d)
      | inr e ↦ elim (Bool-cases (is_false v)) [
        | inl g ↦ rw (e, g) (goes_on w d)
        | inr g ↦
            rw (e, g)
              (Fine-bind
                (Fine-ignore_error
                  (write_string-Open name (start_nv_pair w) (start_nv_pair-Open w d)))
                (λ w d. d.ready)
                λ w d.
                  write_value-Ready (length name + 1) v (skip_to_align w) l
                    (skip_to_align-Open w d))
      ]
    ]

  write_loop-Ready : (pairs : Pairs) → Shallow f pairs → Next (write_loop rec pairs)
  unfolding write_loop skip_n
  write_loop-Ready [] h w d = finished (append-Ready (replicate 4 0) w d)
  write_loop-Ready ((name, v) ∷ pairs) (l, h) w d =
      write_pair-Ready (write_loop rec pairs) (write_loop-Ready pairs h) name v w l d

module _ (f : ℕ) where
  write_collected-Ready :
      (rec : Value → Writer → Outcome) (u : Value)
      → Writes f rec
      → depth u ≤ f
      → Next (write_collected rec (collect u))
  unfolding collect depth
  write_collected-Ready rec (mapping es) h l w d =
      write_loop-Ready f rec h (collect_entries es) (collect_entries-Shallow f es (omega arith)) w d
  write_collected-Ready rec (other_map zero) h l w d = write_loop-Ready f rec h [] tt w d
  write_collected-Ready rec (other_map (suc n)) h l w d = stopped d
  write_collected-Ready rec (struct fs) h l w d =
      write_loop-Ready f rec h (collect_fields fs) (collect_fields-Shallow f fs (omega arith)) w d
  write_collected-Ready rec _ h l w d = stopped d

unpacked-Ready :
    (f : ℕ) (rec : Value → Writer → Outcome) (v : Value) (w : Writer) (found : Option Value)
    → unpack_val v ≡ found
    → Writes f rec
    → depth v ≤ f
    → Ready w
    → Fine Ready (elim found [ none ↦ done w | some u ↦ write_collected rec (collect u) w ])
unpacked-Ready f rec v w none e h l d = finished d
unpacked-Ready f rec v w (some u) e h l d =
    write_collected-Ready f rec u h (omega (arith, unpack_val-depth v u e)) w d

write_nv_pairs-Writes : (f : ℕ) → Writes f (write_nv_pairs f)
unfolding write_nv_pairs
write_nv_pairs-Writes zero v w l d = absurd (omega arith)
write_nv_pairs-Writes (suc f) v w l d =
    unpacked-Ready f (write_nv_pairs f) v w (unpack_val v) refl (write_nv_pairs-Writes f)
      (omega arith) d

-- Anything, but a panic only for a slice of interfaces.
abbrev pub EndsUnlessInterfaces : Result.Result Bytes → Type 0
EndsUnlessInterfaces = Unless (λ p. p ≡ elem_of_interface) (λ _. Unit {0})

written-Ends : {o : Outcome} → Fine Ready o → EndsUnlessInterfaces (written o)
written-Ends (finished d) = gives tt
written-Ends (stopped d) = rejects
written-Ends interfaces = panics refl

header-Ready : Fine Ready (write_nv_header new_writer)
unfolding write_nv_header write_int write_int_in write put low_bytes
header-Ready = finished (record { order = refl; appends = refl; started = omega arith })

-- On every value that is finite, so that no map or pointer in it reaches itself, encodable or not,
-- `Marshal` returns its bytes or an error, or panics because of a slice of interfaces. No index is ever out of range, no pair is ended that was not started or has no
-- type, and nested values come to an end.
pub marshal-EndsUnlessInterfaces : (v : Value) → EndsUnlessInterfaces (marshal v)
unfolding marshal
marshal-EndsUnlessInterfaces v = written-Ends (
    Fine-bind header-Ready (λ w d. d)
      λ w d. write_nv_pairs-Writes (suc (depth v)) v w (omega arith) d)
