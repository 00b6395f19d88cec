-- ===== src/Encoder/Safety.antt =====
-- nvlist/encoder.go: the writer while pairs are written, and the methods that keep it so.
pub mod Payloads
pub mod Shallow
pub mod Total
use mathlib.Core.Path.{subst}
use go_zfs.Base.{
  ℕ, zero, suc, ◌+◌, ◌-◌, ◌*◌, ◌^◌, ◌%◌, ◌<◌, ◌≤◌, ◌≡◌, refl, sym, ap, ◌∙◌, Bool, true, false,
  Bool-cases, inl, inr, List, [], ◌∷◌, ◌++◌, Option, some, none, Bytes, length, length-append,
  length-replicate, set, replicate, ltb, leb, ◌==◌, if◌then◌else◌, arith,
}
use go_zfs.Wire.{ByteOrder, little, put, low_bytes, length-low_bytes}
use go_zfs.Result.{Error, Fault, elem_of_interface, invalid_value}
use go_zfs.Consts.{
  IntKind, int8, uint8, int16, uint16, int32, uint32, int64, uint64, NvType, NvPair, nvtype_code,
  int_kind, nvtype_from_kind, nvtype_from_array_kind, nvlist_header_size, unique_name_flag,
}
use go_zfs.Encoder.{
  Writer, Outcome, done, failed, panicked, out_of_fuel, ◌>>=◌, ignore_error, append_bytes, skip_n,
  skip_to_align, pad_size, overwrite, overwritten, write, write_int_in, write_int, write_string,
  start_nv_pair, write_nv_pair_header, is_unknown, end_nv_pair, write_nvlist_header,
}

-- It ends, with a writer for which `P` holds, or in the panic for a slice of interfaces.
pub data Fine (P : Writer → Type 0) : Outcome → Type 0 where
  finished : {w : Writer} → P w → Fine P (done w)
  stopped : {e : Error} {w : Writer} → P w → Fine P (failed e w)
  interfaces : Fine P (panicked elem_of_interface)

pub Fine-bind :
    {P Q : Writer → Type 0} {o : Outcome} {f : Writer → Outcome}
    → Fine P o
    → ((w : Writer) → P w → Q w)
    → ((w : Writer) → P w → Fine Q (f w))
    → Fine Q (o >>= f)
Fine-bind (finished {w} h) weaken k = k w h
Fine-bind (stopped {e} {w} h) weaken k = stopped (weaken w h)
Fine-bind interfaces weaken k = interfaces

pub Fine-ignore_error : {P : Writer → Type 0} {o : Outcome} → Fine P o → Fine P (ignore_error o)
Fine-ignore_error (finished h) = finished h
Fine-ignore_error (stopped h) = finished h
Fine-ignore_error interfaces = interfaces

-- Between two pairs, and while a pair is written.
pub record Ready (w : Writer) : Type 0 where
  pub order : w.endianness ≡ some little
  pub appends : w.mode_write_from_start_byte ≡ false
  pub started : 0 < length w.nvlist

pub record Open (w : Writer) : Type 0 where
  pub ready : Ready w
  pub begun : 0 < w.nvpair_start_byte
  pub room : w.nvpair_start_byte + 16 ≤ length w.nvlist

pub append-Ready : (bs : Bytes) (w : Writer) → Ready w → Ready (append_bytes bs w)
unfolding append_bytes
append-Ready bs w d = record {
  order = d.order;
  appends = d.appends;
  started = omega (arith, length-append w.nvlist bs, d.started);
}

pub append-Open : (bs : Bytes) (w : Writer) → Open w → Open (append_bytes bs w)
unfolding append_bytes
append-Open bs w d = record {
  ready = append-Ready bs w d.ready;
  begun = d.begun;
  room = omega (arith, length-append w.nvlist bs, d.room);
}

if_false : {A : Type 0} (b : Bool) (x y : A) → b ≡ false → (if b then x else y) ≡ y
if_false true x y e = cc
if_false false x y e = refl

if_true : {A : Type 0} (b : Bool) (x y : A) → b ≡ true → (if b then x else y) ≡ x
if_true true x y e = refl
if_true false x y e = cc

write_int-append :
    (n x : ℕ) (w : Writer) → Ready w → write_int n x w ≡ done (append_bytes (put little n x) w)
unfolding write_int write_int_in write
write_int-append n x w d =
    ap (λ o. write_int_in o n x w) d.order ∙ if_false w.mode_write_from_start_byte _ _ d.appends

pub write_int-Open : (n x : ℕ) (w : Writer) → Open w → Fine Open (write_int n x w)
write_int-Open n x w d =
    subst (Fine Open) (sym (write_int-append n x w d.ready))
      (finished (append-Open (put little n x) w d))

pub write_string-Open : (s : Bytes) (w : Writer) → Open w → Fine Open (write_string s w)
unfolding write_string
write_string-Open [] w d = finished (append-Open (0 ∷ []) w d)
write_string-Open (c ∷ s) w d = elim (Bool-cases (c == 0)) [
  | inl e ↦ rw e (stopped d)
  | inr e ↦ rw e (write_string-Open s (append_bytes (c ∷ []) w) (append-Open (c ∷ []) w d))
]

pub write_nvlist_header-Open : (w : Writer) → Open w → Fine Open (write_nvlist_header w)
unfolding write_nvlist_header
write_nvlist_header-Open w d =
    Fine-bind (write_int-Open 4 0 w d) (λ w d. d)
      λ w d.
        Fine-bind (write_int-Open 4 unique_name_flag w d) (λ w d. d)
          λ w d.
            Fine-bind (write_int-Open 8 0 w d) (λ w d. d)
              λ w d. Fine-bind (write_int-Open 4 0 w d) (λ w d. d) (write_int-Open 4 0)

pub start_nv_pair-Open : (w : Writer) → Ready w → Open (start_nv_pair w)
unfolding start_nv_pair append_bytes
start_nv_pair-Open w d =
    let n = length-append w.nvlist (replicate nvlist_header_size 0) in
    let sixteen : length {A = ℕ} (replicate nvlist_header_size 0) ≡ 16 =
      length-replicate {A = ℕ} nvlist_header_size 0 in
    record {
      ready = record {
        order = d.order;
        appends = d.appends;
        started = omega (arith, n, d.started);
      };
      begun = d.started;
      room = omega (arith, n, sixteen);
    }

length-set : (buf : Bytes) (i b : ℕ) → length (set buf i b) ≡ length buf
length-set [] i b = refl
length-set (x ∷ buf) zero b = refl
length-set (x ∷ buf) (suc i) b = ap suc (length-set buf i b)

-- Bytes are written over others that are there.
overwrite-in :
    (buf : Bytes) (i : ℕ) (whole : Bytes)
    → i + length buf ≤ length whole
    → (out : Bytes) × (overwrite buf i whole ≡ some out) × (length out ≡ length whole)
unfolding overwrite
overwrite-in [] i whole h = (whole, refl, refl)
overwrite-in (b ∷ buf) i whole h =
    let n = length-set whole i b in
    let inside : ltb i (length whole) ≡ true = ground arith in
    let (out, e, m) = overwrite-in buf (i + 1) (set whole i b) (omega (arith, n)) in
    (out, rw inside e, m ∙ n)

-- While the header of a pair is written, of which `k` bytes are left.
record Back (k : ℕ) (w : Writer) : Type 0 where
  order : w.endianness ≡ some little
  goes_back : w.mode_write_from_start_byte ≡ true
  started : 0 < length w.nvlist
  room : w.nvpair_start_byte + k ≤ length w.nvlist

-- The writer after `n` bytes of the header.
write_int-Back :
    (k n x : ℕ) (w : Writer)
    → Back (n + k) w
    → (w' : Writer) × (write_int n x w ≡ done w') × Back k w'
unfolding write_int write_int_in write overwritten put
write_int-Back k n x w d =
    let size = length-low_bytes n x in
    let (out, e, m) =
      overwrite-in (low_bytes n x) w.nvpair_start_byte w.nvlist (omega (arith, size, d.room)) in
    (
      record w { nvlist = out; nvpair_start_byte = w.nvpair_start_byte + length (low_bytes n x) },
      ap (λ o. write_int_in o n x w) d.order
          ∙ if_true w.mode_write_from_start_byte _ _ d.goes_back
          ∙ ap (overwritten w (length (low_bytes n x))) e,
      record {
        order = d.order;
        goes_back = d.goes_back;
        started = omega (arith, m, d.started);
        room = omega (arith, m, size, d.room);
      },
    )

weaken-Back :
    (k n x : ℕ) {w : Writer} {P : Writer → Type 0} {f : Writer → Outcome}
    → Back (n + k) w
    → ((w : Writer) → Back k w → Fine P (f w))
    → Fine P (write_int n x w >>= f)
weaken-Back k n x {w} {P} {f} d next =
    let (w', e, d') = write_int-Back k n x w d in subst (λ o. Fine P (o >>= f)) (sym e) (next w' d')

write_nv_pair_header-Ready :
    (nvp : NvPair) (w : Writer) → Open w → Fine Ready (write_nv_pair_header nvp w)
unfolding write_nv_pair_header
write_nv_pair_header-Ready nvp w d =
    let back : Back (4 + 12) (record w { mode_write_from_start_byte = true }) = record {
      order = d.ready.order;
      goes_back = refl;
      started = d.ready.started;
      room = d.room;
    } in
    weaken-Back 12 4 _ back λ w d. weaken-Back 10 2 _ d λ w d. weaken-Back 8 2 _ d λ w d.
      weaken-Back 4 4 _ d λ w d.
        weaken-Back 0 4 _ d
          λ w d. finished (record { order = d.order; appends = refl; started = d.started })

pub skip_to_align-Open : (w : Writer) → Open w → Open (skip_to_align w)
unfolding skip_to_align
skip_to_align-Open w d =
    append-Open (replicate (pad_size (length w.nvlist - w.nvpair_start_byte)) 0) w d

pub end_nv_pair-Ready :
    (nvp : NvPair) (w : Writer)
    → is_unknown nvp.type ≡ false
    → Open w
    → Fine Ready (end_nv_pair nvp w)
unfolding end_nv_pair
end_nv_pair-Ready nvp w known d =
    let begun : (w.nvpair_start_byte == 0) ≡ false = ground (arith, d.begun) in
    subst (Fine Ready)
      (sym
        (if_false (is_unknown nvp.type) _ _ known ∙ if_false (w.nvpair_start_byte == 0) _ _ begun))
      (write_nv_pair_header-Ready _ (skip_to_align w) (skip_to_align-Open w d))
