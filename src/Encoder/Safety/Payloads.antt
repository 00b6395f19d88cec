-- ===== src/Encoder/Safety/Payloads.antt =====
-- nvlist/encoder.go: what is written for a value, with the writer's invariant.
use go_zfs.Base.{ℕ, zero, suc, ◌≡◌, refl, Bool, false, List, [], ◌∷◌, Bytes, replicate}
use go_zfs.Consts.{
  IntKind, int8, uint8, int16, uint16, int32, uint32, int64, uint64, int_kind, nvtype_from_kind,
  nvtype_from_array_kind,
}
use go_zfs.Encoder.{Writer, skip_n, is_unknown}
use go_zfs.Encoder.Pairs.{write_ints, write_bools, write_strings, write_nvlist_headers}
use go_zfs.Encoder.Safety.{
  Fine, finished, Fine-bind, Fine-ignore_error, Open, append-Open, write_int-Open,
  write_string-Open, write_nvlist_header-Open,
}

pub write_ints-Open : (n : ℕ) (xs : List ℕ) (w : Writer) → Open w → Fine Open (write_ints n xs w)
unfolding write_ints
write_ints-Open n [] w d = finished d
write_ints-Open n (x ∷ xs) w d =
    Fine-bind (write_int-Open n x w d) (λ w d. d) (write_ints-Open n xs)

pub write_bools-Open : (bs : List Bool) (w : Writer) → Open w → Fine Open (write_bools bs w)
unfolding write_bools
write_bools-Open [] w d = finished d
write_bools-Open (b ∷ bs) w d = Fine-bind (write_int-Open 4 _ w d) (λ w d. d) (write_bools-Open bs)

pub write_strings-Open : (ss : List Bytes) (w : Writer) → Open w → Fine Open (write_strings ss w)
unfolding write_strings
write_strings-Open [] w d = finished d
write_strings-Open (s ∷ ss) w d =
    Fine-bind (Fine-ignore_error (write_string-Open s w d)) (λ w d. d) (write_strings-Open ss)

pub write_nvlist_headers-Open : (n : ℕ) (w : Writer) → Open w → Fine Open (write_nvlist_headers n w)
unfolding write_nvlist_headers
write_nvlist_headers-Open zero w d = finished d
write_nvlist_headers-Open (suc n) w d =
    Fine-bind (write_nvlist_header-Open w d) (λ w d. d) (write_nvlist_headers-Open n)

pub skip_n-Open : (n : ℕ) (w : Writer) → Open w → Open (skip_n n w)
unfolding skip_n
skip_n-Open n w d = append-Open (replicate n 0) w d

pub kind-known : (k : IntKind) → is_unknown (nvtype_from_kind (int_kind k)) ≡ false
unfolding is_unknown nvtype_from_kind
kind-known int8 = refl
kind-known uint8 = refl
kind-known int16 = refl
kind-known uint16 = refl
kind-known int32 = refl
kind-known uint32 = refl
kind-known int64 = refl
kind-known uint64 = refl

pub array_kind-known : (k : IntKind) → is_unknown (nvtype_from_array_kind (int_kind k)) ≡ false
unfolding is_unknown nvtype_from_array_kind
array_kind-known int8 = refl
array_kind-known uint8 = refl
array_kind-known int16 = refl
array_kind-known uint16 = refl
array_kind-known int32 = refl
array_kind-known uint32 = refl
array_kind-known int64 = refl
array_kind-known uint64 = refl
