-- ===== src/Encoder/Elements.antt =====
-- nvlist/encoder.go: what is written for the elements of a slice, and for headers of nvlists.
use go_zfs.Base.{
  ℕ, zero, suc, ◌≡◌, ◌∙◌, Bool, List, [], ◌∷◌, ◌++◌, Bytes, All, if◌then◌else◌, append_assoc,
  append-nil,
}
use go_zfs.Wire.{low_bytes}
use go_zfs.Encoder.{done, write_int, write_nvlist_header}
use go_zfs.Encoder.Pairs.{write_ints, write_bools, write_strings, write_nvlist_headers}
use go_zfs.Encoder.Encodable.{NulFree}
use go_zfs.Encoder.Steps.{writer, write_string-writer}
use go_zfs.Format.{list_header, list_headers, encode_ints, encode_flags, encode_texts}

pub write_ints-writer :
    (n : ℕ) (xs : List ℕ) (bs : Bytes) (start : ℕ)
    → write_ints n xs (writer bs start) ≡ done (writer (bs ++ encode_ints n xs) start)
unfolding write_ints write_int encode_ints
write_ints-writer n [] bs start = rw append-nil
write_ints-writer n (x ∷ xs) bs start =
    write_ints-writer n xs (bs ++ low_bytes n x) start ∙ rw append_assoc

pub write_bools-writer :
    (xs : List Bool) (bs : Bytes) (start : ℕ)
    → write_bools xs (writer bs start) ≡ done (writer (bs ++ encode_flags xs) start)
unfolding write_bools write_int encode_flags
write_bools-writer [] bs start = rw append-nil
write_bools-writer (x ∷ xs) bs start =
    write_bools-writer xs (bs ++ low_bytes 4 (if x then 1 else 0)) start ∙ rw append_assoc

pub write_strings-writer :
    (ss : List Bytes) (bs : Bytes) (start : ℕ)
    → All NulFree ss
    → write_strings ss (writer bs start) ≡ done (writer (bs ++ encode_texts ss) start)
unfolding write_strings encode_texts
write_strings-writer [] bs start h = rw append-nil
write_strings-writer (s ∷ ss) bs start h =
    rw (write_string-writer s bs start h.0)
      (write_strings-writer ss _ start h.1 ∙ rw (append_assoc bs (s ++ 0 ∷ []) (encode_texts ss)))

pub write_nvlist_header-writer :
    (bs : Bytes) (start : ℕ)
    → write_nvlist_header (writer bs start) ≡ done (writer (bs ++ list_header) start)
unfolding write_nvlist_header write_int list_header
write_nvlist_header-writer bs start = simp append_assoc

pub write_nvlist_headers-writer :
    (n : ℕ) (bs : Bytes) (start : ℕ)
    → write_nvlist_headers n (writer bs start) ≡ done (writer (bs ++ list_headers n) start)
unfolding write_nvlist_headers list_headers
write_nvlist_headers-writer zero bs start = rw append-nil
write_nvlist_headers-writer (suc n) bs start = rw (write_nvlist_header-writer bs start) (
    write_nvlist_headers-writer n (bs ++ list_header) start
    ∙ rw (append_assoc bs list_header (list_headers n)))
