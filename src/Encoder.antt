-- ===== src/Encoder.antt =====
-- nvlist/encoder.go: the writer's methods. `writeNvPairs` and `Marshal` are in `Pairs`.
pub mod Collect
pub mod Pairs
pub mod Encodable
pub mod Steps
pub mod Elements
pub mod Payloads
pub mod Writable
pub mod Implements
pub mod Safety
use go_zfs.Base.{
  ℕ, zero, suc, ◌+◌, ◌-◌, ◌%◌, ◌^◌, Bool, true, false, List, [], ◌∷◌, ◌++◌, Option, some, none,
  Bytes, length, set, replicate, ltb, ◌==◌, if◌then◌else◌,
}
use go_zfs.Wire.{ByteOrder, little, put}
use go_zfs.Result.{
  Error, Fault, invalid_value, index_out_of_range, nil_byte_order, unknown_type, pair_not_started,
}
use go_zfs.Consts.{NvType, NvPair, type_unknown, nvtype_code, nvlist_header_size, unique_name_flag}

-- nvlistWriter. A nil `endianness` is `none`.
pub record Writer : Type 0 where
  pub nvlist : Bytes
  pub nvpair_start_byte : ℕ
  pub mode_write_from_start_byte : Bool
  pub endianness : Option ByteOrder
  pub flags : ℕ
  pub version : ℕ

-- How a method of the writer ends. An error leaves the writer as it is by then.
pub data Outcome : Type 0 where
  done : Writer → Outcome
  failed : Error → Writer → Outcome
  panicked : Fault → Outcome
  out_of_fuel : Outcome

infixl 5 ◌>>=◌
abbrev pub ◌>>=◌ : Outcome → (Writer → Outcome) → Outcome
done w >>= f = f w
failed e w >>= f = failed e w
panicked p >>= f = panicked p
out_of_fuel >>= f = out_of_fuel

-- A call whose error nobody looks at.
abbrev pub ignore_error : Outcome → Outcome
ignore_error (failed e w) = done w
ignore_error o = o

unfoldable pub append_bytes : Bytes → Writer → Writer
append_bytes bs w = record w { nvlist = w.nvlist ++ bs }

unfoldable pub write_byte : ℕ → Writer → Writer
unfolding append_bytes
write_byte c w = append_bytes (c ∷ []) w

unfoldable pub skip_n : ℕ → Writer → Writer
unfolding append_bytes
skip_n n w = append_bytes (replicate n 0) w

unfoldable pub pad_size : ℕ → ℕ
pad_size n = if n % 8 == 0 then 0 else 8 - n % 8

unfoldable pub skip_to_align : Writer → Writer
unfolding append_bytes pad_size
skip_to_align w = append_bytes (replicate (pad_size (length w.nvlist - w.nvpair_start_byte)) 0) w

-- `w.nvlist[start + i] = b` for each byte of `buf`; `none` if an index is out of range.
unfoldable pub overwrite : Bytes → ℕ → Bytes → Option Bytes
overwrite [] i whole = some whole
overwrite (b ∷ buf) i whole =
    let rest = overwrite buf (i + 1) (set whole i b) in if ltb i (length whole) then rest else none

overwritten : Writer → ℕ → Option Bytes → Outcome
overwritten w n none = panicked index_out_of_range
overwritten w n (some whole) =
    done (record w { nvlist = whole; nvpair_start_byte = w.nvpair_start_byte + n })

-- `Write`, the method that encoding/binary calls.
unfoldable pub write : Bytes → Writer → Outcome
unfolding overwritten overwrite append_bytes
write buf w =
    if w.mode_write_from_start_byte
    then overwritten w (length buf) (overwrite buf w.nvpair_start_byte w.nvlist)
    else done (append_bytes buf w)

-- `binary.Write` of an integer of `n` bytes, in a byte order that may be nil.
unfoldable pub write_int_in : Option ByteOrder → ℕ → ℕ → Writer → Outcome
unfolding write put
write_int_in none n val w = panicked nil_byte_order
write_int_in (some o) n val w = write (put o n val) w

unfoldable pub write_int : ℕ → ℕ → Writer → Outcome
unfolding write_int_in
write_int n val w = write_int_in w.endianness n val w

-- The bytes before a null byte are written, then the error is returned.
unfoldable pub write_string : Bytes → Writer → Outcome
unfolding append_bytes
write_string [] w = done (append_bytes (0 ∷ []) w)
write_string (c ∷ str) w =
    let rest = write_string str (append_bytes (c ∷ []) w) in
    if c == 0 then failed invalid_value w else rest

unfoldable pub write_nv_header : Writer → Outcome
unfolding write_byte skip_n
write_nv_header w = do
  w ←
      write_int 4 w.version
        (skip_n 2 (record (write_byte 1 (write_byte 0 w)) { endianness = some little }))
  write_int 4 w.flags w

unfoldable pub start_nv_pair : Writer → Writer
unfolding append_bytes
start_nv_pair w =
    append_bytes (replicate nvlist_header_size 0) (record w { nvpair_start_byte = length w.nvlist })

-- The five fields, written over the sixteen bytes that `startNvPair` left.
unfoldable pub write_nv_pair_header : NvPair → Writer → Outcome
write_nv_pair_header nvp w = do
  w ← write_int 4 nvp.size (record w { mode_write_from_start_byte = true })
  w ← write_int 2 nvp.name_sz w
  w ← write_int 2 nvp.reserve w
  w ← write_int 4 nvp.value_elem w
  w ← write_int 4 (nvtype_code nvp.type) w
  done (record w { mode_write_from_start_byte = false; nvpair_start_byte = 0 })

unfoldable pub is_unknown : NvType → Bool
is_unknown type_unknown = true
is_unknown _ = false

-- `int32(n)` as a bit pattern is `n % 2 ^ 32`.
unfoldable pub end_nv_pair : NvPair → Writer → Outcome
unfolding is_unknown
end_nv_pair nvp w =
    if is_unknown nvp.type
    then panicked unknown_type
    else if w.nvpair_start_byte == 0
    then panicked pair_not_started
    else let w = skip_to_align w in
      write_nv_pair_header (record nvp { size = (length w.nvlist - w.nvpair_start_byte) % 2 ^ 32 })
        w

unfoldable pub write_nvlist_header : Writer → Outcome
write_nvlist_header w = do
  w ← write_int 4 0 w
  w ← write_int 4 unique_name_flag w
  w ← write_int 8 0 w
  w ← write_int 4 0 w
  write_int 4 0 w
