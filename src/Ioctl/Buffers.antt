-- ===== src/Ioctl/Buffers.antt =====
-- ioctl/wrappers.go: delimitedBufToString and stringToDelimitedBuf.
use go_zfs.Base.{
  ℕ, zero, suc, ◌+◌, ◌-◌, ◌<◌, ◌≤◌, ◌≡◌, ◌≢◌, refl, ap, ◌∙◌, length-replicate, Bool, true, false,
  [], ◌∷◌, ◌++◌, Bytes, length, replicate, ltb, ◌==◌, if◌then◌else◌, set, drop, length-append, sym,
  arith, le→ltb, lt→ltb,
}
use native.Mathlib.Decide.{dec_le}
use go_zfs.Encoder.Encodable.{NulFree}

-- The bytes before the first null byte, or all.
unfoldable pub delimited_buf_to_string : Bytes → Bytes
delimited_buf_to_string [] = []
delimited_buf_to_string (b ∷ buf) =
    let rest = delimited_buf_to_string buf in if b == 0 then [] else b ∷ rest

-- The buffer, whether or not the string is stored in it.
pub record Stored : Type 0 where
  pub buf : Bytes
  pub fits : Bool

-- The loop over the string, at the byte `i`.
unfoldable pub store_from : Bytes → ℕ → Bytes → Stored
store_from [] i buf = record { buf = buf; fits = true }
store_from (c ∷ str) i buf =
    let rest = store_from str (i + 1) (set buf i c) in
    if c == 0 then record { buf = buf; fits = false } else rest

unfoldable pub string_to_delimited_buf : Bytes → Bytes → Stored
unfolding store_from
string_to_delimited_buf str buf =
    if ltb (length buf - 1) (length str)
    then record { buf = buf; fits = false }
    else store_from str 0 buf

set-append :
    (done rest : Bytes) (x c : ℕ) → set (done ++ x ∷ rest) (length done) c ≡ done ++ c ∷ rest
set-append [] rest x c = refl
set-append (d ∷ done) rest x c = ap (λ xs. d ∷ xs) (set-append done rest x c)

append-cons : (done rest : Bytes) (c : ℕ) → done ++ c ∷ rest ≡ (done ++ c ∷ []) ++ rest
append-cons [] rest c = refl
append-cons (d ∷ done) rest c = ap (λ xs. d ∷ xs) (append-cons done rest c)

store_from-append :
    (str done rest : Bytes) (i : ℕ)
    → NulFree str
    → length done ≡ i
    → length str ≤ length rest
    → store_from str i (done ++ rest)
      ≡ record { buf = done ++ (str ++ drop (length str) rest); fits = true }
unfolding store_from
store_from-append [] done rest i h e l = refl
store_from-append (c ∷ str) done [] i h e l = absurd (omega arith)
store_from-append (c ∷ str) done (x ∷ rest) i (nz, h) e l =
    let z : (c == 0) ≡ false = ground arith in
    let at : set (done ++ x ∷ rest) i c ≡ (done ++ c ∷ []) ++ rest =
      rw (← e) (set-append done rest x c ∙ append-cons done rest c) in
    let n : length (done ++ c ∷ []) ≡ i + 1 = omega (arith, length-append done (c ∷ [])) in
    rw (z, at)
      (store_from-append str (done ++ c ∷ []) rest (i + 1) h n (omega arith)
        ∙ ap (λ buf. record { buf = buf; fits = true })
            (sym (append-cons done (str ++ drop (length str) rest) c)))

abbrev zeros : ℕ → Bytes
zeros n = replicate n 0

drop-zeros : (k n : ℕ) → k < n → drop k (zeros n) ≡ zeros (n - k)
drop-zeros zero n h = ap zeros (omega arith)
drop-zeros (suc k) zero h = absurd (omega arith)
drop-zeros (suc k) (suc n) h = drop-zeros k n (omega arith) ∙ ap zeros (omega arith)

delimited_buf_to_string-append :
    (str : Bytes) (n : ℕ) → NulFree str → 0 < n → delimited_buf_to_string (str ++ zeros n) ≡ str
unfolding delimited_buf_to_string
delimited_buf_to_string-append [] zero h l = absurd (omega arith)
delimited_buf_to_string-append [] (suc n) h l = refl
delimited_buf_to_string-append (c ∷ str) n (nz, h) l =
    let z : (c == 0) ≡ false = ground arith in rw (z, delimited_buf_to_string-append str n h l)

string_to_delimited_buf-zeros :
    (str : Bytes) (n : ℕ)
    → NulFree str
    → length str < n
    → string_to_delimited_buf str (zeros n)
      ≡ record { buf = str ++ zeros (n - length str); fits = true }
unfolding string_to_delimited_buf
string_to_delimited_buf-zeros str n h l =
    let e : length (zeros n) ≡ n = length-replicate {A = ℕ} n 0 in
    rw (
      e,
      le→ltb (n - 1) (length str) (omega arith),
      store_from-append str [] (zeros n) 0 h refl (omega arith),
      drop-zeros (length str) n l,
    )

-- A string without a null byte that is shorter than a buffer of zeros is stored in it, and is read
-- back from it.
pub delimited_buf_to_string-string_to_delimited_buf :
    (str : Bytes) (n : ℕ)
    → NulFree str
    → length str < n
    → ((string_to_delimited_buf str (replicate n 0)).fits ≡ true)
      × (delimited_buf_to_string (string_to_delimited_buf str (replicate n 0)).buf ≡ str)
delimited_buf_to_string-string_to_delimited_buf str n h l =
    let e = string_to_delimited_buf-zeros str n h l in
    (
      ap (λ b. b.fits) e,
      ap (λ b. delimited_buf_to_string b.buf) e
          ∙ delimited_buf_to_string-append str (n - length str) h (omega arith),
    )

delimited_buf_to_string-cut :
    (done rest : Bytes) → NulFree done → delimited_buf_to_string (done ++ 0 ∷ rest) ≡ done
unfolding delimited_buf_to_string
delimited_buf_to_string-cut [] rest h = refl
delimited_buf_to_string-cut (d ∷ done) rest (nz, h) =
    let z : (d == 0) ≡ false = ground arith in rw (z, delimited_buf_to_string-cut done rest h)

NulFree-append : (done : Bytes) (c : ℕ) → NulFree done → c ≢ 0 → NulFree (done ++ c ∷ [])
NulFree-append [] c h nz = (nz, tt)
NulFree-append (d ∷ done) c (h, hs) nz = (h, NulFree-append done c hs nz)

append_nil : (done : Bytes) → done ++ [] ≡ done
append_nil [] = refl
append_nil (d ∷ done) = ap (λ xs. d ∷ xs) (append_nil done)

-- The loop behind bytes that are stored: what is read is they and the string to its first null byte.
store_from-reads :
    (str done : Bytes) (i n : ℕ)
    → NulFree done
    → length done ≡ i
    → length str < n
    → delimited_buf_to_string (store_from str i (done ++ zeros n)).buf
      ≡ done ++ delimited_buf_to_string str
unfolding store_from delimited_buf_to_string
store_from-reads [] done i zero h e l = absurd (omega arith)
store_from-reads [] done i (suc n) h e l =
    delimited_buf_to_string-cut done (zeros n) h ∙ sym (append_nil done)
store_from-reads (c ∷ str) done i zero h e l = absurd (omega arith)
store_from-reads (c ∷ str) done i (suc n) h e l = elim (dec_le c 0) [
  | yes zero_byte ↦
      let z : (c == 0) ≡ true = ground arith in
      rw z (delimited_buf_to_string-cut done (zeros n) h ∙ sym (append_nil done))
  | no above ↦
      let nz : c ≢ 0 = ground arith in
      let z : (c == 0) ≡ false = ground arith in
      let at : set (done ++ zeros (suc n)) i c ≡ (done ++ c ∷ []) ++ zeros n =
        rw (← e) (set-append done (zeros n) 0 c ∙ append-cons done (zeros n) c) in
      let k : length (done ++ c ∷ []) ≡ i + 1 = omega (arith, length-append done (c ∷ [])) in
      rw (z, at)
        (store_from-reads str (done ++ c ∷ []) (i + 1) n (NulFree-append done c h nz) k
            (omega arith)
          ∙ sym (append-cons done (delimited_buf_to_string str) c))
]

zeros-empty : (n : ℕ) → delimited_buf_to_string (zeros n) ≡ []
unfolding delimited_buf_to_string
zeros-empty zero = refl
zeros-empty (suc n) = refl

-- What a buffer of zeros holds after a string of any length and any bytes is stored in it.
pub string_to_delimited_buf-reads :
    (str : Bytes) (n : ℕ)
    → 0 < n
    → delimited_buf_to_string (string_to_delimited_buf str (zeros n)).buf
      ≡ (if ltb (n - 1) (length str) then [] else delimited_buf_to_string str)
unfolding string_to_delimited_buf
string_to_delimited_buf-reads str n h =
    let e : length (zeros n) ≡ n = length-replicate {A = ℕ} n 0 in
    rw e (elim (dec_le n (length str)) [
      | yes l ↦ rw (lt→ltb (n - 1) (length str) (omega arith)) (zeros-empty n)
      | no l ↦
          rw (le→ltb (n - 1) (length str) (omega arith))
            (store_from-reads str [] 0 n tt refl (omega arith))
    ])
