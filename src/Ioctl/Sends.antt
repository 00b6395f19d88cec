-- ===== src/Ioctl/Sends.antt =====
-- ioctl/ioctl.go: what the commands hold that NvlistIoctl gives to the kernel.
use mathlib.Core.Path.{subst}
use go_zfs.Base.{
  ℕ, ◌*◌, ◌<◌, ◌≡◌, refl, sym, List, [], ◌∷◌, Option, some, none, Bytes, length, take, map,
  replicate, All,
}
use go_zfs.Value.{Value}
use go_zfs.Encoder.Encodable.{Encodable, IsList, NulFree}
use go_zfs.Encoder.Implements.{marshal-encode}
use go_zfs.Format.{nvlist_of, encode}
use go_zfs.Decoder.Cells.{Cell}
use go_zfs.Ioctl.{
  Cmd, Kernel, Run, Marshalled, refused, source, marshal_optional, private_cmd, call_loop,
  nvlist_ioctl,
}
use go_zfs.Ioctl.Buffers.{
  string_to_delimited_buf, delimited_buf_to_string, delimited_buf_to_string-string_to_delimited_buf,
}
use go_zfs.Ioctl.Retries.{nvlist_ioctl-call_loop, nvlist_ioctl-Rounds, sizes}
use go_zfs.Ioctl.Types.{Others, new_cmd}

All-map :
    {A B : Type 0} (P : B → Type 0) (f : A → B) (xs : List A)
    → ((a : A) → P (f a))
    → All P (map f xs)
All-map P f [] h = tt
All-map P f (x ∷ xs) h = (h x, All-map P f xs h)

module _ {S R : Type 0} (kernel : Kernel S R) (ioctl : ℕ) (name : Bytes) (cmd : Cmd R)
    (request : Option Value) (response : Option Cell) (config : Option Value) (s : S) where
  abbrev run : Run S R
  run = nvlist_ioctl kernel ioctl name cmd request response config s

  -- Without the bytes of the configuration the kernel is not called.
  calls-refused :
      (src : Option Bytes) (m : Marshalled)
      → marshal_optional request ≡ source src
      → marshal_optional config ≡ m
      → (P : Cmd R → Type 0)
      → ((conf : Option Bytes) (len : ℕ) → P (private_cmd name cmd response src conf len))
      → All P run.calls
  unfolding call_loop
  calls-refused src (refused e) r c P h =
      let none : run.calls ≡ [] = rw (
        nvlist_ioctl-call_loop kernel ioctl name cmd request response config s src r,
        c,
        call_loop,
      ) in
      subst (All P) (sym none) tt
  calls-refused src (source conf) r c P h =
      let (ends, prefix) =
        nvlist_ioctl-Rounds kernel ioctl name cmd request response config s src conf r c in
      subst (All P) (sym prefix)
        (All-map P _ (take (length run.calls) (sizes 5 (8 * 1024))) (h conf))

  -- What holds of the command of each round holds of all that the kernel is given.
  pub nvlist_ioctl-All :
      (src : Option Bytes)
      → marshal_optional request ≡ source src
      → (P : Cmd R → Type 0)
      → ((conf : Option Bytes) (len : ℕ) → P (private_cmd name cmd response src conf len))
      → All P run.calls
  nvlist_ioctl-All src r P h = calls-refused src (marshal_optional config) r refl P h

-- The name and the fields that the wrapper sets are in the command.
abbrev pub Carries : Bytes → Others → Cmd Others → Type 0
Carries name others c = (delimited_buf_to_string c.name ≡ name) × (c.others ≡ others)

-- So are the bytes of the request.
abbrev pub Sends : Bytes → Others → Option Bytes → Cmd Others → Type 0
Sends name others src c = Carries name others c × (c.nvlist_src ≡ src)

pub marshal_optional-encode :
    (v : Value)
    → Encodable v
    → IsList v
    → marshal_optional (some v) ≡ source (some (encode (nvlist_of v)))
unfolding marshal_optional
marshal_optional-encode v e l = rw (marshal_optional, marshal-encode v e l)

module _ {S : Type 0} (kernel : Kernel S Others) (ioctl : ℕ) (name : Bytes) (others : Others)
    (response : Option Cell) (config : Option Value) (s : S) (nul_free : NulFree name)
    (short : length name < 4096) where
  name-kept : delimited_buf_to_string (string_to_delimited_buf name (replicate 4096 0)).buf ≡ name
  name-kept = (delimited_buf_to_string-string_to_delimited_buf name 4096 nul_free short).1

  -- Whatever the kernel answers, each command that NvlistIoctl gives it for a new command and a request
  -- that can be encoded has the name, the fields of the new command, and as the source exactly the bytes
  -- that the wire format gives to the request's nvlist. The name has no null byte and less than 4096
  -- bytes.
  pub nvlist_ioctl-Sends :
      (v : Value)
      → Encodable v
      → IsList v
      → All
          (Sends name others (some (encode (nvlist_of v))))
          (nvlist_ioctl kernel ioctl name (new_cmd others) (some v) response config s).calls
  unfolding private_cmd
  nvlist_ioctl-Sends v e l =
      nvlist_ioctl-All kernel ioctl name (new_cmd others) (some v) response config s
        (some (encode (nvlist_of v))) (marshal_optional-encode v e l)
        (Sends name others (some (encode (nvlist_of v)))) λ conf len. ((name-kept, refl), refl)

  -- The same without a request.
  pub nvlist_ioctl-Sends-none :
      All
        (Sends name others none)
        (nvlist_ioctl kernel ioctl name (new_cmd others) none response config s).calls
  unfolding private_cmd marshal_optional
  nvlist_ioctl-Sends-none =
      nvlist_ioctl-All kernel ioctl name (new_cmd others) none response config s none refl
        (Sends name others none) λ conf len. ((name-kept, refl), refl)
