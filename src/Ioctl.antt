-- ===== src/Ioctl.antt =====
-- ioctl/ioctl.go: NvlistIoctl, with the kernel as a parameter.
pub mod Buffers
pub mod Retries
pub mod Types
pub mod Numbers
pub mod Sends
pub mod Names
pub mod Endings
pub mod Wrappers
pub mod Props
pub mod Handle
pub mod Receive
pub mod Send
mod Tests
use go_zfs.Base.{
  ℕ, zero, suc, ◌*◌, ◌^◌, Bool, List, [], ◌∷◌, Option, some, none, Bytes, replicate, leb, ◌==◌,
  if◌then◌else◌,
}
use go_zfs.Result.{Result, Error, Fault}
use go_zfs.Result
use go_zfs.Value.{Value}
use go_zfs.Encoder.Pairs.{marshal}
use go_zfs.Decoder.Cells.{Cell}
use go_zfs.Decoder.Targets.{unmarshal_into}
use go_zfs.Ioctl.Buffers.{Stored, string_to_delimited_buf}

-- Cmd: the fields that the function sets, and the others. A buffer that a pointer and a size describe
-- is its content, or its size for the one that the kernel fills; `none` is a null pointer.
pub record Cmd (R : Type 0) : Type 0 where
  pub name : Bytes
  pub nvlist_src : Option Bytes
  pub nvlist_dst : Option ℕ
  pub nvlist_conf : Option Bytes
  pub others : R

-- What the kernel leaves: the errno, the command, the destination buffer and its own state.
pub record Answer (S R : Type 0) : Type 0 where
  pub errno : ℕ
  pub cmd : Cmd R
  pub dst : Bytes
  pub state : S

-- `done` has what the response then holds, if there is one.
pub data Ending : Type 0 where
  done : Option Cell → Ending
  nvlist_error : Error → Ending
  nvlist_panic : Fault → Ending
  errno : ℕ → Ending
  buffer_too_big out_of_fuel : Ending

-- How the function ends, with the caller's command, and the commands that the kernel was given.
pub record Run (S R : Type 0) : Type 0 where
  pub ending : Ending
  pub cmd : Cmd R
  pub state : S
  pub calls : List (Cmd R)

abbrev pub enomem : ℕ
enomem = 12

abbrev pub result_ending {ℓ} : {A : Type ℓ} → Result A → (A → Ending) → Ending
result_ending (Result.ok a) f = f a
result_ending (Result.err e) f = nvlist_error e
result_ending (Result.panic p) f = nvlist_panic p
result_ending Result.out_of_fuel f = out_of_fuel

-- The value marshalled, where there is one.
pub data Marshalled : Type 0 where
  source : Option Bytes → Marshalled
  refused : Ending → Marshalled

unfoldable pub marshal_optional : Option Value → Marshalled
marshal_optional none = source none
marshal_optional (some v) = elim (marshal v) [
  | Result.ok bs ↦ source (some bs)
  | Result.err e ↦ refused (nvlist_error e)
  | Result.panic p ↦ refused (nvlist_panic p)
  | Result.out_of_fuel ↦ refused out_of_fuel
]

abbrev or_else {ℓ} : {A : Type ℓ} → Option A → Option A → Option A
or_else none old = old
or_else (some a) old = some a

abbrev dst_field : Option Cell → ℕ → Option ℕ
dst_field none n = none
dst_field (some c) n = some n

unfoldable pub unmarshal_response : Option Cell → Bytes → Ending
unmarshal_response none dst = done none
unmarshal_response (some c) dst = result_ending (unmarshal_into dst c) λ c'. done (some c')

-- The system call, with the number of the ioctl.
abbrev pub Kernel : Type 0 → Type 0 → Type 0
Kernel S R = ℕ → Cmd R → Bytes → S → Answer S R

-- The command of one round. The error for a name that does not fit is not looked at.
unfoldable pub private_cmd :
    {R : Type 0} → Bytes → Cmd R → Option Cell → Option Bytes → Option Bytes → ℕ → Cmd R
unfolding string_to_delimited_buf
private_cmd name cmd response src conf len = record {
  name = (string_to_delimited_buf name cmd.name).buf;
  nvlist_src = or_else src cmd.nvlist_src;
  nvlist_dst = or_else (dst_field response len) cmd.nvlist_dst;
  nvlist_conf = or_else conf cmd.nvlist_conf;
  others = cmd.others;
}

module _ {S R : Type 0} where
  abbrev pub add_call : Cmd R → Run S R → Run S R
  add_call c run = record run { calls = c ∷ run.calls }

  -- The loop, with a destination buffer of `len` bytes.
  unfoldable pub call_loop :
      Kernel S R
      → ℕ
      → Bytes
      → Cmd R
      → Option Bytes
      → Option Cell
      → Option Value
      → ℕ
      → ℕ
      → S
      → Run S R
  unfolding private_cmd
  call_loop kernel ioctl name cmd src response config zero len s = record {
    ending = out_of_fuel;
    cmd = cmd;
    state = s;
    calls = [];
  }
  call_loop kernel ioctl name cmd src response config (suc fuel) len s =
      elim (marshal_optional config) [
        | refused e ↦ record { ending = e; cmd = cmd; state = s; calls = [] }
        | source conf ↦
            let c = private_cmd name cmd response src conf len in
            let a = kernel ioctl c (replicate len 0) s in
            let again =
              call_loop kernel ioctl name cmd src response config fuel (len * 8) a.state in
            if a.errno == enomem
            then (if leb (16 * 1024 * 1024) len
                then record { ending = buffer_too_big; cmd = cmd; state = a.state; calls = c ∷ [] }
                else add_call c again)
            else record {
              ending = if a.errno == 0 then unmarshal_response response a.dst else errno a.errno;
              cmd = a.cmd;
              state = a.state;
              calls = c ∷ [];
            }
      ]

  -- The buffer starts with 8 KiB and grows by a factor of 8 until it has 16 MiB or more: five rounds.
  unfoldable pub nvlist_ioctl :
      Kernel S R → ℕ → Bytes → Cmd R → Option Value → Option Cell → Option Value → S → Run S R
  unfolding call_loop
  nvlist_ioctl kernel ioctl name cmd request response config s = elim (marshal_optional request) [
    | refused e ↦ record { ending = e; cmd = cmd; state = s; calls = [] }
    | source src ↦ call_loop kernel ioctl name cmd src response config 5 (8 * 1024) s
  ]
