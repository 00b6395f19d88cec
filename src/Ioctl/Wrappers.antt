-- ===== src/Ioctl/Wrappers.antt =====
-- ioctl/wrappers.go: how its functions call NvlistIoctl, and what they return.
pub mod Requests
mod Tests
pub mod Pools
pub mod Datasets
pub mod Names
pub mod Snapshots
pub mod Rollbacks
pub mod PropNames
pub mod Imports
pub mod Listing
pub mod Properties
pub mod Destroys
use go_zfs.Base.{ℕ, List, [], Option, some, none, Bytes}
use go_zfs.Value.{Value}
use go_zfs.Decoder.Cells.{Cell}
use go_zfs.Ioctl.{Cmd, Kernel, Run, Ending, done, nvlist_ioctl}
use go_zfs.Ioctl.Types.{Others, new_cmd}
use go_zfs.Ioctl.Numbers.{Ioctl, Platform, ioctl_number}

-- The errors: of NvlistIoctl, which may be a panic, an errno in the command's cookie, those of the
-- wrappers, and the panic of a type assertion.
pub data Failure : Type 0 where
  of_ioctl : Ending → Failure
  of_cookie : ℕ → Failure
  duplicate_name string_refused not_a_guid : Failure

-- The values that a wrapper returns, the error, if any, and the commands that the kernel was given.
pub record Call (S A : Type 0) : Type 0 where
  pub value : A
  pub error : Option Failure
  pub state : S
  pub calls : List (Cmd Others)

abbrev pub error_of : Ending → Option Failure
error_of (done response) = none
error_of e = some (of_ioctl e)

-- What the response holds. After an error it stands for what it held before.
abbrev pub response_of : Option Cell → Ending → Option Cell
response_of old (done response) = response
response_of old e = old

module _ {S : Type 0} where
  -- Before any call.
  abbrev pub fail : {A : Type 0} → A → Failure → S → Call S A
  fail value failure s = record { value = value; error = some failure; state = s; calls = [] }

  -- The values, whether or not there is an error.
  abbrev pub always : {A : Type 0} → Run S Others → A → Call S A
  always run value = record {
    value = value;
    error = error_of run.ending;
    state = run.state;
    calls = run.calls;
  }

  -- The error alone.
  abbrev pub error_only : Run S Others → Call S (Unit {0})
  error_only run = always run tt

  -- The values after a success, and others after an error.
  abbrev pub on_success : {A : Type 0} → A → Run S Others → (Option Cell → A) → Call S A
  on_success zero run f = record {
    value = elim (error_of run.ending) [ none ↦ f (response_of none run.ending) | some e ↦ zero ];
    error = error_of run.ending;
    state = run.state;
    calls = run.calls;
  }

  -- NvlistIoctl for a new command, with the handle of the package.
  abbrev pub issue :
      Kernel S Others
      → Platform
      → Ioctl
      → Bytes
      → Others
      → Option Value
      → Option Cell
      → Option Value
      → S
      → Run S Others
  issue kernel p i name others request response config s =
      nvlist_ioctl kernel (ioctl_number p i) name (new_cmd others) request response config s
