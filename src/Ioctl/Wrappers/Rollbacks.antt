-- ===== src/Ioctl/Wrappers/Rollbacks.antt =====
-- ioctl/wrappers.go: the target that Rollback returns.
use go_zfs.Base.{◌≡◌, refl, ap, [], some, none, Bytes}
use go_zfs.Result.{Result, ok, err, panic, out_of_fuel}
use go_zfs.Decoder.Cells.{Cell, Slots, struct_cell}
use go_zfs.Decoder.Targets.{unmarshal_into}
use go_zfs.Decoder.ByValue.{unmarshal_into-by_value}
use go_zfs.Ioctl.{Kernel, Ending, done, result_ending, unmarshal_response}
use go_zfs.Ioctl.Endings.{HoldsOfEndings, nvlist_ioctl-Holds}
use go_zfs.Ioctl.Types.{Others, zero_others, new_cmd}
use go_zfs.Ioctl.Numbers.{Platform, ioctl_number}
use go_zfs.Ioctl.Numbers
use go_zfs.Ioctl.Wrappers.{response_of}
use go_zfs.Ioctl.Wrappers.Requests.{rollback_request}
use go_zfs.Ioctl.Wrappers.Datasets.{rollback, rollback_target}

-- A response that is passed by value stays as it was.
module _ (ss : Slots) where
  abbrev Unchanged : Ending → Type 0
  Unchanged e = response_of (some (struct_cell ss)) e ≡ some (struct_cell ss)

  of_result :
      (r : Result Cell)
      → ((c : Cell) → r ≡ ok c → c ≡ struct_cell ss)
      → Unchanged (result_ending r λ c. done (some c))
  of_result (ok c) h = ap some (h c refl)
  of_result (err e) h = refl
  of_result (panic p) h = refl
  of_result out_of_fuel h = refl

  unmarshal_response-Unchanged :
      (dst : Bytes) → Unchanged (unmarshal_response (some (struct_cell ss)) dst)
  unfolding unmarshal_response
  unmarshal_response-Unchanged dst =
      of_result (unmarshal_into dst (struct_cell ss)) (unmarshal_into-by_value ss dst)

  by_value-Holds : HoldsOfEndings (some (struct_cell ss)) Unchanged
  by_value-Holds = record {
    fuel = refl;
    too_big = refl;
    errnos = λ n. refl;
    errors = λ e. refl;
    faults = λ p. refl;
    responses = unmarshal_response-Unchanged;
  }

-- Whatever the kernel answers, the target that Rollback returns is the empty string.
pub rollback-empty :
    {S : Type 0} (kernel : Kernel S Others) (p : Platform) (name target : Bytes) (s : S)
    → (rollback kernel p name target s).value ≡ []
unfolding rollback rollback_target
rollback-empty kernel p name target s =
    let unchanged =
      nvlist_ioctl-Holds (by_value-Holds _) kernel (ioctl_number p Numbers.rollback) name
        (new_cmd zero_others) none (some (rollback_request target)) s in
    ap rollback_target unchanged
