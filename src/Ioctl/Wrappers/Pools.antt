-- ===== src/Ioctl/Wrappers/Pools.antt =====
-- ioctl/wrappers.go: the functions on pools.
use go_zfs.Base.{ℕ, Bool, List, [], Option, some, none, Bytes, ◌==◌, if◌then◌else◌}
use go_zfs.Consts.{uint64}
use go_zfs.Value.{Value, Entries, integer, mapping, interface, no_entries, entry, bytes, bytes_eq}
use go_zfs.Decoder.Cells.{Cell, any_cell, ptr_cell}
use go_zfs.Ioctl.{Kernel, Run}
use go_zfs.Ioctl.Types.{Others, zero_others}
use go_zfs.Ioctl.Numbers.{Platform}
use go_zfs.Ioctl.Numbers
use go_zfs.Ioctl.Wrappers.{
  Call, of_cookie, not_a_guid, error_of, response_of, fail, always, error_only, issue,
}
use go_zfs.Ioctl.Wrappers.Requests.{Vdev, vdev_value, uint64_entries, new_map}

-- `.(uint64)` of an element of the map, and `none` for its panic.
unfoldable pub uint64_of : Value → Option ℕ
uint64_of (interface (integer uint64 n)) = some n
uint64_of _ = none

unfoldable pub find_uint64 : Bytes → Entries → Option ℕ
unfolding uint64_of bytes_eq
find_uint64 name no_entries = none
find_uint64 name (entry key v es) =
    let rest = find_uint64 name es in if bytes_eq key name then uint64_of v else rest

-- An errno in the cookie comes before the error of the call.
unfoldable pub with_cookie : {S : Type 0} → Run S Others → Option Cell → Call S (Option Cell)
with_cookie run value = record {
  value = if run.cmd.others.cookie == 0 then value else none;
  error =
      if run.cmd.others.cookie == 0
      then error_of run.ending
      else some (of_cookie run.cmd.others.cookie);
  state = run.state;
  calls = run.calls;
}

-- An error of the call comes before the errno in the cookie.
unfoldable pub with_stats : {S : Type 0} → Run S Others → Call S (Option Cell)
unfolding with_cookie
with_stats run = elim (error_of run.ending) [
  | some e ↦ always run none
  | none ↦ with_cookie run (response_of none run.ending)
]

module _ {S : Type 0} (kernel : Kernel S Others) (p : Platform) where
  unfoldable pub pool_create : Bytes → List (Bytes × ℕ) → Vdev → S → Call S (Unit {0})
  unfolding uint64_entries vdev_value
  pool_create name features config s = error_only (
      issue kernel p Numbers.pool_create name zero_others (some (mapping (uint64_entries features)))
        none (some (vdev_value config)) s)

  unfoldable pub pool_destroy : Bytes → S → Call S (Unit {0})
  pool_destroy name s =
      error_only (issue kernel p Numbers.pool_destroy name zero_others none none none s)

  unfoldable pub pool_configs : S → Call S (Option Cell)
  pool_configs s =
      let run = issue kernel p Numbers.pool_configs [] zero_others none (some new_map) none s in
      always run (response_of (some new_map) run.ending)

  unfoldable pub pool_stats : Bytes → S → Call S (Option Cell)
  unfolding with_stats
  pool_stats name s =
      with_stats (issue kernel p Numbers.pool_stats name zero_others none (some new_map) none s)

  unfoldable pub pool_import : Bytes → Entries → Entries → S → Call S (Option Cell)
  unfolding find_uint64 with_cookie
  pool_import name config props s = elim (find_uint64 (bytes "pool_guid") config) [
    | none ↦ fail none not_a_guid s
    | some guid ↦
        let run =
          issue kernel p Numbers.pool_import name (record zero_others { guid = guid })
            (some (mapping props)) (some new_map) (some (mapping config)) s in
        with_cookie run (response_of (some new_map) run.ending)
  ]

  unfoldable pub pool_export : Bytes → Bool → Bool → S → Call S (Unit {0})
  pool_export name force hard_force s = error_only (
      issue kernel p Numbers.pool_export name
        (record zero_others { cookie = if force then 1 else 0; guid = if hard_force then 1 else 0 })
        none none none s)

  unfoldable pub pool_get_props : Bytes → S → Call S (Option Cell)
  pool_get_props name s =
      let props = ptr_cell (any_cell none) in
      let run = issue kernel p Numbers.pool_get_props name zero_others none (some props) none s in
      always run (response_of (some props) run.ending)

  unfoldable pub pause_scan : Bytes → S → Call S (Unit {0})
  pause_scan pool s =
      error_only
        (issue kernel p Numbers.pool_scan pool (record zero_others { flags = 1 }) none none none s)

  unfoldable pub start_stop_scan : Bytes → ℕ → S → Call S (Unit {0})
  start_stop_scan pool t s =
      error_only
        (issue kernel p Numbers.pool_scan pool (record zero_others { cookie = t }) none none none s)

  unfoldable pub regenerate_guid : Bytes → S → Call S (Unit {0})
  regenerate_guid pool s =
      error_only (issue kernel p Numbers.pool_reguid pool zero_others none none none s)
