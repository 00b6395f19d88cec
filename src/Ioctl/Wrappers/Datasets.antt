-- ===== src/Ioctl/Wrappers/Datasets.antt =====
-- ioctl/wrappers.go: the functions on datasets, snapshots and bookmarks.
use go_zfs.Base.{
  ℕ, Bool, true, false, List, [], ◌∷◌, ◌++◌, Option, some, none, Bytes, if◌then◌else◌,
}
use go_zfs.Value.{Entries, integer, string, mapping, bytes_eq}
use go_zfs.Decoder.Cells.{Cell, struct_cell, ptr_cell, plain_cell, slot, any_cell}
use go_zfs.Ioctl.{Kernel, Run}
use go_zfs.Ioctl.Buffers.{string_to_delimited_buf, delimited_buf_to_string}
use go_zfs.Ioctl.Types.{Others, DmuObjectSetStats, zero_others, zero_stats}
use go_zfs.Ioctl.Numbers.{Platform}
use go_zfs.Ioctl.Numbers
use go_zfs.Ioctl.Wrappers.{
  Call, duplicate_name, string_refused, response_of, fail, always, error_only, on_success, issue,
}
use go_zfs.Ioctl.Wrappers.Requests.{
  clone_request, create_request, snapshot_request, destroy_snapshots_request, rollback_request,
  SendSpaceOptions, send_space_request, string_entries, int32_map, int64_map, props_with_source,
  rollback_response, send_space_response,
}

-- A dataset or a snapshot, the next cursor, and the dataset's statistics.
abbrev pub Listed : Type 0
Listed = Bytes × ℕ × DmuObjectSetStats

abbrev pub nothing_listed : Listed
nothing_listed = ([], 0, zero_stats)

abbrev pub listed : {S : Type 0} → Run S Others → Listed
listed run =
    (delimited_buf_to_string run.cmd.name, run.cmd.others.cookie, run.cmd.others.objset_stats)

-- Whether the map has the key.
unfoldable pub has_key : Bytes → List Bytes → Bool
unfolding bytes_eq
has_key name [] = false
has_key name (key ∷ keys) = if bytes_eq key name then true else has_key name keys

-- The loop over `names`, with the keys of the map so far; `none` is the error for a duplicate.
unfoldable pub add_names : List Bytes → List Bytes → Option (List Bytes)
unfolding has_key
add_names keys [] = some keys
add_names keys (name ∷ names) =
    let rest = add_names (keys ++ name ∷ []) names in if has_key name keys then none else rest

-- The fields that the wrappers read of their responses.
unfoldable pub rollback_target : Option Cell → Bytes
rollback_target (some (struct_cell (slot _ _ _ (plain_cell (string s)) _))) = s
rollback_target _ = []

unfoldable pub space_of : Option Cell → ℕ
space_of (some (ptr_cell (struct_cell (slot _ _ _ (plain_cell (integer _ n)) _)))) = n
space_of _ = 0

module _ {S : Type 0} (kernel : Kernel S Others) (p : Platform) where
  unfoldable pub dataset_list_next : Bytes → ℕ → S → Call S (Listed × Option Cell)
  unfolding delimited_buf_to_string
  dataset_list_next name cursor s =
      let run =
        issue kernel p Numbers.dataset_list_next name (record zero_others { cookie = cursor }) none
          (some props_with_source) none s in
      on_success (nothing_listed, some props_with_source) run λ props. (listed run, props)

  unfoldable pub snapshot_list_next : Bytes → ℕ → Option Cell → S → Call S Listed
  unfolding delimited_buf_to_string
  snapshot_list_next name cursor props s =
      let run =
        issue kernel p Numbers.snapshot_list_next name (record zero_others { cookie = cursor }) none
          props none s in
      on_success nothing_listed run λ _. listed run

  unfoldable pub promote : Bytes → S → Call S Bytes
  unfolding delimited_buf_to_string
  promote name s =
      let run = issue kernel p Numbers.promote name zero_others none none none s in
      always run (delimited_buf_to_string run.cmd.others.string)

  unfoldable pub clone : Bytes → Bytes → Option Entries → S → Call S (Unit {0})
  unfolding clone_request
  clone origin name props s = error_only (
      issue kernel p Numbers.clone name zero_others (some (clone_request origin props))
        (some int32_map) none s)

  unfoldable pub create : Bytes → ℕ → Option Entries → S → Call S (Unit {0})
  unfolding create_request
  create name t props s = error_only (
      issue kernel p Numbers.create name zero_others (some (create_request t props))
        (some int32_map) none s)

  unfoldable pub bookmark : List (Bytes × Bytes) → S → Call S (Unit {0})
  unfolding string_entries
  bookmark snapshots_to_bookmarks s = error_only (
      issue kernel p Numbers.bookmark [] zero_others
        (some (mapping (string_entries snapshots_to_bookmarks))) (some int32_map) none s)

  unfoldable pub rollback : Bytes → Bytes → S → Call S Bytes
  unfolding rollback_request rollback_target
  rollback name target s =
      let run =
        issue kernel p Numbers.rollback name zero_others (some (rollback_request target))
          (some rollback_response) none s in
      always run (rollback_target (response_of (some rollback_response) run.ending))

  unfoldable pub set_prop : Bytes → Entries → ℕ → S → Call S (Unit {0})
  set_prop name props source s = error_only (
      issue kernel p Numbers.set_prop name (record zero_others { cookie = source })
        (some (mapping props)) (some int64_map) none s)

  unfoldable pub inherit_prop : Bytes → Bytes → Bool → S → Call S (Unit {0})
  unfolding string_to_delimited_buf
  inherit_prop name prop_name revert_to_received s =
      let stored = string_to_delimited_buf prop_name zero_others.value in
      let others = record zero_others {
        cookie = if revert_to_received then 1 else 0;
        value = stored.buf;
      } in
      if stored.fits
      then error_only (issue kernel p Numbers.inherit_prop name others none none none s)
      else fail tt string_refused s

  -- The error of stringToDelimitedBuf is not looked at.
  unfoldable pub get_space_written : Bytes → Bytes → S → Call S ℕ
  unfolding string_to_delimited_buf
  get_space_written dataset snapshot s =
      let stored = string_to_delimited_buf snapshot zero_others.value in
      let run =
        issue kernel p Numbers.space_written dataset (record zero_others { value = stored.buf })
          none none none s in
      on_success 0 run λ _. run.cmd.others.cookie

  unfoldable pub rename : Bytes → Bytes → Bool → S → Call S (Unit {0})
  unfolding string_to_delimited_buf
  rename old_name new_name recursive s =
      let stored = string_to_delimited_buf new_name zero_others.value in
      error_only (
        issue kernel p Numbers.rename old_name
          (record zero_others { cookie = if recursive then 1 else 0; value = stored.buf }) none none
          none s)

  unfoldable pub destroy : Bytes → ℕ → Bool → S → Call S (Unit {0})
  destroy name t deferred s = error_only (
      issue kernel p Numbers.destroy name (record zero_others { objset_type = t }) none none none s)

  unfoldable pub send_space : Bytes → SendSpaceOptions → S → Call S ℕ
  unfolding send_space_request space_of
  send_space name options s =
      let run =
        issue kernel p Numbers.send_space name zero_others (some (send_space_request options))
          (some send_space_response) none s in
      on_success 0 run space_of

  unfoldable pub objset_zpl_props : Bytes → S → Call S (Option Cell)
  objset_zpl_props name s =
      let props = ptr_cell (any_cell none) in
      let run = issue kernel p Numbers.objset_zplprops name zero_others none (some props) none s in
      always run (response_of (some props) run.ending)

  unfoldable pub objset_stats : Bytes → S → Call S (Option Cell)
  objset_stats name s =
      let run =
        issue kernel p Numbers.objset_stats name zero_others none (some props_with_source) none s in
      always run (response_of (some props_with_source) run.ending)

  -- `order` is the order in which MapKeys yields the keys of the map that the function makes.
  module _ (order : List Bytes → List Bytes) where
    unfoldable pub snapshot : List Bytes → Bytes → Option Entries → S → Call S (Unit {0})
    unfolding add_names snapshot_request
    snapshot names pool props s = elim (add_names [] names) [
      | none ↦ fail tt duplicate_name s
      | some keys ↦ error_only (
          issue kernel p Numbers.snapshot pool zero_others
            (some (snapshot_request (order keys) props)) (some int32_map) none s)
    ]

    -- The code issues the ioctl of Clone.
    unfoldable pub destroy_snapshots : List Bytes → Bytes → Bool → S → Call S (Unit {0})
    unfolding add_names destroy_snapshots_request
    destroy_snapshots names pool defer s = elim (add_names [] names) [
      | none ↦ fail tt duplicate_name s
      | some keys ↦ error_only (
          issue kernel p Numbers.clone pool zero_others
            (some (destroy_snapshots_request (order keys) defer)) (some int32_map) none s)
    ]
