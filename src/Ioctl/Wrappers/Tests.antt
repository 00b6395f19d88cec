-- ===== src/Ioctl/Wrappers/Tests.antt =====
-- ioctl: the wrappers on small inputs, with a kernel that always succeeds.
use go_zfs.Base.{
  ℕ, suc, ◌++◌, replicate, ◌≡◌, ◌⊎◌, refl, true, List, [], ◌∷◌, some, none, Bytes, All, arith,
  length, ◌≤◌, ◌<◌, ltb, if◌then◌else◌, lt→ltb, le→ltb,
}
use go_zfs.Value.{bytes, interface, integer, Entries, no_entries, entry}
use go_zfs.Encoder.Encodable.{Encodable, EncodableEntries}
use go_zfs.Consts.{uint64, nvtype_from_kind}
use go_zfs.Ioctl.Wrappers.Pools.{find_uint64}
use go_zfs.Ioctl.Wrappers.Imports.{Imports, pool_import-Imports}
use go_zfs.Ioctl.{Cmd, enomem, Kernel, nvlist_ioctl}
use go_zfs.Ioctl.Wrappers.Datasets.{
  destroy_snapshots, dataset_list_next, snapshot, rollback, inherit_prop,
}
use go_zfs.Ioctl.Wrappers.Destroys.{clone_call, destroy_snapshots-checked}
use go_zfs.Ioctl.Wrappers.Properties.{
  Property, numeric, textual, properties_list, ListsProperties, dataset_list_next-ListsProperties,
}
use go_zfs.Ioctl.Wrappers.Listing.{Lists, dataset_list_next-Lists}
use go_zfs.Encoder.Collect.{split_tag, field_name, leaves_out}
use go_zfs.Wire.{low_bytes}
use go_zfs.Decoder.Readable.{ReadableList, payload}
use go_zfs.Format.{nvlist_of, encode, pair_body, list_header}
use go_zfs.Ioctl.Buffers.{delimited_buf_to_string}
use go_zfs.Ioctl.Types.{Others, zero_others, new_cmd}
use go_zfs.Ioctl.Numbers.{most}
use go_zfs.Ioctl.Names.{sent_name, nvlist_ioctl-sent_name}
use go_zfs.Ioctl.Sends.{Sends, nvlist_ioctl-Sends}
use go_zfs.Ioctl.Wrappers.{duplicate_name, string_refused, fail}
use go_zfs.Ioctl.Wrappers.Requests.{snapshot_request, set_of, props_value}
use go_zfs.Ioctl.Wrappers.Names.{IsUnique}
use go_zfs.Ioctl.Wrappers.Snapshots.{snapshot_call, snapshot_list, snapshot-checked, snapshot-Sends}
use go_zfs.Ioctl.Wrappers.Rollbacks.{rollback-empty}
use go_zfs.Ioctl.Wrappers.PropNames.{
  Storable, inherit_fields, inherit_prop-refused, inherit_prop-Sends,
}

-- An empty nvlist with the lowest byte first.
abbrev no_pairs : Bytes
no_pairs = 0 ∷ 1 ∷ 0 ∷ 0 ∷ 0 ∷ 0 ∷ 0 ∷ 0 ∷ 1 ∷ 0 ∷ 0 ∷ 0 ∷ 0 ∷ 0 ∷ 0 ∷ 0 ∷ []

-- The state counts the calls.
abbrev kernel : Kernel ℕ Others
kernel i c dst s = record { errno = 0; cmd = c; dst = no_pairs; state = suc s }

abbrev same_order : List Bytes → List Bytes
same_order names = names

abbrev snaps : List Bytes
snaps = bytes "tank/a@1" ∷ bytes "tank/b@1" ∷ []

abbrev pool : Bytes
pool = bytes "tank"

request-Encodable : Encodable (snapshot_request snaps none)
unfolding Encodable snapshot_request set_of split_tag field_name leaves_out props_value
request-Encodable = ground arith

nvlist_ioctl-Sends_example :
    All
      (Sends pool zero_others (some (encode (nvlist_of (snapshot_request snaps none)))))
      (nvlist_ioctl kernel 7 pool
        (new_cmd zero_others)
        (some (snapshot_request snaps none))
        none
        none
        0).calls
unfolding snapshot_request
nvlist_ioctl-Sends_example =
    nvlist_ioctl-Sends kernel 7 pool zero_others none none 0 (ground arith) (ground arith)
      (snapshot_request snaps none) request-Encodable tt

-- "tank" and a null byte behind it.
abbrev cut_pool : Bytes
cut_pool = 116 ∷ 97 ∷ 110 ∷ 107 ∷ 0 ∷ 64 ∷ []

nvlist_ioctl-sent_name_example :
    All
      (λ c. delimited_buf_to_string c.name ≡ sent_name cut_pool)
      (nvlist_ioctl kernel 7 cut_pool
        (new_cmd zero_others)
        (some (snapshot_request snaps none))
        none
        none
        0).calls
unfolding snapshot_request
nvlist_ioctl-sent_name_example =
    nvlist_ioctl-sent_name kernel 7 cut_pool zero_others none none 0 (snapshot_request snaps none)
      request-Encodable tt

snapshot-checked_example :
    (IsUnique snaps
      × (snapshot kernel most same_order snaps pool none 0
          ≡ snapshot_call kernel most same_order snaps pool none 0))
    ⊎ ((¬ IsUnique snaps)
        × (snapshot kernel most same_order snaps pool none 0 ≡ fail tt duplicate_name 0))
snapshot-checked_example = snapshot-checked kernel most same_order snaps pool none 0

snapshot-Sends_example :
    All
      (Sends pool zero_others (some (encode (snapshot_list snaps none))))
      (snapshot kernel most same_order snaps pool none 0).calls
snapshot-Sends_example =
    snapshot-Sends kernel most same_order snaps pool none 0 (ground arith) (ground arith)
      (ground arith) tt

rollback-empty_example : (rollback kernel most pool (bytes "tank@1") 0).value ≡ []
rollback-empty_example = rollback-empty kernel most pool (bytes "tank@1") 0

-- A null byte.
with_null : ¬ Storable 8192 (65 ∷ 0 ∷ [])
with_null = ground arith

inherit_prop-refused_example :
    inherit_prop kernel most pool (65 ∷ 0 ∷ []) true 0 ≡ fail tt string_refused 0
inherit_prop-refused_example = inherit_prop-refused kernel most pool (65 ∷ 0 ∷ []) true 0 with_null

inherit_prop-Sends_example :
    All
      (Sends pool (inherit_fields kernel most pool (bytes "atime") true 0) none)
      (inherit_prop kernel most pool (bytes "atime") true 0).calls
    × (delimited_buf_to_string (inherit_fields kernel most pool (bytes "atime") true 0).value
        ≡ bytes "atime")
inherit_prop-Sends_example =
    inherit_prop-Sends kernel most pool (bytes "atime") true 0 (ground arith) (ground arith)

abbrev pool_config : Entries
pool_config = entry (bytes "pool_guid") (interface (integer uint64 77)) no_entries

pool_import-Imports_example :
    Imports kernel most pool pool_config no_entries 0 (find_uint64 (bytes "pool_guid") pool_config)
unfolding EncodableEntries
pool_import-Imports_example =
    pool_import-Imports kernel most pool pool_config no_entries 0 (ground arith) (ground arith) tt

-- It needs a buffer of 9000 bytes.
abbrev sized_kernel : Kernel ℕ Others
sized_kernel i c dst s = record {
  errno = if ltb (length dst) 9000 then enomem else 0;
  cmd = c;
  dst = no_pairs;
  state = suc s;
}

asks :
    (i : ℕ) (c : Cmd Others) (dst : Bytes) (s : ℕ)
    → length dst < 9000
    → (sized_kernel i c dst s).errno ≡ enomem
asks i c dst s h = rw (lt→ltb (length dst) 9000 h)

serves :
    (i : ℕ) (c : Cmd Others) (dst : Bytes) (s : ℕ)
    → 9000 ≤ length dst
    → (sized_kernel i c dst s).errno ≡ 0
serves i c dst s h = rw (le→ltb (length dst) 9000 h)

dataset_list_next-Lists_example :
    Lists sized_kernel most pool 3 9000 (dataset_list_next sized_kernel most pool 3 0)
dataset_list_next-Lists_example =
    dataset_list_next-Lists sized_kernel most pool 3 9000 0 (omega arith) asks serves

abbrev properties : List Property
properties =
    record { name = bytes "atime"; value = textual (bytes "on"); source = bytes "tank" }
    ∷ record { name = bytes "used"; value = numeric 4096; source = [] }
    ∷ []

properties-Readable : ReadableList (properties_list properties)
unfolding ReadableList properties_list pair_body payload low_bytes list_header nvtype_from_kind
properties-Readable = ground arith

-- It answers with the properties and zeros behind them.
abbrev listing_kernel : Kernel ℕ Others
listing_kernel i c dst s = record {
  errno = if ltb (length dst) 9000 then enomem else 0;
  cmd = c;
  dst = encode (properties_list properties) ++ replicate 8 0;
  state = suc s;
}

dataset_list_next-ListsProperties_example :
    ListsProperties listing_kernel most pool 3 properties 9000
      (dataset_list_next listing_kernel most pool 3 0)
dataset_list_next-ListsProperties_example =
    dataset_list_next-ListsProperties listing_kernel most pool 3 properties 9000 0
      properties-Readable (omega arith) (λ i c dst s h. rw (lt→ltb (length dst) 9000 h) refl)
      (λ i c dst s h. rw (le→ltb (length dst) 9000 h) refl) (λ i c dst s h. (replicate 8 0, refl))

destroy_snapshots-checked_example :
    (IsUnique snaps
      × (destroy_snapshots kernel most same_order snaps pool true 0
          ≡ clone_call kernel most same_order snaps pool true 0))
    ⊎ ((¬ IsUnique snaps)
        × (destroy_snapshots kernel most same_order snaps pool true 0 ≡ fail tt duplicate_name 0))
destroy_snapshots-checked_example =
    destroy_snapshots-checked kernel most same_order snaps pool true 0
