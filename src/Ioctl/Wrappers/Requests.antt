-- ===== src/Ioctl/Wrappers/Requests.antt =====
-- ioctl/wrappers.go: the structs and maps that the wrappers give to NvlistIoctl. A map is its entries
-- in the order in which MapKeys yields them.
use go_zfs.Base.{ℕ, Bool, true, List, [], ◌∷◌, Option, some, none, Bytes}
use go_zfs.Consts.{int32, int64, uint64}
use go_zfs.Value.{
  Value, Values, Entries, Fields, bool, integer, string, nvlists, mapping, struct, ptr, nil_ptr,
  no_values, value, no_entries, entry, no_fields, field, bytes,
}
use go_zfs.Decoder.Cells.{
  Cell, any_cell, plain_cell, any_map, map_cell, struct_cell, ptr_cell, no_cells, no_slots, slot,
}

abbrev pub uint64_field : Bytes → Bytes → ℕ → Fields → Fields
uint64_field name tag n = field name tag (integer uint64 n)

abbrev pub string_field : Bytes → Bytes → Bytes → Fields → Fields
string_field name tag s = field name tag (string s)

abbrev pub bool_field : Bytes → Bytes → Bool → Fields → Fields
bool_field name tag b = field name tag (bool b)

-- A `map[string]bool` with these keys, all true.
unfoldable pub set_of : List Bytes → Entries
set_of [] = no_entries
set_of (name ∷ names) = entry name (bool true) (set_of names)

unfoldable pub uint64_entries : List (Bytes × ℕ) → Entries
uint64_entries [] = no_entries
uint64_entries ((name, n) ∷ rest) = entry name (integer uint64 n) (uint64_entries rest)

unfoldable pub string_entries : List (Bytes × Bytes) → Entries
string_entries [] = no_entries
string_entries ((name, s) ∷ rest) = entry name (string s) (string_entries rest)

-- A `*DatasetProps`.
unfoldable pub props_value : Option Entries → Value
props_value none = nil_ptr
props_value (some es) = ptr (mapping es)

mutual
  pub data Vdev : Type 0 where
    vdev :
        (is_log dtl alignment_shift allocatable_capacity guid id : ℕ) (path type : Bytes)
        → (children l2_cache_children spares_children : Vdevs) → Vdev

  pub data Vdevs : Type 0 where
    no_vdevs : Vdevs
    vdev_and : Vdev → Vdevs → Vdevs

unfoldable mutual
  pub vdev_value : Vdev → Value
  vdev_value
        (vdev is_log dtl alignment_shift allocatable_capacity guid id path type children
          l2_cache_children spares_children) =
      struct (
        uint64_field (bytes "IsLog") (bytes "is_log") is_log (
          uint64_field (bytes "DTL") (bytes "DTL,omitempty") dtl (
            uint64_field (bytes "AlignmentShift") (bytes "ashift,omitempty") alignment_shift (
              uint64_field (bytes "AllocatableCapacity") (bytes "asize,omitempty")
                allocatable_capacity
                (uint64_field (bytes "GUID") (bytes "guid,omitempty") guid (
                  uint64_field (bytes "ID") (bytes "id,omitempty") id (
                    string_field (bytes "Path") (bytes "path") path (
                      string_field (bytes "Type") (bytes "type") type (
                        field (bytes "Children") (bytes "children,omitempty")
                          (nvlists (vdev_values children))
                          (field (bytes "L2CacheChildren") (bytes "l2cache,omitempty")
                            (nvlists (vdev_values l2_cache_children))
                            (field (bytes "SparesChildren") (bytes "spares,omitempty")
                              (nvlists (vdev_values spares_children)) no_fields)))))))))))

  pub vdev_values : Vdevs → Values
  vdev_values no_vdevs = no_values
  vdev_values (vdev_and v vs) = value (vdev_value v) (vdev_values vs)

unfoldable pub clone_request : Bytes → Option Entries → Value
unfolding props_value
clone_request origin props = struct (
    string_field (bytes "Origin") (bytes "origin") origin
      (field (bytes "Props") (bytes "props") (props_value props) no_fields))

unfoldable pub create_request : ℕ → Option Entries → Value
unfolding props_value
create_request object_type props = struct (
    field (bytes "Type") (bytes "type") (integer int32 object_type)
      (field (bytes "Props") (bytes "props") (props_value props) no_fields))

unfoldable pub snapshot_request : List Bytes → Option Entries → Value
unfolding set_of props_value
snapshot_request snaps props = struct (
    field (bytes "Snaps") (bytes "snaps") (mapping (set_of snaps))
      (field (bytes "Props") (bytes "props") (props_value props) no_fields))

unfoldable pub destroy_snapshots_request : List Bytes → Bool → Value
unfolding set_of
destroy_snapshots_request snaps defer = struct (
    field (bytes "Snaps") (bytes "snaps") (mapping (set_of snaps))
      (bool_field (bytes "Defer") (bytes "defer") defer no_fields))

unfoldable pub rollback_request : Bytes → Value
rollback_request target =
    struct (string_field (bytes "Target") (bytes "target,omitempty") target no_fields)

pub record SendSpaceOptions : Type 0 where
  pub from : Bytes
  pub large_blocks : Bool
  pub embed : Bool
  pub compress : Bool

unfoldable pub send_space_request : SendSpaceOptions → Value
send_space_request options = struct (
    string_field (bytes "From") (bytes "from,omitempty") options.from (
      bool_field (bytes "LargeBlocks") (bytes "largeblockok") options.large_blocks (
        bool_field (bytes "Embed") (bytes "embedok") options.embed
          (bool_field (bytes "Compress") (bytes "compressok") options.compress no_fields))))

-- The responses as they are given to NvlistIoctl.

-- `make(map[string]interface{})`
abbrev pub new_map : Cell
new_map = any_map no_entries

-- `make(map[string]int32)` and `make(map[string]int64)`
abbrev pub int32_map : Cell
int32_map = map_cell (plain_cell (integer int32 0)) no_cells

abbrev pub int64_map : Cell
int64_map = map_cell (plain_cell (integer int64 0)) no_cells

-- `make(DatasetPropsWithSource)`
abbrev pub props_with_source : Cell
props_with_source =
    map_cell
      (struct_cell (
        slot (bytes "Value") (bytes "value") true (any_cell none)
          (slot (bytes "Source") (bytes "source") true (plain_cell (string [])) no_slots)))
      no_cells

-- The response of Rollback, which is passed by value.
abbrev pub rollback_response : Cell
rollback_response =
    struct_cell (slot (bytes "Target") (bytes "target") true (plain_cell (string [])) no_slots)

abbrev pub send_space_response : Cell
send_space_response = ptr_cell (
    struct_cell
      (slot (bytes "Space") (bytes "space") true (plain_cell (integer uint64 0)) no_slots))
