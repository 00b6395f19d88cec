-- ===== src/Ioctl/Props.antt =====
-- ioctl/wrappers.go, ioctl/types.go: the structs of properties and of a pool's configuration, which no
-- function of the package takes or returns but a caller may marshal.
pub mod ReadOnly
use go_zfs.Base.{ℕ, Bool, List, ◌∷◌, [], Option, some, none, Bytes}
use go_zfs.Consts.{uint64}
use go_zfs.Value.{
  Value, Entries, Fields, integer, bool, mapping, struct, ptr, nil_ptr, no_entries, entry,
  no_fields, field, bytes,
}
use go_zfs.Ioctl.Wrappers.Requests.{
  uint64_field, string_field, bool_field, string_entries, props_value, Vdev, vdev_value,
}

-- The constants of `State` and `FailMode` in their order.
pub data State : Type 0 where
  unknown closed offline removed cant_open faulted degraded healthy : State

unfoldable pub state_code : State → ℕ
state_code unknown = 0
state_code closed = 1
state_code offline = 2
state_code removed = 3
state_code cant_open = 4
state_code faulted = 5
state_code degraded = 6
state_code healthy = 7

pub data FailMode : Type 0 where
  fail_wait fail_continue fail_panic : FailMode

unfoldable pub fail_mode_code : FailMode → ℕ
fail_mode_code fail_wait = 0
fail_mode_code fail_continue = 1
fail_mode_code fail_panic = 2

-- `ObjectType`, in the order of its constants.
pub data ObjectType : Type 0 where
  type_none type_meta type_zfs type_zvol type_other type_any type_numtypes : ObjectType

unfoldable pub object_type_code : ObjectType → ℕ
object_type_code type_none = 0
object_type_code type_meta = 1
object_type_code type_zfs = 2
object_type_code type_zvol = 3
object_type_code type_other = 4
object_type_code type_any = 5
object_type_code type_numtypes = 6

pub record FilesystemProps : Type 0 where
  pub snapshot_directory_enabled : Bool
  pub acl_inheritance_policy : ℕ
  pub dnode_size : ℕ
  pub atime : Bool
  pub relative_atime : Bool
  pub zoned : Bool
  pub virus_scan : Bool
  pub overlay : Bool
  pub can_mount : ℕ
  pub mounted : Bool
  pub mountpoint : Bytes

unfoldable pub filesystem_props_value : FilesystemProps → Value
filesystem_props_value p = struct (
    bool_field (bytes "SnapshotDirectoryEnabled") (bytes "snapdir,asuint64")
      p.snapshot_directory_enabled
      (uint64_field (bytes "ACLInheritancePolicy") (bytes "aclinherit,omitempty,default=4")
        p.acl_inheritance_policy
        (uint64_field (bytes "DNodeSize") (bytes "dnodesize,omitempty") p.dnode_size (
          bool_field (bytes "Atime") (bytes "atime,default=true") p.atime (
            bool_field (bytes "RelativeAtime") (bytes "relatime") p.relative_atime (
              bool_field (bytes "Zoned") (bytes "zoned") p.zoned (
                bool_field (bytes "VirusScan") (bytes "vscan") p.virus_scan (
                  bool_field (bytes "Overlay") (bytes "overlay") p.overlay (
                    uint64_field (bytes "CanMount") (bytes "canmount,default=true") p.can_mount (
                      bool_field (bytes "Mounted") (bytes "mounted") p.mounted (
                        string_field (bytes "Mountpoint") (bytes "mountpoint") p.mountpoint
                          no_fields)))))))))))

-- What a pool tells of itself.
pub record ReadOnlyInfo : Type 0 where
  pub size : ℕ
  pub free : ℕ
  pub freeing : ℕ
  pub leaked : ℕ
  pub allocated : ℕ
  pub expand_size : ℕ
  pub fragmentation : ℕ
  pub capacity : ℕ
  pub guid : ℕ
  pub health : ℕ
  pub dedup_ratio : ℕ

pub record PoolProps : Type 0 where
  pub name : Bytes
  pub version : ℕ
  pub comment : Bytes
  pub alternative_root : Bytes
  pub temporary_name : Bytes
  pub boot_fs : Bytes
  pub cache_file : Bytes
  pub read_only : Bool
  pub multihost : Bool
  pub failmode : ℕ
  pub dedup_ditto : ℕ
  pub alignment_shift : ℕ
  pub delegation : Bool
  pub autoreplace : Bool
  pub list_snapshots : Bool
  pub autoexpand : Bool
  pub max_block_size : ℕ
  pub max_dnode_size : ℕ
  pub root_props : Option Entries
  pub user : List (Bytes × Bytes)
  pub info : ReadOnlyInfo

unfoldable pub info_fields : ReadOnlyInfo → Fields
info_fields i = uint64_field (bytes "Size") (bytes "size,ro") i.size (
    uint64_field (bytes "Free") (bytes "free,ro") i.free (
      uint64_field (bytes "Freeing") (bytes "freeing,ro") i.freeing (
        uint64_field (bytes "Leaked") (bytes "leaked,ro") i.leaked (
          uint64_field (bytes "Allocated") (bytes "allocated,ro") i.allocated (
            uint64_field (bytes "ExpandSize") (bytes "expandsize,ro") i.expand_size (
              uint64_field (bytes "Fragmentation") (bytes "fragmentation,ro") i.fragmentation (
                uint64_field (bytes "Capacity") (bytes "capacity,ro") i.capacity (
                  uint64_field (bytes "GUID") (bytes "guid,ro") i.guid (
                    uint64_field (bytes "Health") (bytes "health,ro") i.health (
                      uint64_field (bytes "DedupRatio") (bytes "dedupratio,ro") i.dedup_ratio
                        no_fields))))))))))

unfoldable pub setting_fields : PoolProps → Fields
unfolding props_value string_entries
setting_fields p = string_field (bytes "Name") (bytes "name,omitempty") p.name (
    uint64_field (bytes "Version") (bytes "version,omitempty") p.version (
      string_field (bytes "Comment") (bytes "comment,omitempty") p.comment (
        string_field (bytes "AlternativeRoot") (bytes "altroot,omitempty") p.alternative_root (
          string_field (bytes "TemporaryName") (bytes "tname,omitempty") p.temporary_name (
            string_field (bytes "BootFS") (bytes "bootfs,omitempty") p.boot_fs (
              string_field (bytes "CacheFile") (bytes "cachefile,omitempty") p.cache_file (
                bool_field (bytes "ReadOnly") (bytes "readonly,omitempty") p.read_only (
                  bool_field (bytes "Multihost") (bytes "multihost,omitempty") p.multihost (
                    uint64_field (bytes "Failmode") (bytes "failmode,omitempty") p.failmode (
                      uint64_field (bytes "DedupDitto") (bytes "dedupditto,omitempty") p.dedup_ditto
                        (uint64_field (bytes "AlignmentShift") (bytes "ashift,omitempty")
                          p.alignment_shift
                          (bool_field (bytes "Delegation") (bytes "delegation,omitempty")
                            p.delegation
                            (bool_field (bytes "Autoreplace") (bytes "autoreplace,omitempty")
                              p.autoreplace
                              (bool_field (bytes "ListSnapshots") (bytes "listsnapshots,omitempty")
                                p.list_snapshots
                                (bool_field (bytes "Autoexpand") (bytes "autoexpand,omitempty")
                                  p.autoexpand
                                  (uint64_field (bytes "MaxBlockSize")
                                    (bytes "maxblocksize,omitempty") p.max_block_size
                                    (uint64_field (bytes "MaxDnodeSize")
                                      (bytes "maxdnodesize,omitempty") p.max_dnode_size
                                      (field (bytes "RootProps") (bytes "root-props-nvl,omitempty")
                                        (props_value p.root_props)
                                        (field (bytes "User") (bytes "-,extra,omitempty")
                                          (mapping (string_entries p.user))
                                          no_fields)))))))))))))))))))

unfoldable pub append_fields : Fields → Fields → Fields
append_fields no_fields gs = gs
append_fields (field name tag v fs) gs = field name tag v (append_fields fs gs)

unfoldable pub pool_props_value : PoolProps → Value
unfolding append_fields setting_fields info_fields
pool_props_value p = struct (append_fields (setting_fields p) (info_fields p.info))

pub record PoolConfig : Type 0 where
  pub version : ℕ
  pub name : Bytes
  pub state : ℕ
  pub txg : ℕ
  pub guid : ℕ
  pub errata : ℕ
  pub hostname : Bytes
  pub number_of_children : ℕ
  pub vdev_tree : Option Vdev
  pub host_id : ℕ
  pub features_for_read : List (Bytes × Bool)

unfoldable pub bool_entries : List (Bytes × Bool) → Entries
bool_entries [] = no_entries
bool_entries ((name, b) ∷ rest) = entry name (bool b) (bool_entries rest)

unfoldable pub vdev_pointer : Option Vdev → Value
unfolding vdev_value
vdev_pointer none = nil_ptr
vdev_pointer (some v) = ptr (vdev_value v)

unfoldable pub pool_config_value : PoolConfig → Value
unfolding vdev_pointer bool_entries
pool_config_value c = struct (
    uint64_field (bytes "Version") (bytes "version,omitempty") c.version (
      string_field (bytes "Name") (bytes "name,omitempty") c.name (
        uint64_field (bytes "State") (bytes "state,omitempty") c.state (
          uint64_field (bytes "TXG") (bytes "txg,omitempty") c.txg (
            uint64_field (bytes "GUID") (bytes "pool_guid,omitempty") c.guid (
              uint64_field (bytes "Errata") (bytes "errata,omitempty") c.errata (
                string_field (bytes "Hostname") (bytes "hostname,omitempty") c.hostname (
                  uint64_field (bytes "NumberOfChildren") (bytes "vdev_children")
                    c.number_of_children
                    (field (bytes "VDevTree") (bytes "vdev_tree") (vdev_pointer c.vdev_tree) (
                      uint64_field (bytes "HostID") (bytes "hostid,omitempty") c.host_id (
                        field (bytes "FeaturesForRead") (bytes "features_for_read")
                          (mapping (bool_entries c.features_for_read)) no_fields)))))))))))
