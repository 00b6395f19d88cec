-- ===== src/Ioctl/Numbers.antt =====
-- ioctl/types.go, ioctl/types_most.go and ioctl/types_freebsd.go: the numbers of the ioctls.
use go_zfs.Base.{ℕ, ◌+◌, ◌*◌, ◌^◌}

pub data Ioctl : Type 0 where
  pool_create pool_destroy pool_import pool_export pool_configs pool_stats : Ioctl
  pool_tryimport pool_scan pool_freeze pool_upgrade pool_get_history vdev_add : Ioctl
  vdev_remove vdev_set_state vdev_attach vdev_detach vdev_setpath vdev_setfru : Ioctl
  objset_stats objset_zplprops dataset_list_next snapshot_list_next set_prop create : Ioctl
  destroy rollback rename recv send inject_fault : Ioctl
  clear_fault inject_list_next error_log clear promote snapshot : Ioctl
  dsobj_to_dsname obj_to_path pool_set_props pool_get_props set_fsacl get_fsacl : Ioctl
  share inherit_prop smb_acl userspace_one userspace_many userspace_upgrade : Ioctl
  hold release get_holds objset_recvd_props vdev_split next_obj : Ioctl
  diff tmp_snapshot obj_to_stats space_written space_snaps destroy_snaps : Ioctl
  pool_reguid pool_reopen send_progress log_history send_new send_space : Ioctl
  clone bookmark get_bookmarks destroy_bookmarks recv_new pool_sync : Ioctl
  platform events_next events_clear events_seek nextboot jail : Ioctl
  unjail set_bootenv get_bootenv last : Ioctl

-- FreeBSD, or another system.
pub data Platform : Type 0 where
  freebsd most : Platform

-- `ZFS_IOC_FIRST`; the letter Z is 90.
unfoldable pub first : Platform → ℕ
first freebsd = 0
first most = 90 * 2 ^ 8

-- The value of `iota`, with what its block adds.
unfoldable pub offset : Ioctl → ℕ
offset pool_create = 0
offset pool_destroy = 1
offset pool_import = 2
offset pool_export = 3
offset pool_configs = 4
offset pool_stats = 5
offset pool_tryimport = 6
offset pool_scan = 7
offset pool_freeze = 8
offset pool_upgrade = 9
offset pool_get_history = 10
offset vdev_add = 11
offset vdev_remove = 12
offset vdev_set_state = 13
offset vdev_attach = 14
offset vdev_detach = 15
offset vdev_setpath = 16
offset vdev_setfru = 17
offset objset_stats = 18
offset objset_zplprops = 19
offset dataset_list_next = 20
offset snapshot_list_next = 21
offset set_prop = 22
offset create = 23
offset destroy = 24
offset rollback = 25
offset rename = 26
offset recv = 27
offset send = 28
offset inject_fault = 29
offset clear_fault = 30
offset inject_list_next = 31
offset error_log = 32
offset clear = 33
offset promote = 34
offset snapshot = 35
offset dsobj_to_dsname = 36
offset obj_to_path = 37
offset pool_set_props = 38
offset pool_get_props = 39
offset set_fsacl = 40
offset get_fsacl = 41
offset share = 42
offset inherit_prop = 43
offset smb_acl = 44
offset userspace_one = 45
offset userspace_many = 46
offset userspace_upgrade = 47
offset hold = 48
offset release = 49
offset get_holds = 50
offset objset_recvd_props = 51
offset vdev_split = 52
offset next_obj = 53
offset diff = 54
offset tmp_snapshot = 55
offset obj_to_stats = 56
offset space_written = 57
offset space_snaps = 58
offset destroy_snaps = 59
offset pool_reguid = 60
offset pool_reopen = 61
offset send_progress = 62
offset log_history = 63
offset send_new = 64
offset send_space = 65
offset clone = 66
offset bookmark = 67
offset get_bookmarks = 68
offset destroy_bookmarks = 69
offset recv_new = 70
offset pool_sync = 71
offset platform = 128
offset events_next = 129
offset events_clear = 130
offset events_seek = 131
offset nextboot = 132
offset jail = 133
offset unjail = 134
offset set_bootenv = 135
offset get_bootenv = 136
offset last = 137

unfoldable pub ioctl_number : Platform → Ioctl → ℕ
unfolding first offset
ioctl_number p i = first p + offset i
