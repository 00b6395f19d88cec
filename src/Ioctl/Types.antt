-- ===== src/Ioctl/Types.antt =====
-- ioctl/types.go: the command, with the fields that NvlistIoctl leaves alone. A signed integer is its
-- bit pattern.
use go_zfs.Base.{ℕ, Bool, false, List, Bytes, replicate, none}
use go_zfs.Ioctl.{Cmd}

pub record DmuObjectSetStats : Type 0 where
  pub num_clones : ℕ
  pub creation_txg : ℕ
  pub guid : ℕ
  pub type : ℕ
  pub is_snapshot : ℕ
  pub inconsistent : ℕ
  pub origin : Bytes
  pub pad_cgo_0 : Bytes

pub record ZinjectRecord : Type 0 where
  pub objset : ℕ
  pub object : ℕ
  pub start : ℕ
  pub end : ℕ
  pub guid : ℕ
  pub level : ℕ
  pub error : ℕ
  pub type : ℕ
  pub freq : ℕ
  pub failfast : ℕ
  pub func : Bytes
  pub pad_cgo_0 : Bytes
  pub iotype : ℕ
  pub duration : ℕ
  pub timer : ℕ
  pub nlanes : ℕ
  pub cmd : ℕ
  pub pad : ℕ

pub record Share : Type 0 where
  pub exportdata : ℕ
  pub sharedata : ℕ
  pub sharetype : ℕ
  pub sharemax : ℕ

pub record Stat : Type 0 where
  pub gen : ℕ
  pub mode : ℕ
  pub links : ℕ
  pub ctime : List ℕ

pub record DrrBegin : Type 0 where
  pub magic : ℕ
  pub versioninfo : ℕ
  pub creation_time : ℕ
  pub type : ℕ
  pub flags : ℕ
  pub toguid : ℕ
  pub fromguid : ℕ
  pub toname : Bytes
  pub pad_cgo_0 : Bytes

-- The fields of `Cmd` without its name and its nvlists.
pub record Others : Type 0 where
  pub nvlist_dst_filled : Bool
  pub pad_cgo_0 : Bytes
  pub pad2 : ℕ
  pub history : ℕ
  pub value : Bytes
  pub string : Bytes
  pub guid : ℕ
  pub cookie : ℕ
  pub objset_type : ℕ
  pub perm_action : ℕ
  pub history_len : ℕ
  pub history_offset : ℕ
  pub obj : ℕ
  pub iflags : ℕ
  pub share : Share
  pub objset_stats : DmuObjectSetStats
  pub begin_record : DrrBegin
  pub inject_record : ZinjectRecord
  pub defer_destroy : ℕ
  pub flags : ℕ
  pub action_handle : ℕ
  pub cleanup_fd : ℕ
  pub simple : ℕ
  pub pad : Bytes
  pub sendobj : ℕ
  pub fromobj : ℕ
  pub createtxg : ℕ
  pub stat : Stat

abbrev pub zero_stats : DmuObjectSetStats
zero_stats = record {
  num_clones = 0;
  creation_txg = 0;
  guid = 0;
  type = 0;
  is_snapshot = 0;
  inconsistent = 0;
  origin = replicate 256 0;
  pad_cgo_0 = replicate 2 0;
}

abbrev pub zero_inject : ZinjectRecord
zero_inject = record {
  objset = 0;
  object = 0;
  start = 0;
  end = 0;
  guid = 0;
  level = 0;
  error = 0;
  type = 0;
  freq = 0;
  failfast = 0;
  func = replicate 255 0;
  pad_cgo_0 = replicate 1 0;
  iotype = 0;
  duration = 0;
  timer = 0;
  nlanes = 0;
  cmd = 0;
  pad = 0;
}

abbrev pub zero_share : Share
zero_share = record { exportdata = 0; sharedata = 0; sharetype = 0; sharemax = 0 }

abbrev pub zero_stat : Stat
zero_stat = record { gen = 0; mode = 0; links = 0; ctime = replicate 2 0 }

abbrev pub zero_begin : DrrBegin
zero_begin = record {
  magic = 0;
  versioninfo = 0;
  creation_time = 0;
  type = 0;
  flags = 0;
  toguid = 0;
  fromguid = 0;
  toname = replicate 255 0;
  pad_cgo_0 = replicate 1 0;
}

abbrev pub zero_others : Others
zero_others = record {
  nvlist_dst_filled = false;
  pad_cgo_0 = replicate 3 0;
  pad2 = 0;
  history = 0;
  value = replicate 8192 0;
  string = replicate 256 0;
  guid = 0;
  cookie = 0;
  objset_type = 0;
  perm_action = 0;
  history_len = 0;
  history_offset = 0;
  obj = 0;
  iflags = 0;
  share = zero_share;
  objset_stats = zero_stats;
  begin_record = zero_begin;
  inject_record = zero_inject;
  defer_destroy = 0;
  flags = 0;
  action_handle = 0;
  cleanup_fd = 0;
  simple = 0;
  pad = replicate 3 0;
  sendobj = 0;
  fromobj = 0;
  createtxg = 0;
  stat = zero_stat;
}

-- A command with a zero name and no nvlists.
abbrev pub new_cmd : Others → Cmd Others
new_cmd others = record {
  name = replicate 4096 0;
  nvlist_src = none;
  nvlist_dst = none;
  nvlist_conf = none;
  others = others;
}
