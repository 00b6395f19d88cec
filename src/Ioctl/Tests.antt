-- ===== src/Ioctl/Tests.antt =====
-- ioctl: runs on small inputs, with a kernel that needs a buffer of 9000 bytes.
use go_zfs.Base.{
  ℕ, suc, ◌*◌, ◌≤◌, ◌<◌, ◌≡◌, refl, true, false, [], ◌∷◌, some, none, Bytes, length, ltb,
  if◌then◌else◌, replicate, lt→ltb, le→ltb, arith,
}
use go_zfs.Value.{no_entries, bytes}
use go_zfs.Decoder.Cells.{any_map}
use go_zfs.Ioctl.{Cmd, Kernel, enomem, marshal_optional, source, nvlist_ioctl}
use go_zfs.Ioctl.Buffers.{
  delimited_buf_to_string, string_to_delimited_buf, delimited_buf_to_string-string_to_delimited_buf,
}
use go_zfs.Encoder.Pairs.{marshal}
use go_zfs.Ioctl.Props.{ReadOnlyInfo, PoolProps, pool_props_value}
use go_zfs.Ioctl.Props.ReadOnly.{marshal-pool_props_value}
use go_zfs.Ioctl.Retries.{Rounds, Answers, nvlist_ioctl-Rounds, nvlist_ioctl-Answers}

abbrev pool : Bytes
pool = bytes "tank"

delimited_buf_to_string-string_to_delimited_buf_example :
    ((string_to_delimited_buf pool (replicate 8 0)).fits ≡ true)
    × (delimited_buf_to_string (string_to_delimited_buf pool (replicate 8 0)).buf ≡ pool)
delimited_buf_to_string-string_to_delimited_buf_example =
    delimited_buf_to_string-string_to_delimited_buf pool 8 (ground arith) (omega arith)

-- An empty nvlist with the lowest byte first.
abbrev no_pairs : Bytes
no_pairs = 0 ∷ 1 ∷ 0 ∷ 0 ∷ 0 ∷ 0 ∷ 0 ∷ 0 ∷ 1 ∷ 0 ∷ 0 ∷ 0 ∷ 0 ∷ 0 ∷ 0 ∷ 0 ∷ []

-- The state counts the calls.
abbrev kernel : Kernel ℕ ℕ
kernel i c dst s = record {
  errno = if ltb (length dst) 9000 then enomem else 0;
  cmd = record c { others = i };
  dst = no_pairs;
  state = suc s;
}

abbrev cmd : Cmd ℕ
cmd = record {
  name = replicate 8 0;
  nvlist_src = none;
  nvlist_dst = none;
  nvlist_conf = none;
  others = 0;
}

nothing : marshal_optional none ≡ source none
unfolding marshal_optional
nothing = refl

nvlist_ioctl-Rounds_example :
    Rounds kernel 7 pool cmd
      (some (any_map no_entries))
      none
      none
      5
      (8 * 1024)
      (nvlist_ioctl kernel 7 pool cmd none (some (any_map no_entries)) none 0)
nvlist_ioctl-Rounds_example =
    nvlist_ioctl-Rounds kernel 7 pool cmd none (some (any_map no_entries)) none 0 none none nothing
      nothing

asks :
    (i : ℕ) (c : Cmd ℕ) (dst : Bytes) (s : ℕ)
    → length dst < 9000
    → (kernel i c dst s).errno ≡ enomem
asks i c dst s h = rw (lt→ltb (length dst) 9000 h)

serves :
    (i : ℕ) (c : Cmd ℕ) (dst : Bytes) (s : ℕ) → 9000 ≤ length dst → (kernel i c dst s).errno ≡ 0
serves i c dst s h = rw (le→ltb (length dst) 9000 h)

nvlist_ioctl-Answers_example :
    Answers kernel 7 pool cmd
      (some (any_map no_entries))
      none
      none
      9000
      (nvlist_ioctl kernel 7 pool cmd none (some (any_map no_entries)) none 0)
nvlist_ioctl-Answers_example =
    nvlist_ioctl-Answers kernel 7 pool cmd none (some (any_map no_entries)) none 0 none none nothing
      nothing 9000 (omega arith) asks serves

abbrev info : ℕ → ReadOnlyInfo
info n = record {
  size = n;
  free = n;
  freeing = n;
  leaked = n;
  allocated = n;
  expand_size = n;
  fragmentation = n;
  capacity = n;
  guid = n;
  health = n;
  dedup_ratio = n;
}

abbrev pool_props : PoolProps
pool_props = record {
  name = bytes "tank";
  version = 0;
  comment = bytes "a pool";
  alternative_root = [];
  temporary_name = [];
  boot_fs = [];
  cache_file = [];
  read_only = true;
  multihost = false;
  failmode = 1;
  dedup_ditto = 0;
  alignment_shift = 12;
  delegation = false;
  autoreplace = false;
  list_snapshots = false;
  autoexpand = true;
  max_block_size = 0;
  max_dnode_size = 0;
  root_props = none;
  user = [];
  info = info 5;
}

marshal-pool_props_value_example :
    marshal (pool_props_value pool_props)
    ≡ marshal (pool_props_value (record pool_props { info = info 0 }))
marshal-pool_props_value_example = marshal-pool_props_value pool_props (info 0)
