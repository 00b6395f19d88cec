-- ===== src/Testhelper.antt =====
-- ioctl/testhelper/main.go: the init process of the virtual machine for the tests, with the system as a
-- parameter.
pub mod Marks
mod Tests
use go_zfs.Base.{
  ℕ, Bool, true, false, ◌&&◌, ◌||◌, List, [], ◌∷◌, ◌++◌, Option, some, none, Bytes, ◌==◌,
  if◌then◌else◌,
}
use go_zfs.Value.{bytes, bytes_eq}

-- The calls of packages os, os/exec and golang.org/x/sys/unix; a Bool tells whether a call fails.
-- `power_off` is Reboot, which returns only if it fails, and `scan` yields the lines of the open file.
pub record System (O : Type 0) : Type 0 where
  pub getpid : O → ℕ
  pub mkdir_all : Bytes → ℕ → O → Bool × O
  pub mount : Bytes → Bytes → Bytes → List Bytes → O → Bool × O
  pub power_off : O → Option O
  pub run_tests : List Bytes → O → Bool × O
  pub create : Bytes → O → Bool × O
  pub open_file : Bytes → O → Bool × O
  pub scan : O → List Bytes × O

-- What the process does, in its order. `ran_tests` has what the run returns, and `copied` is a line in the file for the debug messages.
pub data Action : Type 0 where
  made_dir mounted created created_not : Bytes → Action
  ran_tests : Bool → Action
  printed copied : Bytes → Action

-- The actions, and the system behind them; `none` is the end of the process.
pub record Steps (O : Type 0) : Type 0 where
  pub actions : List Action
  pub next : Option O

module _ {O : Type 0} where
  abbrev pub stop : List Action → Steps O
  stop actions = record { actions = actions; next = none }

  abbrev pub go_on : List Action → O → Steps O
  go_on actions o = record { actions = actions; next = some o }

  unfoldable pub and_then : Steps O → (O → Steps O) → Steps O
  and_then first f = elim (first.next) [
    | none ↦ first
    | some o ↦ record { actions = first.actions ++ (f o).actions; next = (f o).next }
  ]

-- `strings.Contains`
unfoldable pub has_prefix : Bytes → Bytes → Bool
has_prefix [] s = true
has_prefix (a ∷ as') [] = false
has_prefix (a ∷ as') (b ∷ s) = a == b && has_prefix as' s

unfoldable pub contains : Bytes → Bytes → Bool
unfolding has_prefix
contains [] part = has_prefix part []
contains (b ∷ s) part = has_prefix part (b ∷ s) || contains s part

-- The loop over the debug messages.
unfoldable pub copy_lines : List Bytes → List Action
unfolding contains
copy_lines [] = []
copy_lines (line ∷ lines) =
    copied line ∷ (if contains line (bytes "zfs_ioctl.c") then printed line ∷ [] else [])
    ++ copy_lines lines

-- The file that tells that the tests passed, and the one for the debug messages.
abbrev pub mark : Bytes
mark = bytes "/successful"

abbrev pub log : Bytes
log = bytes "zfsdebug.log"

abbrev pub test_command : List Bytes
test_command = bytes "/ioctl.test" ∷ bytes "-test.v" ∷ []

module _ {O : Type 0} (system : System O) where
  -- Behind a failed call.
  unfoldable pub off_if : Bool → Bytes → O → Steps O
  off_if false message o = go_on [] o
  off_if true message o = record { actions = printed message ∷ []; next = system.power_off o }

  unfoldable pub make_dir : Bytes → O → Steps O
  unfolding off_if
  make_dir path o =
      let (failed, o) = system.mkdir_all path 493 o in
      and_then (go_on (made_dir path ∷ []) o)
        (off_if failed (bytes "Failed to create directory to mount"))

  unfoldable pub mount_at : Bytes → Bytes → O → Steps O
  unfolding off_if
  mount_at fs_type path o =
      let (failed, o) =
        system.mount fs_type path fs_type (bytes "nosuid" ∷ bytes "nodev" ∷ bytes "noexec" ∷ [])
          o in
      and_then (go_on (mounted path ∷ []) o) (off_if failed (bytes "Failed to mount"))

  -- `MountSys`
  unfoldable pub mount_sys : Bytes → Bytes → O → Steps O
  unfolding make_dir mount_at and_then
  mount_sys fs_type path o = and_then (make_dir path o) (mount_at fs_type path)

  -- Behind the run, which `failed` or not.
  unfoldable pub mark_if_passed : Bool → O → Steps O
  mark_if_passed true o = go_on [] o
  mark_if_passed false o =
      let (failed, o) = system.create mark o in
      if failed
      then stop (created_not mark ∷ printed (bytes "Failed to write test status") ∷ [])
      else go_on (created mark ∷ []) o

  -- The run of the tests; what it returns is what is noted of it.
  unfoldable pub run_all : O → Steps O
  unfolding mark_if_passed and_then
  run_all o =
      let (failed, o) = system.run_tests test_command o in
      and_then (go_on (ran_tests failed ∷ []) o) (mark_if_passed failed)

  unfoldable pub copy_to_log : O → Steps O
  unfolding copy_lines
  copy_to_log o =
      let (failed, o) = system.create log o in
      if failed
      then stop (created_not log ∷ printed (bytes "Failed to open debug artifact") ∷ [])
      else (let (lines, o) = system.scan o in stop (created log ∷ copy_lines lines))

  unfoldable pub messages_opened : Bool → O → Steps O
  unfolding copy_to_log
  messages_opened true o = stop (printed (bytes "Failed to open debug messages") ∷ [])
  messages_opened false o = copy_to_log o

  -- The messages that the module has kept.
  unfoldable pub grab_messages : O → Steps O
  unfolding messages_opened
  grab_messages o =
      let (failed, o) = system.open_file (bytes "/proc/spl/kstat/zfs/dbgmsg") o in
      messages_opened failed o

  -- The part of `main` behind the first mount.
  unfoldable pub run_mounted : O → Steps O
  unfolding mount_sys run_all grab_messages and_then
  run_mounted o = and_then (mount_sys (bytes "tmpfs") (bytes "/dev/shm") o) λ o.
      and_then (mount_sys (bytes "sysfs") (bytes "/sys") o) λ o.
        and_then (mount_sys (bytes "proc") (bytes "/proc") o) λ o.
          and_then (go_on (printed (bytes "Starting tests") ∷ []) o) λ o. and_then (run_all o) λ o.
            and_then
              (go_on (printed (bytes "Tests completed, grabbing filtered ZFS debug messages") ∷ [])
                o)
              grab_messages

  unfoldable pub past_dev : Bool → O → Steps O
  unfolding run_mounted
  past_dev true o = stop (printed (bytes "Failed to mount /dev") ∷ [])
  past_dev false o = run_mounted o

  -- The error of MkdirAll is not looked at.
  unfoldable pub as_init : O → Steps O
  unfolding past_dev and_then
  as_init o =
      let (no_dir, o) = system.mkdir_all (bytes "/dev") 493 o in
      let (failed, o) =
        system.mount (bytes "none") (bytes "/dev") (bytes "devtmpfs") (bytes "nosuid" ∷ []) o in
      and_then (go_on (made_dir (bytes "/dev") ∷ mounted (bytes "/dev") ∷ []) o) (past_dev failed)

  -- `main`
  unfoldable pub test_main : O → Steps O
  unfolding as_init
  test_main o = if system.getpid o == 1 then as_init o else stop []
