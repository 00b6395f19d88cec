-- ===== src/Testhelper/Tests.antt =====
-- ioctl/testhelper/main.go: runs of the helper.
use go_zfs.Base.{ℕ, ◌+◌, ◌≡◌, refl, false, List, [], ◌∷◌, ◌++◌, none, Bytes}
use go_zfs.Value.{bytes}
use go_zfs.Testhelper.{
  System, Action, made_dir, mounted, created, ran_tests, printed, copied, test_main,
}
use go_zfs.Testhelper.Marks.{Earned, test_main-Earned}

abbrev messages : List Bytes
messages = bytes "arc.c: a" ∷ bytes "at zfs_ioctl.c: b" ∷ []

-- Nothing fails; the state counts the calls.
abbrev machine : System ℕ
machine = record {
  getpid = λ o. 1;
  mkdir_all = λ path mode o. (false, o + 1);
  mount = λ source path fs_type flags o. (false, o + 1);
  power_off = λ o. none;
  run_tests = λ args o. (false, o + 1);
  create = λ path o. (false, o + 1);
  open_file = λ path o. (false, o + 1);
  scan = λ o. (messages, o + 1);
}

abbrev mounts : List Action
mounts =
    made_dir (bytes "/dev")
    ∷ mounted (bytes "/dev")
    ∷ made_dir (bytes "/dev/shm")
    ∷ mounted (bytes "/dev/shm")
    ∷ made_dir (bytes "/sys")
    ∷ mounted (bytes "/sys")
    ∷ made_dir (bytes "/proc")
    ∷ mounted (bytes "/proc")
    ∷ []

-- A run that passes is marked.
test_main_passed :
    (test_main machine 0).actions
    ≡ mounts
      ++ printed (bytes "Starting tests")
        ∷ ran_tests false
        ∷ created (bytes "/successful")
        ∷ printed (bytes "Tests completed, grabbing filtered ZFS debug messages")
        ∷ created (bytes "zfsdebug.log")
        ∷ copied (bytes "arc.c: a")
        ∷ copied (bytes "at zfs_ioctl.c: b")
        ∷ printed (bytes "at zfs_ioctl.c: b")
        ∷ []
unfolding test_main
test_main_passed = refl

test_main-Earned_example : Earned machine false (test_main machine 0).actions
test_main-Earned_example = test_main-Earned machine 0
