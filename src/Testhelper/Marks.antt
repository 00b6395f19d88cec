-- ===== src/Testhelper/Marks.antt =====
-- ioctl/testhelper/main.go: when the tests are marked as passed.
use go_zfs.Base.{
  ◌≡◌, refl, Bool, true, false, not, Bool-cases, inl, inr, List, [], ◌∷◌, ◌++◌, Option, some, none,
  Bytes, ◌==◌,
}
use go_zfs.Value.{bytes, bytes_eq}
use go_zfs.Testhelper.{
  System, Action, made_dir, mounted, created, created_not, ran_tests, printed, copied, test_command,
  Steps, go_on, and_then, contains, copy_lines, off_if, make_dir, mount_at, mount_sys, mark,
  mark_if_passed, run_all, log, copy_to_log, messages_opened, grab_messages, run_mounted, past_dev,
  as_init, test_main,
}

-- Whether it is a run of the tests that passed.
abbrev passes : Action → Bool
passes (ran_tests failed) = not failed
passes _ = false

-- Whether it is the try to create the mark.
abbrev marks : Action → Bool
marks (created path) = bytes_eq path mark
marks (created_not path) = bytes_eq path mark
marks _ = false

-- What is noted of a run is what a call of it returned.
abbrev Noted : {O : Type 0} → System O → Action → Type 0
Noted {O} system (ran_tests failed) = (o : O) × ((system.run_tests test_command o).0 ≡ failed)
Noted system _ = Unit {0}

-- The process tries to create the mark right behind each run that passed, and nowhere else; `passed`
-- is whether the action in front of these is such a run.
unfoldable pub Earned : {O : Type 0} → System O → Bool → List Action → Type 0
unfolding bytes_eq
Earned system passed [] = passed ≡ false
Earned system passed (a ∷ as') = (marks a ≡ passed) × Noted system a × Earned system (passes a) as'

-- An action that is neither such a run nor such a try, nor any run.
abbrev Plain : Action → Type 0
Plain (ran_tests failed) = false ≡ true
Plain a = marks a ≡ false

module _ {O : Type 0} (system : System O) where
  Earned-append :
      (as' bs : List Action) (passed : Bool)
      → Earned system passed as'
      → Earned system false bs
      → Earned system passed (as' ++ bs)
  unfolding Earned
  Earned-append [] bs passed e k = rw e k
  Earned-append (a ∷ as') bs passed (m, n, h) k = (m, n, Earned-append as' bs (passes a) h k)

  unfoldable Earns : Steps O → Type 0
  Earns steps = Earned system false steps.actions

  Earns-and_then :
      (first : Steps O) (f : O → Steps O)
      → Earns first
      → ((o : O) → Earns (f o))
      → Earns (and_then first f)
  unfolding and_then Earns
  Earns-and_then first f h k = by_next (first.next) refl
    where
      by_next : (o : Option O) → first.next ≡ o → Earns (and_then first f)
      by_next none e = rw (and_then, e) h
      by_next (some o) e =
          rw (and_then, e) (Earned-append first.actions (f o).actions false h (k o))

  Earned-Plain :
      (a : Action) (as' : List Action)
      → Plain a
      → Earned system false as'
      → Earned system false (a ∷ as')
  unfolding Earned
  Earned-Plain (ran_tests failed) as' e h = cc
  Earned-Plain (made_dir path) as' e h = (e, tt, h)
  Earned-Plain (mounted path) as' e h = (e, tt, h)
  Earned-Plain (created path) as' e h = (e, tt, h)
  Earned-Plain (created_not path) as' e h = (e, tt, h)
  Earned-Plain (printed message) as' e h = (e, tt, h)
  Earned-Plain (copied line) as' e h = (e, tt, h)

  Earned-one : (a : Action) → Plain a → Earned system false (a ∷ [])
  unfolding Earned
  Earned-one a e = Earned-Plain a [] e refl

  Earns-go_on :
      (a : Action) (o : O) (f : O → Steps O)
      → Plain a
      → ((o : O) → Earns (f o))
      → Earns (and_then (go_on (a ∷ []) o) f)
  unfolding Earns
  Earns-go_on a o f e k = Earns-and_then (go_on (a ∷ []) o) f (Earned-one a e) k

  copy_lines-Earned : (lines : List Bytes) → Earned system false (copy_lines lines)
  unfolding copy_lines Earned
  copy_lines-Earned [] = refl
  copy_lines-Earned (line ∷ lines) =
      let rest = copy_lines-Earned lines in
      elim (Bool-cases (contains line (bytes "zfs_ioctl.c"))) [
        | inl e ↦ rw e (refl, tt, (refl, tt, rest))
        | inr e ↦ rw e (refl, tt, rest)
      ]

  off_if-Earns : (b : Bool) (message : Bytes) (o : O) → Earns (off_if system b message o)
  unfolding off_if Earned Earns
  off_if-Earns false message o = refl
  off_if-Earns true message o = Earned-one (printed message) refl

  make_dir-Earns : (path : Bytes) (o : O) → Earns (make_dir system path o)
  unfolding make_dir
  make_dir-Earns path o = Earns-go_on (made_dir path) _ _ refl λ o. off_if-Earns _ _ o

  mount_at-Earns : (fs_type path : Bytes) (o : O) → Earns (mount_at system fs_type path o)
  unfolding mount_at
  mount_at-Earns fs_type path o = Earns-go_on (mounted path) _ _ refl λ o. off_if-Earns _ _ o

  mount_sys-Earns : (fs_type path : Bytes) (o : O) → Earns (mount_sys system fs_type path o)
  unfolding mount_sys
  mount_sys-Earns fs_type path o =
      Earns-and_then (make_dir system path o) (mount_at system fs_type path) (make_dir-Earns path o)
        (mount_at-Earns fs_type path)

  -- Behind a run of the tests.
  mark_if_passed-Earned :
      (failed : Bool) (o : O) → Earned system (not failed) (mark_if_passed system failed o).actions
  unfolding mark_if_passed Earned bytes_eq
  mark_if_passed-Earned true o = refl
  mark_if_passed-Earned false o = elim (Bool-cases (system.create mark o).0) [
    | inl e ↦ rw e (refl, tt, (refl, tt, refl))
    | inr e ↦ rw e (refl, tt, refl)
  ]

  run_all-Earns : (o : O) → Earns (run_all system o)
  unfolding run_all and_then Earned Earns
  run_all-Earns o =
      let (failed, o') = system.run_tests test_command o in
      (refl, (o, refl), mark_if_passed-Earned failed o')

  copy_to_log-Earns : (o : O) → Earns (copy_to_log system o)
  unfolding copy_to_log Earned bytes_eq Earns
  copy_to_log-Earns o = elim (Bool-cases (system.create log o).0) [
    | inl e ↦ rw e (refl, tt, (refl, tt, refl))
    | inr e ↦ rw e (refl, tt, copy_lines-Earned _)
  ]

  messages_opened-Earns : (failed : Bool) (o : O) → Earns (messages_opened system failed o)
  unfolding messages_opened Earns
  messages_opened-Earns true o = Earned-one (printed (bytes "Failed to open debug messages")) refl
  messages_opened-Earns false o = copy_to_log-Earns o

  grab_messages-Earns : (o : O) → Earns (grab_messages system o)
  unfolding grab_messages
  grab_messages-Earns o =
      let (failed, o) = system.open_file (bytes "/proc/spl/kstat/zfs/dbgmsg") o in
      messages_opened-Earns failed o

  run_mounted-Earns : (o : O) → Earns (run_mounted system o)
  unfolding run_mounted
  run_mounted-Earns o =
      Earns-and_then (mount_sys system (bytes "tmpfs") (bytes "/dev/shm") o) _
        (mount_sys-Earns _ _ o)
        λ o.
          Earns-and_then (mount_sys system (bytes "sysfs") (bytes "/sys") o) _
            (mount_sys-Earns _ _ o)
            λ o.
              Earns-and_then (mount_sys system (bytes "proc") (bytes "/proc") o) _
                (mount_sys-Earns _ _ o)
                λ o. Earns-go_on (printed _) o _ refl λ o.
                  Earns-and_then (run_all system o) _ (run_all-Earns o)
                    λ o. Earns-go_on (printed _) o _ refl grab_messages-Earns

  dev_mounted-Earned : Earned system false (made_dir (bytes "/dev") ∷ mounted (bytes "/dev") ∷ [])
  dev_mounted-Earned = Earned-Plain (made_dir _) _ refl (Earned-one (mounted _) refl)

  past_dev-Earns : (failed : Bool) (o : O) → Earns (past_dev system failed o)
  unfolding past_dev Earns
  past_dev-Earns true o = Earned-one (printed (bytes "Failed to mount /dev")) refl
  past_dev-Earns false o = run_mounted-Earns o

  as_init-Earns : (o : O) → Earns (as_init system o)
  unfolding as_init Earns
  as_init-Earns o =
      Earns-and_then (go_on _ _) (past_dev system _) dev_mounted-Earned (past_dev-Earns _)

  -- Whatever fails, the helper tries to create the file that tells that the tests passed right behind
  -- each run of them for which the system returns no error, and never else: each noted result is that
  -- of a call that runs the tests.
  pub test_main-Earned : (o : O) → Earned system false (test_main system o).actions
  unfolding test_main Earns Earned
  test_main-Earned o = elim (Bool-cases (system.getpid o == 1)) [
    | inl e ↦ rw e (as_init-Earns o)
    | inr e ↦ rw e refl
  ]
