-- ===== src/Ioctl/Handle.antt =====
-- ioctl/wrappers.go: Init and the handle of the package, with the operating system as a parameter.
use go_zfs.Base.{
  ℕ, ◌≡◌, refl, Bool, true, false, List, [], ◌∷◌, ◌++◌, Option, some, none, Bytes, length, ◌==◌,
  if◌then◌else◌,
}
use go_zfs.Value.{bytes}

-- What os.Open returns: a file, an error for which os.IsNotExist holds, or another.
pub data Opened {ℓ} (F : Type ℓ) : Type ℓ where
  opened : F → Opened F
  not_exist other_error : Opened F

abbrev pub file_of {ℓ} : {F : Type ℓ} → Opened F → List F
file_of (opened f) = f ∷ []
file_of _ = []

-- `open_file` is os.Open, and `mknod` and `mkdev` are those of golang.org/x/sys/unix; the error of Mknod
-- is not looked at. `files` are the open files, from the newest on.
pub record Os (O F : Type 0) : Type 0 where
  pub open_file : Bytes → O → Opened F × O
  pub mknod : Bytes → ℕ → ℕ → O → O
  pub mkdev : ℕ → ℕ → ℕ
  pub files : O → List F
  pub opens :
      (path : Bytes) (o : O) → files (open_file path o).1 ≡ file_of (open_file path o).0 ++ files o
  pub makes_no_file :
      (path : Bytes) (mode device : ℕ) (o : O) → files (mknod path mode device o) ≡ files o

-- `zfsHandle`, whether there is an error, and the operating system behind the call.
pub record Ready (O F : Type 0) : Type 0 where
  pub zfs_handle : Option F
  pub failed : Bool
  pub os : O

module _ {O F : Type 0} (os : Os O F) where
  -- The node is made if there is none.
  unfoldable pub make_node : Bytes → Opened F → O → O
  make_node path not_exist o = os.mknod path 666 (os.mkdev 10 54) o
  make_node path _ o = o

  unfoldable pub node_ready : Opened F → O → Ready O F
  node_ready (opened f) o = record { zfs_handle = some f; failed = false; os = o }
  node_ready _ o = record { zfs_handle = none; failed = true; os = o }

  abbrev pub node_of : Bytes → Bytes
  node_of path = if length path == 0 then bytes "/dev/zfs" else path

  -- `Init`
  unfoldable pub init : Bytes → O → Ready O F
  unfolding make_node node_ready
  init node_path o =
      let path = node_of node_path in
      let (first, o) = os.open_file path o in
      let (second, o) = os.open_file path (make_node path first o) in node_ready second o

  make_node-files :
      (path : Bytes) (first : Opened F) (o : O) → os.files (make_node path first o) ≡ os.files o
  unfolding make_node
  make_node-files path not_exist o = os.makes_no_file path 666 (os.mkdev 10 54) o
  make_node-files path (opened f) o = refl
  make_node-files path other_error o = refl

  abbrev pub handle_files : Option F → List F
  handle_files none = []
  handle_files (some f) = f ∷ []

  node_ready-files :
      (second : Opened F) (o : O) (before : List F)
      → os.files o ≡ file_of second ++ before
      → os.files (node_ready second o).os ≡ handle_files (node_ready second o).zfs_handle ++ before
  unfolding node_ready
  node_ready-files (opened f) o before e = e
  node_ready-files not_exist o before e = e
  node_ready-files other_error o before e = e

  -- Whatever the operating system answers, the files that are open after `Init` are the handle of the
  -- package, if there is one, behind it the file of the first of two calls of os.Open, if that gave
  -- one, and those that were open before.
  pub init-files :
      (node_path : Bytes) (o : O)
      → os.files (init node_path o).os
        ≡ handle_files (init node_path o).zfs_handle
          ++ (file_of (os.open_file (node_of node_path) o).0 ++ os.files o)
  unfolding init
  init-files node_path o =
      let path = node_of node_path in
      let (first, o') = os.open_file path o in
      let o'' = make_node path first o' in
      let (second, last) = os.open_file path o'' in
      node_ready-files second last (file_of first ++ os.files o)
        (rw (os.opens path o'', make_node-files path first o', os.opens path o) refl)
