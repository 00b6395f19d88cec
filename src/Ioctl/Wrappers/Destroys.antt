-- ===== src/Ioctl/Wrappers/Destroys.antt =====
-- ioctl/wrappers.go: what DestroySnapshots does with its names.
use mathlib.Core.Path.{subst}
use go_zfs.Base.{
  ◌<◌, ◌≡◌, ◌⊎◌, refl, inl, inr, Bool, true, false, List, [], some, none, Bytes, length, All, arith,
  if◌then◌else◌,
}
use go_zfs.Value.{bytes}
use go_zfs.Encoder.Collect.{split_tag, field_name, leaves_out}
use go_zfs.Encoder.Encodable.{Encodable, IsName, NulFree}
use go_zfs.Format.{NvList, end, pair, flag, list, nvlist_of, encode}
use go_zfs.Ioctl.{Kernel}
use go_zfs.Ioctl.Types.{Others, zero_others}
use go_zfs.Ioctl.Numbers.{Platform, ioctl_number}
use go_zfs.Ioctl.Numbers
use go_zfs.Ioctl.Sends.{Sends, nvlist_ioctl-Sends}
use go_zfs.Ioctl.Wrappers.{Call, duplicate_name, fail, error_only, issue}
use go_zfs.Ioctl.Wrappers.Requests.{destroy_snapshots_request, int32_map}
use go_zfs.Ioctl.Wrappers.Datasets.{add_names, destroy_snapshots}
use go_zfs.Ioctl.Wrappers.Names.{IsUnique, add_names-checked}
use go_zfs.Ioctl.Wrappers.Snapshots.{flags_of, set_of-Encodable, entries_list-set_of}

-- The names, and a pair without a value to defer the destruction.
unfoldable pub destroy_list : List Bytes → Bool → NvList
unfolding flags_of
destroy_list names defer =
    pair (bytes "snaps") (list (flags_of names))
      (if defer then pair (bytes "defer") flag end else end)

request-Encodable :
    (names : List Bytes) (defer : Bool)
    → All IsName names
    → Encodable (destroy_snapshots_request names defer)
unfolding destroy_snapshots_request Encodable split_tag field_name leaves_out
request-Encodable names defer h =
    ((ground arith, set_of-Encodable names h), ((ground arith, tt), tt))

request-destroy_list :
    (names : List Bytes) (defer : Bool)
    → nvlist_of (destroy_snapshots_request names defer) ≡ destroy_list names defer
unfolding destroy_snapshots_request destroy_list nvlist_of split_tag field_name leaves_out
request-destroy_list names true = rw (entries_list-set_of names)
request-destroy_list names false = rw (entries_list-set_of names)

module _ {S : Type 0} (kernel : Kernel S Others) (p : Platform) (order : List Bytes → List Bytes)
    (names : List Bytes) (pool : Bytes) (defer : Bool) (s : S) where
  -- What DestroySnapshots does with names that are not there twice: it issues the ioctl of Clone.
  abbrev pub clone_call : Call S (Unit {0})
  clone_call = error_only (
      issue kernel p Numbers.clone pool zero_others
        (some (destroy_snapshots_request (order names) defer)) (some int32_map) none s)

  -- DestroySnapshots issues the ioctl of Clone, with each of the names in the request, in some order, if
  -- no name is there twice. Otherwise it fails with the error for a duplicate name, without any call of
  -- the kernel.
  pub destroy_snapshots-checked :
      (IsUnique names × (destroy_snapshots kernel p order names pool defer s ≡ clone_call))
      ⊎ ((¬ IsUnique names)
          × (destroy_snapshots kernel p order names pool defer s ≡ fail tt duplicate_name s))
  unfolding destroy_snapshots
  destroy_snapshots-checked = elim (add_names-checked names (add_names [] names) refl) [
    | inl (u, e) ↦ inl (u, rw (destroy_snapshots, e))
    | inr (n, e) ↦ inr (n, rw (destroy_snapshots, e))
  ]

  -- Whatever the kernel answers, each command that DestroySnapshots gives it has the name of the pool, no
  -- other field set, and as the source exactly the bytes that the wire format gives to the nvlist of the
  -- names, with a pair to defer the destruction if that is asked for. The pool has no null byte and less
  -- than 4096 bytes, and the names can be names of pairs.
  pub destroy_snapshots-Sends :
      NulFree pool
      → length pool < 4096
      → All IsName (order names)
      → All
          (Sends pool zero_others (some (encode (destroy_list (order names) defer))))
          (destroy_snapshots kernel p order names pool defer s).calls
  unfolding destroy_snapshots_request
  destroy_snapshots-Sends n l h = elim destroy_snapshots-checked [
    | inl (u, eq) ↦
        let sends =
          nvlist_ioctl-Sends kernel (ioctl_number p Numbers.clone) pool zero_others (some int32_map)
            none s n l (destroy_snapshots_request (order names) defer)
            (request-Encodable (order names) defer h) tt in
        rw (eq) (
          subst (λ l. All (Sends pool zero_others (some (encode l))) clone_call.calls)
            (request-destroy_list (order names) defer) sends)
    | inr (n, eq) ↦ rw (eq) tt
  ]
