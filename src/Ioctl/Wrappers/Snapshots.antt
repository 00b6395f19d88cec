-- ===== src/Ioctl/Wrappers/Snapshots.antt =====
-- ioctl/wrappers.go: what Snapshot does with its names.
use mathlib.Core.Path.{subst}
use go_zfs.Base.{
  ◌<◌, ◌≡◌, ◌⊎◌, refl, ap, inl, inr, List, [], ◌∷◌, Option, some, none, Bytes, length, All, arith,
}
use go_zfs.Value.{Entries, bytes}
use go_zfs.Encoder.Collect.{split_tag, field_name, leaves_out}
use go_zfs.Encoder.Encodable.{Encodable, EncodableEntries, IsName, NulFree}
use go_zfs.Format.{NvList, end, pair, flag, list, entries_list, nvlist_of, encode}
use go_zfs.Ioctl.{Kernel}
use go_zfs.Ioctl.Types.{Others, zero_others}
use go_zfs.Ioctl.Numbers.{Platform, ioctl_number}
use go_zfs.Ioctl.Numbers
use go_zfs.Ioctl.Sends.{Sends, nvlist_ioctl-Sends}
use go_zfs.Ioctl.Wrappers.{Call, duplicate_name, fail, error_only, issue}
use go_zfs.Ioctl.Wrappers.Requests.{set_of, props_value, snapshot_request, int32_map}
use go_zfs.Ioctl.Wrappers.Datasets.{add_names, snapshot}
use go_zfs.Ioctl.Wrappers.Names.{IsUnique, add_names-checked}

-- The nvlist that has a pair without a value for each name.
unfoldable pub flags_of : List Bytes → NvList
flags_of [] = end
flags_of (name ∷ names) = pair name flag (flags_of names)

-- The request of Snapshot, as the kernel documents it.
unfoldable pub snapshot_list : List Bytes → Option Entries → NvList
unfolding flags_of
snapshot_list names none = pair (bytes "snaps") (list (flags_of names)) end
snapshot_list names (some props) =
    pair (bytes "snaps") (list (flags_of names))
      (pair (bytes "props") (list (entries_list props)) end)

abbrev pub PropsEncodable : Option Entries → Type 0
PropsEncodable none = Unit {0}
PropsEncodable (some es) = EncodableEntries es

pub set_of-Encodable : (names : List Bytes) → All IsName names → EncodableEntries (set_of names)
unfolding set_of EncodableEntries
set_of-Encodable [] h = tt
set_of-Encodable (name ∷ names) (n, h) = (n, tt, set_of-Encodable names h)

pub entries_list-set_of : (names : List Bytes) → entries_list (set_of names) ≡ flags_of names
unfolding entries_list set_of flags_of
entries_list-set_of [] = refl
entries_list-set_of (name ∷ names) = ap (pair name flag) (entries_list-set_of names)

snapshot_request-Encodable :
    (names : List Bytes) (props : Option Entries)
    → All IsName names
    → PropsEncodable props
    → Encodable (snapshot_request names props)
unfolding snapshot_request Encodable split_tag field_name leaves_out props_value
snapshot_request-Encodable names none h p =
    ((ground arith, set_of-Encodable names h), ((ground arith, tt), tt))
snapshot_request-Encodable names (some es) h p =
    ((ground arith, set_of-Encodable names h), ((ground arith, (tt, p)), tt))

snapshot_request-snapshot_list :
    (names : List Bytes) (props : Option Entries)
    → nvlist_of (snapshot_request names props) ≡ snapshot_list names props
unfolding snapshot_request snapshot_list nvlist_of entries_list split_tag field_name leaves_out
    props_value
snapshot_request-snapshot_list names none = rw (entries_list-set_of names)
snapshot_request-snapshot_list names (some es) = rw (entries_list-set_of names)

module _ {S : Type 0} (kernel : Kernel S Others) (p : Platform) (order : List Bytes → List Bytes)
    (names : List Bytes) (pool : Bytes) (props : Option Entries) (s : S) where
  -- What Snapshot does with names that are not there twice.
  abbrev pub snapshot_call : Call S (Unit {0})
  snapshot_call = error_only (
      issue kernel p Numbers.snapshot pool zero_others (some (snapshot_request (order names) props))
        (some int32_map) none s)

  -- Snapshot issues its ioctl, with each of the names in the request, in some order, if no name is
  -- there twice. Otherwise it fails with the error for a duplicate name, without any call of the kernel.
  pub snapshot-checked :
      (IsUnique names × (snapshot kernel p order names pool props s ≡ snapshot_call))
      ⊎ ((¬ IsUnique names)
          × (snapshot kernel p order names pool props s ≡ fail tt duplicate_name s))
  unfolding snapshot
  snapshot-checked = elim (add_names-checked names (add_names [] names) refl) [
    | inl (u, e) ↦ inl (u, rw (snapshot, e))
    | inr (n, e) ↦ inr (n, rw (snapshot, e))
  ]

  -- Whatever the kernel answers, each command that Snapshot gives it has the name of the pool, no other
  -- field set, and as the source exactly the bytes that the wire format gives to the nvlist of the names
  -- and the properties. The pool has no null byte and less than 4096 bytes, the names can be names of
  -- pairs, and the properties can be encoded.
  pub snapshot-Sends :
      NulFree pool
      → length pool < 4096
      → All IsName (order names)
      → PropsEncodable props
      → All
          (Sends pool zero_others (some (encode (snapshot_list (order names) props))))
          (snapshot kernel p order names pool props s).calls
  unfolding snapshot_request
  snapshot-Sends n l h e = elim snapshot-checked [
    | inl (u, eq) ↦
        let sends =
          nvlist_ioctl-Sends kernel (ioctl_number p Numbers.snapshot) pool zero_others
            (some int32_map) none s n l (snapshot_request (order names) props)
            (snapshot_request-Encodable (order names) props h e) tt in
        rw (eq) (
          subst (λ l. All (Sends pool zero_others (some (encode l))) snapshot_call.calls)
            (snapshot_request-snapshot_list (order names) props) sends)
    | inr (n, eq) ↦ rw (eq) tt
  ]
