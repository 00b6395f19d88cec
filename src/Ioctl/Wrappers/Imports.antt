-- ===== src/Ioctl/Wrappers/Imports.antt =====
-- ioctl/wrappers.go: what PoolImport gives to the kernel, and what it makes of the answer.
use go_zfs.Base.{ℕ, ◌<◌, ◌≡◌, ◌⊎◌, refl, inl, inr, Option, some, none, Bytes, length, All}
use go_zfs.Value.{Entries, mapping, bytes}
use go_zfs.Encoder.Encodable.{Encodable, EncodableEntries, NulFree}
use go_zfs.Format.{entries_list, nvlist_of, encode}
use go_zfs.Decoder.Cells.{Cell}
use go_zfs.Ioctl.{Kernel}
use go_zfs.Ioctl.Types.{Others, zero_others}
use go_zfs.Ioctl.Numbers.{Platform, ioctl_number}
use go_zfs.Ioctl.Numbers
use go_zfs.Ioctl.Sends.{Sends, nvlist_ioctl-Sends}
use go_zfs.Ioctl.Wrappers.{Call, not_a_guid, fail}
use go_zfs.Ioctl.Wrappers.Requests.{new_map}
use go_zfs.Ioctl.Wrappers.Pools.{find_uint64, with_cookie, pool_import}

module _ {S : Type 0} (kernel : Kernel S Others) (p : Platform) (name : Bytes)
    (config props : Entries) (s : S) where
  abbrev call : Call S (Option Cell)
  call = pool_import kernel p name config props s

  -- With a guid in the configuration, and without one.
  abbrev pub Imports : Option ℕ → Type 0
  Imports found =
      ((guid : ℕ) × (found ≡ some guid)
        × All (Sends name (record zero_others { guid = guid }) (some (encode (entries_list props))))
            call.calls)
      ⊎ ((found ≡ none) × (call ≡ fail none not_a_guid s))

  module _ (nul_free : NulFree name) (short : length name < 4096)
      (encodable : EncodableEntries props) where
    found-Imports :
        (found : Option ℕ) → find_uint64 (bytes "pool_guid") config ≡ found → Imports found
    unfolding pool_import with_cookie Encodable nvlist_of
    found-Imports none e = inr (refl, rw (pool_import, e))
    found-Imports (some guid) e = inl (
      guid,
      refl,
      rw (pool_import, e)
          (nvlist_ioctl-Sends kernel (ioctl_number p Numbers.pool_import) name
            (record zero_others { guid = guid }) (some new_map) (some (mapping config)) s nul_free
            short (mapping props) encodable tt),
    )

    -- PoolImport gives the kernel commands with the name of the pool, the guid of the configuration, and
    -- as the source exactly the bytes that the wire format gives to the nvlist of the properties, if
    -- these can be encoded; the name has no null byte and less than 4096 bytes. A configuration without
    -- a uint64 for the guid makes it panic before any call.
    pub pool_import-Imports : Imports (find_uint64 (bytes "pool_guid") config)
    pool_import-Imports = found-Imports (find_uint64 (bytes "pool_guid") config) refl
