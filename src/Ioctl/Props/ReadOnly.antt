-- ===== src/Ioctl/Props/ReadOnly.antt =====
-- ioctl/wrappers.go: the read-only information in PoolProps.
use go_zfs.Base.{ℕ, suc, ◌≡◌, refl, [], Bytes}
use go_zfs.Value.{Fields, no_fields, field, bytes_eq, struct, fields_depth, depth}
use go_zfs.Encoder.Collect.{
  Pairs, unpack_val, unpack_interface, split_tag, leaves_out, collect_fields, collect,
}
use go_zfs.Result.{Result}
use go_zfs.Encoder.{◌>>=◌, write_nv_header}
use go_zfs.Encoder.Pairs.{marshal, new_writer, written, write_loop, write_nv_pairs}
use go_zfs.Ioctl.Props.{
  ReadOnlyInfo, PoolProps, info_fields, append_fields, setting_fields, pool_props_value,
}

collect_fields-info_fields : (i : ReadOnlyInfo) → collect_fields (info_fields i) ≡ []
unfolding collect_fields info_fields split_tag leaves_out bytes_eq
collect_fields-info_fields i = refl

collect_fields-append_fields :
    (fs gs hs : Fields)
    → collect_fields gs ≡ collect_fields hs
    → collect_fields (append_fields fs gs) ≡ collect_fields (append_fields fs hs)
unfolding collect_fields append_fields
collect_fields-append_fields no_fields gs hs e = e
collect_fields-append_fields (field name tag v fs) gs hs e =
    rw (collect_fields-append_fields fs gs hs e)

fields_depth-append_fields :
    (fs gs hs : Fields)
    → fields_depth gs ≡ fields_depth hs
    → fields_depth (append_fields fs gs) ≡ fields_depth (append_fields fs hs)
unfolding fields_depth append_fields
fields_depth-append_fields no_fields gs hs e = e
fields_depth-append_fields (field name tag v fs) gs hs e =
    rw (fields_depth-append_fields fs gs hs e)

fields_depth-info_fields :
    (i j : ReadOnlyInfo) → fields_depth (info_fields i) ≡ fields_depth (info_fields j)
unfolding fields_depth depth info_fields
fields_depth-info_fields i j = refl

abbrev marshal_pairs : ℕ → Pairs → Result Bytes
marshal_pairs n pairs = written (write_nv_header new_writer >>= write_loop (write_nv_pairs n) pairs)

marshal-struct :
    (fs : Fields) → marshal (struct fs) ≡ marshal_pairs (suc (fields_depth fs)) (collect_fields fs)
unfolding marshal write_nv_pairs collect unpack_val unpack_interface depth
marshal-struct fs = refl

-- Structs with the same names and values in their pairs, nested as deep, are marshalled alike.
marshal-collect_fields :
    (fs gs : Fields)
    → collect_fields fs ≡ collect_fields gs
    → fields_depth fs ≡ fields_depth gs
    → marshal (struct fs) ≡ marshal (struct gs)
marshal-collect_fields fs gs e d = rw (marshal-struct fs, marshal-struct gs, d, e)

-- `Marshal` of PoolProps does not depend on the read-only information in it.
pub marshal-pool_props_value :
    (p : PoolProps) (i : ReadOnlyInfo)
    → marshal (pool_props_value p) ≡ marshal (pool_props_value (record p { info = i }))
unfolding pool_props_value
marshal-pool_props_value p i =
    marshal-collect_fields (append_fields (setting_fields p) (info_fields p.info))
      (append_fields (setting_fields p) (info_fields i))
      (collect_fields-append_fields (setting_fields p) (info_fields p.info) (info_fields i)
        (rw (collect_fields-info_fields p.info, collect_fields-info_fields i)))
      (fields_depth-append_fields (setting_fields p) (info_fields p.info) (info_fields i)
        (fields_depth-info_fields p.info i))
