-- ===== src/Ioctl/Wrappers/PropNames.antt =====
-- ioctl/wrappers.go: the string that InheritProp stores in the command.
use go_zfs.Base.{
  ℕ, suc, ◌+◌, ◌-◌, ◌<◌, ◌≡◌, Bool, true, false, Bool-cases, inl, inr, [], ◌∷◌, none, Bytes, length,
  replicate, All, set, ltb, ◌==◌, if◌then◌else◌, arith, length-replicate,
}
use go_zfs.Encoder.Encodable.{NulFree}
use go_zfs.Ioctl.{Kernel}
use go_zfs.Ioctl.Buffers.{
  store_from, string_to_delimited_buf, delimited_buf_to_string,
  delimited_buf_to_string-string_to_delimited_buf,
}
use go_zfs.Ioctl.Types.{Others, zero_others}
use go_zfs.Ioctl.Numbers.{Platform, ioctl_number}
use go_zfs.Ioctl.Numbers
use go_zfs.Ioctl.Sends.{Sends, nvlist_ioctl-Sends-none}
use go_zfs.Ioctl.Wrappers.{string_refused, fail}
use go_zfs.Ioctl.Wrappers.Datasets.{inherit_prop}

-- What fits into a buffer of `n` bytes with a null byte behind it.
abbrev pub Storable : ℕ → Bytes → Type 0
Storable n str = NulFree str × (length str < n)

store_from-NulFree :
    (str : Bytes) (i : ℕ) (buf : Bytes) → (store_from str i buf).fits ≡ true → NulFree str
unfolding store_from
store_from-NulFree [] i buf h = tt
store_from-NulFree (c ∷ str) i buf h = elim (Bool-cases (c == 0)) [
  | inl e ↦ let t : false ≡ true = rw e at h in cc
  | inr e ↦ (ground arith, store_from-NulFree str (i + 1) (set buf i c) (rw e at h))
]

fits-Storable :
    (str : Bytes) (n : ℕ)
    → (string_to_delimited_buf str (replicate (suc n) 0)).fits ≡ true
    → Storable (suc n) str
unfolding string_to_delimited_buf
fits-Storable str n h =
    let zeros : Bytes = replicate (suc n) 0 in
    let len : length zeros ≡ suc n = length-replicate {A = ℕ} (suc n) 0 in
    elim (Bool-cases (ltb (length zeros - 1) (length str))) [
      | inl e ↦ let t : false ≡ true = rw e at h in cc
      | inr e ↦
          let stored : (store_from str 0 zeros).fits ≡ true = rw e at h in
          (store_from-NulFree str 0 zeros stored, ground arith)
    ]

module _ {S : Type 0} (kernel : Kernel S Others) (p : Platform) (name prop_name : Bytes)
    (revert : Bool) (s : S) where
  -- The command that InheritProp makes of its arguments.
  abbrev pub inherit_fields : Others
  inherit_fields = record zero_others {
    cookie = if revert then 1 else 0;
    value = (string_to_delimited_buf prop_name (replicate 8192 0)).buf;
  }

  -- InheritProp with the name of a property that does not fit into the command, or that has a null
  -- byte, fails with the error for it, without any call of the kernel.
  pub inherit_prop-refused :
      ¬ Storable 8192 prop_name
      → inherit_prop kernel p name prop_name revert s ≡ fail tt string_refused s
  unfolding inherit_prop
  inherit_prop-refused h =
      elim (Bool-cases (string_to_delimited_buf prop_name (replicate 8192 0)).fits) [
        | inl e ↦ absurd (h (fits-Storable prop_name 8191 e))
        | inr e ↦ rw (inherit_prop, e)
      ]

  -- Whatever the kernel answers, each command that InheritProp gives it has the name of the dataset, the
  -- cookie 1 to revert to the received value and else 0, and the name of the property, which reads back
  -- from it; and it has no source. Both names have no null byte, that of the dataset has less than 4096
  -- bytes and that of the property less than 8192.
  pub inherit_prop-Sends :
      Storable 4096 name
      → Storable 8192 prop_name
      → All (Sends name inherit_fields none) (inherit_prop kernel p name prop_name revert s).calls
        × (delimited_buf_to_string inherit_fields.value ≡ prop_name)
  unfolding inherit_prop
  inherit_prop-Sends (n, l) (nul_free, short) =
      let (fits, kept) =
        delimited_buf_to_string-string_to_delimited_buf prop_name 8192 nul_free short in
      let sends =
        nvlist_ioctl-Sends-none kernel (ioctl_number p Numbers.inherit_prop) name inherit_fields
          none none s n l in
      (rw (inherit_prop, fits) sends, kept)
