-- ===== src/Ioctl/Wrappers/Listing.antt =====
-- ioctl/wrappers.go: what DatasetListNext makes of the kernel's answer.
use go_zfs.Base.{ℕ, ◌*◌, ◌<◌, ◌≤◌, ◌≡◌, refl, ap, ap₂, Option, some, none, Bytes, length, replicate}
use go_zfs.Decoder.Cells.{Cell}
use go_zfs.Ioctl.{
  Cmd, Answer, Kernel, Ending, enomem, marshal_optional, unmarshal_response, private_cmd,
}
use go_zfs.Ioctl.Buffers.{delimited_buf_to_string}
use go_zfs.Ioctl.Retries.{Answers, nvlist_ioctl-Answers}
use go_zfs.Ioctl.Types.{Others, zero_others, new_cmd}
use go_zfs.Ioctl.Numbers.{Platform, ioctl_number}
use go_zfs.Ioctl.Numbers
use go_zfs.Ioctl.Wrappers.{Call, error_of, response_of}
use go_zfs.Ioctl.Wrappers.Requests.{props_with_source}
use go_zfs.Ioctl.Wrappers.Datasets.{Listed, nothing_listed, dataset_list_next}

-- The dataset in a command, its properties in the response, and nothing if that cannot be read.
unfoldable pub listing : Ending → Cmd Others → Listed × Option Cell
listing e c = elim (error_of e) [
  | none ↦
      ((delimited_buf_to_string c.name, c.others.cookie, c.others.objset_stats), response_of none e)
  | some f ↦ (nothing_listed, some props_with_source)
]

module _ {S : Type 0} (kernel : Kernel S Others) (p : Platform) (name : Bytes) (cursor : ℕ) where
  abbrev pub asked : ℕ → Cmd Others
  asked len =
      private_cmd name (new_cmd (record zero_others { cookie = cursor })) (some props_with_source)
        none none len

  -- The kernel's answer to the call with a buffer of `len` bytes.
  abbrev pub answer : ℕ → S → Answer S Others
  answer len s = kernel (ioctl_number p Numbers.dataset_list_next) (asked len) (replicate len 0) s

  -- The call returns what an answer with a buffer of at least `need` bytes has.
  unfoldable pub Lists : ℕ → Call S (Listed × Option Cell) → Type 0
  Lists need call =
      (len : ℕ) × (s : S) × (need ≤ len)
      × ((asked len).others.cookie ≡ cursor)
      × (call.value
          ≡ listing (unmarshal_response (some props_with_source) (answer len s).dst)
              (answer len s).cmd)
      × (call.error ≡ error_of (unmarshal_response (some props_with_source) (answer len s).dst))

  -- For a kernel that answers ENOMEM until the buffer has the bytes that it needs, at most 32 MiB, and
  -- succeeds from then on: DatasetListNext returns the name, the next cursor and the statistics of that
  -- answer's command and the properties of its response, or an error if the response cannot be read. The
  -- kernel was given the cursor.
  pub dataset_list_next-Lists :
      (need : ℕ) (s : S)
      → need ≤ 32 * 1024 * 1024
      → ((i : ℕ) (c : Cmd Others) (dst : Bytes) (s : S)
          → length dst < need
          → (kernel i c dst s).errno ≡ enomem)
      → ((i : ℕ) (c : Cmd Others) (dst : Bytes) (s : S)
          → need ≤ length dst
          → (kernel i c dst s).errno ≡ 0)
      → Lists need (dataset_list_next kernel p name cursor s)
  unfolding Lists dataset_list_next listing Answers private_cmd marshal_optional
  dataset_list_next-Lists need s small asks serves =
      let (len, t, enough, ending, cmd, state) =
        nvlist_ioctl-Answers kernel (ioctl_number p Numbers.dataset_list_next) name
          (new_cmd (record zero_others { cookie = cursor })) none (some props_with_source) none s
          none none refl refl need small asks serves in
      (len, t, enough, refl, ap₂ listing ending cmd, ap error_of ending)
