-- ===== src/Ioctl/Names.antt =====
-- ioctl/ioctl.go: the name in the commands of NvlistIoctl, also where it does not fit.
use go_zfs.Base.{ℕ, ◌≡◌, arith, [], Option, some, Bytes, length, All, ltb, if◌then◌else◌}
use go_zfs.Value.{Value}
use go_zfs.Encoder.Encodable.{Encodable, IsList}
use go_zfs.Format.{nvlist_of, encode}
use go_zfs.Decoder.Cells.{Cell}
use go_zfs.Ioctl.{Kernel, private_cmd, nvlist_ioctl}
use go_zfs.Ioctl.Buffers.{delimited_buf_to_string, string_to_delimited_buf-reads}
use go_zfs.Ioctl.Sends.{nvlist_ioctl-All, marshal_optional-encode}
use go_zfs.Ioctl.Types.{Others, new_cmd}

-- A name of 4096 bytes or more leaves the field empty, and any other is cut at its first null byte.
abbrev pub sent_name : Bytes → Bytes
sent_name name = if ltb 4095 (length name) then [] else delimited_buf_to_string name

-- For every name, also one that stringToDelimitedBuf refuses, and a request that can be encoded:
-- each command that NvlistIoctl gives the kernel for a new command has a name that reads as the name
-- to its first null byte, and as empty where the name has 4096 bytes or more.
pub nvlist_ioctl-sent_name :
    {S : Type 0} (kernel : Kernel S Others) (ioctl : ℕ) (name : Bytes) (others : Others)
    (response : Option Cell) (config : Option Value) (s : S) (v : Value)
    → Encodable v
    → IsList v
    → All
        (λ c. delimited_buf_to_string c.name ≡ sent_name name)
        (nvlist_ioctl kernel ioctl name (new_cmd others) (some v) response config s).calls
unfolding private_cmd
nvlist_ioctl-sent_name kernel ioctl name others response config s v e l =
    nvlist_ioctl-All kernel ioctl name (new_cmd others) (some v) response config s
      (some (encode (nvlist_of v))) (marshal_optional-encode v e l)
      (λ c. delimited_buf_to_string c.name ≡ sent_name name)
      λ conf len. string_to_delimited_buf-reads name 4096 (omega arith)
