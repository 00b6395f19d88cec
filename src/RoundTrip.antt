-- ===== src/RoundTrip.antt =====
-- nvlist: what Marshal writes is read back by Unmarshal.
pub mod Maps
pub mod Structs
use go_zfs.Base.{[], ◌≡◌, ◌∙◌, ap, sym, append-nil}
use go_zfs.Result.{ok, ◌>>=◌}
use go_zfs.Value.{Value, Entries}
use go_zfs.Encoder.Pairs.{marshal}
use go_zfs.Encoder.Encodable.{Encodable, IsList}
use go_zfs.Encoder.Implements.{marshal-encode}
use go_zfs.Format.{nvlist_of, encode}
use go_zfs.Decoder.Pairs.{unmarshal}
use go_zfs.Decoder.Readable.{ReadableList, read_into}
use go_zfs.Decoder.Implements.{unmarshal-encode}

-- A map or a struct that can be encoded, and whose nvlist fits the fields of its pairs' headers, is
-- marshalled to bytes that Unmarshal accepts; it sets the pairs of that nvlist in its map in turn.
pub unmarshal-marshal :
    (v : Value) (m : Entries)
    → Encodable v
    → IsList v
    → ReadableList (nvlist_of v)
    → (marshal v >>= λ bs. unmarshal bs m) ≡ ok (read_into m (nvlist_of v))
unmarshal-marshal v m e l h = rw (marshal-encode v e l) (
    ap (λ bs. unmarshal bs m) (sym (append-nil (encode (nvlist_of v))))
    ∙ unmarshal-encode (nvlist_of v) [] m h)
