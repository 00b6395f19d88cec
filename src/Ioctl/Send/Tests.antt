-- ===== src/Ioctl/Send/Tests.antt =====
-- ioctl: a stream of three bytes.
use go_zfs.Base.{
  ℕ, zero, suc, ◌≤◌, ◌≡◌, ◌≢◌, refl, ap, true, false, [], ◌∷◌, ◌++◌, Option, some, none, Bytes,
  length, take, drop, arith,
}
use go_zfs.Value.{bytes}
use go_zfs.Encoder.Encodable.{Encodable}
use go_zfs.Ioctl.{Kernel}
use go_zfs.Ioctl.Types.{Others}
use go_zfs.Ioctl.Numbers.{most}
use go_zfs.Ioctl.Sends.{Sends}
use go_zfs.Ioctl.Wrappers.{Failure}
use go_zfs.Ioctl.Send.{
  ReadEnd, Chunk, eof, read_failed, SendStream, SendOptions, send, peek, read, reads, after_read,
  final_error,
}
use go_zfs.Ioctl.Send.Streams.{call_result, send-reads, send_complete}
use go_zfs.Ioctl.Send.Reading.{pending}

-- A pipe with its content, which may be read at once.
abbrev chunk : ℕ → Bytes → Chunk Bytes
chunk n [] = record { bs = []; error = some eof; next = [] }
chunk n (b ∷ bs) = record { bs = take n (b ∷ bs); error = none; next = drop n (b ∷ bs) }

length-take : (n : ℕ) (bs : Bytes) → length (take n bs) ≤ n
length-take zero bs = omega arith
length-take (suc n) [] = omega arith
length-take (suc n) (b ∷ bs) = omega (arith, length-take n bs)

take++drop : (n : ℕ) (bs : Bytes) → take n bs ++ drop n bs ≡ bs
take++drop zero bs = refl
take++drop (suc n) [] = refl
take++drop (suc n) (b ∷ bs) = ap (b ∷◌) (take++drop n bs)

chunk-length : (n : ℕ) (bs : Bytes) → length (chunk n bs).bs ≤ n
chunk-length n [] = omega arith
chunk-length n (b ∷ bs) = length-take n (b ∷ bs)

chunk-order : (n : ℕ) (bs : Bytes) → (chunk n bs).bs ++ (chunk n bs).next ≡ bs
chunk-order n [] = refl
chunk-order n (b ∷ bs) = take++drop n (b ∷ bs)

chunk-end : (n : ℕ) (bs : Bytes) → (chunk n bs).error ≡ some eof → (chunk n bs).next ≡ []
chunk-end n [] e = refl
chunk-end n (b ∷ bs) e = cc

abbrev end : ReadEnd Bytes
end = record {
  read = chunk;
  content = λ bs. bs;
  at_most = chunk-length;
  in_order = chunk-order;
  at_end = chunk-end;
}

abbrev kernel : Kernel ℕ Others
kernel i c dst s = record { errno = 5; cmd = c; dst = dst; state = suc s }

abbrev options : SendOptions
options = record {
  fd = 0;
  from = bytes "tank@1";
  from_bookmark = [];
  large_blocks = true;
  embed = false;
  compress = true;
  raw = false;
  saved = false;
  resume_object = 0;
  resume_offset = 0;
}

abbrev written : Bytes
written = 1 ∷ 2 ∷ 3 ∷ []

abbrev stream : SendStream Bytes
stream = record {
  peek_buf = 1 ∷ [];
  result = call_result kernel most end (bytes "tank@2") options 9 written 0;
  last_error = none;
  is_eof = false;
  r = 2 ∷ 3 ∷ [];
}

streams : (send kernel most end (bytes "tank@2") options 9 written 0).stream ≡ some stream
unfolding send peek after_read
streams = refl

send-reads_example :
    (reads end (2 ∷ 5 ∷ []) stream).0 ++ pending end (reads end (2 ∷ 5 ∷ []) stream).1 ≡ written
send-reads_example =
    send-reads kernel most end (bytes "tank@2") options 9 written 0 stream streams (2 ∷ 5 ∷ [])

final_error-read_failed : (result : Option Failure) → final_error result ≢ read_failed
unfolding final_error
final_error-read_failed none e = cc
final_error-read_failed (some f) e = cc

not_failed :
    final_error (call_result kernel most end (bytes "tank@2") options 9 written 0) ≢ read_failed
not_failed =
    final_error-read_failed (call_result kernel most end (bytes "tank@2") options 9 written 0)

ended :
    (read end 4 (reads end (2 ∷ 5 ∷ []) stream).1).error
    ≡ some (final_error (call_result kernel most end (bytes "tank@2") options 9 written 0))
unfolding read reads after_read
ended = refl

send_complete_example :
    ((reads end (2 ∷ 5 ∷ []) stream).0 ++ (read end 4 (reads end (2 ∷ 5 ∷ []) stream).1).bs
      ≡ written)
    × (final_error (call_result kernel most end (bytes "tank@2") options 9 written 0)
        ≡ final_error (call_result kernel most end (bytes "tank@2") options 9 written 0))
send_complete_example =
    send_complete kernel most end (bytes "tank@2") options 9 written 0 stream streams (2 ∷ 5 ∷ []) 4
      (final_error (call_result kernel most end (bytes "tank@2") options 9 written 0)) ended
      not_failed
