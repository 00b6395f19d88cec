-- ===== src/Ioctl/Send.antt =====
-- ioctl/wrappers.go: Send and sendStream, with the read end of the pipe as a parameter.
pub mod Reading
pub mod Streams
mod Tests
use go_zfs.Base.{
  ℕ, ◌+◌, ◌≤◌, ◌<◌, ◌≡◌, Bool, true, false, List, [], ◌∷◌, ◌++◌, Option, some, none, Bytes, length,
  take, drop, ltb, if◌then◌else◌,
}
use go_zfs.Consts.{int32}
use go_zfs.Value.{Value, integer, struct, no_fields, field, bytes}
use go_zfs.Decoder.Cells.{Cell, struct_cell, ptr_cell, no_slots}
use go_zfs.Ioctl.{Cmd, Kernel, Run}
use go_zfs.Ioctl.Types.{Others, zero_others}
use go_zfs.Ioctl.Numbers.{Platform}
use go_zfs.Ioctl.Numbers
use go_zfs.Ioctl.Wrappers.{Failure, error_of, issue}
use go_zfs.Ioctl.Wrappers.Requests.{uint64_field, string_field, bool_field}

-- The error of a read: `io.EOF`, or another.
pub data ReadError : Type 0 where
  eof other_error : ReadError

pub record Chunk (P : Type 0) : Type 0 where
  pub bs : Bytes
  pub error : Option ReadError
  pub next : P

-- The read end of a pipe, as package io documents a Reader: it reads at most as many bytes as the
-- buffer has, and `io.EOF` is the error when nothing is left. `content` is what is still to be read.
pub record ReadEnd (P : Type 0) : Type 0 where
  pub read : ℕ → P → Chunk P
  pub content : P → Bytes
  pub at_most : (n : ℕ) (r : P) → length (read n r).bs ≤ n
  pub in_order : (n : ℕ) (r : P) → (read n r).bs ++ content (read n r).next ≡ content r
  pub at_end : (n : ℕ) (r : P) → (read n r).error ≡ some eof → content (read n r).next ≡ []

pub data SendError : Type 0 where
  end_of_stream read_failed : SendError
  call_failed : Failure → SendError

-- `result` is what the goroutine puts into errorChan when the call has ended.
pub record SendStream (P : Type 0) : Type 0 where
  pub peek_buf : Bytes
  pub result : Option Failure
  pub last_error : Option SendError
  pub is_eof : Bool
  pub r : P

-- What Read or peek returns, and the stream then.
pub record Got (P : Type 0) : Type 0 where
  pub bs : Bytes
  pub error : Option SendError
  pub stream : SendStream P

-- The error after `io.EOF` is that of the call, or `io.EOF`.
unfoldable pub final_error : Option Failure → SendError
final_error none = end_of_stream
final_error (some e) = call_failed e

module _ {P : Type 0} where
  -- What follows the read in Read and in peek.
  unfoldable pub after_read : Bytes → Option ReadError → SendStream P → Got P
  unfolding final_error
  after_read bs none s = record { bs = bs; error = none; stream = s }
  after_read bs (some other_error) s = record { bs = bs; error = some read_failed; stream = s }
  after_read bs (some eof) s = record {
    bs = bs;
    error = some (final_error s.result);
    stream = record s { last_error = some (final_error s.result); is_eof = true };
  }

  -- With a buffer of `n` bytes.
  unfoldable pub read : ReadEnd P → ℕ → SendStream P → Got P
  unfolding after_read
  read end n s =
      if s.is_eof
      then record { bs = []; error = s.last_error; stream = s }
      else (if ltb 0 (length s.peek_buf)
          then record {
            bs = take n s.peek_buf;
            error = none;
            stream = record s { peek_buf = drop n s.peek_buf };
          }
          else (let c = end.read n s.r in after_read c.bs c.error (record s { r = c.next })))

  unfoldable pub peek : ReadEnd P → ℕ → SendStream P → Got P
  unfolding after_read
  peek end n s =
      if s.is_eof
      then record { bs = []; error = s.last_error; stream = s }
      else (let c = end.read n s.r in
          after_read c.bs c.error (record s { peek_buf = s.peek_buf ++ c.bs; r = c.next }))

  -- Reads in turn, with buffers of these sizes, and the bytes that they yield.
  unfoldable pub reads : ReadEnd P → List ℕ → SendStream P → Bytes × SendStream P
  unfolding read
  reads end [] s = ([], s)
  reads end (n ∷ ns) s =
      let a = read end n s in let (more, last) = reads end ns a.stream in (a.bs ++ more, last)

-- `Close`; `close_end` closes the read end of the pipe and tells whether that failed.
unfoldable pub close : {P : Type 0} → (P → Bool × P) → SendStream P → Bool × SendStream P
close close_end s = let (failed, r) = close_end s.r in (failed, record s { r = r })

pub record SendOptions : Type 0 where
  pub fd : ℕ
  pub from : Bytes
  pub from_bookmark : Bytes
  pub large_blocks : Bool
  pub embed : Bool
  pub compress : Bool
  pub raw : Bool
  pub saved : Bool
  pub resume_object : ℕ
  pub resume_offset : ℕ

unfoldable pub send_request : SendOptions → Value
send_request options = struct (
    field (bytes "Fd") (bytes "fd") (integer int32 options.fd) (
      string_field (bytes "From") (bytes "fromsnap,omitempty") options.from (
        string_field (bytes "FromBookmark") (bytes "redactbook,omitempty") options.from_bookmark (
          bool_field (bytes "LargeBlocks") (bytes "largeblockok") options.large_blocks (
            bool_field (bytes "Embed") (bytes "embedok") options.embed (
              bool_field (bytes "Compress") (bytes "compress") options.compress (
                bool_field (bytes "Raw") (bytes "rawok") options.raw (
                  bool_field (bytes "Saved") (bytes "savedok") options.saved (
                    uint64_field (bytes "ResumeObject") (bytes "resume_object,omitempty")
                      options.resume_object
                      (uint64_field (bytes "ResumeOffset") (bytes "resume_offset,omitempty")
                        options.resume_offset no_fields))))))))))

-- `Send` returns a stream or an error.
pub record Sent (S P : Type 0) : Type 0 where
  pub stream : Option (SendStream P)
  pub error : Option SendError
  pub state : S
  pub calls : List (Cmd Others)

module _ {S P : Type 0} (kernel : Kernel S Others) (p : Platform) (end : ReadEnd P) where
  -- The descriptor of the pipe's write end, and its read end, which has what the call writes.
  unfoldable pub send : Bytes → SendOptions → ℕ → P → S → Sent S P
  unfolding send_request peek
  send name options fd r s =
      let run =
        issue kernel p Numbers.send_new name zero_others
          (some (send_request (record options { fd = fd })))
          (some (ptr_cell (struct_cell no_slots))) none s in
      let stream : SendStream P = record {
        peek_buf = [];
        result = error_of run.ending;
        last_error = none;
        is_eof = false;
        r = r;
      } in
      let a = peek end 1 stream in
      record {
        stream = elim a.error [ none ↦ some a.stream | some e ↦ none ];
        error = a.error;
        state = run.state;
        calls = run.calls;
      }
