-- ===== src/Ioctl/Receive.antt =====
-- ioctl/wrappers.go: Receive and ReceiveStream, with the write end of the pipe as a parameter.
pub mod Cuts
pub mod Delivered
pub mod Delivery
pub mod Waiting
pub mod SameBytes
pub mod Reports
mod Tests
use go_zfs.Base.{
  ℕ, zero, suc, ◌+◌, ◌-◌, ◌≤◌, ◌≡◌, Bool, true, false, List, [], ◌∷◌, ◌++◌, Option, some, none,
  Bytes, length, take, drop, set, replicate, ltb, ◌==◌, if◌then◌else◌,
}
use go_zfs.Consts.{uint8, int32, uint64}
use go_zfs.Value.{
  Value, Entries, integer, string, integers, struct, nil_ptr, no_fields, field, bytes,
}
use go_zfs.Decoder.Cells.{Cell, plain_cell, nil_map, struct_cell, ptr_cell, no_slots, slot}
use go_zfs.Ioctl.{Cmd, Kernel}
use go_zfs.Ioctl.Types.{Others, zero_others}
use go_zfs.Ioctl.Numbers.{Platform}
use go_zfs.Ioctl.Numbers
use go_zfs.Ioctl.Wrappers.{Failure, error_of, response_of, issue}
use go_zfs.Ioctl.Wrappers.Requests.{props_value, uint64_field, string_field, bool_field}

-- The error of a write to a pipe: EPIPE, or another.
pub data PipeError : Type 0 where
  epipe other_error : PipeError

pub record Written (W : Type 0) : Type 0 where
  pub count : ℕ
  pub error : Option PipeError
  pub next : W

-- The write end of a pipe, as package io documents a Writer: it writes the first `count` bytes, and
-- fewer than all only with an error. `received` is what has been written.
pub record Pipe (W : Type 0) : Type 0 where
  pub write : Bytes → W → Written W
  pub received : W → Bytes
  pub count_le : (buf : Bytes) (w : W) → (write buf w).count ≤ length buf
  pub appended :
      (buf : Bytes) (w : W)
      → received (write buf w).next ≡ received w ++ take (write buf w).count buf
  pub complete :
      (buf : Bytes) (w : W) → (write buf w).error ≡ none → (write buf w).count ≡ length buf

pub data StreamError : Type 0 where
  receiving_failed unexpected : StreamError

-- `sent` is what was put into beginRecordChan.
pub record ReceiveStream (W : Type 0) : Type 0 where
  pub w : W
  pub last_error : Option StreamError
  pub begin_record : Bytes
  pub begin_record_pointer : ℕ
  pub sent : List Bytes

-- What Write returns, and the stream then.
pub record Accepted (W : Type 0) : Type 0 where
  pub count : ℕ
  pub error : Option StreamError
  pub stream : ReceiveStream W

-- The loop that copies into the begin record, from the index on.
unfoldable pub store_record : Bytes → ℕ → Bytes → Bytes
store_record [] i buf = buf
store_record (b ∷ bs) i buf = store_record bs (i + 1) (set buf i b)

unfoldable pub stream_error : Option PipeError → Option StreamError
stream_error none = none
stream_error (some epipe) = some receiving_failed
stream_error (some other_error) = some unexpected

module _ {W : Type 0} where
  -- What the begin record lacks.
  abbrev pub lacks : ReceiveStream W → ℕ
  lacks r = length r.begin_record - r.begin_record_pointer

  -- `beginRecordBytes`, when the begin record is dealt with.
  unfoldable pub begin_record_bytes : Bytes → ReceiveStream W → ℕ
  begin_record_bytes buf r =
      if ltb 0 (lacks r) then (if ltb (length buf) (lacks r) then length buf else lacks r) else 0

  -- With the next bytes of the begin record.
  abbrev pub stored : Bytes → ReceiveStream W → ReceiveStream W
  stored bs r = record r {
    begin_record = store_record bs r.begin_record_pointer r.begin_record;
    begin_record_pointer = r.begin_record_pointer + length bs;
  }

  abbrev pub send_if_full : ReceiveStream W → ReceiveStream W
  send_if_full r = if lacks r == 0 then record r { sent = r.sent ++ r.begin_record ∷ [] } else r

  unfoldable pub take_record : Bytes → ReceiveStream W → ReceiveStream W
  unfolding store_record
  take_record bs r = if ltb 0 (lacks r) then send_if_full (stored bs r) else r

  -- The rest goes into the pipe.
  unfoldable pub write_pipe : Pipe W → Bytes → ℕ → ReceiveStream W → Accepted W
  unfolding stream_error
  write_pipe pipe buf k r =
      let a = pipe.write (drop k buf) r.w in
      if length buf - k == 0
      then record { count = length buf; error = none; stream = r }
      else record {
        count = a.count + k;
        error = stream_error a.error;
        stream = record r { w = a.next; last_error = stream_error a.error };
      }

  unfoldable pub write : Pipe W → Bytes → ReceiveStream W → Accepted W
  unfolding begin_record_bytes take_record write_pipe
  write pipe buf r = elim r.last_error [
    | some e ↦ record { count = 0; error = some e; stream = r }
    | none ↦ let k = begin_record_bytes buf r in write_pipe pipe buf k (take_record (take k buf) r)
  ]

  -- Writes in turn, and the bytes that they report as written.
  unfoldable pub writes : Pipe W → List Bytes → ReceiveStream W → Bytes × ReceiveStream W
  unfolding write
  writes pipe [] r = ([], r)
  writes pipe (buf ∷ bufs) r =
      let a = write pipe buf r in
      let (more, last) = writes pipe bufs a.stream in (take a.count buf ++ more, last)

-- The fields of ReceiveOpts that the caller sets.
pub record ReceiveOpts : Type 0 where
  pub origin : Bytes
  pub snapshot_name : Bytes
  pub received_props : Option Entries
  pub local_props : Option Entries
  pub fd : ℕ
  pub begin_record : Bytes
  pub cleanup_fd : ℕ
  pub force : Bool
  pub resumable : Bool

-- The options as NvlistIoctl is given them; HiddenArgs is nil.
unfoldable pub receive_request : ReceiveOpts → Value
unfolding props_value
receive_request opts = struct (
    string_field (bytes "Origin") (bytes "origin,omitempty") opts.origin (
      string_field (bytes "SnapshotName") (bytes "snapname") opts.snapshot_name (
        field (bytes "ReceivedProps") (bytes "props") (props_value opts.received_props) (
          field (bytes "LocalProps") (bytes "localprops") (props_value opts.local_props) (
            field (bytes "HiddenArgs") (bytes "hidden_args") nil_ptr (
              field (bytes "Fd") (bytes "input_fd") (integer int32 opts.fd) (
                field (bytes "BeginRecord") (bytes "begin_record")
                  (integers uint8 opts.begin_record)
                  (field (bytes "CleanupFd") (bytes "cleanup_fd,omitempty")
                    (integer int32 opts.cleanup_fd)
                    (bool_field (bytes "Force") (bytes "force") opts.force (
                      bool_field (bytes "Resumable") (bytes "resumable") opts.resumable
                        no_fields))))))))))

-- `new(ReceiveError)`
abbrev pub receive_response : Cell
receive_response = ptr_cell (
    struct_cell (
      slot (bytes "ReadBytes") (bytes "read_bytes") true (plain_cell (integer uint64 0)) (
        slot (bytes "ErrorFlags") (bytes "error_flags") true (plain_cell (integer uint64 0)) (
          slot (bytes "ErrorList") (bytes "errors") true (nil_map (plain_cell (integer int32 0)))
            no_slots))))

unfoldable pub error_flags : Option Cell → ℕ
error_flags
      (some (ptr_cell (struct_cell (slot _ _ _ _ (slot _ _ _ (plain_cell (integer _ n)) _))))) =
    n
error_flags _ = 0

-- How a receive fails.
pub data ReceiveFailure : Type 0 where
  not_enough_data : ReceiveFailure
  call_failed : Failure → ReceiveFailure
  receive_error : Option Cell → ReceiveFailure

pub record Received (S : Type 0) : Type 0 where
  pub error : Option ReceiveFailure
  pub state : S
  pub calls : List (Cmd Others)

-- `Receive`, for the ends of a pipe; `none` is the error for a begin record of another size.
unfoldable pub receive : {W : Type 0} → ReceiveOpts → W → Option (ReceiveStream W)
receive opts w =
    let stream : ℕ → Option (ReceiveStream _) = λ n. some (record {
      w = w;
      last_error = none;
      begin_record = replicate n 0;
      begin_record_pointer = 0;
      sent = [];
    }) in
    if length opts.begin_record == 312
    then stream 0
    else (if length opts.begin_record == 0 then stream 312 else none)

-- The first thing that was put into the channel; WaitAndClose puts an empty slice behind all.
abbrev pub first_sent : List Bytes → Bytes
first_sent [] = []
first_sent (bs ∷ _) = bs

module _ {S : Type 0} (kernel : Kernel S Others) (p : Platform) where
  -- What the goroutine makes of the call's result.
  abbrev pub outcome : Option Failure → Option Cell → Option ReceiveFailure
  outcome (some e) res = some (call_failed e)
  outcome none res = if error_flags res == 0 then none else some (receive_error res)

  -- The goroutine, with the descriptor of the pipe's read end.
  unfoldable pub receive_call : Bytes → ReceiveOpts → ℕ → Bytes → S → Received S
  unfolding receive_request error_flags
  receive_call name opts fd begin_record s =
      let given = record opts { fd = fd; begin_record = begin_record } in
      let run =
        issue kernel p Numbers.recv_new name zero_others (some (receive_request given))
          (some receive_response) none s in
      if length begin_record == 312
      then record {
        error = outcome (error_of run.ending) (response_of none run.ending);
        state = run.state;
        calls = run.calls;
      }
      else record { error = some not_enough_data; state = s; calls = [] }

  -- `WaitAndClose` returns what the goroutine sends.
  unfoldable pub wait_and_close :
      {W : Type 0} → Bytes → ReceiveOpts → ℕ → ReceiveStream W → S → Received S
  unfolding receive_call
  wait_and_close name opts fd r s = receive_call name opts fd (first_sent r.sent) s

  -- With the stream then: the empty slice is in the channel, and the write end of the pipe is closed,
  -- after the result of the goroutine is there.
  unfoldable pub wait_and_close_stream :
      {W : Type 0}
      → (W → W)
      → Bytes
      → ReceiveOpts
      → ℕ
      → ReceiveStream W
      → S
      → Received S × ReceiveStream W
  unfolding wait_and_close
  wait_and_close_stream close name opts fd r s =
      (wait_and_close name opts fd r s, record r { w = close r.w; sent = r.sent ++ [] ∷ [] })
