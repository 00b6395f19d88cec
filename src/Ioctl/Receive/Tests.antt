-- ===== src/Ioctl/Receive/Tests.antt =====
-- ioctl: a receive of 400 bytes in two writes.
use go_zfs.Base.{
  ℕ, suc, ◌<◌, ◌≤◌, ◌≡◌, refl, sym, ap, List, [], ◌∷◌, ◌++◌, some, none, Bytes, length, take,
  replicate, arith, true, false, ltb, lt→ltb, le→ltb, if◌then◌else◌,
}
use go_zfs.Value.{bytes}
use go_zfs.Encoder.Encodable.{Encodable}
use go_zfs.Encoder.Collect.{split_tag, field_name, leaves_out}
use go_zfs.Result.{nil_map_entry}
use go_zfs.Consts.{nvtype_from_kind}
use go_zfs.Wire.{low_bytes}
use go_zfs.Decoder.Readable.{ReadableList, payload}
use go_zfs.Format.{encode, pair_body, list_header}
use go_zfs.Ioctl.{Kernel, enomem, nvlist_panic}
use go_zfs.Ioctl.Wrappers.{of_ioctl}
use go_zfs.Ioctl.Types.{Others}
use go_zfs.Ioctl.Numbers.{most}
use go_zfs.Ioctl.Sends.{Sends}
use go_zfs.Ioctl.Wrappers.Requests.{props_value}
use go_zfs.Ioctl.Receive.{
  Pipe, ReceiveStream, ReceiveOpts, call_failed, receive, writes, wait_and_close, receive_call,
  receive_request,
}
use go_zfs.Ioctl.Receive.Cuts.{take-all}
use go_zfs.Ioctl.Receive.Reports.{report_list, errors_list, wait_and_close-reported}
use go_zfs.Ioctl.Receive.SameBytes.{writes-same_bytes}
use go_zfs.Ioctl.Receive.Delivered.{Delivered}
use go_zfs.Ioctl.Receive.Delivery.{writes-Delivered_new}
use go_zfs.Ioctl.Receive.Waiting.{
  not_enough, with_record, wait_and_close-given, wait_and_close-record,
}

-- A pipe that keeps what it is given.
abbrev pipe : Pipe Bytes
pipe = record {
  write = λ buf w. record { count = length buf; error = none; next = w ++ buf };
  received = λ w. w;
  count_le = λ buf w. omega arith;
  appended = λ buf w. ap (λ bs. w ++ bs) (sym (take-all (length buf) buf (omega arith)));
  complete = λ buf w e. refl;
}

abbrev kernel : Kernel ℕ Others
kernel i c dst s = record { errno = 5; cmd = c; dst = dst; state = suc s }

abbrev opts : Bytes → ReceiveOpts
opts begin_record = record {
  origin = [];
  snapshot_name = bytes "tank@1";
  received_props = none;
  local_props = none;
  fd = 0;
  begin_record = begin_record;
  cleanup_fd = 0;
  force = false;
  resumable = true;
}

abbrev stream : ℕ → ReceiveStream Bytes
stream n = record {
  w = [];
  last_error = none;
  begin_record = replicate n 0;
  begin_record_pointer = 0;
  sent = [];
}

abbrev bufs : List Bytes
bufs = replicate 200 7 ∷ replicate 200 8 ∷ []

received : receive (opts []) [] ≡ some (stream 312)
unfolding receive
received = refl

received_given : receive (opts (replicate 312 1)) [] ≡ some (stream 0)
unfolding receive
received_given = refl

writes-Delivered_new_example :
    Delivered pipe 312 [] (writes pipe bufs (stream 312)).0 (writes pipe bufs (stream 312)).1
writes-Delivered_new_example = writes-Delivered_new pipe (opts []) [] (stream 312) bufs received

wait_and_close-given_example :
    wait_and_close kernel most
      (bytes "tank")
      (opts (replicate 312 1))
      9
      (writes pipe bufs (stream 0)).1
      0
    ≡ not_enough 0
wait_and_close-given_example =
    wait_and_close-given kernel most (bytes "tank") (opts (replicate 312 1)) 9 0 pipe [] (stream 0)
      bufs received_given refl

wait_and_close-record_example :
    (length (writes pipe bufs (stream 312)).0 < 312
      → wait_and_close kernel most (bytes "tank") (opts []) 9 (writes pipe bufs (stream 312)).1 0
        ≡ not_enough 0)
    × (312 ≤ length (writes pipe bufs (stream 312)).0
        → wait_and_close kernel most (bytes "tank") (opts []) 9 (writes pipe bufs (stream 312)).1 0
          ≡ receive_call kernel most
              (bytes "tank")
              (opts [])
              9
              (take 312 (writes pipe bufs (stream 312)).0)
              0)
wait_and_close-record_example =
    wait_and_close-record kernel most (bytes "tank") (opts []) 9 0 pipe [] (stream 312) bufs
      received refl

enough : 312 ≤ length (writes pipe bufs (stream 312)).0
unfolding writes
enough = ground arith

request-Encodable : Encodable (
    receive_request
      (with_record kernel most (bytes "tank") (opts []) 9 0 pipe [] (stream 312) bufs received))
unfolding Encodable receive_request split_tag field_name leaves_out props_value writes
request-Encodable = ground arith

abbrev other_bufs : List Bytes
other_bufs = replicate 100 7 ∷ replicate 100 7 ∷ replicate 200 8 ∷ []

same_written : (writes pipe bufs (stream 312)).0 ≡ (writes pipe other_bufs (stream 312)).0
unfolding writes
same_written = refl

writes-same_bytes_example :
    (pipe.received (writes pipe bufs (stream 312)).1.w
      ≡ pipe.received (writes pipe other_bufs (stream 312)).1.w)
    × wait_and_close kernel most (bytes "tank") (opts []) 9 (writes pipe bufs (stream 312)).1 0
      ≡ wait_and_close kernel most
          (bytes "tank")
          (opts [])
          9
          (writes pipe other_bufs (stream 312)).1
          0
writes-same_bytes_example =
    writes-same_bytes pipe (opts []) [] (stream 312) bufs other_bufs kernel most (bytes "tank") 9 0
      received same_written

-- The kernel has not set the property.
abbrev errors : List (Bytes × ℕ)
errors = (bytes "quota", 22) ∷ []

report-Readable : ReadableList (report_list 400 0 errors)
unfolding ReadableList report_list errors_list pair_body payload low_bytes list_header
    nvtype_from_kind
report-Readable = ground arith

abbrev reporting_kernel : Kernel ℕ Others
reporting_kernel i c dst s = record {
  errno = if ltb (length dst) 9000 then enomem else 0;
  cmd = c;
  dst = encode (report_list 400 0 errors) ++ replicate 8 0;
  state = suc s;
}

-- The panic of the goroutine.
wait_and_close-reported_example :
    (wait_and_close reporting_kernel most
      (bytes "tank")
      (opts [])
      9
      (writes pipe bufs (stream 312)).1
      0).error
    ≡ some (call_failed (of_ioctl (nvlist_panic nil_map_entry)))
wait_and_close-reported_example =
    wait_and_close-reported reporting_kernel most 400 0 errors report-Readable 9000 (omega arith)
      (λ i c dst s h. rw (lt→ltb (length dst) 9000 h) refl)
      (λ i c dst s h. rw (le→ltb (length dst) 9000 h) refl) (λ i c dst s h. (replicate 8 0, refl))
      pipe (bytes "tank") (opts []) 9 [] (stream 312) bufs 0 received refl enough request-Encodable
