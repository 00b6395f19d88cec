-- ===== src/Trace/Tests.antt =====
-- ioctl/trace/main.go: runs of the tracer.
use go_zfs.Base.{
  ℕ, zero, suc, ◌≡◌, refl, false, [], ◌∷◌, ◌++◌, List, Option, some, none, Bytes, ◌==◌,
  if◌then◌else◌, append-nil, arith,
}
use go_zfs.Consts.{uint16, nvtype_from_kind}
use go_zfs.Result.{ok}
use go_zfs.Wire.{low_bytes}
use go_zfs.Value.{Value, integer, interface, mapping, no_entries, entry, bytes}
use go_zfs.Encoder.Encodable.{Encodable}
use go_zfs.Encoder.Pairs.{marshal}
use go_zfs.Encoder.Implements.{marshal-encode}
use go_zfs.Format.{nvlist_of, encode, pair_body, entries_list}
use go_zfs.Decoder.Readable.{ReadableList, payload}
use go_zfs.Decoder.Cells.{Cell, ptr_cell, any_cell}
use go_zfs.Trace.{
  Regs, Tracee, Packages, and_then, printed, json_line, first_lines, next_stop, show_nvlist,
  trace_main,
}
use go_zfs.Trace.Runs.{Stops, gone, called, show_calls, trace_main-Stops}
use go_zfs.Trace.Shows.{show_nvlist-marshal}

abbrev request : Value
request = mapping (entry (bytes "p") (interface (integer uint16 513)) no_entries)

request-Encodable : Encodable request
unfolding Encodable
request-Encodable = ground arith

request-Readable : ReadableList (nvlist_of request)
unfolding ReadableList nvlist_of entries_list pair_body payload low_bytes nvtype_from_kind
request-Readable = ground arith

abbrev regs : Regs
regs = record { orig_rax = 16; rsi = 23040; rdx = 8 }

-- A process that makes one system call, an ioctl, and then another one that ends it. The command is at
-- address 8, and the request at address 9.
abbrev regs_at : ℕ → Option Regs
regs_at zero = some regs
regs_at (suc zero) = some regs
regs_at (suc (suc zero)) = some (record { orig_rax = 231; rsi = 0; rdx = 0 })
regs_at (suc (suc (suc zero))) = some (record { orig_rax = 231; rsi = 0; rdx = 0 })
regs_at _ = none

abbrev process : Tracee ℕ
process = record {
  get_regs = regs_at;
  peek = λ address n t.
      if address == 8 then some (116 ∷ 0 ∷ []) else some (encode (nvlist_of request));
  syscall = λ t. some t;
  wait = λ t. some (suc t);
}

abbrev found : Cell → Option Bytes
found (ptr_cell (any_cell (some v))) = some (bytes "{}")
found c = none

abbrev packages : Packages
packages = record {
  sizeof_cmd = some 2;
  unpack_cmd = λ bs. some (record {
    name = bs;
    cookie = 0;
    nvlist_src = 9;
    nvlist_src_size = 64;
    nvlist_dst = 0;
    nvlist_dst_size = 0;
    nvlist_conf = 0;
    nvlist_conf_size = 0;
  });
  json = found;
}

abbrev calls : List (Regs × ℕ)
calls = (regs, 0) ∷ (record { orig_rax = 231; rsi = 0; rdx = 0 }, 2) ∷ []

process-Stops : Stops process 0 calls
unfolding next_stop
process-Stops = called refl refl refl (called refl refl refl (gone refl))

trace_main-Stops_example :
    trace_main process packages 5 (bytes "zfs" ∷ []) false 0
    ≡ and_then (first_lines (bytes "zfs" ∷ []) false) (show_calls process packages calls)
trace_main-Stops_example =
    trace_main-Stops process packages 0 calls 5 (bytes "zfs" ∷ []) false (omega arith) process-Stops

request_there : process.peek 9 64 0 ≡ some (encode (nvlist_of request) ++ [])
request_there = rw append-nil refl

request-marshal : marshal request ≡ ok (encode (nvlist_of request))
request-marshal = marshal-encode request request-Encodable tt

show_nvlist-marshal_example :
    show_nvlist process packages (bytes "src") 9 64 0
    ≡ printed (json_line (bytes "src") (bytes "{}") ∷ [])
show_nvlist-marshal_example =
    show_nvlist-marshal process packages (bytes "src") 9 64 0 request [] (bytes "{}") refl
      request-Encodable tt request-Readable (encode (nvlist_of request)) request-marshal
      request_there refl
