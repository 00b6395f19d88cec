-- ===== src/Ioctl/Receive/Reports.antt =====
-- ioctl/wrappers.go: what WaitAndClose makes of the errors that the kernel reports for a stream.
use go_zfs.Base.{
  ℕ, ◌*◌, ◌<◌, ◌≤◌, ◌≡◌, refl, ap, ◌∙◌, true, List, [], ◌∷◌, ◌++◌, Option, some, none, Bytes,
  length, take, replicate, length-replicate, length-take_le, ◌==◌, if◌then◌else◌, arith,
}
use go_zfs.Result.{Result, ok, panic, nil_map_entry}
use go_zfs.Consts.{int32, uint64}
use go_zfs.Value.{integer, bytes, bytes_eq}
use go_zfs.Format.{NvList, number, list, end, pair, nvlist_of, encode}
use go_zfs.Encoder.Encodable.{Encodable}
use go_zfs.Encoder.Collect.{split_tag, field_name}
use go_zfs.Decoder.Cells.{
  Cell, plain_cell, nil_map, struct_cell, ptr_cell, no_slots, slot, same_type, same_kind, assign,
  find_slot, set_slot, settable, set_field, set_entry, set_primitive_in,
}
use go_zfs.Decoder.Targets.{unmarshal_into}
use go_zfs.Decoder.Readable.{ReadableList, value_of}
use go_zfs.Decoder.Fill.Into.{
  fill, fill_value, fill_nested, fill_field, fill_elem, fill_pointed, fill_cell, Settled,
  SettledValue, SettledNested, SettledField, SettledElem, SettledPointed, SettledCell,
}
use go_zfs.Decoder.Fill.{unmarshal_into-fill_cell}
use go_zfs.Ioctl.{
  Cmd, Kernel, Ending, done, nvlist_panic, enomem, source, marshal_optional, unmarshal_response,
  result_ending,
}
use go_zfs.Ioctl.Types.{Others, zero_others, new_cmd}
use go_zfs.Ioctl.Numbers.{Platform, ioctl_number}
use go_zfs.Ioctl.Numbers
use go_zfs.Ioctl.Retries.{Answers, nvlist_ioctl-Answers}
use go_zfs.Ioctl.Sends.{marshal_optional-encode}
use go_zfs.Ioctl.Wrappers.{of_ioctl, error_of, response_of}
use go_zfs.Ioctl.Receive.{
  Pipe, ReceiveStream, ReceiveOpts, ReceiveFailure, call_failed, receive_error, writes, receive,
  receive_request, receive_response, error_flags, outcome, receive_call, wait_and_close,
}
use go_zfs.Ioctl.Receive.Waiting.{wait_and_close-record}

-- The properties that were not received, with an errno each.
unfoldable pub errors_list : List (Bytes × ℕ) → NvList
errors_list [] = end
errors_list ((name, errno) ∷ errors) = pair name (number int32 errno) (errors_list errors)

-- The nvlist with which the kernel answers.
unfoldable pub report_list : ℕ → ℕ → List (Bytes × ℕ) → NvList
report_list read flags errors = pair (bytes "read_bytes") (number uint64 read) (
    pair (bytes "error_flags") (number uint64 flags)
      (pair (bytes "errors") (list (errors_list errors)) end))

-- A `ReceiveError` without errors of properties.
abbrev report_cell : ℕ → ℕ → Cell
report_cell read flags = ptr_cell (
    struct_cell (
      slot (bytes "ReadBytes") (bytes "read_bytes") true (plain_cell (integer uint64 read)) (
        slot (bytes "ErrorFlags") (bytes "error_flags") true (plain_cell (integer uint64 flags)) (
          slot (bytes "ErrorList") (bytes "errors") true (nil_map (plain_cell (integer int32 0)))
            no_slots))))

-- What is returned for it: a panic of the goroutine if there is an error of a property.
abbrev pub reported : ℕ → ℕ → List (Bytes × ℕ) → Option ReceiveFailure
reported read flags [] =
    if flags == 0 then none else some (receive_error (some (report_cell read flags)))
reported read flags (error ∷ errors) = some (call_failed (of_ioctl (nvlist_panic nil_map_entry)))

abbrev filled : ℕ → ℕ → List (Bytes × ℕ) → Result Cell
filled read flags [] = ok (report_cell read flags)
filled read flags (error ∷ errors) = panic nil_map_entry

fill_cell-report :
    (read flags : ℕ) (errors : List (Bytes × ℕ))
    → fill_cell receive_response (report_list read flags errors) ≡ filled read flags errors
unfolding fill_cell fill_pointed fill_elem fill fill_value fill_nested fill_field report_list
    errors_list set_primitive_in set_field settable find_slot set_slot assign same_type same_kind
    split_tag field_name bytes_eq value_of set_entry
fill_cell-report read flags [] = refl
fill_cell-report read flags ((name, errno) ∷ errors) = refl

report-SettledCell :
    (read flags : ℕ) (errors : List (Bytes × ℕ))
    → SettledCell receive_response (report_list read flags errors)
unfolding SettledCell SettledPointed SettledElem Settled SettledValue SettledNested SettledField
    fill fill_value fill_nested fill_field fill_pointed fill_elem report_list errors_list
    set_primitive_in set_field settable find_slot set_slot assign same_type same_kind split_tag
    field_name bytes_eq value_of set_entry
report-SettledCell read flags [] = ground arith
report-SettledCell read flags ((name, errno) ∷ errors) = ground arith

nothing : marshal_optional none ≡ source none
unfolding marshal_optional
nothing = refl

-- How the call ends.
abbrev report_ending : ℕ → ℕ → List (Bytes × ℕ) → Ending
report_ending read flags errors = result_ending (filled read flags errors) λ c. done (some c)

module _ {S : Type 0} (kernel : Kernel S Others) (p : Platform) where
  outcome-reported :
      (read flags : ℕ) (errors : List (Bytes × ℕ))
      → outcome kernel p
          (error_of (report_ending read flags errors))
          (response_of none (report_ending read flags errors))
        ≡ reported read flags errors
  unfolding error_flags
  outcome-reported read flags [] = refl
  outcome-reported read flags (error ∷ errors) = refl

  module _ (read flags : ℕ) (errors : List (Bytes × ℕ))
      (readable : ReadableList (report_list read flags errors)) (need : ℕ)
      (small : need ≤ 32 * 1024 * 1024)
      (asks : (i : ℕ) (c : Cmd Others) (dst : Bytes) (s : S)
        → length dst < need
        → (kernel i c dst s).errno ≡ enomem)
      (serves : (i : ℕ) (c : Cmd Others) (dst : Bytes) (s : S)
        → need ≤ length dst
        → (kernel i c dst s).errno ≡ 0)
      (reports : (i : ℕ) (c : Cmd Others) (dst : Bytes) (s : S)
        → need ≤ length dst
        → (rest : Bytes) × ((kernel i c dst s).dst
            ≡ encode (report_list read flags errors) ++ rest)) where
    receive_call-reported :
        (name : Bytes) (opts : ReceiveOpts) (fd : ℕ) (begin_record : Bytes) (s : S)
        → length begin_record ≡ 312
        → Encodable (receive_request (record opts { fd = fd; begin_record = begin_record }))
        → (receive_call kernel p name opts fd begin_record s).error ≡ reported read flags errors
    unfolding receive_call receive_request Answers unmarshal_response
    receive_call-reported name opts fd begin_record s full e =
        let request = receive_request (record opts { fd = fd; begin_record = begin_record }) in
        let (len, t, enough, ending, _, _) =
          nvlist_ioctl-Answers kernel (ioctl_number p Numbers.recv_new) name (new_cmd zero_others)
            (some request) (some receive_response) none s (some (encode (nvlist_of request))) none
            (marshal_optional-encode request e tt) nothing need small asks serves in
        let n : need ≤ length (replicate len 0) = omega (arith, length-replicate {A = ℕ} len 0) in
        let (rest, same) = reports _ _ (replicate len 0) t n in
        let read_back =
          ap (λ bs. result_ending (unmarshal_into bs receive_response) λ c. done (some c)) same
          ∙ ap (λ res. result_ending res λ c. done (some c))
              (unmarshal_into-fill_cell (report_list read flags errors) rest receive_response
                  readable (report-SettledCell read flags errors)
                ∙ fill_cell-report read flags errors) in
        rw (receive_call, full)
          (ap (λ e. outcome kernel p (error_of e) (response_of none e)) (ending ∙ read_back)
            ∙ outcome-reported read flags errors)

    -- For a kernel that answers ENOMEM until the buffer has the bytes that it needs, at most 32 MiB, and
    -- from then on succeeds with a buffer that starts with the nvlist of the bytes read, the error flags
    -- and the errors of properties: without a begin record in the options, after writes that report 312
    -- bytes or more as written, and where the options with the first 312 of them can be encoded,
    -- WaitAndClose returns no error if there are no flags and no errors of properties, a ReceiveError
    -- with the bytes and the flags if there are flags only, and any error of a property ends the
    -- goroutine in the panic for an entry of a nil map.
    pub wait_and_close-reported :
        {W : Type 0} (pipe : Pipe W) (name : Bytes) (opts : ReceiveOpts) (fd : ℕ) (w : W)
        (r : ReceiveStream W) (bufs : List Bytes) (s : S)
        → receive opts w ≡ some r
        → length opts.begin_record ≡ 0
        → 312 ≤ length (writes pipe bufs r).0
        → Encodable (
            receive_request
              (record opts { fd = fd; begin_record = take 312 (writes pipe bufs r).0 }))
        → (wait_and_close kernel p name opts fd (writes pipe bufs r).1 s).error
          ≡ reported read flags errors
    wait_and_close-reported pipe name opts fd w r bufs s new free long e =
        let given = (writes pipe bufs r).0 in
        ap (λ call. call.error)
          ((wait_and_close-record kernel p name opts fd s pipe w r bufs new free).1 long)
        ∙ receive_call-reported name opts fd (take 312 given) s (length-take_le 312 given long) e
