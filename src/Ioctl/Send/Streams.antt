-- ===== src/Ioctl/Send/Streams.antt =====
-- ioctl/wrappers.go: the stream that Send returns.
use mathlib.Core.Path.{subst}
use go_zfs.Base.{
  ℕ, ◌≡◌, ◌≢◌, refl, sym, ap, ◌∙◌, false, List, ◌++◌, Option, some, none, Bytes, append-nil,
}
use go_zfs.Encoder.Encodable.{Encodable}
use go_zfs.Decoder.Cells.{struct_cell, ptr_cell, no_slots}
use go_zfs.Ioctl.{Kernel}
use go_zfs.Ioctl.Types.{Others, zero_others}
use go_zfs.Ioctl.Numbers.{Platform}
use go_zfs.Ioctl.Numbers
use go_zfs.Ioctl.Sends.{Sends}
use go_zfs.Ioctl.Wrappers.{Failure, error_of, issue}
use go_zfs.Ioctl.Send.{
  ReadEnd, ReadError, eof, other_error, SendError, read_failed, SendStream, SendOptions,
  final_error, after_read, peek, read, reads, send, send_request,
}
use go_zfs.Ioctl.Send.Reading.{pending, Sound, reads-pending, read-Yields}

-- Send returns a stream only if the first read has no error.
returned :
    {P : Type 0} (error : Option ReadError) (bs : Bytes) (s stream : SendStream P)
    → (elim (after_read bs error s).error [
      | none ↦ some (after_read bs error s).stream
      | some e ↦ none
    ])
      ≡ some stream
    → s ≡ stream
unfolding after_read
returned none bs s stream h = cc
returned (some other_error) bs s stream h = cc
returned (some eof) bs s stream h = cc

module _ {S P : Type 0} (kernel : Kernel S Others) (p : Platform) (end : ReadEnd P) (name : Bytes)
    (options : SendOptions) (fd : ℕ) (r : P) (s : S) where
  abbrev pub with_fd : SendOptions
  with_fd = record options { fd = fd }

  -- How the call ends.
  abbrev pub call_result : Option Failure
  call_result =
      error_of
        (issue kernel p Numbers.send_new name zero_others (some (send_request with_fd))
          (some (ptr_cell (struct_cell no_slots))) none s).ending

  module _ (stream : SendStream P)
      (ok : (send kernel p end name options fd r s).stream ≡ some stream) where
    first : SendStream P
    first = record {
      peek_buf = (end.read 1 r).bs;
      result = call_result;
      last_error = none;
      is_eof = false;
      r = (end.read 1 r).next;
    }

    first-stream : first ≡ stream
    unfolding send peek first
    first-stream = returned (end.read 1 r).error (end.read 1 r).bs first stream ok

    stream-Sound : Sound end call_result stream
    unfolding first
    stream-Sound =
        subst (Sound end call_result) first-stream
          (record { result_kept = refl; nothing_left = λ e. cc; truthful = λ e. cc })

    stream-pending : pending end stream ≡ end.content r
    unfolding first
    stream-pending = ap (pending end) (sym first-stream) ∙ end.in_order 1 r

    module _ (ns : List ℕ) where
      abbrev pub last : SendStream P
      last = (reads end ns stream).1

      -- However the stream that Send returns is read, the bytes that the reads yield and those that are
      -- left are what the kernel wrote into the pipe, in its order: the one that Send reads ahead is
      -- neither lost nor yielded twice.
      pub send-reads : (reads end ns stream).0 ++ pending end last ≡ end.content r
      send-reads = (reads-pending end call_result ns stream stream-Sound).0 ∙ stream-pending

      -- After any reads of the stream that Send returns, when a read returns an error other than one of
      -- the pipe: all that the kernel wrote has been yielded, and the error is that of the call, or
      -- `io.EOF` if the call succeeded.
      pub send_complete :
          (n : ℕ) (e : SendError)
          → (read end n last).error ≡ some e
          → e ≢ read_failed
          → ((reads end ns stream).0 ++ (read end n last).bs ≡ end.content r)
            × (e ≡ final_error call_result)
      send_complete n e h ne =
          let sound = (reads-pending end call_result ns stream stream-Sound).1 in
          let y = read-Yields end call_result n last sound in
          let (empty, final) = y.at_end e h ne in
          let got : (read end n last).bs ≡ pending end last =
            sym (append-nil (read end n last).bs)
            ∙ ap (λ bs. (read end n last).bs ++ bs) (sym empty)
            ∙ y.in_order in
          (ap (λ bs. (reads end ns stream).0 ++ bs) got ∙ send-reads, final)
