-- ===== src/Ioctl/Receive/Waiting.antt =====
-- ioctl/wrappers.go: what WaitAndClose returns after the writes.
use go_zfs.Base.{
  ℕ, ◌<◌, ◌≤◌, ◌≡◌, sym, ap, ◌∙◌, Bool-cases, ltb, inl, inr, List, [], ◌∷◌, ◌++◌, some, none, Bytes,
  length, take, arith, length-append, take-append, length-take_le,
}
use go_zfs.Encoder.Encodable.{Encodable}
use go_zfs.Ioctl.{Kernel}
use go_zfs.Ioctl.Types.{Others}
use go_zfs.Ioctl.Numbers.{Platform}
use go_zfs.Ioctl.Numbers
use go_zfs.Ioctl.Sends.{Sends}
use go_zfs.Ioctl.Receive.{
  Pipe, ReceiveStream, ReceiveOpts, Received, not_enough_data, writes, receive, first_sent,
  receive_call, wait_and_close,
}
use go_zfs.Ioctl.Receive.Cuts.{take-all}
use go_zfs.Ioctl.Receive.Delivered.{Delivered}
use go_zfs.Ioctl.Receive.Delivery.{record_size, writes-Delivered_new}

abbrev pub not_enough : {S : Type 0} → S → Received S
not_enough s = record { error = some not_enough_data; state = s; calls = [] }

module _ {W S : Type 0} (kernel : Kernel S Others) (p : Platform) (name : Bytes)
    (opts : ReceiveOpts) (fd : ℕ) (s : S) where
  unsent-not_enough :
      (r : ReceiveStream W) → r.sent ≡ [] → wait_and_close kernel p name opts fd r s ≡ not_enough s
  unfolding wait_and_close receive_call
  unsent-not_enough r e = rw (e)

  module _ (pipe : Pipe W) (w : W) (r : ReceiveStream W) (bufs : List Bytes)
      (new : receive opts w ≡ some r) where
    abbrev given : Bytes
    given = (writes pipe bufs r).0

    abbrev last : ReceiveStream W
    last = (writes pipe bufs r).1

    d : Delivered pipe (record_size opts) (pipe.received w) given last
    d = writes-Delivered_new pipe opts w r bufs new

    -- With a begin record of 312 bytes in the options, WaitAndClose fails for want of data after any
    -- writes, and the kernel is not called.
    pub wait_and_close-given :
        length opts.begin_record ≡ 312 → wait_and_close kernel p name opts fd last s ≡ not_enough s
    wait_and_close-given e =
        let none : record_size opts ≡ 0 = rw e in unsent-not_enough last (d.never_sent none)

    full : length opts.begin_record ≡ 0 → record_size opts ≡ 312
    full e = rw e

    short-not_enough :
        length opts.begin_record ≡ 0
        → length given < 312
        → wait_and_close kernel p name opts fd last s ≡ not_enough s
    short-not_enough e short =
        let n =
          length-take_le last.begin_record_pointer last.begin_record
            (omega (arith, d.sized, d.within)) in
        let m = length-append (take last.begin_record_pointer last.begin_record) d.rest in
        let k = ap length d.split in
        unsent-not_enough last (d.unsent (omega (arith, full e, d.within)))

    first_sent-take :
        length opts.begin_record ≡ 0 → 312 ≤ length given → first_sent last.sent ≡ take 312 given
    first_sent-take e long =
        let size = full e in
        let cut = take last.begin_record_pointer last.begin_record in
        let n : length cut ≡ last.begin_record_pointer =
          length-take_le last.begin_record_pointer last.begin_record
            (omega (arith, d.sized, d.within)) in
        let m = length-append cut d.rest in
        let k : length given ≡ length (cut ++ d.rest) = ap length d.split in
        let filled : last.begin_record_pointer ≡ record_size opts =
          elim (Bool-cases (ltb last.begin_record_pointer (record_size opts))) [
            | inl h ↦
                let less : last.begin_record_pointer < record_size opts = ground arith in
                let none : length d.rest ≡ 0 = ap length (d.record_first less) in
                absurd (omega arith)
            | inr h ↦
                let more : record_size opts ≤ last.begin_record_pointer = ground arith in
                omega (arith, d.within)
          ] in
        let whole : cut ≡ last.begin_record =
          take-all last.begin_record_pointer last.begin_record (omega (arith, d.sized)) in
        let sized : length last.begin_record ≡ 312 = d.sized ∙ size in
        let once : last.sent ≡ last.begin_record ∷ [] = d.sent_once (omega arith) filled in
        let front : take 312 (last.begin_record ++ d.rest) ≡ last.begin_record =
          rw (← sized) (take-append last.begin_record d.rest) in
        ap first_sent once
        ∙ sym front
        ∙ ap (λ bs. take 312 (bs ++ d.rest)) (sym whole)
        ∙ ap (λ bs. take 312 bs) (sym d.split)

    -- Without a begin record in the options: when the writes report less than 312 bytes as written,
    -- WaitAndClose fails for want of data, and the kernel is not called. Otherwise the ioctl is issued
    -- with the first 312 of these bytes as the begin record.
    pub wait_and_close-record :
        length opts.begin_record ≡ 0
        → (length given < 312 → wait_and_close kernel p name opts fd last s ≡ not_enough s)
          × (312 ≤ length given
              → wait_and_close kernel p name opts fd last s
                ≡ receive_call kernel p name opts fd (take 312 given) s)
    unfolding wait_and_close
    wait_and_close-record e = (
      short-not_enough e,
      λ long. ap (λ bs. receive_call kernel p name opts fd bs s) (first_sent-take e long),
    )

    abbrev pub with_record : ReceiveOpts
    with_record = record opts { fd = fd; begin_record = take 312 given }
