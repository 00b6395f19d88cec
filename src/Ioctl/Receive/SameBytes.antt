-- ===== src/Ioctl/Receive/SameBytes.antt =====
-- ioctl/wrappers.go: a stream of Receive after the writes, by the bytes alone that they report.
use go_zfs.Base.{
  ℕ, zero, suc, ◌+◌, ◌<◌, ◌≤◌, ◌≡◌, refl, sym, ap, ◌∙◌, Bool-cases, true, false, ltb, leb, inl, inr,
  List, [], ◌∷◌, ◌++◌, some, Bytes, length, take, drop, arith, length-append, take-append,
  drop-append, length-take_le, if◌then◌else◌,
}
use go_zfs.Ioctl.{Kernel}
use go_zfs.Ioctl.Types.{Others}
use go_zfs.Ioctl.Numbers.{Platform}
use go_zfs.Ioctl.Receive.{
  Pipe, ReceiveStream, ReceiveOpts, writes, receive, first_sent, receive_call, wait_and_close,
}
use go_zfs.Ioctl.Receive.Cuts.{take-all, length-nil}
use go_zfs.Ioctl.Receive.Delivered.{Delivered}
use go_zfs.Ioctl.Receive.Delivery.{record_size, writes-Delivered_new}

-- The begin record that the goroutine gets.
abbrev record_of : ℕ → Bytes → Bytes
record_of size given =
    if ltb 0 size then (if leb size (length given) then take size given else []) else []

drop-all : (n : ℕ) (xs : Bytes) → length xs ≤ n → drop n xs ≡ []
drop-all zero xs h = length-nil xs h
drop-all (suc n) [] h = refl
drop-all (suc n) (x ∷ xs) h = drop-all n xs (omega arith)

module _ {W : Type 0} (pipe : Pipe W) (size : ℕ) (start given : Bytes) (r : ReceiveStream W)
    (d : Delivered pipe size start given r) where
  abbrev cut : Bytes
  cut = take r.begin_record_pointer r.begin_record

  length-cut : length cut ≡ r.begin_record_pointer
  length-cut =
      length-take_le r.begin_record_pointer r.begin_record (omega (arith, d.sized, d.within))

  length-given : length given ≡ r.begin_record_pointer + length d.rest
  length-given = omega (arith, ap length d.split, length-append cut d.rest, length-cut)

  -- The begin record is full, or nothing is behind it.
  data Filled : Type 0 where
    full : r.begin_record_pointer ≡ size → Filled
    lacking : r.begin_record_pointer < size → d.rest ≡ [] → Filled

  filled_or_lacking : Filled
  filled_or_lacking = elim (Bool-cases (ltb r.begin_record_pointer size)) [
    | inl h ↦
        let less : r.begin_record_pointer < size = ground arith in
        lacking less (d.record_first less)
    | inr h ↦
        let more : size ≤ r.begin_record_pointer = ground arith in full (omega (arith, d.within))
  ]

  drop-given : drop size given ≡ d.rest
  drop-given = elim filled_or_lacking [
    | full e ↦
        let n : size ≡ length cut = omega (arith, length-cut, e) in
        ap (λ bs. drop size bs) d.split
        ∙ ap (λ n. drop n (cut ++ d.rest)) n
        ∙ drop-append cut d.rest
    | lacking h e ↦ drop-all size given (omega (arith, length-given, ap length e)) ∙ sym e
  ]

  pub received-given : pipe.received r.w ≡ start ++ drop size given
  received-given = rw drop-given d.in_pipe

  record_of-short : length given < size → record_of size given ≡ []
  record_of-short h =
      let z : ltb 0 size ≡ true = ground arith in
      let n : leb size (length given) ≡ false = ground arith in rw (z, n) refl

  record_of-full : 0 < size → size ≤ length given → record_of size given ≡ take size given
  record_of-full z h =
      let z : ltb 0 size ≡ true = ground arith in
      let n : leb size (length given) ≡ true = ground arith in rw (z, n) refl

  first_sent-full :
      r.begin_record_pointer ≡ size → 0 < size → first_sent r.sent ≡ record_of size given
  first_sent-full e z =
      let whole : cut ≡ r.begin_record =
        take-all r.begin_record_pointer r.begin_record (omega (arith, d.sized, e)) in
      let n : length cut ≡ size = omega (arith, length-cut, e) in
      let front : take size given ≡ r.begin_record =
        ap (λ bs. take size bs) d.split
        ∙ ap (λ n. take n (cut ++ d.rest)) (sym n)
        ∙ take-append cut d.rest
        ∙ whole in
      ap first_sent (d.sent_once z e)
      ∙ sym front
      ∙ sym (record_of-full z (omega (arith, length-given, e)))

  pub first_sent-record_of : first_sent r.sent ≡ record_of size given
  first_sent-record_of = elim filled_or_lacking [
    | full e ↦ elim (Bool-cases (ltb 0 size)) [
      | inl h ↦ let z : 0 < size = ground arith in first_sent-full e z
      | inr h ↦ let z : size ≡ 0 = ground arith in rw (h) (ap first_sent (d.never_sent z))
    ]
    | lacking h e ↦
        ap first_sent (d.unsent h)
        ∙ sym (record_of-short (omega (arith, length-given, ap length e)))
  ]

-- Two ways to cut writes, after which the bytes that they report as written are the same: what the
-- pipe has got is the same, and so are what WaitAndClose returns and the commands that it issues.
pub writes-same_bytes :
    {W S : Type 0} (pipe : Pipe W) (opts : ReceiveOpts) (w : W) (r : ReceiveStream W)
    (bufs bufs' : List Bytes) (kernel : Kernel S Others) (p : Platform) (name : Bytes) (fd : ℕ)
    (s : S)
    → receive opts w ≡ some r
    → (writes pipe bufs r).0 ≡ (writes pipe bufs' r).0
    → (pipe.received (writes pipe bufs r).1.w ≡ pipe.received (writes pipe bufs' r).1.w)
      × wait_and_close kernel p name opts fd (writes pipe bufs r).1 s
        ≡ wait_and_close kernel p name opts fd (writes pipe bufs' r).1 s
unfolding wait_and_close
writes-same_bytes pipe opts w r bufs bufs' kernel p name fd s new same =
    let size = record_size opts in
    let start = pipe.received w in
    let given = (writes pipe bufs r).0 in
    let given' = (writes pipe bufs' r).0 in
    let last = (writes pipe bufs r).1 in
    let last' = (writes pipe bufs' r).1 in
    let d = writes-Delivered_new pipe opts w r bufs new in
    let d' = writes-Delivered_new pipe opts w r bufs' new in
    let sent : first_sent last.sent ≡ first_sent last'.sent =
      first_sent-record_of pipe size start given last d
      ∙ ap (record_of size) same
      ∙ sym (first_sent-record_of pipe size start given' last' d') in
    (
      received-given pipe size start given last d
          ∙ ap (λ bs. start ++ drop size bs) same
          ∙ sym (received-given pipe size start given' last' d'),
      ap (λ bs. receive_call kernel p name opts fd bs s) sent,
    )
