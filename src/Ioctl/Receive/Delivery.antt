-- ===== src/Ioctl/Receive/Delivery.antt =====
-- ioctl/wrappers.go: where Write of ReceiveStream puts the bytes.
use mathlib.Core.Path.{subst}
use go_zfs.Base.{
  ℕ, ◌+◌, ◌-◌, ◌<◌, ◌≤◌, ◌≡◌, refl, sym, ap, ◌∙◌, Bool-cases, inl, inr, List, [], ◌∷◌, ◌++◌, Option,
  some, none, Bytes, length, take, drop, ◌==◌, if◌then◌else◌, arith, length-take_le, length-drop,
  append-nil, replicate, length-replicate,
}
use go_zfs.Ioctl.Receive.{
  Pipe, PipeError, epipe, other_error, ReceiveStream, ReceiveOpts, receive, StreamError, Accepted,
  take_record, begin_record_bytes, write_pipe, write, writes, stream_error,
}
use go_zfs.Ioctl.Receive.Cuts.{append_assoc, take-drop}
use go_zfs.Ioctl.Receive.Delivered.{
  Delivered, take_record-Delivered, pipe-Delivered, take_record-pointer, begin_record_bytes-split,
}

stream_error-none : (e : Option PipeError) → stream_error e ≡ none → e ≡ none
unfolding stream_error
stream_error-none none h = refl
stream_error-none (some epipe) h = cc
stream_error-none (some other_error) h = cc

module _ {W : Type 0} (pipe : Pipe W) (size : ℕ) (start : Bytes) where
  -- What a call of Write makes of the stream.
  abbrev pub Accepts : Bytes → Bytes → Accepted W → Type 0
  Accepts given buf a =
      Delivered pipe size start (given ++ take a.count buf) a.stream
      × (a.count ≤ length buf)
      × (a.error ≡ none → a.count ≡ length buf)

  write_pipe-Accepts :
      (given buf : Bytes) (k : ℕ) (r : ReceiveStream W)
      → Delivered pipe size start (given ++ take k buf) r
      → k ≤ length buf
      → (k < length buf → r.begin_record_pointer ≡ size)
      → Accepts given buf (write_pipe pipe buf k r)
  unfolding write_pipe
  write_pipe-Accepts given buf k r d le full = elim (Bool-cases (length buf - k == 0)) [
    | inl e ↦
        let same : k ≡ length buf = ground arith in
        rw e (
          subst (λ k. Delivered pipe size start (given ++ take k buf) r) same d,
          omega arith,
          λ _. refl,
        )
    | inr e ↦
        let more : k < length buf = ground arith in
        let a = pipe.write (drop k buf) r.w in
        let n = length-drop k buf in
        let two : (given ++ take k buf) ++ take a.count (drop k buf)
            ≡ given ++ take (a.count + k) buf =
          append_assoc given (take k buf) (take a.count (drop k buf))
          ∙ ap (λ xs. given ++ xs) (take-drop k a.count buf)
          ∙ ap (λ n. given ++ take n buf) (omega arith) in
        let d' =
          pipe-Delivered pipe size start (given ++ take k buf) (drop k buf) r (stream_error a.error)
            d (full more) in
        rw e (
          subst
              (λ bs.
                Delivered pipe size start bs
                  (record r { w = a.next; last_error = stream_error a.error }))
              two d',
          omega (arith, pipe.count_le (drop k buf) r.w, n),
          λ h. omega (arith, pipe.complete (drop k buf) r.w (stream_error-none a.error h), n),
        )
  ]

  failed-Accepts :
      (given buf : Bytes) (r : ReceiveStream W) (e : StreamError)
      → Delivered pipe size start given r
      → Accepts given buf (record { count = 0; error = some e; stream = r })
  failed-Accepts given buf r e d = (rw (append-nil given) d, omega arith, λ h. cc)

  write-Accepts :
      (given buf : Bytes) (r : ReceiveStream W)
      → Delivered pipe size start given r
      → (e : Option StreamError) → r.last_error ≡ e
      → Accepts given buf (write pipe buf r)
  unfolding write
  write-Accepts given buf r d (some e) h = rw (write, h) (failed-Accepts given buf r e d)
  write-Accepts given buf r d none h =
      let k = begin_record_bytes buf r in
      let (all, lacking, rest) = begin_record_bytes-split pipe size start given buf r d in
      let n : length (take k buf) ≡ k = length-take_le k buf all in
      let fits : length (take k buf) ≤ size - r.begin_record_pointer = omega arith in
      let p = take_record-pointer pipe size start given (take k buf) r d fits in
      rw (write, h)
        (write_pipe-Accepts given buf k (take_record (take k buf) r)
          (take_record-Delivered pipe size start given (take k buf) r d fits) all
          λ more. omega (arith, p, rest more))

  writes-Delivered :
      (bufs : List Bytes) (given : Bytes) (r : ReceiveStream W)
      → Delivered pipe size start given r
      → Delivered pipe size start (given ++ (writes pipe bufs r).0) (writes pipe bufs r).1
  unfolding writes
  writes-Delivered [] given r d = rw (append-nil given) d
  writes-Delivered (buf ∷ bufs) given r d =
      let a = write pipe buf r in
      let (d', _, _) = write-Accepts given buf r d r.last_error refl in
      let more = (writes pipe bufs a.stream).0 in
      subst (λ bs. Delivered pipe size start bs (writes pipe bufs a.stream).1)
        (append_assoc given (take a.count buf) more)
        (writes-Delivered bufs (given ++ take a.count buf) a.stream d')

-- The size of the begin record that the stream waits for.
abbrev pub record_size : ReceiveOpts → ℕ
record_size opts = if length opts.begin_record == 312 then 0 else 312

some-injective : {A : Type 0} (a b : A) → some a ≡ some b → a ≡ b
some-injective a b e = cc

new-Delivered :
    {W : Type 0} (pipe : Pipe W) (n : ℕ) (w : W)
    → Delivered pipe n (pipe.received w) [] (record {
      w = w;
      last_error = none;
      begin_record = replicate n 0;
      begin_record_pointer = 0;
      sent = [];
    })
new-Delivered pipe n w = record {
  rest = [];
  sized = length-replicate {A = ℕ} n 0;
  within = omega arith;
  in_pipe = sym (append-nil (pipe.received w));
  split = refl;
  record_first = λ _. refl;
  unsent = λ _. refl;
  sent_once = λ h e. absurd (omega arith);
  never_sent = λ _. refl;
}

-- However the writes to a stream that Receive returns are cut, and whether or not writing to the pipe
-- fails: the bytes that they report as written are, in their order, those in the begin record, up to
-- its size, and then those in the pipe. The begin record has been sent once if it is full, and not at
-- all before.
pub writes-Delivered_new :
    {W : Type 0} (pipe : Pipe W) (opts : ReceiveOpts) (w : W) (r : ReceiveStream W)
    (bufs : List Bytes)
    → receive opts w ≡ some r
    → Delivered pipe
        (record_size opts)
        (pipe.received w)
        (writes pipe bufs r).0
        (writes pipe bufs r).1
unfolding receive
writes-Delivered_new pipe opts w r bufs e =
    writes-Delivered pipe (record_size opts) (pipe.received w) bufs [] r new
  where
    new : Delivered pipe (record_size opts) (pipe.received w) [] r
    new = elim (Bool-cases (length opts.begin_record == 312)) [
      | inl g ↦ rw g (
          subst (Delivered pipe 0 (pipe.received w) []) (some-injective _ _ (rw g at e))
            (new-Delivered pipe 0 w))
      | inr g ↦ elim (Bool-cases (length opts.begin_record == 0)) [
        | inl z ↦ rw g (
            subst (Delivered pipe 312 (pipe.received w) []) (some-injective _ _ (rw (g, z) at e))
              (new-Delivered pipe 312 w))
        | inr z ↦ let t : none ≡ some r = rw (g, z) at e in cc
      ]
    ]
