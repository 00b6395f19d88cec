-- ===== src/Ioctl/Receive/Delivered.antt =====
-- ioctl/wrappers.go: where the bytes are that a stream of Receive was given, and the steps of Write.
use go_zfs.Base.{
  ℕ, ◌+◌, ◌-◌, ◌<◌, ◌≤◌, ◌≡◌, refl, ap, ◌∙◌, Bool-cases, inl, inr, [], ◌∷◌, ◌++◌, Option, Bytes,
  length, take, ltb, ◌==◌, arith, append-nil,
}
use go_zfs.Ioctl.Receive.{
  Pipe, ReceiveStream, StreamError, lacks, stored, send_if_full, store_record, take_record,
  begin_record_bytes,
}
use go_zfs.Ioctl.Receive.Cuts.{append_assoc, length-store_record, take-store_record, length-nil}

module _ {W : Type 0} (pipe : Pipe W) (size : ℕ) (start : Bytes) where
  -- The bytes `given` are in the begin record, up to its size, and then in the pipe, behind what was
  -- there. The begin record has been sent once if it is full, and not at all before.
  pub record Delivered (given : Bytes) (r : ReceiveStream W) : Type 0 where
    pub rest : Bytes
    pub sized : length r.begin_record ≡ size
    pub within : r.begin_record_pointer ≤ size
    pub in_pipe : pipe.received r.w ≡ start ++ rest
    pub split : given ≡ take r.begin_record_pointer r.begin_record ++ rest
    pub record_first : r.begin_record_pointer < size → rest ≡ []
    pub unsent : r.begin_record_pointer < size → r.sent ≡ []
    pub sent_once : 0 < size → r.begin_record_pointer ≡ size → r.sent ≡ r.begin_record ∷ []
    pub never_sent : size ≡ 0 → r.sent ≡ []

  stored-Delivered :
      (given bs : Bytes) (r : ReceiveStream W)
      → Delivered given r
      → r.begin_record_pointer < size
      → r.begin_record_pointer + length bs ≤ size
      → Delivered (given ++ bs) (send_if_full (stored bs r))
  stored-Delivered given bs r d lt le =
      let len : length (store_record bs r.begin_record_pointer r.begin_record) ≡ size =
        length-store_record bs r.begin_record_pointer r.begin_record ∙ d.sized in
      let prefix : take (r.begin_record_pointer + length bs)
            (store_record bs r.begin_record_pointer r.begin_record)
          ≡ take r.begin_record_pointer r.begin_record ++ bs =
        take-store_record bs r.begin_record_pointer r.begin_record (omega (arith, d.sized)) in
      let all : given ++ bs
          ≡ take (r.begin_record_pointer + length bs)
              (store_record bs r.begin_record_pointer r.begin_record)
            ++ [] =
        rw (
          prefix,
          append-nil (take r.begin_record_pointer r.begin_record ++ bs),
          d.split,
          d.record_first lt,
          append-nil (take r.begin_record_pointer r.begin_record),
        ) in
      let none : pipe.received r.w ≡ start ++ [] =
        d.in_pipe ∙ ap (λ xs. start ++ xs) (d.record_first lt) in
      elim (Bool-cases (lacks (stored bs r) == 0)) [
        | inl e ↦
            let full : r.begin_record_pointer + length bs ≡ size = ground arith in
            rw e (record {
              rest = [];
              sized = len;
              within = le;
              in_pipe = none;
              split = all;
              record_first = λ h. absurd (omega arith);
              unsent = λ h. absurd (omega arith);
              sent_once = λ _ _.
                  ap (λ xs. xs ++ store_record bs r.begin_record_pointer r.begin_record ∷ [])
                    (d.unsent lt);
              never_sent = λ h. absurd (omega arith);
            })
        | inr e ↦
            let more : r.begin_record_pointer + length bs < size = ground arith in
            rw e (record {
              rest = [];
              sized = len;
              within = le;
              in_pipe = none;
              split = all;
              record_first = λ h. refl;
              unsent = λ h. d.unsent lt;
              sent_once = λ _ h. absurd (omega arith);
              never_sent = λ h. absurd (omega arith);
            })
      ]

  pub take_record-Delivered :
      (given bs : Bytes) (r : ReceiveStream W)
      → Delivered given r
      → length bs ≤ size - r.begin_record_pointer
      → Delivered (given ++ bs) (take_record bs r)
  unfolding take_record
  take_record-Delivered given bs r d le = elim (Bool-cases (ltb 0 (lacks r))) [
    | inl e ↦
        let lt : r.begin_record_pointer < size = ground (arith, d.sized) in
        rw e (stored-Delivered given bs r d lt (omega arith))
    | inr e ↦
        let full : size - r.begin_record_pointer ≡ 0 = ground (arith, d.sized) in
        rw (e, length-nil bs (omega arith), append-nil given) d
  ]

  -- In the pipe the bytes follow those that are there.
  pub pipe-Delivered :
      (given buf : Bytes) (r : ReceiveStream W) (error : Option StreamError)
      → Delivered given r
      → r.begin_record_pointer ≡ size
      → Delivered
          (given ++ take (pipe.write buf r.w).count buf)
          (record r { w = (pipe.write buf r.w).next; last_error = error })
  pipe-Delivered given buf r error d full =
      let a = pipe.write buf r.w in
      record {
        rest = d.rest ++ take a.count buf;
        sized = d.sized;
        within = d.within;
        in_pipe =
            pipe.appended buf r.w
            ∙ ap (λ xs. xs ++ take a.count buf) d.in_pipe
            ∙ append_assoc start d.rest (take a.count buf);
        split =
            ap (λ xs. xs ++ take a.count buf) d.split
            ∙ append_assoc (take r.begin_record_pointer r.begin_record) d.rest (take a.count buf);
        record_first = λ h. absurd (omega arith);
        unsent = λ h. absurd (omega arith);
        sent_once = d.sent_once;
        never_sent = d.never_sent;
      }

  pub take_record-pointer :
      (given bs : Bytes) (r : ReceiveStream W)
      → Delivered given r
      → length bs ≤ size - r.begin_record_pointer
      → (take_record bs r).begin_record_pointer ≡ r.begin_record_pointer + length bs
  unfolding take_record
  take_record-pointer given bs r d le = elim (Bool-cases (ltb 0 (lacks r))) [
    | inl e ↦ elim (Bool-cases (lacks (stored bs r) == 0)) [ inl f ↦ rw (e, f) | inr f ↦ rw (e, f) ]
    | inr e ↦
        let full : size - r.begin_record_pointer ≡ 0 = ground (arith, d.sized) in
        let same : r.begin_record_pointer ≡ r.begin_record_pointer + length bs = omega arith in
        rw e same
  ]

  -- The begin record takes all, or as much as it lacks.
  pub begin_record_bytes-split :
      (given buf : Bytes) (r : ReceiveStream W)
      → Delivered given r
      → (begin_record_bytes buf r ≤ length buf)
        × (begin_record_bytes buf r ≤ size - r.begin_record_pointer)
        × (begin_record_bytes buf r < length buf
            → r.begin_record_pointer + begin_record_bytes buf r ≡ size)
  unfolding begin_record_bytes
  begin_record_bytes-split given buf r d = ground (arith, d.sized, d.within)
