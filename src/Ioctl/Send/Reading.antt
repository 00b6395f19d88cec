-- ===== src/Ioctl/Send/Reading.antt =====
-- ioctl/wrappers.go: what the reads of sendStream yield.
use mathlib.Core.Path.{subst}
use go_zfs.Base.{
  ℕ, zero, suc, ◌≡◌, ◌≢◌, refl, sym, ap, ◌∙◌, Bool, true, false, Bool-cases, inl, inr, List, [],
  ◌∷◌, ◌++◌, Option, some, none, Bytes, length, take, drop, ltb, if◌then◌else◌, arith,
}
use go_zfs.Ioctl.Wrappers.{Failure}
use go_zfs.Ioctl.Receive.Cuts.{append_assoc, length-nil}
use go_zfs.Ioctl.Send.{
  ReadEnd, ReadError, eof, other_error, SendError, read_failed, SendStream, Got, final_error,
  after_read, read, reads,
}

take++drop : (n : ℕ) (xs : Bytes) → take n xs ++ drop n xs ≡ xs
take++drop zero xs = refl
take++drop (suc n) [] = refl
take++drop (suc n) (x ∷ xs) = ap (x ∷◌) (take++drop n xs)

if_true : {A : Type 0} (b : Bool) (x y : A) → b ≡ true → (if b then x else y) ≡ x
if_true true x y e = refl
if_true false x y e = cc

if_false : {A : Type 0} (b : Bool) (x y : A) → b ≡ false → (if b then x else y) ≡ y
if_false true x y e = cc
if_false false x y e = refl

module _ {P : Type 0} (end : ReadEnd P) where
  -- What the stream is still to yield.
  abbrev pub pending : SendStream P → Bytes
  pending s = s.peek_buf ++ end.content s.r

  -- After the end nothing is left.
  pub record Sound (result : Option Failure) (s : SendStream P) : Type 0 where
    pub result_kept : s.result ≡ result
    pub nothing_left : s.is_eof ≡ true → pending s ≡ []
    pub truthful : s.is_eof ≡ true → s.last_error ≡ some (final_error result)

  -- A step that yields `bs` loses nothing, and an error that is not one of the pipe comes at the end,
  -- and is the error of the call, or `io.EOF` if that succeeded.
  pub record Yields (result : Option Failure) (before : Bytes) (a : Got P) : Type 0 where
    pub in_order : a.bs ++ pending a.stream ≡ before
    pub sound : Sound result a.stream
    pub at_end :
        (e : SendError)
        → a.error ≡ some e
        → e ≢ read_failed
        → (pending a.stream ≡ []) × (e ≡ final_error result)

  after_read-Yields :
      (result : Option Failure) (before bs : Bytes) (error : Option ReadError) (s : SendStream P)
      → s.is_eof ≡ false
      → s.result ≡ result
      → bs ++ pending s ≡ before
      → (error ≡ some eof → pending s ≡ [])
      → Yields result before (after_read bs error s)
  unfolding after_read
  after_read-Yields result before bs none s live kept order empty = record {
    in_order = order;
    sound = record { result_kept = kept; nothing_left = λ e. cc; truthful = λ e. cc };
    at_end = λ e h ne. cc;
  }
  after_read-Yields result before bs (some other_error) s live kept order empty = record {
    in_order = order;
    sound = record { result_kept = kept; nothing_left = λ e. cc; truthful = λ e. cc };
    at_end = λ e h ne. let same : read_failed ≡ e = cc in absurd (ne (sym same));
  }
  after_read-Yields result before bs (some eof) s live kept order empty = record {
    in_order = order;
    sound = record {
      result_kept = kept;
      nothing_left = λ e. empty refl;
      truthful = λ e. ap (λ r. some (final_error r)) kept;
    };
    at_end = λ e h ne.
        let same : final_error s.result ≡ e = cc in (empty refl, sym same ∙ ap final_error kept);
  }

  pub read-Yields :
      (result : Option Failure) (n : ℕ) (s : SendStream P)
      → Sound result s
      → Yields result (pending s) (read end n s)
  unfolding read
  read-Yields result n s d = elim (Bool-cases s.is_eof) [
    | inl e ↦ subst (Yields result (pending s)) (sym (if_true s.is_eof _ _ e)) (record {
      in_order = refl;
      sound = d;
      at_end = λ f h ne.
          let same : some f ≡ some (final_error result) = sym h ∙ d.truthful e in
          (d.nothing_left e, (let eq : f ≡ final_error result = cc in eq));
    })
    | inr e ↦ elim (Bool-cases (ltb 0 (length s.peek_buf))) [
      | inl l ↦
          subst (Yields result (pending s))
            (sym (if_false s.is_eof _ _ e ∙ if_true (ltb 0 (length s.peek_buf)) _ _ l))
            (record {
              in_order =
                  sym (append_assoc (take n s.peek_buf) (drop n s.peek_buf) (end.content s.r))
                  ∙ ap (λ bs. bs ++ end.content s.r) (take++drop n s.peek_buf);
              sound = record {
                result_kept = d.result_kept;
                nothing_left = λ t. cc;
                truthful = λ t. cc;
              };
              at_end = λ f h ne. cc;
            })
      | inr l ↦
          let c = end.read n s.r in
          let none : s.peek_buf ≡ [] = length-nil s.peek_buf (ground arith) in
          let left : (q : P) → s.peek_buf ++ end.content q ≡ end.content q =
            λ q. ap (λ bs. bs ++ end.content q) none in
          subst (Yields result (pending s))
            (sym (if_false s.is_eof _ _ e ∙ if_false (ltb 0 (length s.peek_buf)) _ _ l))
            (after_read-Yields result (pending s) c.bs c.error (record s { r = c.next }) e
              d.result_kept
              (ap (λ bs. c.bs ++ bs) (left c.next) ∙ end.in_order n s.r ∙ sym (left s.r))
              λ h. left c.next ∙ end.at_end n s.r h)
    ]
  ]

  -- Reads lose nothing and keep the stream sound.
  pub reads-pending :
      (result : Option Failure) (ns : List ℕ) (s : SendStream P)
      → Sound result s
      → ((reads end ns s).0 ++ pending (reads end ns s).1 ≡ pending s)
        × Sound result (reads end ns s).1
  unfolding reads
  reads-pending result [] s d = (refl, d)
  reads-pending result (n ∷ ns) s d =
      let a = read end n s in
      let y = read-Yields result n s d in
      let (more, last) = reads-pending result ns a.stream y.sound in
      (
        append_assoc a.bs (reads end ns a.stream).0 (pending (reads end ns a.stream).1)
            ∙ ap (λ bs. a.bs ++ bs) more
            ∙ y.in_order,
        last,
      )
