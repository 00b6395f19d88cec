-- ===== src/Ioctl/Retries.antt =====
-- ioctl/ioctl.go: the rounds of NvlistIoctl.
use go_zfs.Base.{
  ℕ, zero, suc, ◌*◌, ◌^◌, ◌≤◌, ◌<◌, ◌≡◌, refl, sym, ap, ◌∙◌, true, false, Bool, List, [], ◌∷◌,
  Option, some, none, Bytes, length, take, length-replicate, lt→leb, replicate, map, leb, ◌==◌,
  if◌then◌else◌, Bool-cases, inl, inr, arith,
}
use native.Mathlib.Nat.{pow-suc, mul_comm, mul_assoc}
use mathlib.Core.Path.{subst}
use go_zfs.Result.{gives, rejects, panics}
use go_zfs.Result
use go_zfs.Value.{Value}
use go_zfs.Decoder.Cells.{Cell}
use go_zfs.Decoder.Targets.{unmarshal_into}
use go_zfs.Decoder.Safety.Targets.{EndsUnlessMisfit, unmarshal_into-EndsUnlessMisfit}
use go_zfs.Ioctl.{
  Cmd, Answer, Ending, Run, done, errno, buffer_too_big, out_of_fuel, enomem, result_ending, source,
  marshal_optional, unmarshal_response, Kernel, private_cmd, add_call, call_loop, nvlist_ioctl,
}

-- The sizes of the destination buffer, from `len` on.
unfoldable pub sizes : ℕ → ℕ → List ℕ
sizes zero len = []
sizes (suc rounds) len = len ∷ sizes rounds (len * 8)

unfoldable pub is_out_of_fuel : Ending → Bool
is_out_of_fuel out_of_fuel = true
is_out_of_fuel _ = false

Ends-result_ending :
    {A : Type 0} (r : Result.Result A) (f : A → Ending)
    → EndsUnlessMisfit r
    → ((a : A) → is_out_of_fuel (f a) ≡ false)
    → is_out_of_fuel (result_ending r f) ≡ false
unfolding is_out_of_fuel
Ends-result_ending _ f (gives {a} h) k = k a
Ends-result_ending _ f rejects k = refl
Ends-result_ending _ f (panics h) k = refl

unmarshal_response-ends :
    (response : Option Cell) (dst : Bytes)
    → is_out_of_fuel (unmarshal_response response dst) ≡ false
unfolding unmarshal_response is_out_of_fuel
unmarshal_response-ends none dst = refl
unmarshal_response-ends (some c) dst =
    Ends-result_ending (unmarshal_into dst c) (λ c'. done (some c'))
      (unmarshal_into-EndsUnlessMisfit dst c) λ _. refl

grown : (len n : ℕ) → len * 8 ^ suc n ≡ len * 8 * 8 ^ n
grown len n = rw (pow-suc 8 n, mul_comm (8 ^ n) 8) (sym (mul_assoc len 8 (8 ^ n)))

-- In that many further rounds the buffer grows to `need` bytes, and it is below the limit before.
Reaches : ℕ → ℕ → ℕ → Type 0
Reaches need zero len = need ≤ len
Reaches need (suc rounds) len = (len < 16 * 1024 * 1024) × Reaches need rounds (len * 8)

module _ {S R : Type 0} (kernel : Kernel S R) (ioctl : ℕ) (name : Bytes) (cmd : Cmd R)
    (response : Option Cell) (src conf : Option Bytes) where
  -- The command of the round with a buffer of `len` bytes.
  abbrev pub of_size : ℕ → Cmd R
  of_size len = private_cmd name cmd response src conf len

  -- It ends, and the kernel was given the caller's command with the sizes in turn.
  abbrev pub Rounds : ℕ → ℕ → Run S R → Type 0
  Rounds rounds len run =
      (is_out_of_fuel run.ending ≡ false)
      × (run.calls ≡ map of_size (take (length run.calls) (sizes rounds len)))

  abbrev pub answer : ℕ → S → Answer S R
  answer len s = kernel ioctl (of_size len) (replicate len 0) s

  -- An answer of the kernel to the caller's command with a buffer of at least `need` bytes is what the
  -- function returns.
  unfoldable pub Answers : ℕ → Run S R → Type 0
  Answers need run =
      (len : ℕ) × (s : S) × (need ≤ len)
      × (run.ending ≡ unmarshal_response response (answer len s).dst)
      × (run.cmd ≡ (answer len s).cmd)
      × (run.state ≡ (answer len s).state)

  module _ (config : Option Value) (marshals_config : marshal_optional config ≡ source conf) where
    abbrev loop : ℕ → ℕ → S → Run S R
    loop fuel len s = call_loop kernel ioctl name cmd src response config fuel len s

    -- What the function makes of an answer that is not ENOMEM.
    abbrev answered : ℕ → Answer S R → Run S R
    answered len a = record {
      ending = if a.errno == 0 then unmarshal_response response a.dst else errno a.errno;
      cmd = a.cmd;
      state = a.state;
      calls = of_size len ∷ [];
    }

    pub loop-answered :
        (fuel len : ℕ) (s : S)
        → ((answer len s).errno == enomem) ≡ false
        → loop (suc fuel) len s ≡ answered len (answer len s)
    unfolding call_loop
    loop-answered fuel len s e = rw (marshals_config, call_loop, e)

    pub loop-too_big :
        (fuel len : ℕ) (s : S)
        → ((answer len s).errno == enomem) ≡ true
        → leb (16 * 1024 * 1024) len ≡ true
        → loop (suc fuel) len s ≡ record {
          ending = buffer_too_big;
          cmd = cmd;
          state = (answer len s).state;
          calls = of_size len ∷ [];
        }
    unfolding call_loop
    loop-too_big fuel len s e b = rw (marshals_config, call_loop, e, b)

    pub loop-again :
        (fuel len : ℕ) (s : S)
        → ((answer len s).errno == enomem) ≡ true
        → leb (16 * 1024 * 1024) len ≡ false
        → loop (suc fuel) len s ≡ add_call (of_size len) (loop fuel (len * 8) (answer len s).state)
    unfolding call_loop
    loop-again fuel len s e b = rw (marshals_config, call_loop, e, b)

    ending_of-answered :
        (a : Answer S R)
        → is_out_of_fuel (if a.errno == 0 then unmarshal_response response a.dst else errno a.errno)
          ≡ false
    unfolding is_out_of_fuel
    ending_of-answered a = elim (Bool-cases (a.errno == 0)) [
      | inl e ↦ rw e (unmarshal_response-ends response a.dst)
      | inr e ↦ rw e
    ]

    -- `next` is the round after one that fails for want of memory.
    Rounds-loop :
        (rounds len : ℕ) (s : S)
        → (leb (16 * 1024 * 1024) len ≡ false
            → Rounds
                (suc rounds)
                len
                (add_call (of_size len) (loop rounds (len * 8) (answer len s).state)))
        → Rounds (suc rounds) len (loop (suc rounds) len s)
    unfolding is_out_of_fuel sizes
    Rounds-loop rounds len s next = elim (Bool-cases ((answer len s).errno == enomem)) [
      | inr e ↦
          subst (λ run. Rounds (suc rounds) len run) (sym (loop-answered rounds len s e))
            (ending_of-answered (answer len s), refl)
      | inl e ↦ elim (Bool-cases (leb (16 * 1024 * 1024) len)) [
        | inl b ↦
            subst (λ run. Rounds (suc rounds) len run) (sym (loop-too_big rounds len s e b))
              (refl, refl)
        | inr b ↦
            subst (λ run. Rounds (suc rounds) len run) (sym (loop-again rounds len s e b)) (next b)
      ]
    ]

    call_loop-Rounds :
        (rounds len : ℕ) (s : S)
        → 16 * 1024 * 1024 ≤ len * 8 ^ rounds
        → Rounds (suc rounds) len (loop (suc rounds) len s)
    unfolding sizes
    call_loop-Rounds zero len s h = Rounds-loop zero len s λ small. absurd (ground arith)
    call_loop-Rounds (suc n) len s h =
        let (ends, prefix) =
          call_loop-Rounds n (len * 8) (answer len s).state (rw (grown len n) at h) in
        Rounds-loop (suc n) len s λ small. (ends, ap (λ cs. of_size len ∷ cs) prefix)

    module _ (need : ℕ)
        (asks : (i : ℕ) (c : Cmd R) (dst : Bytes) (s : S)
          → length dst < need
          → (kernel i c dst s).errno ≡ enomem)
        (serves : (i : ℕ) (c : Cmd R) (dst : Bytes) (s : S)
          → need ≤ length dst
          → (kernel i c dst s).errno ≡ 0) where
      loop-served : (fuel len : ℕ) (s : S) → need ≤ len → Answers need (loop (suc fuel) len s)
      unfolding Answers
      loop-served fuel len s h =
          let n : length (replicate len 0) ≡ len = length-replicate {A = ℕ} len 0 in
          let z = serves ioctl (of_size len) (replicate len 0) s (omega (arith, n)) in
          let e : ((answer len s).errno == enomem) ≡ false = rw z in
          let run = loop-answered fuel len s e in
          (len, s, h, ap (λ r. r.ending) run ∙ rw z, ap (λ r. r.cmd) run, ap (λ r. r.state) run)

      call_loop-Answers :
          (rounds len : ℕ) (s : S)
          → Reaches need rounds len
          → Answers need (loop (suc rounds) len s)
      unfolding Reaches Answers
      call_loop-Answers zero len s h = loop-served zero len s h
      call_loop-Answers (suc n) len s (small, h) = elim (Bool-cases (leb need len)) [
        | inl enough ↦ loop-served (suc n) len s (ground arith)
        | inr more ↦
            let n' : length (replicate len 0) ≡ len = length-replicate {A = ℕ} len 0 in
            let l : length (replicate len 0) < need = ground arith in
            let z = asks ioctl (of_size len) (replicate len 0) s l in
            let e : ((answer len s).errno == enomem) ≡ true = rw z in
            let run = loop-again (suc n) len s e (lt→leb (16 * 1024 * 1024) len small) in
            let (m, t, k, r1, r2, r3) = call_loop-Answers n (len * 8) (answer len s).state h in
            (
              m,
              t,
              k,
              ap (λ r. r.ending) run ∙ r1,
              ap (λ r. r.cmd) run ∙ r2,
              ap (λ r. r.state) run ∙ r3,
            )
      ]

module _ {S R : Type 0} where
  pub nvlist_ioctl-call_loop :
      (kernel : Kernel S R) (ioctl : ℕ) (name : Bytes) (cmd : Cmd R) (request : Option Value)
      (response : Option Cell) (config : Option Value) (s : S) (src : Option Bytes)
      → marshal_optional request ≡ source src
      → nvlist_ioctl kernel ioctl name cmd request response config s
        ≡ call_loop kernel ioctl name cmd src response config 5 (8 * 1024) s
  unfolding nvlist_ioctl
  nvlist_ioctl-call_loop kernel ioctl name cmd request response config s src e =
      rw (e, nvlist_ioctl)

  -- For every kernel, whenever the request and the configuration can be marshalled: NvlistIoctl ends,
  -- after at most five system calls, and these are given the caller's command as it was before the
  -- first one, with destination buffers of 8 KiB, 64 KiB, 512 KiB, 4 MiB and 32 MiB in turn.
  pub nvlist_ioctl-Rounds :
      (kernel : Kernel S R) (ioctl : ℕ) (name : Bytes) (cmd : Cmd R) (request : Option Value)
      (response : Option Cell) (config : Option Value) (s : S) (src conf : Option Bytes)
      → marshal_optional request ≡ source src
      → marshal_optional config ≡ source conf
      → Rounds kernel ioctl name cmd response src conf 5
          (8 * 1024)
          (nvlist_ioctl kernel ioctl name cmd request response config s)
  nvlist_ioctl-Rounds kernel ioctl name cmd request response config s src conf e f =
      rw (nvlist_ioctl-call_loop kernel ioctl name cmd request response config s src e) (
        call_loop-Rounds kernel ioctl name cmd response src conf config f 4 (8 * 1024) s
          (omega arith))

  -- A kernel that answers ENOMEM until the buffer has the bytes that it needs, at most 32 MiB, and
  -- succeeds from then on, is called until it succeeds: the function returns what its answer holds.
  pub nvlist_ioctl-Answers :
      (kernel : Kernel S R) (ioctl : ℕ) (name : Bytes) (cmd : Cmd R) (request : Option Value)
      (response : Option Cell) (config : Option Value) (s : S) (src conf : Option Bytes)
      → marshal_optional request ≡ source src
      → marshal_optional config ≡ source conf
      → (need : ℕ) → need ≤ 32 * 1024 * 1024
      → ((i : ℕ) (c : Cmd R) (dst : Bytes) (s : S)
          → length dst < need
          → (kernel i c dst s).errno ≡ enomem)
      → ((i : ℕ) (c : Cmd R) (dst : Bytes) (s : S)
          → need ≤ length dst
          → (kernel i c dst s).errno ≡ 0)
      → Answers kernel ioctl name cmd response src conf need
          (nvlist_ioctl kernel ioctl name cmd request response config s)
  unfolding Reaches
  nvlist_ioctl-Answers kernel ioctl name cmd request response config s src conf e f need small asks
        serves =
      rw (nvlist_ioctl-call_loop kernel ioctl name cmd request response config s src e) (
        call_loop-Answers kernel ioctl name cmd response src conf config f need asks serves 4
          (8 * 1024) s (omega arith, (omega arith, (omega arith, (omega arith, omega arith)))))
