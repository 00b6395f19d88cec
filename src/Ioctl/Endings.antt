-- ===== src/Ioctl/Endings.antt =====
-- ioctl/ioctl.go: how NvlistIoctl may end.
use go_zfs.Base.{
  ℕ, zero, suc, ◌*◌, ◌≡◌, refl, Bool-cases, inl, inr, Option, some, none, Bytes, leb, ◌==◌,
  replicate, if◌then◌else◌,
}
use go_zfs.Result.{Error, Fault}
use go_zfs.Result
use go_zfs.Value.{Value}
use go_zfs.Encoder.Pairs.{marshal}
use go_zfs.Decoder.Cells.{Cell}
use go_zfs.Ioctl.{
  Cmd, Kernel, Run, Ending, Marshalled, nvlist_error, nvlist_panic, errno, buffer_too_big,
  out_of_fuel, refused, source, enomem, marshal_optional, unmarshal_response, private_cmd,
  call_loop, nvlist_ioctl,
}
use go_zfs.Ioctl.Retries.{loop-answered, loop-too_big, loop-again}

-- What holds of every ending that does not look at a response, and of those that do.
pub record HoldsOfEndings (response : Option Cell) (P : Ending → Type 0) : Type 0 where
  pub fuel : P out_of_fuel
  pub too_big : P buffer_too_big
  pub errnos : (n : ℕ) → P (errno n)
  pub errors : (e : Error) → P (nvlist_error e)
  pub faults : (p : Fault) → P (nvlist_panic p)
  pub responses : (dst : Bytes) → P (unmarshal_response response dst)

module _ {response : Option Cell} {P : Ending → Type 0} (h : HoldsOfEndings response P) where
  OfMarshalled : Marshalled → Type 0
  OfMarshalled (source src) = Unit {0}
  OfMarshalled (refused e) = P e

  of_result-Holds :
      (m : Result.Result Bytes)
      → OfMarshalled (elim m [
        | Result.ok bs ↦ source (some bs)
        | Result.err e ↦ refused (nvlist_error e)
        | Result.panic p ↦ refused (nvlist_panic p)
        | Result.out_of_fuel ↦ refused out_of_fuel
      ])
  unfolding OfMarshalled
  of_result-Holds (Result.ok bs) = tt
  of_result-Holds (Result.err e) = h.errors e
  of_result-Holds (Result.panic p) = h.faults p
  of_result-Holds Result.out_of_fuel = h.fuel

  refused-Holds : (v : Option Value) → OfMarshalled (marshal_optional v)
  unfolding marshal_optional OfMarshalled
  refused-Holds none = tt
  refused-Holds (some v) = of_result-Holds (marshal v)

  answered-Holds :
      (n : ℕ) (dst : Bytes) → P (if n == 0 then unmarshal_response response dst else errno n)
  answered-Holds n dst = elim (Bool-cases (n == 0)) [
    | inl e ↦ rw e (h.responses dst)
    | inr e ↦ rw e (h.errnos n)
  ]

  module _ {S R : Type 0} (kernel : Kernel S R) (ioctl : ℕ) (name : Bytes) (cmd : Cmd R)
      (config : Option Value) where
    abbrev loop : Option Bytes → ℕ → ℕ → S → Run S R
    loop src fuel len s = call_loop kernel ioctl name cmd src response config fuel len s

    refused-loop :
        (src : Option Bytes) (fuel len : ℕ) (s : S) (e : Ending)
        → marshal_optional config ≡ refused e
        → P (loop src (suc fuel) len s).ending
    unfolding call_loop OfMarshalled
    refused-loop src fuel len s e c = rw (call_loop, c) (rw c at (refused-Holds config))

    source-loop :
        (src conf : Option Bytes)
        → marshal_optional config ≡ source conf
        → (fuel len : ℕ) (s : S) → P (loop src fuel len s).ending
    unfolding call_loop
    source-loop src conf c zero len s = h.fuel
    source-loop src conf c (suc fuel) len s =
        let a = kernel ioctl (private_cmd name cmd response src conf len) (replicate len 0) s in
        elim (Bool-cases (a.errno == enomem)) [
          | inr e ↦
              rw (loop-answered kernel ioctl name cmd response src conf config c fuel len s e)
                (answered-Holds a.errno a.dst)
          | inl e ↦ elim (Bool-cases (leb (16 * 1024 * 1024) len)) [
            | inl b ↦
                rw (loop-too_big kernel ioctl name cmd response src conf config c fuel len s e b)
                  h.too_big
            | inr b ↦
                rw (loop-again kernel ioctl name cmd response src conf config c fuel len s e b)
                  (source-loop src conf c fuel (len * 8) a.state)
          ]
        ]

    call_loop-Holds :
        (src : Option Bytes) (fuel len : ℕ) (s : S) (m : Marshalled)
        → marshal_optional config ≡ m
        → P (loop src fuel len s).ending
    unfolding call_loop
    call_loop-Holds src zero len s m c = h.fuel
    call_loop-Holds src (suc fuel) len s (refused e) c = refused-loop src fuel len s e c
    call_loop-Holds src (suc fuel) len s (source conf) c = source-loop src conf c (suc fuel) len s

    asked-Holds :
        (request : Option Value) (s : S) (m : Marshalled)
        → marshal_optional request ≡ m
        → P (nvlist_ioctl kernel ioctl name cmd request response config s).ending
    unfolding nvlist_ioctl OfMarshalled
    asked-Holds request s (refused e) c = rw (nvlist_ioctl, c) (rw c at (refused-Holds request))
    asked-Holds request s (source src) c =
        rw (nvlist_ioctl, c) (call_loop-Holds src 5 (8 * 1024) s (marshal_optional config) refl)

    pub nvlist_ioctl-Holds :
        (request : Option Value) (s : S)
        → P (nvlist_ioctl kernel ioctl name cmd request response config s).ending
    nvlist_ioctl-Holds request s = asked-Holds request s (marshal_optional request) refl
