-- ===== src/Trace/Runs.antt =====
-- ioctl/trace/main.go: the loop over the stops of a process.
use go_zfs.Base.{
  ℕ, zero, suc, ◌*◌, ◌<◌, ◌≡◌, refl, ap, Bool, true, List, [], ◌∷◌, some, none, Bytes, length,
  arith,
}
use go_zfs.Trace.{
  Regs, Tracee, Packages, Output, finished, and_then, show_call, look, next_stop, first_lines,
  trace_loop, trace_main,
}

-- The stops at which the process has made a system call, as the kernel gives them: a stop at the entry
-- and one at the exit of each, until the process is gone.
pub data Stops {T : Type 0} (tracee : Tracee T) : T → List (Regs × T) → Type 0 where
  gone : {t : T} → tracee.get_regs t ≡ none → Stops tracee t []
  called :
      {t entry exit : T} {regs : Regs} {calls : List (Regs × T)}
      → tracee.get_regs t ≡ some regs
      → next_stop tracee t ≡ some entry
      → next_stop tracee entry ≡ some exit
      → Stops tracee exit calls
      → Stops tracee t ((regs, t) ∷ calls)

module _ {T : Type 0} (tracee : Tracee T) (packages : Packages) where
  -- What is printed of each call in turn, until the tracer panics.
  unfoldable pub show_calls : List (Regs × T) → Output
  unfolding show_call and_then
  show_calls [] = record { lines = []; stage = finished }
  show_calls ((regs, t) ∷ calls) = and_then (show_call tracee packages regs t) (show_calls calls)

  trace_loop-Stops :
      (t : T) (calls : List (Regs × T)) (fuel : ℕ)
      → length calls * 2 < fuel
      → Stops tracee t calls
      → trace_loop tracee packages fuel true t ≡ show_calls calls
  unfolding trace_loop look show_calls and_then
  trace_loop-Stops t [] zero h s = absurd (omega (arith, h))
  trace_loop-Stops t [] (suc fuel) h (gone e) = rw (trace_loop, look, e) refl
  trace_loop-Stops t (call ∷ calls) zero h s = absurd (omega (arith, h))
  trace_loop-Stops t (call ∷ calls) (suc zero) h s = absurd (omega (arith, h))
  trace_loop-Stops t (_ ∷ calls) (suc (suc fuel)) h (called {exit = exit} e e₁ e₂ s) =
      rw (trace_loop, look, e, e₁, e₂, trace_loop-Stops exit calls fuel (omega (arith, h)) s) refl

  -- For a process that makes a finite number of system calls, with a stop at the entry and one at the
  -- exit of each and no other, the tracer ends after at most two rounds for each: behind its first
  -- lines it prints, for each call in its order, what it shows of that call, until it is gone or
  -- showing a call panics.
  pub trace_main-Stops :
      (t : T) (calls : List (Regs × T)) (fuel : ℕ) (args : List Bytes) (wait_failed : Bool)
      → length calls * 2 < fuel
      → Stops tracee t calls
      → trace_main tracee packages fuel args wait_failed t
        ≡ and_then (first_lines args wait_failed) (show_calls calls)
  unfolding trace_main
  trace_main-Stops t calls fuel args wait_failed h s =
      ap (and_then (first_lines args wait_failed)) (trace_loop-Stops t calls fuel h s)
