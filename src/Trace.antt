-- ===== src/Trace.antt =====
-- ioctl/trace/main.go: the tracer, with the traced process and the packages that it uses as parameters.
pub mod Shows
pub mod Runs
mod Tests
use go_zfs.Base.{
  ℕ, zero, suc, ◌≡◌, Bool, true, false, not, List, [], ◌∷◌, ◌++◌, Option, some, none, Bytes, length,
  ltb, ◌==◌, if◌then◌else◌,
}
use go_zfs.Result.{Result, ok, err, panic, out_of_fuel}
use go_zfs.Value.{bytes}
use go_zfs.Decoder.Cells.{Cell, any_cell, ptr_cell}
use go_zfs.Decoder.Targets.{unmarshal_into}

-- The registers of the traced process that the tracer looks at.
pub record Regs : Type 0 where
  pub orig_rax : ℕ
  pub rsi : ℕ
  pub rdx : ℕ

-- The traced process, with the calls of package syscall for it; `none` is an error. `peek` is
-- PtracePeekData: an address and a number of bytes.
pub record Tracee (T : Type 0) : Type 0 where
  pub get_regs : T → Option Regs
  pub peek : ℕ → ℕ → T → Option Bytes
  pub syscall : T → Option T
  pub wait : T → Option T

-- The fields of ioctl.Cmd that the tracer looks at, with their pointers.
pub record RawCmd : Type 0 where
  pub name : Bytes
  pub cookie : ℕ
  pub nvlist_src : ℕ
  pub nvlist_src_size : ℕ
  pub nvlist_dst : ℕ
  pub nvlist_dst_size : ℕ
  pub nvlist_conf : ℕ
  pub nvlist_conf_size : ℕ

-- struc.Sizeof and struc.UnpackWithOrder for a command, and json.MarshalIndent; `none` is an error.
pub record Packages : Type 0 where
  pub sizeof_cmd : Option ℕ
  pub unpack_cmd : Bytes → Option RawCmd
  pub json : Cell → Option Bytes

-- A line that is printed: the arguments, the error of the first wait, the number of an ioctl, the name
-- and the cookie of the command, and one of its nvlists as JSON behind its label.
pub data Line : Type 0 where
  run_line : List Bytes → Line
  wait_line : Line
  number_line : ℕ → Line
  name_line : Bytes → Line
  cookie_line : ℕ → Line
  json_line : Bytes → Bytes → Line
  rule_line : Line

-- `going` is not the end; `crashed` is a panic.
pub data Stage : Type 0 where
  going finished crashed out_of_steps : Stage

pub record Output : Type 0 where
  pub lines : List Line
  pub stage : Stage

abbrev pub printed : List Line → Output
printed lines = record { lines = lines; stage = going }

abbrev pub crash : Output
crash = record { lines = []; stage = crashed }

-- What is printed next, unless the tracer has ended.
unfoldable pub and_then : Output → Output → Output
and_then out next = elim out.stage [
  | going ↦ record { lines = out.lines ++ next.lines; stage = next.stage }
  | _ ↦ out
]

-- `delimitedBufToString` of package main.
unfoldable pub string_of_buf : Bytes → Bytes
string_of_buf [] = []
string_of_buf (b ∷ buf) = if b == 0 then [] else b ∷ string_of_buf buf

-- `SYS_IOCTL` on amd64.
abbrev pub sys_ioctl : ℕ
sys_ioctl = 16

-- `new(interface{})`
abbrev pub new_interface_target : Cell
new_interface_target = ptr_cell (any_cell none)

abbrev pub first_lines : List Bytes → Bool → Output
first_lines args wait_failed =
    printed (run_line args ∷ (if wait_failed then wait_line ∷ [] else []))

-- On to the next stop; `none` is a panic.
unfoldable pub next_stop : {T : Type 0} → Tracee T → T → Option T
next_stop tracee t = elim (tracee.syscall t) [ none ↦ none | some t ↦ tracee.wait t ]

module _ {T : Type 0} (tracee : Tracee T) (packages : Packages) where
  unfoldable pub show_json : Bytes → Result Cell → Output
  show_json label (ok c) = elim (packages.json c) [
    | none ↦ crash
    | some text ↦ printed (json_line label text ∷ [])
  ]
  show_json label (err e) = crash
  show_json label (panic p) = crash
  show_json label out_of_fuel = record { lines = []; stage = out_of_steps }

  -- An nvlist of the command, if the pointer to it is not null.
  unfoldable pub show_nvlist : Bytes → ℕ → ℕ → T → Output
  unfolding show_json unmarshal_into
  show_nvlist label pointer size t =
      if pointer == 0 then printed [] else elim (tracee.peek pointer size t) [
        | none ↦ crash
        | some raw ↦ show_json label (unmarshal_into raw new_interface_target)
      ]

  unfoldable pub show_cmd : RawCmd → T → Output
  unfolding show_nvlist and_then string_of_buf
  show_cmd cmd t =
      let name = string_of_buf cmd.name in
      and_then (printed (if ltb 0 (length name) then name_line name ∷ [] else [])) (
        and_then (printed (if cmd.cookie == 0 then [] else cookie_line cmd.cookie ∷ [])) (
          and_then (show_nvlist (bytes "src") cmd.nvlist_src cmd.nvlist_src_size t) (
            and_then (show_nvlist (bytes "dst") cmd.nvlist_dst cmd.nvlist_dst_size t) (
              and_then (show_nvlist (bytes "conf") cmd.nvlist_conf cmd.nvlist_conf_size t)
                (printed (rule_line ∷ []))))))

  -- The command that the third argument of the system call points to.
  unfoldable pub show_ioctl : Regs → T → Output
  unfolding show_cmd and_then
  show_ioctl regs t = elim (packages.sizeof_cmd) [
    | none ↦ crash
    | some size ↦ elim (tracee.peek regs.rdx size t) [
      | none ↦ crash
      | some raw ↦
          and_then (printed (number_line regs.rsi ∷ []))
            (elim (packages.unpack_cmd raw) [ none ↦ crash | some cmd ↦ show_cmd cmd t ])
    ]
  ]

  unfoldable pub show_call : Regs → T → Output
  unfolding show_ioctl
  show_call regs t = if regs.orig_rax == sys_ioctl then show_ioctl regs t else printed []

  -- The part of a round that looks at the process, at the exit of a system call.
  unfoldable pub look : Bool → T → Output
  unfolding show_call
  look false t = printed []
  look true t = elim (tracee.get_regs t) [
    | none ↦ record { lines = []; stage = finished }
    | some regs ↦ show_call regs t
  ]

  -- The loop, with a unit of fuel for each stop.
  unfoldable pub trace_loop : ℕ → Bool → T → Output
  unfolding look next_stop and_then
  trace_loop zero exit t = record { lines = []; stage = out_of_steps }
  trace_loop (suc fuel) exit t =
      and_then (look exit t)
        (elim (next_stop tracee t) [ none ↦ crash | some t ↦ trace_loop fuel (not exit) t ])

  -- `main`, with whether the first wait gives an error; the process stands at its first stop.
  unfoldable pub trace_main : ℕ → List Bytes → Bool → T → Output
  unfolding trace_loop and_then
  trace_main fuel args wait_failed t =
      and_then (first_lines args wait_failed) (trace_loop fuel true t)
