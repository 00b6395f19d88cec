-- ===== src/Decoder/Fill/Flat.antt =====
-- nvlist/decode.go: readPairs of a struct or of a typed map, on an nvlist without nvlists in it.
use go_zfs.Base.{Bytes}
use go_zfs.Result.{Result, ok, err, panic, out_of_fuel, IfOk}
use go_zfs.Format.{
  NvValue, NvList, flag, number, double, text, numbers, flags, texts, list, lists, end, pair,
}
use go_zfs.Decoder.Cells.{Composite}
use go_zfs.Decoder.Primitives.{IsPlain}
use go_zfs.Decoder.Fill.Into.{fill_value, Settled, SettledValue}

-- No value is an nvlist or an array of nvlists.
abbrev pub IsFlat : NvList → Type 0
IsFlat end = Unit {0}
IsFlat (pair name v l) = IsPlain v × IsFlat l

pub IsPlain-SettledValue :
    (comp : Composite) (name : Bytes) (v : NvValue) → IsPlain v → SettledValue comp name v
unfolding SettledValue
IsPlain-SettledValue comp name (list l) i = absurd i
IsPlain-SettledValue comp name (lists ls) i = absurd i
IsPlain-SettledValue comp name flag i = tt
IsPlain-SettledValue comp name (number k n) i = tt
IsPlain-SettledValue comp name (double n) i = tt
IsPlain-SettledValue comp name (text s) i = tt
IsPlain-SettledValue comp name (numbers k xs) i = tt
IsPlain-SettledValue comp name (flags bs) i = tt
IsPlain-SettledValue comp name (texts ss) i = tt

IfOk-all : (P : Composite → Type 0) (r : Result Composite) → ((c : Composite) → P c) → IfOk P r
IfOk-all P (ok c) h = h c
IfOk-all P (err e) h = tt
IfOk-all P (panic f) h = tt
IfOk-all P out_of_fuel h = tt

pub IsFlat-Settled : (l : NvList) (comp : Composite) → IsFlat l → Settled l comp
unfolding Settled
IsFlat-Settled end comp i = tt
IsFlat-Settled (pair name v l) comp (i, is) = (
  IsPlain-SettledValue comp name v i,
  IfOk-all (Settled l) (fill_value comp name v) (λ c. IsFlat-Settled l c is),
)
