-- ===== src/Common/Time.antt =====
-- Instants. A timestamp text is kept as what `Date.parse` makes of it: the milliseconds since the
-- epoch, or nothing that parses. `toISOString` of an instant is the text that parses to it.
use Prim.Native.Nat.{ℕ}
use Prim.Native.String.{String}
use mathlib.Core.Option.{Option, none, some}

pub data Timestamp : Type 0 where
  iso : ℕ → Timestamp
  unparseable : String → Timestamp

-- `Date.parse`, with `none` for NaN.
abbrev pub date_parse : Timestamp → Option ℕ
date_parse (iso ms) = some ms
date_parse (unparseable s) = none
