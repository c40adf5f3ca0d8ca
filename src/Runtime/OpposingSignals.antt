-- ===== src/Runtime/OpposingSignals.antt =====
-- runtime/opposing-signal-stability.ts: the gate in front of an exit on an opposing signal.
pub mod Stability
use trading_intelligence.Common.{
  ℕ, suc, ◌+◌, ◌-◌, String, Bool, true, false, not, ◌&&◌, List, [], Option, some, none, ◌==◌,
  if◌then◌else◌, leb, ltb,
}
use trading_intelligence.Common.Int.{ℤ, pos, ◌-ℤ◌, leb_ℤ}
use trading_intelligence.Common.Dict.{Dict, get, set, delete}
use trading_intelligence.Common.Time.{Timestamp, date_parse}

pub record OpposingSignalStabilityConfig : Type 0 where
  pub min_hold_ms : ℕ
  pub required_consecutive_signals : ℕ

pub record OpposingSignalGateInput : Type 0 where
  pub position_id : String
  pub is_opposing_signal_triggered : Bool
  pub opened_at : Option Timestamp
  pub now : ℕ
  pub config : OpposingSignalStabilityConfig

pub data DeferralReason : Type 0 where
  min_hold_not_reached insufficient_confirmations : DeferralReason

pub record Deferral : Type 0 where
  pub consecutive_count : ℕ
  pub required_consecutive_signals : ℕ
  pub reason : DeferralReason
  pub held_ms : Option ℤ
  pub min_hold_ms : ℕ

pub data OpposingSignalGateResult : Type 0 where
  allowed : ℕ → OpposingSignalGateResult
  deferred : Deferral → OpposingSignalGateResult

pub record OpposingSignalStabilityTracker : Type 0 where
  pub consecutive_counts : Dict ℕ
  pub active_position_by_instrument : Dict String

abbrev pub new_tracker : OpposingSignalStabilityTracker
new_tracker = record { consecutive_counts = []; active_position_by_instrument = [] }

-- How long the position has been held, negative where the clock is behind; `none` for NaN.
unfoldable pub held_ms_of : OpposingSignalGateInput → Option ℤ
held_ms_of input = elim input.opened_at [
  | none ↦ none
  | some at ↦ elim (date_parse at) [ none ↦ none | some ms ↦ some (pos input.now -ℤ pos ms) ]
]

unfoldable pub min_hold_reached : OpposingSignalGateInput → Bool
unfolding held_ms_of
min_hold_reached input = elim (held_ms_of input) [
  | none ↦ false
  | some held ↦ leb_ℤ (pos input.config.min_hold_ms) held
]

unfoldable pub count_of : String → OpposingSignalStabilityTracker → ℕ
unfolding get
count_of id t = elim (get id t.consecutive_counts) [ none ↦ 0 | some n ↦ n ]

-- The answer once the count has been raised to `next_count`.
unfoldable pub gate : OpposingSignalGateInput → ℕ → OpposingSignalGateResult
unfolding min_hold_reached held_ms_of
gate input next_count =
    if not (min_hold_reached input)
    then deferred (record {
      consecutive_count = next_count;
      required_consecutive_signals = input.config.required_consecutive_signals;
      reason = min_hold_not_reached;
      held_ms = held_ms_of input;
      min_hold_ms = input.config.min_hold_ms;
    })
    else if ltb next_count input.config.required_consecutive_signals
    then deferred (record {
      consecutive_count = next_count;
      required_consecutive_signals = input.config.required_consecutive_signals;
      reason = insufficient_confirmations;
      held_ms = held_ms_of input;
      min_hold_ms = input.config.min_hold_ms;
    })
    else allowed next_count

unfoldable pub reset : String → OpposingSignalStabilityTracker → OpposingSignalStabilityTracker
unfolding delete
reset id t = record t { consecutive_counts = delete id t.consecutive_counts }

unfoldable pub evaluate :
    OpposingSignalGateInput
    → OpposingSignalStabilityTracker
    → Option OpposingSignalGateResult × OpposingSignalStabilityTracker
unfolding count_of gate set delete
evaluate input t =
    if not input.is_opposing_signal_triggered
    then (none, record t { consecutive_counts = delete input.position_id t.consecutive_counts })
    else (
      some (gate input (suc (count_of input.position_id t))),
      record t {
        consecutive_counts =
            set input.position_id (suc (count_of input.position_id t)) t.consecutive_counts;
      },
    )

-- Whether the current position is not the one given.
abbrev is_other : String → Option String → Bool
is_other previous none = true
is_other previous (some current) = not (previous == current)

forget_gone :
    Option String → Option String → OpposingSignalStabilityTracker → OpposingSignalStabilityTracker
unfolding delete
forget_gone none current t = t
forget_gone (some previous) current t =
    if is_other previous current
    then record t { consecutive_counts = delete previous t.consecutive_counts }
    else t

remember : String → Option String → OpposingSignalStabilityTracker → OpposingSignalStabilityTracker
unfolding set delete
remember instrument none t = record t {
  active_position_by_instrument = delete instrument t.active_position_by_instrument;
}
remember instrument (some id) t = record t {
  active_position_by_instrument = set instrument id t.active_position_by_instrument;
}

unfoldable pub sync_position :
    String → Option String → OpposingSignalStabilityTracker → OpposingSignalStabilityTracker
unfolding forget_gone remember get
sync_position instrument current t =
    remember instrument current
      (forget_gone (get instrument t.active_position_by_instrument) current t)
