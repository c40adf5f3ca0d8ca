-- ===== src/Market/Gaps.antt =====
-- market-data/candle-validation.ts: `isGapExplainedByMarketClosure`, the check of a gap between two
-- candles against the hours of the market.
pub mod Closed
use trading_intelligence.Common.{
  ℕ, zero, suc, ◌+◌, ◌-◌, ◌*◌, ◌/◌, Bool, true, false, Option, none, some, if◌then◌else◌, ltb,
}
use trading_intelligence.Common.Int.{ℤ, pos, negsuc, ◌+ℤ◌, ◌-ℤ◌, leb_ℤ, ltb_ℤ}
use trading_intelligence.Market.Hours.{MarketHoursPolicy}

pub data GapReason : Type 0 where
  malformed_timestamp exceeds_maximum_explainable_gap : GapReason
  exceeds_boundary_check_limit in_session_gap : GapReason

pub data GapClosureCheckResult : Type 0 where
  explained : GapClosureCheckResult
  unexplained : GapReason → GapClosureCheckResult

abbrev pub max_explainable_gap_ms : ℕ
max_explainable_gap_ms = 864000000

abbrev pub max_boundary_checks : ℕ
max_boundary_checks = 20000

-- `Math.ceil(gapMs / expectedIntervalMs)`, 0 where the gap is negative.
abbrev pub boundary_count : ℤ → ℕ → ℕ
boundary_count (pos gap) expected = (gap + expected - 1) / expected
boundary_count (negsuc gap) expected = 0

module _ (policy : MarketHoursPolicy) (expected : ℕ) (curr : ℤ) where
  -- The loop over the boundaries, on fuel: `none` where it has run out.
  unfoldable pub check_boundaries : ℕ → ℤ → Option GapClosureCheckResult
  check_boundaries zero boundary = if ltb_ℤ boundary curr then none else some explained
  check_boundaries (suc fuel) boundary =
      let rest = check_boundaries fuel (boundary +ℤ pos expected) in
      if ltb_ℤ boundary curr
      then if policy boundary then some (unexplained in_session_gap) else rest
      else some explained

unfoldable pub check_gap : MarketHoursPolicy → ℕ → ℤ → ℤ → Option GapClosureCheckResult
unfolding check_boundaries
check_gap policy expected prev curr =
    let gap = curr -ℤ prev in
    let count = boundary_count gap expected in
    let checked = check_boundaries policy expected curr count (prev +ℤ pos expected) in
    if ltb_ℤ (pos max_explainable_gap_ms) gap
    then some (unexplained exceeds_maximum_explainable_gap)
    else if ltb max_boundary_checks count
    then some (unexplained exceeds_boundary_check_limit)
    else checked

-- A timestamp that does not parse is `none`.
unfoldable pub is_gap_explained_by_market_closure :
    Option ℤ → Option ℤ → ℕ → MarketHoursPolicy → Option GapClosureCheckResult
unfolding check_gap
is_gap_explained_by_market_closure (some prev) (some curr) expected policy =
    check_gap policy expected prev curr
is_gap_explained_by_market_closure _ _ expected policy = some (unexplained malformed_timestamp)
