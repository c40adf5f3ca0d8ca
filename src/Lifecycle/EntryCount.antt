-- ===== src/Lifecycle/EntryCount.antt =====
-- trade-lifecycle/confirmed-entry-count.ts: how many trades of a strategy were opened on a UTC day.
pub mod Laws
use trading_intelligence.Common.{
  ℕ, suc, ◌+◌, ◌-◌, ◌%◌, String, Bool, true, false, ◌&&◌, List, [], ◌∷◌, Option, none, some, ◌==◌,
  if◌then◌else◌, ltb, leb, Result, ok, err,
}
use trading_intelligence.Common.Time.{Timestamp, iso, date_parse}
use trading_intelligence.Lifecycle.Errors.{LifecycleError, missing_opened_at, unparseable_opened_at}
use trading_intelligence.Lifecycle.Record.{TradeLifecycleRecord}
use trading_intelligence.Lifecycle.Status.{includes, ever_reached_open_statuses}

pub record ConfirmedEntryCountRangeScope : Type 0 where
  pub strategy_id : String
  pub start_inclusive : Timestamp
  pub end_exclusive : Timestamp

abbrev pub day_ms : ℕ
day_ms = 86_400_000

-- `Date.UTC` of the year, month and day of `now` is the last multiple of a day's milliseconds: UTC
-- days have no leap seconds in JavaScript, and `now` is after 1970.
unfoldable pub utc_day_boundaries : ℕ → Timestamp × Timestamp
utc_day_boundaries now =
    let day_start_ms = now - now % day_ms in (iso day_start_ms, iso (day_start_ms + day_ms))

-- `openedMs >= startMs && openedMs < endMs`, false where a boundary does not parse.
unfoldable pub in_window : ConfirmedEntryCountRangeScope → ℕ → Bool
in_window scope ms = elim (date_parse scope.start_inclusive) [
  | none ↦ false
  | some start ↦ elim (date_parse scope.end_exclusive) [
    | none ↦ false
    | some end ↦ leb start ms && ltb ms end
  ]
]

module _ {Num : Type 0} where
  -- One round of the loop: what it adds to the count, or the error that it throws.
  unfoldable pub entry_of :
      ConfirmedEntryCountRangeScope → TradeLifecycleRecord Num → Result (LifecycleError Num) ℕ
  unfolding in_window includes ever_reached_open_statuses
  entry_of scope r =
      if r.strategy_id == scope.strategy_id
      then elim r.opened_at [
        | none ↦
            if includes ever_reached_open_statuses r.status
            then err (missing_opened_at r.id)
            else ok 0
        | some at ↦ elim (date_parse at) [
          | none ↦ err (unparseable_opened_at r.id)
          | some ms ↦ ok (if in_window scope ms then 1 else 0)
        ]
      ]
      else ok 0

  abbrev count_on :
      (ℕ → Result (LifecycleError Num) ℕ)
      → ℕ
      → Result (LifecycleError Num) ℕ
      → Result (LifecycleError Num) ℕ
  count_on rest count (ok n) = rest (count + n)
  count_on rest count (err e) = err e

  count_from :
      ConfirmedEntryCountRangeScope
      → ℕ
      → List (TradeLifecycleRecord Num)
      → Result (LifecycleError Num) ℕ
  unfolding entry_of
  count_from scope count [] = ok count
  count_from scope count (r ∷ rs) = count_on (λ n. count_from scope n rs) count (entry_of scope r)

  unfoldable pub count_confirmed_entries_for_utc_day_from_records :
      List (TradeLifecycleRecord Num)
      → ConfirmedEntryCountRangeScope
      → Result (LifecycleError Num) ℕ
  unfolding count_from
  count_confirmed_entries_for_utc_day_from_records records scope = count_from scope 0 records

  unfoldable pub count_confirmed_entries_for_utc_day :
      List (TradeLifecycleRecord Num) → ℕ → String → Result (LifecycleError Num) ℕ
  unfolding utc_day_boundaries count_confirmed_entries_for_utc_day_from_records
  count_confirmed_entries_for_utc_day records now strategy_id =
      let (start, end) = utc_day_boundaries now in
      count_confirmed_entries_for_utc_day_from_records records
        (record { strategy_id = strategy_id; start_inclusive = start; end_exclusive = end })
