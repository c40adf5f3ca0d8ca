-- ===== src/Lifecycle/EntryCount/Laws.antt =====
-- The count against its description.
use trading_intelligence.Common.{
  ℕ, ◌+◌, ◌/◌, String, Bool, true, false, ◌&&◌, ◌≡◌, refl, ap, ◌∙◌, arith, List, [], ◌∷◌, Option,
  none, some, ◌==◌, if◌then◌else◌, eqb, filter, length, Result, ok, err, is_ok, All, is_set,
}
use trading_intelligence.Common.Time.{Timestamp, iso, unparseable, date_parse}
use trading_intelligence.Lifecycle.Errors.{LifecycleError}
use trading_intelligence.Lifecycle.Record.{TradeLifecycleRecord}
use trading_intelligence.Lifecycle.Status.{
  TradeLifecycleStatus, includes, ever_reached_open_statuses,
}
use trading_intelligence.Lifecycle.EntryCount.{
  utc_day_boundaries, in_window, entry_of, count_from, count_confirmed_entries_for_utc_day, day_ms,
  count_on, ConfirmedEntryCountRangeScope,
}

-- The scope that `countConfirmedEntriesForUtcDay` makes.
abbrev day_scope : ℕ → String → ConfirmedEntryCountRangeScope
day_scope now strategy_id =
    let (start, end) = utc_day_boundaries now in
    record { strategy_id = strategy_id; start_inclusive = start; end_exclusive = end }

-- Its window holds exactly the instants of the same UTC day.
day_window :
    (now ms : ℕ) (strategy_id : String)
    → in_window (day_scope now strategy_id) ms ≡ eqb (ms / day_ms) (now / day_ms)
unfolding in_window utc_day_boundaries
day_window now ms strategy_id = ground arith

-- A status that proves that the trade was open comes with an opening time, and an opening time parses.
abbrev pub Dates : Option Timestamp → TradeLifecycleStatus → Type 0
Dates none status = includes ever_reached_open_statuses status ≡ false
Dates (some t) status = is_set (date_parse t) ≡ true

module _ {Num : Type 0} where
  abbrev pub IsDated : TradeLifecycleRecord Num → Type 0
  IsDated r = Dates r.opened_at r.status

  abbrev pub opened_on : ℕ → TradeLifecycleRecord Num → Bool
  opened_on now r = elim r.opened_at [
    | none ↦ false
    | some t ↦ elim (date_parse t) [ none ↦ false | some ms ↦ eqb (ms / day_ms) (now / day_ms) ]
  ]

  abbrev pub counts : ℕ → String → TradeLifecycleRecord Num → Bool
  counts now strategy_id r = (r.strategy_id == strategy_id) && opened_on now r

  entry_dated :
      (now : ℕ) (strategy_id : String) (r : TradeLifecycleRecord Num) (at : Option Timestamp)
      → r.opened_at ≡ at
      → ((r.strategy_id == strategy_id) ≡ true → IsDated r)
      → entry_of (day_scope now strategy_id) r ≡ ok (if counts now strategy_id r then 1 else 0)
  unfolding entry_of
  entry_dated now strategy_id r none e dated = ground arith
  entry_dated now strategy_id r (some (iso ms)) e dated =
      ground (arith, day_window now ms strategy_id)
  entry_dated now strategy_id r (some (unparseable t)) e dated = ground arith

  entry_ok :
      (now : ℕ) (strategy_id : String) (r : TradeLifecycleRecord Num) (at : Option Timestamp)
      → r.opened_at ≡ at
      → is_ok (entry_of (day_scope now strategy_id) r) ≡ true
      → (r.strategy_id == strategy_id) ≡ true
      → IsDated r
  unfolding entry_of
  entry_ok now strategy_id r none e fine own = rw e (ground arith)
  entry_ok now strategy_id r (some (iso ms)) e fine own = rw e refl
  entry_ok now strategy_id r (some (unparseable t)) e fine own = absurd (ground arith)

  length_lem :
      (b : Bool) (count : ℕ) (r : TradeLifecycleRecord Num) (rs : List (TradeLifecycleRecord Num))
      → count + (if b then 1 else 0) + length rs ≡ count + length (if b then r ∷ rs else rs)
  length_lem true count r rs = omega arith
  length_lem false count r rs = omega arith

  count_from-filter :
      (now : ℕ) (strategy_id : String) (count : ℕ) (rs : List (TradeLifecycleRecord Num))
      → All (λ r. (r.strategy_id == strategy_id) ≡ true → IsDated r) rs
      → count_from (day_scope now strategy_id) count rs
        ≡ ok (count + length (filter (counts now strategy_id) rs))
  unfolding count_from
  count_from-filter now strategy_id count [] dated = ap ok (omega arith)
  count_from-filter now strategy_id count (r ∷ rs) (here, dated) =
      rw (entry_dated now strategy_id r r.opened_at refl here) (
        count_from-filter now strategy_id (count + (if counts now strategy_id r then 1 else 0)) rs
          dated
        ∙ ap ok
            (length_lem (counts now strategy_id r) count r (filter (counts now strategy_id) rs)))

  count_from_ok :
      (now : ℕ) (strategy_id : String) (count : ℕ) (rs : List (TradeLifecycleRecord Num))
      → is_ok (count_from (day_scope now strategy_id) count rs) ≡ true
      → All (λ r. (r.strategy_id == strategy_id) ≡ true → IsDated r) rs
  unfolding count_from
  count_from_ok now strategy_id count [] fine = tt
  count_from_ok now strategy_id count (r ∷ rs) fine =
      go (λ n. count_from_ok now strategy_id n rs) (entry_of (day_scope now strategy_id) r) refl
        fine
    where
      go :
          ((n : ℕ)
            → is_ok (count_from (day_scope now strategy_id) n rs) ≡ true
            → All (λ r. (r.strategy_id == strategy_id) ≡ true → IsDated r) rs)
          → (x : Result (LifecycleError Num) ℕ) → entry_of (day_scope now strategy_id) r ≡ x
          → is_ok (count_on (λ n. count_from (day_scope now strategy_id) n rs) count x) ≡ true
          → All (λ r. (r.strategy_id == strategy_id) ≡ true → IsDated r) (r ∷ rs)
      go rest (ok n) e h =
          (entry_ok now strategy_id r r.opened_at refl (ap is_ok e), rest (count + n) h)
      go rest (err f) e h = cc

  -- If every record of the strategy whose status proves that it was open has an opening time, and
  -- every opening time parses, the count is the number of the strategy's records that were opened on
  -- the UTC day of `now`.
  pub count_confirmed_entries_exact :
      (rs : List (TradeLifecycleRecord Num)) (now : ℕ) (strategy_id : String)
      → All (λ r. (r.strategy_id == strategy_id) ≡ true → IsDated r) rs
      → count_confirmed_entries_for_utc_day rs now strategy_id
        ≡ ok (length (filter (counts now strategy_id) rs))
  unfolding count_confirmed_entries_for_utc_day
  count_confirmed_entries_exact rs now strategy_id dated =
      count_from-filter now strategy_id 0 rs dated ∙ ap ok (omega arith)

  -- It fails closed: a count is given only if all of the strategy's records are so dated.
  pub count_confirmed_entries_fails_closed :
      (rs : List (TradeLifecycleRecord Num)) (now : ℕ) (strategy_id : String)
      → is_ok (count_confirmed_entries_for_utc_day rs now strategy_id) ≡ true
      → All (λ r. (r.strategy_id == strategy_id) ≡ true → IsDated r) rs
  unfolding count_confirmed_entries_for_utc_day
  count_confirmed_entries_fails_closed rs now strategy_id fine =
      count_from_ok now strategy_id 0 rs fine
