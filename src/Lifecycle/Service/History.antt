-- ===== src/Lifecycle/Service/History.antt =====
-- The runs of the service's methods from an empty store, in any order and with any of them throwing,
-- each on a record that is in the store.
use trading_intelligence.Common.{
  ℕ, ◌≡◌, sym, subst, true, String, List, [], ◌∷◌, ◌==◌, some, ok, length, filter, All,
}
use trading_intelligence.Common.Dict.{get, values, All-get}
use trading_intelligence.Common.Numbers.{Numbers}
use trading_intelligence.Lifecycle.EntryCount.{count_confirmed_entries_for_utc_day}
use trading_intelligence.Lifecycle.EntryCount.Laws.{IsDated, counts, count_confirmed_entries_exact}
use trading_intelligence.Lifecycle.Record.{TradeLifecycleRecord, CreateFromDecisionInput}
use trading_intelligence.Lifecycle.Store.Writes.{write_all, write_all-IsUnique}
use trading_intelligence.Lifecycle.World.{World, Env}
use trading_intelligence.Lifecycle.Service.{create_from_decision}
use trading_intelligence.Lifecycle.Service.Closing.{update_excursion}
use trading_intelligence.Lifecycle.Service.Calls.{Call, call}
use trading_intelligence.Lifecycle.Service.Runs.{
  is_timely, Fine, IsServed, call-IsServed, create-IsServed, update_excursion-IsServed,
}

-- The worlds that the service reaches from `w`; an opening time that a caller gives parses.
pub data Reaches {Num S : Type 0} ⦃num : Numbers Num⦄ (env : Env) (w : World Num S)
    : World Num S → Type 0 where
  started : Reaches env w w
  creates :
      {v : World Num S}
      → Reaches env w v
      → (input : CreateFromDecisionInput Num) → Reaches env w (create_from_decision env input v).1
  calls :
      {v : World Num S}
      → Reaches env w v
      → (id : String) (r : TradeLifecycleRecord Num) → get id v.store ≡ some r
      → (c : Call Num) → is_timely c ≡ true
      → Reaches env w (call env r c v).1
  marks :
      {v : World Num S}
      → Reaches env w v
      → (id : String) (r : TradeLifecycleRecord Num) → get id v.store ≡ some r
      → (price : Num) → Reaches env w (update_excursion env r price v).1

module _ {Num : Type 0} where
  empty-IsServed : IsServed {Num = Num} []
  unfolding write_all values
  empty-IsServed = record { unique = write_all-IsUnique []; fine = tt }

  All-IsDated :
      (rs : List (TradeLifecycleRecord Num)) (strategy_id : String)
      → All Fine rs
      → All (λ r. (r.strategy_id == strategy_id) ≡ true → IsDated r) rs
  All-IsDated [] strategy_id h = tt
  All-IsDated (r ∷ rs) strategy_id ((dated, _), h) = (λ _. dated, All-IsDated rs strategy_id h)

module _ {Num S : Type 0} ⦃num : Numbers Num⦄ (env : Env) where
  Reaches-IsServed : (w v : World Num S) → IsServed w.store → Reaches env w v → IsServed v.store
  Reaches-IsServed w v s started = s
  Reaches-IsServed w v s (creates {v = u} run input) =
      create-IsServed env input u (Reaches-IsServed w u s run)
  Reaches-IsServed w v s (calls {v = u} run id r found c timely) =
      let before = Reaches-IsServed w u s run in
      call-IsServed env r c u timely (All-get Fine id u.store r before.fine found) before
  Reaches-IsServed w v s (marks {v = u} run id r found price) =
      let before = Reaches-IsServed w u s run in
      update_excursion-IsServed env r price u (All-get Fine id u.store r before.fine found) before

  reached : (w v : World Num S) → w.store ≡ [] → Reaches env w v → IsServed v.store
  reached w v none_yet run = Reaches-IsServed w v (subst IsServed (sym none_yet) empty-IsServed) run

  -- After any run from an empty store, in which the opening times that callers give parse, the count of the day's
  -- confirmed entries does not throw, and is the number of the strategy's records in the store whose
  -- opening time falls on the UTC day of `now`.
  pub reached_count :
      (w v : World Num S)
      → w.store ≡ []
      → Reaches env w v
      → (now : ℕ) (strategy_id : String)
      → count_confirmed_entries_for_utc_day (values v.store) now strategy_id
        ≡ ok (length (filter (counts now strategy_id) (values v.store)))
  reached_count w v none_yet run now strategy_id =
      count_confirmed_entries_exact (values v.store) now strategy_id
        (All-IsDated (values v.store) strategy_id (reached w v none_yet run).fine)
