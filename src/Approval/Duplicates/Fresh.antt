-- ===== src/Approval/Duplicates/Fresh.antt =====
-- What the check of trade-approval/duplicate-prevention.ts finds, and what its answer is good for.
use trading_intelligence.Common.{
  String, Bool, true, false, ◌&&◌, ◌||◌, ◌≡◌, refl, sym, ap, ap₂, ◌∙◌, List, [], ◌∷◌, Option, none,
  some, arith, ◌==◌, filter, find, any, is_set, eq_iff, ok,
}
use trading_intelligence.Common.Dict.{has, set, values}
use trading_intelligence.Common.Int.{ℤ}
use trading_intelligence.Common.Time.{Timestamp}
use trading_intelligence.Approval.Candidates.{
  TradeCandidateStatus, TradeCandidate, Repository, pending, approved, is_status,
}
use trading_intelligence.Approval.Duplicates.{
  DuplicateEntryCheckResult, not_duplicate, duplicate, pending_buy, approved_buy, in_flight,
  text_matches, status_matches, is_buy, insert, sort, list_candidates, of_entry, in_slot,
  in_flight_statuses, check_for_duplicate_entry,
}
use trading_intelligence.Lifecycle.Record.{TradeLifecycleRecord}
use trading_intelligence.Lifecycle.Status.{active_strategy_instrument_statuses}
use trading_intelligence.Lifecycle.Store.{
  Store, list_active_lifecycle_records, other_than, same_text, same_slot, holds_slot, slot_clash,
  active_clash, create,
}

module _ {A : Type 0} where
  find-filter :
      (p q : A → Bool) (xs : List A) → is_set (find p (filter q xs)) ≡ any (λ x. q x && p x) xs
  find-filter p q [] = refl
  find-filter p q (x ∷ xs) = ground (arith, find-filter p q xs)

  filter-filter :
      (p q : A → Bool) (xs : List A) → filter p (filter q xs) ≡ filter (λ x. q x && p x) xs
  filter-filter p q [] = refl
  filter-filter p q (x ∷ xs) = ground (arith, filter-filter p q xs)

  any_same : (p q : A → Bool) (xs : List A) → ((x : A) → p x ≡ q x) → any p xs ≡ any q xs
  any_same p q [] h = refl
  any_same p q (x ∷ xs) h = ground (arith, h x, any_same p q xs h)

  find_self : (p : A → Bool) (xs : List A) → is_set (find p (filter p xs)) ≡ any p xs
  find_self p [] = refl
  find_self p (x ∷ xs) = ground (arith, find_self p xs)

  find_nothing :
      (p q : A → Bool) (xs : List A)
      → ((x : A) → p x ≡ true → q x ≡ true)
      → any q xs ≡ false
      → find p xs ≡ none
  find_nothing p q [] h e = refl
  find_nothing p q (x ∷ xs) h e = ground (arith, h x, find_nothing p q xs h)

abbrev pub is_duplicate : DuplicateEntryCheckResult → Bool
is_duplicate not_duplicate = false
is_duplicate (duplicate reason) = true

-- A BUY candidate with the status, for the strategy and the instrument.
abbrev pub awaits :
    {Num : Type 0} → TradeCandidateStatus → String → String → TradeCandidate Num → Bool
awaits status strategy_id instrument c =
    (is_status c.status status && (c.input.strategy_id == strategy_id))
    && ((c.input.instrument == instrument) && is_buy c.input.side)

last_false : (a b c : Bool) → a || (b || c) ≡ false → c ≡ false
last_false a b c h = ground arith

answer :
    {Num : Type 0} (a b : Option (TradeCandidate Num)) (r : Option (TradeLifecycleRecord Num))
    → is_duplicate (elim a [
      | some c ↦ duplicate (pending_buy c.id)
      | none ↦ elim b [
        | some c ↦ duplicate (approved_buy c.id)
        | none ↦ elim r [ some r ↦ duplicate (in_flight r.id r.status) | none ↦ not_duplicate ]
      ]
    ])
      ≡ is_set a || (is_set b || is_set r)
answer (some a) b r = refl
answer none (some b) r = refl
answer none none (some r) = refl
answer none none none = refl

find-in_slot :
    {Num : Type 0} (strategy_id instrument : String) (records : Store Num)
    → is_set (
        find
          (in_slot strategy_id instrument)
          (list_active_lifecycle_records strategy_id instrument in_flight_statuses records))
      ≡ any (in_slot strategy_id instrument) (values records)
unfolding list_active_lifecycle_records in_slot
find-in_slot strategy_id instrument records =
    find_self (in_slot strategy_id instrument) (values records)

module _ {Num : Type 0} (locale_compare : Timestamp → Timestamp → ℤ) where
  any-insert :
      (p : TradeCandidate Num → Bool) (c : TradeCandidate Num) (ds : List (TradeCandidate Num))
      → any p (insert locale_compare c ds) ≡ p c || any p ds
  unfolding insert
  any-insert p c [] = refl
  any-insert p c (d ∷ ds) = ground (arith, any-insert p c ds)

  any-sort :
      (p : TradeCandidate Num → Bool) (cs : List (TradeCandidate Num))
      → any p (sort locale_compare cs) ≡ any p cs
  unfolding sort
  any-sort p [] = refl
  any-sort p (c ∷ cs) = ground (arith, any-insert p c (sort locale_compare cs), any-sort p cs)

  find-list_candidates :
      (status : TradeCandidateStatus) (strategy_id instrument : String) (repo : Repository Num)
      → (strategy_id == "") ≡ false
      → (instrument == "") ≡ false
      → is_set (
          find
            (λ c. is_buy c.input.side)
            (list_candidates locale_compare (of_entry status strategy_id instrument) repo))
        ≡ any (awaits status strategy_id instrument) (values repo.rows)
  unfolding list_candidates text_matches status_matches
  find-list_candidates status strategy_id instrument repo named traded =
      ap (λ cs. is_set (find buys cs))
        (filter-filter of_instrument of_strategy (filter of_status all_candidates)
          ∙ filter-filter (λ c. of_strategy c && of_instrument c) of_status all_candidates)
      ∙ find-filter buys (λ c. of_status c && (of_strategy c && of_instrument c)) all_candidates
      ∙ any-sort (λ c. (of_status c && (of_strategy c && of_instrument c)) && buys c)
          (values repo.rows)
      ∙ any_same (λ c. (of_status c && (of_strategy c && of_instrument c)) && buys c)
          (awaits status strategy_id instrument) (values repo.rows) (λ c. ground arith)
    where
      buys : TradeCandidate Num → Bool
      buys c = is_buy c.input.side

      all_candidates : List (TradeCandidate Num)
      all_candidates = sort locale_compare (values repo.rows)

      of_status : TradeCandidate Num → Bool
      of_status c = status_matches (some status) c.status

      of_strategy : TradeCandidate Num → Bool
      of_strategy c = text_matches (some strategy_id) c.input.strategy_id

      of_instrument : TradeCandidate Num → Bool
      of_instrument c = text_matches (some instrument) c.input.instrument

  -- For a strategy and an instrument with names, the check reports a duplicate exactly if a PENDING or
  -- an APPROVED BUY candidate of theirs is in the repository, or a record of theirs in one of the
  -- in-flight statuses is in the store.
  pub is_duplicate-check_for_duplicate_entry :
      (strategy_id instrument : String) (repo : Repository Num) (records : Store Num)
      → (strategy_id == "") ≡ false
      → (instrument == "") ≡ false
      → is_duplicate (check_for_duplicate_entry locale_compare strategy_id instrument repo records)
        ≡ any (awaits pending strategy_id instrument) (values repo.rows)
          || (any (awaits approved strategy_id instrument) (values repo.rows)
              || any (in_slot strategy_id instrument) (values records))
  unfolding check_for_duplicate_entry
  is_duplicate-check_for_duplicate_entry strategy_id instrument repo records named traded =
      answer
        (find (λ c. is_buy c.input.side)
          (list_candidates locale_compare (of_entry pending strategy_id instrument) repo))
        (find (λ c. is_buy c.input.side)
          (list_candidates locale_compare (of_entry approved strategy_id instrument) repo))
        (find (in_slot strategy_id instrument)
          (list_active_lifecycle_records strategy_id instrument in_flight_statuses records))
      ∙ ap₂ ◌||◌ (find-list_candidates pending strategy_id instrument repo named traded) (
          ap₂ ◌||◌ (find-list_candidates approved strategy_id instrument repo named traded)
            (find-in_slot strategy_id instrument records))

module _ {Num : Type 0} where
  slot_clash-none :
      (r : TradeLifecycleRecord Num) (strategy_id instrument : String) (records : Store Num)
      → r.strategy_id ≡ strategy_id
      → r.symbol ≡ instrument
      → any (in_slot strategy_id instrument) (values records) ≡ false
      → slot_clash records r none ≡ none
  unfolding slot_clash other_than same_text same_slot holds_slot in_slot in_flight_statuses
      active_strategy_instrument_statuses
  slot_clash-none r strategy_id instrument records s i h =
      find_nothing (λ s. other_than none s && (same_slot s r && holds_slot s))
        (in_slot strategy_id instrument) (values records)
        (λ x t. ground (
          arith,
          eq_iff x.strategy_id r.strategy_id,
          eq_iff x.strategy_id strategy_id,
          eq_iff x.symbol r.symbol,
          eq_iff x.symbol instrument,
        ))
        h

  active_clash-none :
      (r : TradeLifecycleRecord Num) (records : Store Num)
      → r.broker_position_id ≡ none
      → slot_clash records r none ≡ none
      → active_clash records r none ≡ none
  unfolding active_clash
  active_clash-none r records new free = rw (new, free) ground arith

  -- After a check that finds no duplicate, a new record of the strategy and the instrument, with no
  -- broker position yet and an id that the store does not have, is stored.
  pub create-after_check :
      (locale_compare : Timestamp → Timestamp → ℤ) (r : TradeLifecycleRecord Num)
      (strategy_id instrument : String) (repo : Repository Num) (records : Store Num)
      → (strategy_id == "") ≡ false
      → (instrument == "") ≡ false
      → r.strategy_id ≡ strategy_id
      → r.symbol ≡ instrument
      → r.broker_position_id ≡ none
      → has r.id records ≡ false
      → check_for_duplicate_entry locale_compare strategy_id instrument repo records ≡ not_duplicate
      → create r records ≡ ok (set r.id r records)
  unfolding create
  create-after_check locale_compare r strategy_id instrument repo records named traded s i new
        absent free =
      rw
        (
          absent,
          active_clash-none r records new (
              slot_clash-none r strategy_id instrument records s i (
                last_false (any (awaits pending strategy_id instrument) (values repo.rows))
                  (any (awaits approved strategy_id instrument) (values repo.rows))
                  (any (in_slot strategy_id instrument) (values records))
                  (sym (
                      is_duplicate-check_for_duplicate_entry locale_compare strategy_id instrument
                        repo records named traded)
                    ∙ ap is_duplicate free))),
        )
        refl
