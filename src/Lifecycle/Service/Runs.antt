-- ===== src/Lifecycle/Service/Runs.antt =====
-- What the service makes of a store that starts empty: the runs of its methods, in any order, each
-- on a record that is in the store.
use trading_intelligence.Common.{
  ◌&&◌, get_or_else, Bool, true, false, ◌≡◌, refl, sym, subst, arith, Option, some, none, ok, err,
  Result, All, inl, inr, ◌⊎◌, Result-cases, Bool-cases,
}
use trading_intelligence.Common.Dict.{values, All-set}
use trading_intelligence.Common.Numbers.{Numbers}
use trading_intelligence.Common.Time.{Timestamp, iso}
use trading_intelligence.Lifecycle.EntryCount.Laws.{Dates, IsDated}
use trading_intelligence.Lifecycle.Calculations.{ExcursionValues, update_excursion_values}
use trading_intelligence.Lifecycle.Errors.{LifecycleError}
use trading_intelligence.Lifecycle.Record.{TradeLifecycleRecord, CreateFromDecisionInput}
use trading_intelligence.Lifecycle.Status.{
  TradeLifecycleStatus, decision_created, open_status, can_move, includes,
  ever_reached_open_statuses, open_statuses,
}
use trading_intelligence.Lifecycle.Status.Paths.{Moves, here, next}
use trading_intelligence.Lifecycle.Store.{Store, create, update}
use trading_intelligence.Lifecycle.Store.Invariant.{
  IsUnique, create_inv, update_inv, create-IsUnique, update-IsUnique,
}
use trading_intelligence.Lifecycle.World.{World, Env}
use trading_intelligence.Lifecycle.Service.{create_from_decision, new_record, audit}
use trading_intelligence.Lifecycle.Service.Closing.{
  update_excursion, excursion_to, excursion_if_priced,
}
use trading_intelligence.Lifecycle.Service.Announced.{Ends, parses}
use trading_intelligence.Lifecycle.Service.Calls.{
  Call, risk_rejects, approves, submits, requests_close, opens, fails_execution, fails_close,
  closes, call, target, Opening, is_dated, call-Ends,
}

abbrev pub is_timely : {Num : Type 0} → Call Num → Bool
is_timely (opens input) = parses input.opened_at
is_timely c = true

-- Dates along a call.
dated_of : (at : Option Timestamp) (s : TradeLifecycleStatus) → is_dated at ≡ true → Dates at s
dated_of none s h = absurd (ground arith)
dated_of (some t) s h = h

Dates-kept :
    (at at' : Option Timestamp) (s t : TradeLifecycleStatus)
    → at' ≡ at
    → Dates at s
    → can_move s t ≡ true
    → (includes ever_reached_open_statuses t ≡ false)
      ⊎ (includes ever_reached_open_statuses s ≡ true)
    → Dates at' t
Dates-kept (some at) at' s t e d m h = rw e d
Dates-kept none at' s t e d m (inl never) = rw e never
Dates-kept none at' s t e d m (inr before) = absurd (ground arith)

module _ {Num : Type 0} where
  -- The opening time fits the status, and the status is one that the table leads to.
  abbrev pub Fine : TradeLifecycleRecord Num → Type 0
  Fine r = IsDated r × Moves decision_created r.status

  pub record IsServed (m : Store Num) : Type 0 where
    pub unique : IsUnique m
    pub fine : All Fine (values m)

  pub IsServed-create :
      (r : TradeLifecycleRecord Num) (m m' : Store Num)
      → create r m ≡ ok m'
      → Fine r
      → IsServed m
      → IsServed m'
  IsServed-create r m m' e f s =
      let (_, _, same) = create_inv r m m' e in
      record {
        unique = create-IsUnique r m m' e s.unique;
        fine = subst (λ x. All Fine (values x)) same (All-set Fine r.id r m f s.fine);
      }

  pub IsServed-update :
      (r : TradeLifecycleRecord Num) (m m' : Store Num)
      → update r m ≡ ok m'
      → Fine r
      → IsServed m
      → IsServed m'
  IsServed-update r m m' e f s =
      let (_, _, same) = update_inv r m m' e in
      record {
        unique = update-IsUnique r m m' e s.unique;
        fine = subst (λ x. All Fine (values x)) same (All-set Fine r.id r m f s.fine);
      }

  call-Dates :
      (r : TradeLifecycleRecord Num) (c : Call Num) (at : Option Timestamp)
      → is_timely c ≡ true
      → can_move r.status (target c) ≡ true
      → Opening r c at
      → IsDated r
      → Dates at (target c)
  unfolding target can_move ever_reached_open_statuses
  call-Dates r (opens input) at timely moves opened dated = dated_of at open_status (opened timely)
  call-Dates r (risk_rejects d) at timely moves same dated =
      Dates-kept r.opened_at at r.status _ same dated moves (inl refl)
  call-Dates r (approves d) at timely moves same dated =
      Dates-kept r.opened_at at r.status _ same dated moves (inl refl)
  call-Dates r submits at timely moves same dated =
      Dates-kept r.opened_at at r.status _ same dated moves (inl refl)
  call-Dates r (fails_execution e) at timely moves same dated =
      Dates-kept r.opened_at at r.status _ same dated moves (inl refl)
  call-Dates r requests_close at timely moves same dated =
      Dates-kept r.opened_at at r.status _ same dated moves (inr (ground arith))
  call-Dates r (fails_close e) at timely moves same dated =
      Dates-kept r.opened_at at r.status _ same dated moves (inr (ground arith))
  call-Dates r (closes e) at timely moves same dated =
      Dates-kept r.opened_at at r.status _ same dated moves (inr (ground arith))

  Fine-call :
      (r r' : TradeLifecycleRecord Num) (c : Call Num)
      → is_timely c ≡ true
      → r'.status ≡ target c
      → can_move r.status (target c) ≡ true
      → Opening r c r'.opened_at
      → Fine r
      → Fine r'
  Fine-call r r' c timely at_target moves opened (dated, path) = (
    subst (λ s. Dates r'.opened_at s) (sym at_target)
        (call-Dates r c r'.opened_at timely moves opened dated),
    subst (λ s. Moves decision_created s) (sym at_target) (next path moves),
  )

module _ {Num S : Type 0} ⦃num : Numbers Num⦄ (env : Env) where
  pub call-IsServed :
      (r : TradeLifecycleRecord Num) (c : Call Num) (w : World Num S)
      → is_timely c ≡ true
      → Fine r
      → IsServed w.store
      → IsServed (call env r c w).1.store
  call-IsServed r c w timely fine served = go (call env r c w) (call-Ends env r c w)
    where
      go :
          (out : Result (LifecycleError Num) (TradeLifecycleRecord Num) × World Num S)
          → Ends r (target c) (Opening r c) w out
          → IsServed out.1.store
      go (ok r', w') (_, at_target, moves, opened, announced) =
          IsServed-update r' w.store w'.store announced.stored
            (Fine-call r r' c timely at_target moves opened fine) served
      go (err e, w') (same, _) = subst IsServed (sym same) served

  pub create-IsServed :
      (input : CreateFromDecisionInput Num) (w : World Num S)
      → IsServed w.store
      → IsServed (create_from_decision env input w).1.store
  unfolding create_from_decision audit new_record ever_reached_open_statuses
  create-IsServed input w served = go (create r w.store) refl
    where
      r : TradeLifecycleRecord Num
      r = new_record input (env.new_id w.ids_drawn) (iso (env.clock w.clock_reads))

      go :
          (x : Result (LifecycleError Num) (Store Num))
          → create r w.store ≡ x
          → IsServed (create_from_decision env input w).1.store
      go (ok m) e = rw e (IsServed-create r w.store m e (refl, here) served)
      go (err f) e = rw e served

  excursion_to-IsServed :
      (r : TradeLifecycleRecord Num) (price : Num) (previous found : ExcursionValues Num)
      (w : World Num S)
      → Fine r
      → IsServed w.store
      → IsServed (excursion_to env r price previous found w).1.store
  unfolding excursion_to audit
  excursion_to-IsServed r price previous found w fine served =
      let updated : TradeLifecycleRecord Num = record r {
        maximum_favourable_excursion = some found.maximum_favourable_excursion;
        maximum_adverse_excursion = some found.maximum_adverse_excursion;
        updated_at = iso (env.clock w.clock_reads);
      } in
      elim (Bool-cases (
        num.eq found.maximum_favourable_excursion previous.maximum_favourable_excursion
        && num.eq found.maximum_adverse_excursion previous.maximum_adverse_excursion)) [
          | inl unchanged ↦ rw unchanged served
          | inr changed ↦ elim (Result-cases (update updated w.store)) [
            | inl (m, e) ↦ rw (changed, e) (IsServed-update updated w.store m e fine served)
            | inr (f, e) ↦ rw (changed, e) served
          ]
        ]

  excursion_if_priced-IsServed :
      (r : TradeLifecycleRecord Num) (price : Num) (entry : Option Num) (w : World Num S)
      → Fine r
      → IsServed w.store
      → IsServed (excursion_if_priced env r price entry w).1.store
  unfolding excursion_if_priced
  excursion_if_priced-IsServed r price none w fine served = served
  excursion_if_priced-IsServed r price (some entry) w fine served =
      let previous : ExcursionValues Num = record {
        maximum_favourable_excursion = get_or_else r.maximum_favourable_excursion (num.lit 0);
        maximum_adverse_excursion = get_or_else r.maximum_adverse_excursion (num.lit 0);
      } in
      elim (Result-cases
        (update_excursion_values r.sizing_mode r.side entry price r.quantity previous)) [
          | inl (found, e) ↦ rw e (excursion_to-IsServed r price previous found w fine served)
          | inr (f, e) ↦ rw e served
        ]

  pub update_excursion-IsServed :
      (r : TradeLifecycleRecord Num) (price : Num) (w : World Num S)
      → Fine r
      → IsServed w.store
      → IsServed (update_excursion env r price w).1.store
  unfolding update_excursion
  update_excursion-IsServed r price w fine served =
      elim (Bool-cases (includes open_statuses r.status)) [
        | inl live ↦ rw live (excursion_if_priced-IsServed r price r.entry_price w fine served)
        | inr gone ↦ rw gone served
      ]
