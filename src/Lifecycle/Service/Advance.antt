-- ===== src/Lifecycle/Service/Advance.antt =====
-- What a method of the service does to the records that are in the store: none is lost, and a status
-- changes only along the table of transitions.
use trading_intelligence.Common.{
  ◌≡◌, refl, sym, subst, ◌∙◌, ◌&&◌, arith, String, Option, some, none, ok, err, Result, ◌==◌,
  eq_iff, inl, inr, Result-cases, Bool-cases, get_or_else,
}
use trading_intelligence.Common.Dict.{get, has, get-set}
use trading_intelligence.Common.Numbers.{Numbers}
use trading_intelligence.Common.Time.{iso}
use trading_intelligence.Lifecycle.Calculations.{ExcursionValues, update_excursion_values}
use trading_intelligence.Lifecycle.Errors.{LifecycleError}
use trading_intelligence.Lifecycle.Record.{TradeLifecycleRecord, CreateFromDecisionInput}
use trading_intelligence.Lifecycle.Status.{TradeLifecycleStatus, includes, open_statuses}
use trading_intelligence.Lifecycle.Status.Paths.{Moves, here, next}
use trading_intelligence.Lifecycle.Store.{Store, create, update}
use trading_intelligence.Lifecycle.Store.Invariant.{create_inv, update_inv}
use trading_intelligence.Lifecycle.World.{World, Env}
use trading_intelligence.Lifecycle.Service.{create_from_decision, new_record, audit}
use trading_intelligence.Lifecycle.Service.Closing.{
  update_excursion, excursion_to, excursion_if_priced,
}
use trading_intelligence.Lifecycle.Service.Announced.{Ends}
use trading_intelligence.Lifecycle.Service.Calls.{Call, call, target, Opening, call-Ends}

pub Moves-trans : {s t u : TradeLifecycleStatus} → Moves s t → Moves t u → Moves s u
Moves-trans p here = p
Moves-trans p (next q step) = next (Moves-trans p q) step

module _ {Num : Type 0} where
  -- Each record is still there, in a status to which valid transitions lead from the one it had.
  abbrev pub Advances : Store Num → Store Num → Type 0
  Advances m m' =
      (id : String) (r : TradeLifecycleRecord Num)
      → get id m ≡ some r
      → (r' : TradeLifecycleRecord Num) × (get id m' ≡ some r') × Moves r.status r'.status

  pub Advances-refl : (m : Store Num) → Advances m m
  Advances-refl m id r at = (r, at, here)

  create-Advances :
      (r : TradeLifecycleRecord Num) (m m' : Store Num) → create r m ≡ ok m' → Advances m m'
  unfolding has
  create-Advances r m m' e id s at =
      let (fresh, _, same) = create_inv r m m' e in
      (
        s,
        subst (λ x. get id x ≡ some s) same
            (get-set r.id id r m ∙ elim (Bool-cases (r.id == id)) [
              | inl own ↦ absurd (ground (arith, eq_iff r.id id))
              | inr other ↦ rw other at
            ]),
        here,
      )

  update-Advances :
      (r r' : TradeLifecycleRecord Num) (m m' : Store Num)
      → get r.id m ≡ some r
      → r'.id ≡ r.id
      → Moves r.status r'.status
      → update r' m ≡ ok m'
      → Advances m m'
  update-Advances r r' m m' stored same_id path e id s at =
      let (_, _, same) = update_inv r' m m' e in
      elim (Bool-cases (r'.id == id)) [
        | inl own ↦
            let row : r ≡ s = cc (stored, at, same_id, (eq_iff r'.id id).0 own) in
            (
              r',
              subst (λ x. get id x ≡ some r') same (get-set r'.id id r' m ∙ rw own refl),
              subst (λ x. Moves x.status r'.status) row path,
            )
        | inr other ↦
            (s, subst (λ x. get id x ≡ some s) same (get-set r'.id id r' m ∙ rw other at), here)
      ]

module _ {Num S : Type 0} ⦃num : Numbers Num⦄ (env : Env) where
  pub call-Advances :
      (r : TradeLifecycleRecord Num) (c : Call Num) (w : World Num S)
      → get r.id w.store ≡ some r
      → Advances w.store (call env r c w).1.store
  call-Advances r c w stored = go (call env r c w) (call-Ends env r c w)
    where
      go :
          (out : Result (LifecycleError Num) (TradeLifecycleRecord Num) × World Num S)
          → Ends r (target c) (Opening r c) w out
          → Advances w.store out.1.store
      go (ok r', w') (same, at_target, moves, _, announced) =
          update-Advances r r' w.store w'.store stored same
            (subst (λ s. Moves r.status s) (sym at_target) (next here moves)) announced.stored
      go (err e, w') (same, _) = subst (Advances w.store) (sym same) (Advances-refl w.store)

  pub create_from_decision-Advances :
      (input : CreateFromDecisionInput Num) (w : World Num S)
      → Advances w.store (create_from_decision env input w).1.store
  unfolding create_from_decision audit
  create_from_decision-Advances input w = go (create r w.store) refl
    where
      r : TradeLifecycleRecord Num
      r = new_record input (env.new_id w.ids_drawn) (iso (env.clock w.clock_reads))

      go :
          (x : Result (LifecycleError Num) (Store Num))
          → create r w.store ≡ x
          → Advances w.store (create_from_decision env input w).1.store
      go (ok m) e = rw e (create-Advances r w.store m e)
      go (err f) e = rw e (Advances-refl w.store)

  excursion_to-Advances :
      (r : TradeLifecycleRecord Num) (price : Num) (previous found : ExcursionValues Num)
      (w : World Num S)
      → get r.id w.store ≡ some r
      → Advances w.store (excursion_to env r price previous found w).1.store
  unfolding excursion_to audit
  excursion_to-Advances r price previous found w stored =
      let updated : TradeLifecycleRecord Num = record r {
        maximum_favourable_excursion = some found.maximum_favourable_excursion;
        maximum_adverse_excursion = some found.maximum_adverse_excursion;
        updated_at = iso (env.clock w.clock_reads);
      } in
      elim (Bool-cases (
        num.eq found.maximum_favourable_excursion previous.maximum_favourable_excursion
        && num.eq found.maximum_adverse_excursion previous.maximum_adverse_excursion)) [
          | inl unchanged ↦ rw unchanged (Advances-refl w.store)
          | inr changed ↦ elim (Result-cases (update updated w.store)) [
            | inl (m, e) ↦ rw (changed, e) (update-Advances r updated w.store m stored refl here e)
            | inr (f, e) ↦ rw (changed, e) (Advances-refl w.store)
          ]
        ]

  excursion_if_priced-Advances :
      (r : TradeLifecycleRecord Num) (price : Num) (entry : Option Num) (w : World Num S)
      → get r.id w.store ≡ some r
      → Advances w.store (excursion_if_priced env r price entry w).1.store
  unfolding excursion_if_priced
  excursion_if_priced-Advances r price none w stored = Advances-refl w.store
  excursion_if_priced-Advances r price (some entry) w stored =
      let previous : ExcursionValues Num = record {
        maximum_favourable_excursion = get_or_else r.maximum_favourable_excursion (num.lit 0);
        maximum_adverse_excursion = get_or_else r.maximum_adverse_excursion (num.lit 0);
      } in
      elim (Result-cases
        (update_excursion_values r.sizing_mode r.side entry price r.quantity previous)) [
          | inl (found, e) ↦ rw e (excursion_to-Advances r price previous found w stored)
          | inr (f, e) ↦ rw e (Advances-refl w.store)
        ]

  pub update_excursion-Advances :
      (r : TradeLifecycleRecord Num) (price : Num) (w : World Num S)
      → get r.id w.store ≡ some r
      → Advances w.store (update_excursion env r price w).1.store
  unfolding update_excursion
  update_excursion-Advances r price w stored = elim (Bool-cases (includes open_statuses r.status)) [
    | inl live ↦ rw live (excursion_if_priced-Advances r price r.entry_price w stored)
    | inr gone ↦ rw gone (Advances-refl w.store)
  ]
