-- ===== src/Lifecycle/Service/Announced.antt =====
-- What a method of the service leaves behind, whichever way it ends.
use trading_intelligence.Common.{
  Bool, true, List, ℕ, suc, some, none, ◌≡◌, refl, Result, ok, err, Option, ◌>>=◌, ◌>>◌, return,
  Bool-cases, inl, inr, is_set, Result-cases,
}
use trading_intelligence.Domain.Audit.{AuditEvent, AuditEventType, record_event}
use trading_intelligence.Lifecycle.Errors.{LifecycleError}
use trading_intelligence.Lifecycle.Record.{TradeLifecycleRecord}
use trading_intelligence.Lifecycle.Status.{TradeLifecycleStatus, can_move}
use trading_intelligence.Lifecycle.Store.{Store, update}
use trading_intelligence.Lifecycle.World.{World, Env, Lm, Details, lift, LifecycleDetail, lifecycle}
use trading_intelligence.Common.Time.{Timestamp, iso, date_parse}
use trading_intelligence.Lifecycle.Service.{
  audit, transition, assert_valid_transition, given_or_now,
}

-- An opening time that the caller gives is one that parses; without one the clock is read.
abbrev pub parses : Option Timestamp → Bool
parses none = true
parses (some t) = is_set (date_parse t)

module _ {Num : Type 0} where
  -- The event that `audit` writes at the given reading of the clock.
  abbrev pub event_of :
      Env
      → AuditEventType
      → TradeLifecycleRecord Num
      → LifecycleDetail Num
      → ℕ
      → AuditEvent (Details Num)
  event_of env event_type r detail reading = record {
    timestamp = iso (env.clock reading);
    event_type = event_type;
    execution_run_id = env.execution_run_id;
    strategy_id = some r.strategy_id;
    strategy_version = none;
    source_type = none;
    instrument = some r.symbol;
    details = lifecycle r.id r.status detail;
  }

module _ {Num S : Type 0} where
  -- The record is written to the store, and one event with its id and status ends the audit trail.
  pub record Announces (r : TradeLifecycleRecord Num) (store : Store Num)
      (trail : List (AuditEvent (Details Num))) (w' : World Num S) : Type 0 where
    pub stored : update r store ≡ ok w'.store
    pub event : AuditEvent (Details Num)
    pub detail : LifecycleDetail Num
    pub recorded : w'.audit ≡ record_event event trail
    pub named : event.details ≡ lifecycle r.id r.status detail

  abbrev pub IsUntouched : World Num S → World Num S → Type 0
  IsUntouched w w' = (w'.store ≡ w.store) × (w'.audit ≡ w.audit)

  -- A method that moves the record `r` to the status `to`, started in `w`: where it throws it has
  -- changed neither the store nor the trail; else the table allows the move, and the record, under
  -- its id and with an opening time of which `Q` holds, is announced.
  abbrev pub Ends :
      TradeLifecycleRecord Num
      → TradeLifecycleStatus
      → (Option Timestamp → Type 0)
      → World Num S
      → Result (LifecycleError Num) (TradeLifecycleRecord Num) × World Num S
      → Type 0
  Ends r to Q w (ok r', w') =
      (r'.id ≡ r.id)
      × (r'.status ≡ to)
      × (can_move r.status to ≡ true)
      × Q r'.opened_at
      × Announces r' w.store w.audit w'
  Ends r to Q w (err e, w') = IsUntouched w w'

  pub transition_then_audit :
      (env : Env) (r patched : TradeLifecycleRecord Num) (to : TradeLifecycleStatus)
      (Q : Option Timestamp → Type 0) (event : AuditEventType)
      (detail : TradeLifecycleRecord Num → LifecycleDetail Num) (w : World Num S)
      → patched.id ≡ r.id
      → Q patched.opened_at
      → Ends r to Q w (
          (transition env r to patched >>= λ updated.
          audit env event updated (detail updated) >> return updated)
            w)
  unfolding transition audit assert_valid_transition
  transition_then_audit env r patched to Q event detail w same at =
      let stamped : TradeLifecycleRecord Num = record patched {
        status = to;
        updated_at = iso (env.clock w.clock_reads);
      } in
      elim (Bool-cases (can_move r.status to)) [
        | inr refused ↦ rw refused (refl, refl)
        | inl allowed ↦ elim (Result-cases (update stamped w.store)) [
          | inr (e, thrown) ↦ rw (allowed, thrown) (refl, refl)
          | inl (m, stored) ↦
              rw (allowed, stored)
                (
                  same,
                  refl,
                  allowed,
                  at,
                  record {
                    stored = stored;
                    event = event_of env event stamped (detail stamped) (suc w.clock_reads);
                    detail = detail stamped;
                    recorded = refl;
                    named = refl;
                  },
                )
        ]
      ]

  module _ (r : TradeLifecycleRecord Num) (to : TradeLifecycleStatus)
      (Q : Option Timestamp → Type 0) where
    -- Readings of the clock and checks that come before the write.
    pub given_then :
        (env : Env) (w : World Num S) (given : Option Timestamp)
        (f : Timestamp → Lm Num S (TradeLifecycleRecord Num))
        → ((t : Timestamp) (reads : ℕ)
            → (parses given ≡ true → is_set (date_parse t) ≡ true)
            → Ends r to Q w (f t (record w { clock_reads = reads })))
        → Ends r to Q w ((given_or_now env given >>= f) w)
    given_then env w (some t) f h = h t w.clock_reads (λ p. p)
    given_then env w none f h = h _ (suc w.clock_reads) (λ p. refl)

    pub lift_then :
        {A : Type 0}
        → (w : World Num S) (reads : ℕ) (x : Result (LifecycleError Num) A)
          (f : A → Lm Num S (TradeLifecycleRecord Num))
        → ((a : A) → Ends r to Q w (f a (record w { clock_reads = reads })))
        → Ends r to Q w ((lift x >>= f) (record w { clock_reads = reads }))
    lift_then w reads (ok a) f h = h a
    lift_then w reads (err e) f h = (refl, refl)
