-- ===== src/Approval/Moves/Steps.antt =====
-- trade-approval/trade-candidate-service.ts: what holds after a move, an event or an expiry, holds of
-- what is done next.
use trading_intelligence.Common.{
  List, ℕ, suc, String, true, ◌≡◌, refl, sym, ap, subst, ◌∙◌, Option, some, none, Result, ok, err,
  ◌>>=◌, ◌>>◌, continue, return, Option-cases, inl, inr, eq_refl, ◌⊎◌,
}
use trading_intelligence.Common.Dict.{get, get-set}
use trading_intelligence.Approval.Candidates.{
  TradeCandidate, TradeCandidateStatus, TradeCandidateTransitionPatch, Repository, can_transition,
  patched, expired,
}
use trading_intelligence.Approval.Service.{
  Desk, Dm, Office, taken, moved, event_of, record_about, transition_candidate, to_status,
  after_lapse, expire_candidate,
}
use trading_intelligence.Domain.Audit.{AuditEvent, AuditEventType, record_event}
use trading_intelligence.Lifecycle.Errors.{LifecycleError, audit_failed}
use trading_intelligence.Lifecycle.World.{Details, CandidateDetail, lapsed}
use trading_intelligence.Approval.Moves.{
  Move, missed, elsewhere, done, Move-done, move_candidate-Move, IsOut, IsOut-status,
}

-- The trail refuses some event.
abbrev pub Refusal : {Num : Type 0} → Office Num → Type 0
Refusal {Num = Num} office =
    (events : List (AuditEvent (Details Num))) × (event : AuditEvent (Details Num))
    × (message : String) × (office.refuses events event ≡ some message)

module _ {Num B : Type 0} (office : Office Num) where
  abbrev pub after_clock : Desk Num B → Desk Num B
  after_clock desk = record desk {
    world = record desk.world { clock_reads = suc desk.world.clock_reads };
  }

  -- A move of the service.
  pub transition_candidate-Move :
      (id : String) (from : TradeCandidateStatus) (patch : TradeCandidateTransitionPatch)
      (desk : Desk Num B)
      → can_transition from patch.status ≡ true
      → (o : Option (TradeCandidate Num)) × (repo : Repository Num) × (transition_candidate office
            id from patch desk
          ≡ (ok o, record (after_clock desk) { candidates = repo }))
        × Move id from patch (office.env.clock desk.world.clock_reads) desk.candidates o repo
  unfolding transition_candidate
  transition_candidate-Move id from patch desk allowed =
      let (o, repo, made, how) =
        move_candidate-Move id from patch (office.env.clock desk.world.clock_reads) desk.candidates
          allowed in
      (o, repo, ap (λ x. moved x (after_clock desk)) made, how)

  -- The desk with an event more in its trail.
  abbrev pub noted : AuditEvent (Details Num) → Desk Num B → Desk Num B
  noted event desk = record desk {
    world = record desk.world { audit = record_event event desk.world.audit };
  }

  -- The trail takes an event, or refuses it and nothing changes.
  pub record_about-cases :
      (now : ℕ) (event_type : AuditEventType) (c : TradeCandidate Num)
      (detail : CandidateDetail Num) (desk : Desk Num B)
      → (record_about office now event_type c detail desk ≡ (
        ok tt,
        noted
            (event_of office now event_type
              (some c.input.strategy_id)
              (some c.input.instrument)
              c.id
              detail)
            desk,
      ))
        ⊎ ((message : String) × Refusal office
            × (record_about office now event_type c detail desk
                ≡ (err (audit_failed message), desk)))
  unfolding record_about
  record_about-cases now event_type c detail desk =
      elim (Option-cases (office.refuses desk.world.audit event)) [
        | inl takes ↦ inl (ap (λ o. taken event o desk) takes)
        | inr (message, refuses) ↦ inr (
          message,
          (desk.world.audit, event, message, refuses),
          ap (λ o. taken event o desk) refuses,
        )
      ]
    where
      event : AuditEvent (Details Num)
      event =
          event_of office now event_type (some c.input.strategy_id) (some c.input.instrument) c.id
            detail

  -- What holds after a move of a candidate that is in the status, holds of what is done with it.
  pub transition_candidate-then :
      {A : Type 0} (P : Result (LifecycleError Num) A × Desk Num B → Type 0) (id : String)
      (from : TradeCandidateStatus) (patch : TradeCandidateTransitionPatch)
      (f : Option (TradeCandidate Num) → Dm Num B A) (desk : Desk Num B) (c : TradeCandidate Num)
      → can_transition from patch.status ≡ true
      → get id desk.candidates.rows ≡ some c
      → c.status ≡ from
      → ((at : ℕ) (repo : Repository Num)
          → get id repo.rows ≡ some (patched c patch at)
          → P (f (some (patched c patch at)) (record (after_clock desk) { candidates = repo })))
      → P ((transition_candidate office id from patch >>= f) desk)
  transition_candidate-then P id from patch f desk c allowed found same k =
      let (o, repo, made, how) = transition_candidate-Move id from patch desk allowed in
      let at = office.env.clock desk.world.clock_reads in
      let (won, row) = Move-done id from patch at desk.candidates c o repo found same how in
      subst (λ x. P (continue f x)) (sym made)
        (subst (λ o. P (f o (record (after_clock desk) { candidates = repo }))) (sym won)
          (k at repo row))

  -- What is done after an event is done where the trail takes it; where it does not, it has refused one.
  pub record_about-told :
      {A : Type 0} (P : Result (LifecycleError Num) A × Desk Num B → Type 0) (now : ℕ)
      (event_type : AuditEventType) (c : TradeCandidate Num) (detail : CandidateDetail Num)
      (k : Dm Num B A) (desk : Desk Num B)
      → P (
          k (
            noted
              (event_of office now event_type
                (some c.input.strategy_id)
                (some c.input.instrument)
                c.id
                detail)
              desk))
      → ((message : String) → Refusal office → P (err (audit_failed message), desk))
      → P ((record_about office now event_type c detail >> k) desk)
  record_about-told P now event_type c detail k desk took refused =
      elim (record_about-cases now event_type c detail desk) [
        | inl e ↦ subst (λ x. P (continue (λ _. k) x)) (sym e) took
        | inr (message, refusal, e) ↦
            subst (λ x. P (continue (λ _. k) x)) (sym e) (refused message refusal)
      ]

  -- What is done after an event is done where the trail takes it.
  pub record_about-then :
      {A : Type 0} (P : Result (LifecycleError Num) A × Desk Num B → Type 0) (now : ℕ)
      (event_type : AuditEventType) (c : TradeCandidate Num) (detail : CandidateDetail Num)
      (k : Dm Num B A) (desk : Desk Num B)
      → P (
          k (
            noted
              (event_of office now event_type
                (some c.input.strategy_id)
                (some c.input.instrument)
                c.id
                detail)
              desk))
      → ((message : String) → P (err (audit_failed message), desk))
      → P ((record_about office now event_type c detail >> k) desk)
  record_about-then P now event_type c detail k desk took refused =
      record_about-told P now event_type c detail k desk took (λ message refusal. refused message)

  -- What is done after an expiry.
  pub expire_candidate-then :
      {A : Type 0} (P : Result (LifecycleError Num) A × Desk Num B → Type 0) (now : ℕ)
      (reason id : String) (from : TradeCandidateStatus)
      (g : Option (TradeCandidate Num) → Dm Num B A) (desk : Desk Num B) (c : TradeCandidate Num)
      → can_transition from expired ≡ true
      → get id desk.candidates.rows ≡ some c
      → c.status ≡ from
      → ((a : TradeCandidate Num) (event : AuditEvent (Details Num)) (desk' : Desk Num B)
          → get id desk'.candidates.rows ≡ some a
          → a.status ≡ expired
          → event.event_type ≡ AuditEventType.trade_candidate_expired
          → desk'.world.audit ≡ record_event event desk.world.audit
          → P (g (some a) desk'))
      → ((a : TradeCandidate Num) (message : String) (desk' : Desk Num B)
          → get id desk'.candidates.rows ≡ some a
          → a.status ≡ expired
          → desk'.world.audit ≡ desk.world.audit
          → P (err (audit_failed message), desk'))
      → P ((expire_candidate office now reason id from >>= g) desk)
  unfolding expire_candidate after_lapse patched event_of
  expire_candidate-then P now reason id from g desk c allowed found same took refused =
      transition_candidate-then (λ x. P (continue g x)) id from (to_status expired)
        (after_lapse office now reason) desk c allowed found same
        λ at repo row.
          record_about-then (λ x. P (continue g x)) now AuditEventType.trade_candidate_expired
            (patched c (to_status expired) at) (lapsed reason)
            (return (some (patched c (to_status expired) at)))
            (record (after_clock desk) { candidates = repo })
            (took (patched c (to_status expired) at) _ _ row refl refl refl)
            (λ message. refused (patched c (to_status expired) at) message _ row refl refl)

  -- What is done after a move of a candidate that may be in another status, or not there.
  pub transition_candidate-else :
      {A : Type 0} (P : Result (LifecycleError Num) A × Desk Num B → Type 0) (id : String)
      (from : TradeCandidateStatus) (patch : TradeCandidateTransitionPatch)
      (f : Option (TradeCandidate Num) → Dm Num B A) (desk : Desk Num B)
      → can_transition from patch.status ≡ true
      → (IsOut from id desk.candidates → P (f none (after_clock desk)))
      → ((at : ℕ) (c : TradeCandidate Num) (repo : Repository Num)
          → get id repo.rows ≡ some (patched c patch at)
          → P (f (some (patched c patch at)) (record (after_clock desk) { candidates = repo })))
      → P ((transition_candidate office id from patch >>= f) desk)
  transition_candidate-else P id from patch f desk allowed missing k =
      let (o, repo, made, how) = transition_candidate-Move id from patch desk allowed in
      subst (λ x. P (continue f x)) (sym made) (go o repo how)
    where
      go :
          (o : Option (TradeCandidate Num)) (repo : Repository Num)
          → Move id from patch (office.env.clock desk.world.clock_reads) desk.candidates o repo
          → P (f o (record (after_clock desk) { candidates = repo }))
      go none repo (missed none_there) = missing λ c at same. absurd cc
      go none repo (elsewhere c at other) =
          missing λ d at_d same. IsOut-status from id desk.candidates c at other d at_d same
      go (some p) repo (done c at same) =
          k (office.env.clock desk.world.clock_reads) c repo
            (get-set id id p desk.candidates.rows ∙ rw (eq_refl id) refl)

  -- What is done after an expiry of a candidate that may be in another status, or not there.
  pub expire_candidate-else :
      {A : Type 0} (P : Result (LifecycleError Num) A × Desk Num B → Type 0) (now : ℕ)
      (reason id : String) (from : TradeCandidateStatus)
      (g : Option (TradeCandidate Num) → Dm Num B A) (desk : Desk Num B)
      → can_transition from expired ≡ true
      → (IsOut from id desk.candidates → P (g none (after_clock desk)))
      → ((a : TradeCandidate Num) (desk' : Desk Num B)
          → get id desk'.candidates.rows ≡ some a
          → a.status ≡ expired
          → P (g (some a) desk')
            × ((message : String) → Refusal office → P (err (audit_failed message), desk')))
      → P ((expire_candidate office now reason id from >>= g) desk)
  unfolding expire_candidate after_lapse patched event_of
  expire_candidate-else P now reason id from g desk allowed missing k =
      transition_candidate-else (λ x. P (continue g x)) id from (to_status expired)
        (after_lapse office now reason) desk allowed missing
        λ at c repo row.
          record_about-told (λ x. P (continue g x)) now AuditEventType.trade_candidate_expired
            (patched c (to_status expired) at) (lapsed reason)
            (return (some (patched c (to_status expired) at)))
            (record (after_clock desk) { candidates = repo })
            (k (patched c (to_status expired) at) _ row refl).0
            (k (patched c (to_status expired) at) _ row refl).1
