-- ===== src/Runtime/Incidents/Notices.antt =====
-- When a cycle has something to tell: an incident opened, changed or recovered.
use trading_intelligence.Common.{
  ℕ, suc, ◌+◌, String, Bool, true, false, not, ◌≡◌, refl, ◌∙◌, arith, Option, some, none, ◌==◌,
  eq_refl, if◌then◌else◌, leb, length, length-append, Bool-cases, Option-cases, inl, inr,
}
use trading_intelligence.Common.Dict.{get}
use trading_intelligence.Runtime.Incidents.{
  ActiveIncidentRecord, InstrumentObservation, CanonicalIncidentReason, CycleIncidentOutcome, Round,
  compute_incident_fingerprint, incident, observe, observe_healthy, observe_invalid,
}
use trading_intelligence.Runtime.Incidents.Machine.{
  advance, advance_healthy, advance_invalid, observe-machine,
}

unfoldable pub notices : CycleIncidentOutcome → ℕ
notices outcome = length outcome.opened + length outcome.changed + length outcome.recovered

-- Whether the fingerprint of an instrument's active incident is another one, or newly there or gone.
unfoldable pub fingerprint_moves : Option ActiveIncidentRecord → Option ActiveIncidentRecord → Bool
fingerprint_moves none none = false
fingerprint_moves none (some b) = true
fingerprint_moves (some a) none = true
fingerprint_moves (some a) (some b) = not (b.fingerprint == a.fingerprint)

module _ (threshold now : ℕ) where
  healthy-notices :
      (i : String) (x : Option ActiveIncidentRecord) (s : Round)
      → notices (observe_healthy threshold now i x s).outcome
        ≡ notices s.outcome
          + (if fingerprint_moves x (advance_healthy threshold now x) then 1 else 0)
  unfolding observe_healthy advance_healthy fingerprint_moves notices
  healthy-notices i none s = omega arith
  healthy-notices i (some r) s =
      elim (Bool-cases (leb threshold (suc r.consecutive_healthy_count))) [
        | inl over ↦ rw over (omega (arith, length-append s.outcome.recovered))
        | inr pending ↦ rw (pending, eq_refl r.fingerprint) (omega arith)
      ]

  invalid-notices :
      (i : String) (reason : CanonicalIncidentReason) (x : Option ActiveIncidentRecord) (s : Round)
      → notices (observe_invalid threshold now i reason x s).outcome
        ≡ notices s.outcome
          + (if fingerprint_moves x (advance_invalid threshold now i reason x) then 1 else 0)
  unfolding observe_invalid advance_invalid incident fingerprint_moves notices
  invalid-notices i reason none s = omega (arith, length-append s.outcome.opened)
  invalid-notices i reason (some r) s =
      elim (Bool-cases (compute_incident_fingerprint i reason == r.fingerprint)) [
        | inl same ↦ rw (same, eq_refl r.fingerprint) (omega arith)
        | inr other ↦ rw (other, other) (omega (arith, length-append s.outcome.changed))
      ]

  idle-notices :
      (x : Option ActiveIncidentRecord) (n : ℕ) → n ≡ n + (if fingerprint_moves x x then 1 else 0)
  unfolding fingerprint_moves
  idle-notices none n = omega arith
  idle-notices (some r) n = rw (eq_refl r.fingerprint) (omega arith)

  advance-notices :
      (o : InstrumentObservation) (s : Round)
      → notices (observe threshold now o s).outcome
        ≡ notices s.outcome
          + (if fingerprint_moves
                (get o.instrument s.incidents)
                (advance threshold now o (get o.instrument s.incidents))
              then 1
              else 0)
  unfolding observe advance
  advance-notices o s = elim (Bool-cases o.valid) [
    | inl valid ↦ rw valid (healthy-notices o.instrument (get o.instrument s.incidents) s)
    | inr invalid ↦ elim (Option-cases o.reason) [
      | inl missing ↦
          rw (invalid, missing) (idle-notices (get o.instrument s.incidents) (notices s.outcome))
      | inr (reason, e) ↦
          rw (invalid, e) (invalid-notices o.instrument reason (get o.instrument s.incidents) s)
    ]
  ]

  -- An observation adds exactly one notice (opened, changed or recovered) when it moves the fingerprint
  -- of its instrument's active incident, and none otherwise: an unchanged failure is never told again.
  pub observe-notices :
      (o : InstrumentObservation) (s : Round)
      → notices (observe threshold now o s).outcome
        ≡ notices s.outcome
          + (if fingerprint_moves
                (get o.instrument s.incidents)
                (get o.instrument (observe threshold now o s).incidents)
              then 1
              else 0)
  observe-notices o s =
      advance-notices o s
      ∙ rw (observe-machine threshold now o o.instrument s, eq_refl o.instrument) refl
