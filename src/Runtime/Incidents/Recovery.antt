-- ===== src/Runtime/Incidents/Recovery.antt =====
-- When an incident is over.
use trading_intelligence.Common.{
  ℕ, suc, ◌+◌, ◌<◌, String, true, ◌≡◌, refl, ◌∙◌, arith, List, [], ◌∷◌, Option, false, some, none,
  ◌==◌, leb, ltb, is_set, filter, length, All, Bool-cases, inl, inr,
}
use trading_intelligence.Common.Dict.{get}
use trading_intelligence.Runtime.Incidents.{
  CanonicalIncidentReason, compute_incident_fingerprint, incident, ActiveIncidentRecord,
  InstrumentObservation, MarketDataIncidentTracker, record_cycle_observations,
}
use trading_intelligence.Runtime.Incidents.Machine.{
  advance, advance_healthy, advance_invalid, advance_all, record_cycle-machine, record_cycle-keeps,
}

-- Cycles at their instants, one after the other.
unfoldable pub run_cycles :
    List (ℕ × List InstrumentObservation) → MarketDataIncidentTracker → MarketDataIncidentTracker
unfolding record_cycle_observations
run_cycles [] t = t
run_cycles ((now, os) ∷ cycles) t = run_cycles cycles (record_cycle_observations now os t).1

-- The cycle's only observation of the instrument is a healthy one.
abbrev pub IsHealthy : String → ℕ × List InstrumentObservation → Type 0
IsHealthy i (now, os) =
    (o : InstrumentObservation) × (filter (λ o. o.instrument == i) os ≡ o ∷ []) × (o.valid ≡ true)

healthy_cycle :
    (i : String) (now : ℕ) (os : List InstrumentObservation) (t : MarketDataIncidentTracker)
    → IsHealthy i (now, os)
    → get i (record_cycle_observations now os t).1.incidents
      ≡ advance_healthy t.recovery_threshold now (get i t.incidents)
unfolding advance_all advance
healthy_cycle i now os t (o, only, valid) = record_cycle-machine now os t i ∙ rw (only, valid) refl

healthy_stays :
    (i : String) (cycles : List (ℕ × List InstrumentObservation)) (t : MarketDataIncidentTracker)
    → All (IsHealthy i) cycles
    → get i t.incidents ≡ none
    → get i (run_cycles cycles t).incidents ≡ none
unfolding run_cycles advance_healthy
healthy_stays i [] t h e = e
healthy_stays i ((now, os) ∷ cycles) t (here, h) e =
    healthy_stays i cycles (record_cycle_observations now os t).1 h
      (healthy_cycle i now os t here ∙ rw e refl)

-- From the count of an active incident on, the healthy cycles count up to the threshold.
counted_recovers :
    (i : String) (cycles : List (ℕ × List InstrumentObservation)) (t : MarketDataIncidentTracker)
    (r : ActiveIncidentRecord)
    → All (IsHealthy i) cycles
    → get i t.incidents ≡ some r
    → r.consecutive_healthy_count < t.recovery_threshold
    → is_set (get i (run_cycles cycles t).incidents)
      ≡ ltb (r.consecutive_healthy_count + length cycles) t.recovery_threshold
unfolding run_cycles advance_healthy
counted_recovers i [] t r h e below = rw e (ground arith)
counted_recovers i ((now, os) ∷ cycles) t r (here, h) e below =
    let t' = (record_cycle_observations now os t).1 in
    let (_, kept, _) = record_cycle-keeps now os t in
    let after = healthy_cycle i now os t here in
    elim (Bool-cases (leb t.recovery_threshold (suc r.consecutive_healthy_count))) [
      | inl over ↦ rw (healthy_stays i cycles t' h (after ∙ rw (e, over) refl)) (ground arith)
      | inr pending ↦
          counted_recovers i cycles t'
            (record r {
              consecutive_healthy_count = suc r.consecutive_healthy_count;
              last_observed_at = now;
            })
            h (after ∙ rw (e, pending) refl) (rw kept (ground arith))
          ∙ rw kept (ground arith)
    ]

-- The cycle's only observation of the instrument is an invalid one with a reason.
abbrev pub IsInvalid : String → ℕ × List InstrumentObservation → Type 0
IsInvalid i (now, os) =
    (o : InstrumentObservation) × (filter (λ o. o.instrument == i) os ≡ o ∷ [])
    × (o.valid ≡ false)
    × ((reason : CanonicalIncidentReason) × (o.reason ≡ some reason))

-- An invalid observation leaves an incident whose count starts from 0.
invalid_restarts :
    (threshold now : ℕ) (i : String) (reason : CanonicalIncidentReason)
    (x : Option ActiveIncidentRecord)
    → (r : ActiveIncidentRecord) × (advance_invalid threshold now i reason x ≡ some r)
      × (r.consecutive_healthy_count ≡ 0)
unfolding advance_invalid incident
invalid_restarts threshold now i reason none = (incident threshold now i reason now 1, refl, refl)
invalid_restarts threshold now i reason (some r) =
    elim (Bool-cases (compute_incident_fingerprint i reason == r.fingerprint)) [
      | inl same ↦ rw same (_, refl, refl)
      | inr other ↦ rw other (_, refl, refl)
    ]

-- Whatever a tracker has seen before, within one run of the process: after a cycle whose one observation
-- of an instrument is invalid, and further cycles that each observe it once and healthy, its incident
-- is active exactly as long as the number of those cycles is below the threshold, which is positive.
pub run_cycles-recovers :
    (i : String) (now : ℕ) (os : List InstrumentObservation)
    (cycles : List (ℕ × List InstrumentObservation)) (t : MarketDataIncidentTracker)
    → IsInvalid i (now, os)
    → All (IsHealthy i) cycles
    → 0 < t.recovery_threshold
    → is_set (get i (run_cycles ((now, os) ∷ cycles) t).incidents)
      ≡ ltb (length cycles) t.recovery_threshold
unfolding run_cycles advance_all advance
run_cycles-recovers i now os cycles t (o, only, invalid, (reason, given)) h positive =
    let t' = (record_cycle_observations now os t).1 in
    let (_, kept, _) = record_cycle-keeps now os t in
    let (r, opened, from_zero) =
      invalid_restarts t.recovery_threshold now o.instrument reason (get i t.incidents) in
    let active = record_cycle-machine now os t i ∙ rw (only, invalid, given) opened in
    counted_recovers i cycles t' r h active (rw (from_zero, kept) positive)
    ∙ rw (from_zero, kept) (ground arith)
