-- ===== src/Runtime/Incidents/Machine.antt =====
-- The tracker against the state machine of a single instrument.
use trading_intelligence.Common.{
  ℕ, suc, String, ◌≡◌, refl, ap, ◌∙◌, arith, List, [], ◌∷◌, Option, some, none, ◌==◌, eq_iff,
  if◌then◌else◌, leb, filter, Option-cases, Bool-cases, inl, inr,
}
use trading_intelligence.Common.Dict.{Dict, get, get-set, get-delete}
use trading_intelligence.Runtime.Incidents.{
  ActiveIncidentRecord, InstrumentObservation, CanonicalIncidentReason, Round,
  MarketDataIncidentTracker, compute_incident_fingerprint, incident, observe, observe_healthy,
  observe_invalid, observe_all, cycle_round, schedule_persist, persists, record_cycle_observations,
}

at_key :
    {V : Type 0}
    → (i j : String) (F : Option V → Option V) (m : Dict V)
    → (if i == j then F (get i m) else get j m) ≡ (if i == j then F (get j m) else get j m)
at_key i j F m = elim (Bool-cases (i == j)) [
  | inl hit ↦ rw hit (ap (λ k. F (get k m)) (ground (arith, eq_iff i j)))
  | inr miss ↦ rw miss refl
]

module _ (threshold now : ℕ) where
  unfoldable pub advance_healthy : Option ActiveIncidentRecord → Option ActiveIncidentRecord
  advance_healthy none = none
  advance_healthy (some r) =
      if leb threshold (suc r.consecutive_healthy_count)
      then none
      else some (record r {
        consecutive_healthy_count = suc r.consecutive_healthy_count;
        last_observed_at = now;
      })

  unfoldable pub advance_invalid :
      String → CanonicalIncidentReason → Option ActiveIncidentRecord → Option ActiveIncidentRecord
  unfolding incident
  advance_invalid i reason none = some (incident threshold now i reason now 1)
  advance_invalid i reason (some r) =
      if compute_incident_fingerprint i reason == r.fingerprint
      then some (record r {
        last_observed_at = now;
        observation_count = suc r.observation_count;
        consecutive_healthy_count = 0;
      })
      else some (incident threshold now i reason r.opened_at (suc r.observation_count))

  -- What an observation makes of the incident of its own instrument.
  unfoldable pub advance :
      InstrumentObservation → Option ActiveIncidentRecord → Option ActiveIncidentRecord
  unfolding advance_healthy advance_invalid
  advance o x =
      if o.valid
      then advance_healthy x
      else elim o.reason [ none ↦ x | some reason ↦ advance_invalid o.instrument reason x ]

  unfoldable pub advance_all :
      List InstrumentObservation → Option ActiveIncidentRecord → Option ActiveIncidentRecord
  unfolding advance
  advance_all [] x = x
  advance_all (o ∷ os) x = advance_all os (advance o x)

  healthy-machine :
      (i j : String) (x : Option ActiveIncidentRecord) (s : Round)
      → get i s.incidents ≡ x
      → get j (observe_healthy threshold now i x s).incidents
        ≡ (if i == j then advance_healthy x else get j s.incidents)
  unfolding observe_healthy advance_healthy
  healthy-machine i j none s e = ground (arith, eq_iff i j)
  healthy-machine i j (some r) s e =
      elim (Bool-cases (leb threshold (suc r.consecutive_healthy_count))) [
        | inl over ↦ rw over (get-delete i j s.incidents)
        | inr pending ↦ rw pending (get-set i j _ s.incidents)
      ]

  invalid-machine :
      (i j : String) (reason : CanonicalIncidentReason) (x : Option ActiveIncidentRecord)
      (s : Round)
      → get j (observe_invalid threshold now i reason x s).incidents
        ≡ (if i == j then advance_invalid i reason x else get j s.incidents)
  unfolding observe_invalid advance_invalid incident
  invalid-machine i j reason none s = get-set i j _ s.incidents
  invalid-machine i j reason (some r) s =
      elim (Bool-cases (compute_incident_fingerprint i reason == r.fingerprint)) [
        | inl same ↦ rw same (get-set i j _ s.incidents)
        | inr other ↦ rw other (get-set i j _ s.incidents)
      ]

  pub observe-machine :
      (o : InstrumentObservation) (j : String) (s : Round)
      → get j (observe threshold now o s).incidents
        ≡ (if o.instrument == j then advance o (get j s.incidents) else get j s.incidents)
  unfolding observe advance
  observe-machine o j s = elim (Bool-cases o.valid) [
    | inl valid ↦ rw valid (
        healthy-machine o.instrument j (get o.instrument s.incidents) s refl
        ∙ at_key o.instrument j advance_healthy s.incidents)
    | inr invalid ↦ elim (Option-cases o.reason) [
      | inl missing ↦ rw (invalid, missing) (ground arith)
      | inr (reason, e) ↦
          rw (invalid, e)
            (invalid-machine o.instrument j reason (get o.instrument s.incidents) s
              ∙ at_key o.instrument j (advance_invalid o.instrument reason) s.incidents)
    ]
  ]

  -- The incident of an instrument after a cycle is the one before it, advanced by the cycle's
  -- observations of that instrument, in order; those of other instruments do not touch it.
  observe_all-machine :
      (j : String) (os : List InstrumentObservation) (s : Round)
      → get j (observe_all threshold now os s).incidents
        ≡ advance_all (filter (λ o. o.instrument == j) os) (get j s.incidents)
  unfolding observe_all advance_all
  observe_all-machine j [] s = refl
  observe_all-machine j (o ∷ os) s =
      observe_all-machine j os (observe threshold now o s) ∙ elim (Bool-cases (o.instrument == j)) [
        | inl own ↦ rw (own, observe-machine o j s, own) refl
        | inr other ↦ rw (other, observe-machine o j s, other) refl
      ]

-- The configuration of a tracker stays, and a cycle keeps the incidents of its last round.
schedule_persist-keeps :
    (t : MarketDataIncidentTracker)
    → ((schedule_persist t).incidents ≡ t.incidents)
      × ((schedule_persist t).recovery_threshold ≡ t.recovery_threshold)
      × ((schedule_persist t).persistence_path ≡ t.persistence_path)
unfolding schedule_persist
schedule_persist-keeps t = elim (Bool-cases (persists t)) [
  | inl on ↦ rw on (refl, refl, refl)
  | inr off ↦ rw off (refl, refl, refl)
]

pub record_cycle-keeps :
    (now : ℕ) (os : List InstrumentObservation) (t : MarketDataIncidentTracker)
    → ((record_cycle_observations now os t).1.incidents ≡ (cycle_round now os t).incidents)
      × ((record_cycle_observations now os t).1.recovery_threshold ≡ t.recovery_threshold)
      × ((record_cycle_observations now os t).1.persistence_path ≡ t.persistence_path)
unfolding record_cycle_observations
record_cycle-keeps now os t = elim (Bool-cases ((cycle_round now os t).should_persist)) [
  | inl on ↦
      rw on (schedule_persist-keeps (record t { incidents = (cycle_round now os t).incidents }))
  | inr off ↦ rw off (refl, refl, refl)
]

-- A cycle leaves each instrument's incident as the state machine of that instrument does, which is
-- given the cycle's observations of the instrument in their order: an instrument's incident depends on
-- no other instrument.
pub record_cycle-machine :
    (now : ℕ) (os : List InstrumentObservation) (t : MarketDataIncidentTracker) (j : String)
    → get j (record_cycle_observations now os t).1.incidents
      ≡ advance_all t.recovery_threshold now
          (filter (λ o. o.instrument == j) os)
          (get j t.incidents)
unfolding cycle_round
record_cycle-machine now os t j =
    ap (get j) (record_cycle-keeps now os t).0 ∙ observe_all-machine t.recovery_threshold now j os _
