-- ===== src/Runtime/Incidents.antt =====
-- runtime/market-data-incident-tracker.ts: the incidents of market data, one at most per instrument.
pub mod Machine
pub mod Recovery
pub mod Notices
pub mod Persistence
use trading_intelligence.Common.{
  ℕ, suc, String, Bool, true, false, not, ◌&&◌, List, [], ◌∷◌, ◌++◌, Option, some, none, ◌==◌,
  if◌then◌else◌, leb, is_set, get_or_else,
}
use trading_intelligence.Common.Dict.{Dict, get, set, delete, values}
pub use trading_intelligence.Runtime.IncidentTypes.{
  InstrumentObservation, CanonicalIncidentReason, ActiveIncidentRecord, CycleIncidentOutcome,
  compute_incident_fingerprint,
}

abbrev pub default_recovery_threshold : ℕ
default_recovery_threshold = 2

-- The tracker, and with it the snapshots whose writing it has scheduled, the latest first.
pub record MarketDataIncidentTracker : Type 0 where
  pub incidents : Dict ActiveIncidentRecord
  pub recovery_threshold : ℕ
  pub persistence_path : Option String
  pub state_loaded : Bool
  pub scheduled : List (Dict ActiveIncidentRecord)

unfoldable pub create_tracker : Option ℕ → Option String → MarketDataIncidentTracker
create_tracker recovery_threshold persistence_path = record {
  incidents = [];
  recovery_threshold = get_or_else recovery_threshold default_recovery_threshold;
  persistence_path = persistence_path;
  state_loaded = false;
  scheduled = [];
}

-- Whether `this.persistencePath` is truthy: an empty path is not.
unfoldable pub persists : MarketDataIncidentTracker → Bool
persists t = elim t.persistence_path [ none ↦ false | some path ↦ not (path == "") ]

-- `loaded` is what `readPersistedState` makes of the file.
unfoldable pub load_persisted_state :
    Dict ActiveIncidentRecord → MarketDataIncidentTracker → MarketDataIncidentTracker
unfolding persists
load_persisted_state loaded t =
    if not t.state_loaded && persists t
    then record t { state_loaded = true; incidents = loaded }
    else t

unfoldable pub schedule_persist : MarketDataIncidentTracker → MarketDataIncidentTracker
unfolding persists
schedule_persist t = if persists t then record t { scheduled = t.incidents ∷ t.scheduled } else t

-- What the loop over the observations of a cycle has come to.
pub record Round : Type 0 where
  pub incidents : Dict ActiveIncidentRecord
  pub outcome : CycleIncidentOutcome
  pub should_persist : Bool

module _ (threshold now : ℕ) where
  unfoldable pub observe_healthy : String → Option ActiveIncidentRecord → Round → Round
  unfolding set delete
  observe_healthy instrument none s = s
  observe_healthy instrument (some existing) s =
      let count = suc existing.consecutive_healthy_count in
      if leb threshold count
      then (record s {
        incidents = delete instrument s.incidents;
        outcome = record (s.outcome) {
          recovered =
              s.outcome.recovered
              ++ (record {
                instrument = instrument;
                previous_fingerprint = existing.fingerprint;
                opened_at = existing.opened_at;
                recovered_at = now;
                required_consecutive_healthy = threshold;
              })
                ∷ [];
        };
        should_persist = true;
      })
      else (record s {
        incidents =
            set instrument
              (record existing { consecutive_healthy_count = count; last_observed_at = now })
              s.incidents;
        outcome = record (s.outcome) {
          recovery_pending =
              s.outcome.recovery_pending
              ++ (record {
                instrument = instrument;
                fingerprint = existing.fingerprint;
                consecutive_healthy_count = count;
                required_consecutive_healthy = threshold;
              })
                ∷ [];
        };
        should_persist = true;
      })

  unfoldable pub incident : String → CanonicalIncidentReason → ℕ → ℕ → ActiveIncidentRecord
  unfolding compute_incident_fingerprint
  incident instrument reason opened_at observation_count = record {
    instrument = instrument;
    fingerprint = compute_incident_fingerprint instrument reason;
    category = reason.category;
    reason = reason;
    opened_at = opened_at;
    last_observed_at = now;
    observation_count = observation_count;
    consecutive_healthy_count = 0;
  }

  unfoldable pub observe_invalid :
      String → CanonicalIncidentReason → Option ActiveIncidentRecord → Round → Round
  unfolding set compute_incident_fingerprint incident
  observe_invalid instrument reason none s = record s {
    incidents = set instrument (incident instrument reason now 1) s.incidents;
    outcome = record (s.outcome) {
      opened =
          s.outcome.opened
          ++ (record {
            instrument = instrument;
            fingerprint = compute_incident_fingerprint instrument reason;
            reason = reason;
            opened_at = now;
            observation_count = 1;
          })
            ∷ [];
    };
    should_persist = true;
  }
  observe_invalid instrument reason (some existing) s =
      let count = suc existing.observation_count in
      let fingerprint = compute_incident_fingerprint instrument reason in
      if fingerprint == existing.fingerprint
      then (record s {
        incidents =
            set instrument
              (record existing {
                last_observed_at = now;
                observation_count = count;
                consecutive_healthy_count = 0;
              })
              s.incidents;
        outcome = record (s.outcome) {
          unchanged =
              s.outcome.unchanged
              ++ (record {
                instrument = instrument;
                fingerprint = fingerprint;
                observation_count = count;
                opened_at = existing.opened_at;
                last_observed_at = now;
              })
                ∷ [];
        };
      })
      else (record s {
        incidents =
            set instrument (incident instrument reason existing.opened_at count) s.incidents;
        outcome = record (s.outcome) {
          changed =
              s.outcome.changed
              ++ (record {
                instrument = instrument;
                fingerprint = fingerprint;
                previous_fingerprint = existing.fingerprint;
                reason = reason;
                opened_at = existing.opened_at;
                observation_count = count;
              })
                ∷ [];
        };
        should_persist = true;
      })

  unfoldable pub observe : InstrumentObservation → Round → Round
  unfolding observe_healthy observe_invalid get
  observe o s =
      if o.valid
      then observe_healthy o.instrument (get o.instrument s.incidents) s
      else elim o.reason [
        | none ↦ s
        | some reason ↦ observe_invalid o.instrument reason (get o.instrument s.incidents) s
      ]

  unfoldable pub observe_all : List InstrumentObservation → Round → Round
  unfolding observe
  observe_all [] s = s
  observe_all (o ∷ os) s = observe_all os (observe o s)

abbrev pub nothing_yet : CycleIncidentOutcome
nothing_yet = record {
  opened = [];
  changed = [];
  recovered = [];
  unchanged = [];
  recovery_pending = [];
}

unfoldable pub cycle_round : ℕ → List InstrumentObservation → MarketDataIncidentTracker → Round
unfolding observe_all
cycle_round now observations t =
    observe_all t.recovery_threshold now observations
      (record { incidents = t.incidents; outcome = nothing_yet; should_persist = false })

unfoldable pub record_cycle_observations :
    ℕ
    → List InstrumentObservation
    → MarketDataIncidentTracker
    → CycleIncidentOutcome × MarketDataIncidentTracker
unfolding cycle_round schedule_persist
record_cycle_observations now observations t =
    let s = cycle_round now observations t in
    let after = record t { incidents = s.incidents } in
    (s.outcome, if s.should_persist then schedule_persist after else after)

unfoldable pub current_active_incidents : MarketDataIncidentTracker → List ActiveIncidentRecord
unfolding values
current_active_incidents t = values t.incidents
