-- ===== src/Runtime/Incidents/Persistence.antt =====
-- What a restart needs of the state file.
use trading_intelligence.Common.{
  ℕ, suc, String, true, false, not, ◌≡◌, refl, sym, ap, subst, ◌∙◌, arith, List, [], ◌∷◌, Option,
  some, none, ◌==◌, eq_iff, leb, Bool-cases, Option-cases, inl, inr,
}
use trading_intelligence.Common.Dict.{Dict, get}
use trading_intelligence.Runtime.Incidents.{
  ActiveIncidentRecord, InstrumentObservation, CanonicalIncidentReason, Round,
  MarketDataIncidentTracker, compute_incident_fingerprint, incident, observe, observe_healthy,
  observe_invalid, observe_all, cycle_round, persists, schedule_persist, record_cycle_observations,
}
use trading_intelligence.Runtime.Incidents.Machine.{
  advance, advance_healthy, advance_invalid, observe-machine, record_cycle-keeps,
}
use trading_intelligence.Runtime.Incidents.Recovery.{run_cycles}

-- The facts of an incident that keep it from being told again.
unfoldable pub told : Option ActiveIncidentRecord → Option (String × ℕ)
told none = none
told (some r) = some (r.fingerprint, r.opened_at)

-- The content of the state file once what has been scheduled is written; `file` is what it had before.
unfoldable pub on_disk :
    Dict ActiveIncidentRecord → MarketDataIncidentTracker → Dict ActiveIncidentRecord
on_disk file t = elim t.scheduled [ [] ↦ file | latest ∷ earlier ↦ latest ]

abbrev pub Agrees : Dict ActiveIncidentRecord → Dict ActiveIncidentRecord → Type 0
Agrees m m' = (j : String) → told (get j m) ≡ told (get j m')

module _ (threshold now : ℕ) where
  healthy-quiet :
      (i : String) (x : Option ActiveIncidentRecord) (s : Round)
      → (observe_healthy threshold now i x s).should_persist ≡ false
      → (s.should_persist ≡ false) × (told (advance_healthy threshold now x) ≡ told x)
  unfolding observe_healthy advance_healthy told
  healthy-quiet i none s quiet = (quiet, refl)
  healthy-quiet i (some r) s quiet =
      elim (Bool-cases (leb threshold (suc r.consecutive_healthy_count))) [
        | inl over ↦ absurd (ground arith)
        | inr pending ↦ absurd (ground arith)
      ]

  invalid-quiet :
      (i : String) (reason : CanonicalIncidentReason) (x : Option ActiveIncidentRecord) (s : Round)
      → (observe_invalid threshold now i reason x s).should_persist ≡ false
      → (s.should_persist ≡ false) × (told (advance_invalid threshold now i reason x) ≡ told x)
  unfolding observe_invalid advance_invalid incident told
  invalid-quiet i reason none s quiet = absurd (ground arith)
  invalid-quiet i reason (some r) s quiet =
      elim (Bool-cases (compute_incident_fingerprint i reason == r.fingerprint)) [
        | inl same ↦ (ground arith, rw same refl)
        | inr other ↦ absurd (ground arith)
      ]

  observe-quiet :
      (o : InstrumentObservation) (s : Round)
      → (observe threshold now o s).should_persist ≡ false
      → (s.should_persist ≡ false)
        × (told (advance threshold now o (get o.instrument s.incidents))
            ≡ told (get o.instrument s.incidents))
  unfolding observe advance
  observe-quiet o s quiet = elim (Bool-cases o.valid) [
    | inl valid ↦
        rw valid (healthy-quiet o.instrument (get o.instrument s.incidents) s (rw valid at quiet))
    | inr invalid ↦ elim (Option-cases o.reason) [
      | inl missing ↦ rw (invalid, missing) (rw (invalid, missing) at quiet, refl)
      | inr (reason, e) ↦
          rw (invalid, e)
            (invalid-quiet o.instrument reason (get o.instrument s.incidents) s
              (rw (invalid, e) at quiet))
    ]
  ]

  observe_all-quiet :
      (os : List InstrumentObservation) (s : Round)
      → (observe_all threshold now os s).should_persist ≡ false
      → (s.should_persist ≡ false) × Agrees (observe_all threshold now os s).incidents s.incidents
  unfolding observe_all
  observe_all-quiet [] s quiet = (quiet, λ j. refl)
  observe_all-quiet (o ∷ os) s quiet =
      let (q, later) = observe_all-quiet os (observe threshold now o s) quiet in
      let (p, here) = observe-quiet o s q in
      (
        p,
        λ j. later j ∙ elim (Bool-cases (o.instrument == j)) [
          | inl own ↦
              let at_j : o.instrument ≡ j = ground (arith, eq_iff o.instrument j) in
              ap told (observe-machine threshold now o j s ∙ rw own refl)
              ∙ subst
                  (λ k.
                    told (advance threshold now o (get k s.incidents)) ≡ told (get k s.incidents))
                  at_j here
          | inr other ↦ ap told (observe-machine threshold now o j s ∙ rw other refl)
        ],
      )

-- A cycle leaves the file as good as the memory, if it was so before.
cycle-Agrees :
    (file : Dict ActiveIncidentRecord) (now : ℕ) (os : List InstrumentObservation)
    (t : MarketDataIncidentTracker)
    → persists t ≡ true
    → Agrees (on_disk file t) t.incidents
    → Agrees
        (on_disk file (record_cycle_observations now os t).1)
        (record_cycle_observations now os t).1.incidents
unfolding record_cycle_observations schedule_persist persists on_disk cycle_round
cycle-Agrees file now os t on agrees j = elim (Bool-cases ((cycle_round now os t).should_persist)) [
  | inl writes ↦ rw (writes, on) refl
  | inr quiet ↦
      rw quiet (agrees j ∙ sym ((observe_all-quiet t.recovery_threshold now os _ quiet).1 j))
]

persists-kept :
    (now : ℕ) (os : List InstrumentObservation) (t : MarketDataIncidentTracker)
    → persists t ≡ true
    → persists (record_cycle_observations now os t).1 ≡ true
unfolding persists
persists-kept now os t on =
    ap (λ path. elim path [ none ↦ false | some p ↦ not (p == "") ]) (record_cycle-keeps now os t).2
    ∙ on

-- If state is persisted and the state file agrees with the incidents in memory, instrument by
-- instrument, on the fingerprint and the opening time, then it does so after every sequence of cycles,
-- once the scheduled writes are done: a restart then tells no incident again and forgets none.
pub run_cycles-Agrees :
    (file : Dict ActiveIncidentRecord) (cycles : List (ℕ × List InstrumentObservation))
    (t : MarketDataIncidentTracker)
    → persists t ≡ true
    → Agrees (on_disk file t) t.incidents
    → Agrees (on_disk file (run_cycles cycles t)) (run_cycles cycles t).incidents
unfolding run_cycles
run_cycles-Agrees file [] t on agrees = agrees
run_cycles-Agrees file ((now, os) ∷ cycles) t on agrees =
    run_cycles-Agrees file cycles (record_cycle_observations now os t).1 (persists-kept now os t on)
      (cycle-Agrees file now os t on agrees)
