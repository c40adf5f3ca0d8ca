-- ===== src/Approval/Moves.antt =====
-- trade-approval/trade-candidate-service.ts: what a move of a candidate does.
pub mod Steps
use trading_intelligence.Common.{
  ℕ, suc, String, true, false, ◌≡◌, ◌≢◌, refl, sym, ap, subst, ◌∙◌, arith, Option, some, none,
  Result, ok, err, ◌>>=◌, ◌>>◌, continue, return, Bool-cases, Option-cases, inl, inr, eq_refl, ◌⊎◌,
}
use trading_intelligence.Common.Dict.{get, set, get-set}
use trading_intelligence.Approval.Candidates.{
  TradeCandidate, TradeCandidateStatus, TradeCandidateTransitionPatch, Repository, is_status,
  can_transition, patched, move_candidate, expired,
}
use trading_intelligence.Approval.Service.{
  Desk, Dm, Office, taken, moved, event_of, record_about, transition_candidate, to_status,
  after_lapse, expire_candidate,
}
use trading_intelligence.Domain.Audit.{AuditEvent, AuditEventType, record_event}
use trading_intelligence.Lifecycle.Errors.{LifecycleError, audit_failed}
use trading_intelligence.Lifecycle.World.{Details, CandidateDetail, lapsed}

pub is_status-eq : (a b : TradeCandidateStatus) → is_status a b ≡ true → a ≡ b
unfolding is_status
is_status-eq a b h = ground arith

pub is_status_refl : (a : TradeCandidateStatus) → is_status a a ≡ true
unfolding is_status
is_status_refl a = ground arith

-- The candidate is not in the status.
abbrev pub IsOut : {Num : Type 0} → TradeCandidateStatus → String → Repository Num → Type 0
IsOut {Num = Num} from id repo =
    (c : TradeCandidate Num) → get id repo.rows ≡ some c → c.status ≢ from

pub other_status :
    {Num : Type 0} (c : TradeCandidate Num) (status : TradeCandidateStatus)
    → is_status c.status status ≡ false
    → c.status ≢ status
other_status c status other same =
    differs (subst (λ t. is_status t status ≡ true) (sym same) (is_status_refl status))
  where
    differs : is_status c.status status ≢ true
    differs h = cc

pub IsOut-status :
    {Num : Type 0} (status : TradeCandidateStatus) (id : String) (repo : Repository Num)
    (c : TradeCandidate Num)
    → get id repo.rows ≡ some c
    → is_status c.status status ≡ false
    → IsOut status id repo
IsOut-status status id repo c at other d at_d same =
    other_status c status other (ap (λ x. x.status) row ∙ same)
  where
    row : c ≡ d
    row = cc

module _ {Num : Type 0} where
  -- What a move along the table does: the candidate is not there, or not in the status, and nothing
  -- changes; or the patched candidate stands in its place.
  pub data Move (id : String) (from : TradeCandidateStatus) (patch : TradeCandidateTransitionPatch)
      (at : ℕ) (repo : Repository Num) : Option (TradeCandidate Num) → Repository Num → Type 0 where
    missed : get id repo.rows ≡ none → Move id from patch at repo none repo
    elsewhere :
        (c : TradeCandidate Num)
        → get id repo.rows ≡ some c
        → is_status c.status from ≡ false
        → Move id from patch at repo none repo
    done :
        (c : TradeCandidate Num)
        → get id repo.rows ≡ some c
        → c.status ≡ from
        → Move id from patch at repo
            (some (patched c patch at))
            (record repo { rows = set id (patched c patch at) repo.rows })

  -- A move of a candidate that is in the status succeeds, and leaves the patched one in its place.
  pub Move-done :
      (id : String) (from : TradeCandidateStatus) (patch : TradeCandidateTransitionPatch) (at : ℕ)
      (repo : Repository Num) (c : TradeCandidate Num) (o : Option (TradeCandidate Num))
      (repo' : Repository Num)
      → get id repo.rows ≡ some c
      → c.status ≡ from
      → Move id from patch at repo o repo'
      → (o ≡ some (patched c patch at)) × (get id repo'.rows ≡ some (patched c patch at))
  Move-done id from patch at repo c o repo' found same (missed missing) = absurd cc
  Move-done id from patch at repo c o repo' found same (elsewhere d at_d other) =
      absurd (IsOut-status from id repo d at_d other c found same)
  Move-done id from patch at repo c o repo' found same (done d at_d in_status) = (
    ap (λ x. some (patched x patch at)) row,
    get-set id id (patched d patch at) repo.rows
        ∙ rw (eq_refl id) (ap (λ x. some (patched x patch at)) row),
  )
    where
      row : d ≡ c
      row = cc

  pub move_candidate-Move :
      (id : String) (from : TradeCandidateStatus) (patch : TradeCandidateTransitionPatch) (at : ℕ)
      (repo : Repository Num)
      → can_transition from patch.status ≡ true
      → (o : Option (TradeCandidate Num)) × (repo' : Repository Num) × (move_candidate id from patch
            at repo
          ≡ (ok o, repo'))
        × Move id from patch at repo o repo'
  unfolding move_candidate
  move_candidate-Move id from patch at repo allowed = elim (Option-cases (get id repo.rows)) [
    | inl missing ↦ (none, repo, rw (allowed, missing) refl, missed missing)
    | inr (c, found) ↦ elim (Bool-cases (is_status c.status from)) [
      | inr other ↦ (none, repo, rw (allowed, found, other) refl, elsewhere c found other)
      | inl same ↦ (
        some (patched c patch at),
        record repo { rows = set id (patched c patch at) repo.rows },
        rw (allowed, found, same) refl,
        done c found (is_status-eq c.status from same),
      )
    ]
  ]
