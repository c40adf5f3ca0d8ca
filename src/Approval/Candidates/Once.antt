-- ===== src/Approval/Candidates/Once.antt =====
-- A candidate leaves a status once.
use trading_intelligence.Common.{
  ℕ, suc, ◌≤◌, ◌<◌, String, Bool, true, false, ◌≡◌, refl, sym, subst, ap, ◌∙◌, arith, List, [], ◌∷◌,
  Option, some, none, ◌==◌, eq_iff, eq_refl, Result, ok, err, ◌⊎◌, inl, inr, Bool-cases,
  Option-cases,
}
use trading_intelligence.Common.Decimal.{numbered, numbered-injective}
use trading_intelligence.Common.Dict.{get, set, get-set}
use trading_intelligence.Approval.Candidates.{
  TradeCandidateStatus, pending, approved, rejected, expired, executed, failed, is_status,
  can_transition, TradeCandidate, TradeCandidateInput, TradeCandidateTransitionPatch,
  InvalidTradeCandidateTransitionError, Repository, new_repository, candidate_from,
  create_candidate, patched, move_candidate,
}

pub data Op (Num : Type 0) : Type 0 where
  creates : TradeCandidateInput Num → ℕ → Op Num
  moves : String → TradeCandidateStatus → TradeCandidateTransitionPatch → ℕ → Op Num

-- How far a status is from PENDING.
unfoldable pub rank : TradeCandidateStatus → ℕ
rank pending = 0
rank approved = 1
rank rejected = 2
rank expired = 2
rank executed = 2
rank failed = 2

status_eq : (a b : TradeCandidateStatus) → is_status a b ≡ true → a ≡ b
unfolding is_status
status_eq a b h = ground arith

transition_rises :
    (from to : TradeCandidateStatus) → can_transition from to ≡ true → rank from < rank to
unfolding can_transition rank
transition_rises from to h = ground arith

module _ {Num : Type 0} where
  unfoldable pub step : Repository Num → Op Num → Repository Num
  unfolding create_candidate move_candidate
  step repo (creates input now) = (create_candidate input now repo).1
  step repo (moves id from patch now) = (move_candidate id from patch now repo).1

  unfoldable pub run : Repository Num → List (Op Num) → Repository Num
  unfolding step
  run repo [] = repo
  run repo (op ∷ ops) = run (step repo op) ops

  -- Keys are numbers that have been given out.
  abbrev pub IsNumbered : Repository Num → Type 0
  IsNumbered repo =
      (k : String) (c : TradeCandidate Num)
      → get k repo.rows ≡ some c
      → (n : ℕ) × (k ≡ numbered "candidate-" n) × (n < repo.next_id)

  -- The candidate is there, and has come at least so far.
  abbrev pub HasCome : ℕ → String → Repository Num → Type 0
  HasCome least id repo =
      (c : TradeCandidate Num) × (get id repo.rows ≡ some c) × (least ≤ rank c.status)

  -- What a move does to the rows: nothing, or one step of the candidate along the table.
  move_inv :
      (id : String) (from : TradeCandidateStatus) (patch : TradeCandidateTransitionPatch) (now : ℕ)
      (repo : Repository Num)
      → ((move_candidate id from patch now repo).1 ≡ repo)
        ⊎ ((c : TradeCandidate Num) × (get id repo.rows ≡ some c)
            × (rank c.status < rank patch.status)
            × ((move_candidate id from patch now repo).1
                ≡ (record repo { rows = set id (patched c patch now) repo.rows })))
  unfolding move_candidate
  move_inv id from patch now repo = elim (Bool-cases (can_transition from patch.status)) [
    | inr refused ↦ inl (rw refused refl)
    | inl allowed ↦ elim (Option-cases (get id repo.rows)) [
      | inl missing ↦ inl (rw (allowed, missing) refl)
      | inr (c, found) ↦ elim (Bool-cases (is_status c.status from)) [
        | inr other ↦ inl (rw (allowed, found, other) refl)
        | inl same ↦ inr (
          c,
          found,
          subst (λ s. rank s < rank patch.status) (sym (status_eq c.status from same))
              (transition_rises from patch.status allowed),
          rw (allowed, found, same) refl,
        )
      ]
    ]
  ]

  IsNumbered-create :
      (input : TradeCandidateInput Num) (now : ℕ) (repo : Repository Num)
      → IsNumbered repo
      → IsNumbered (create_candidate input now repo).1
  unfolding create_candidate candidate_from
  IsNumbered-create input now repo numbers k c at =
      elim (Bool-cases (numbered "candidate-" repo.next_id == k)) [
        | inl new ↦
            (repo.next_id, sym ((eq_iff (numbered "candidate-" repo.next_id) k).0 new), omega arith)
        | inr old ↦
            let (n, named, below) = numbers k c (
              sym (get-set (numbered "candidate-" repo.next_id) k _ repo.rows ∙ rw old refl)
              ∙ at) in
            (n, named, omega arith)
      ]

  IsNumbered-move :
      (id : String) (from : TradeCandidateStatus) (patch : TradeCandidateTransitionPatch) (now : ℕ)
      (repo : Repository Num)
      → IsNumbered repo
      → IsNumbered (move_candidate id from patch now repo).1
  IsNumbered-move id from patch now repo numbers = elim (move_inv id from patch now repo) [
    | inl same ↦ subst IsNumbered (sym same) numbers
    | inr (c, found, _, same) ↦ subst IsNumbered (sym same) λ k d at. elim (Bool-cases (id == k)) [
      | inl own ↦ numbers k c (subst (λ j. get j repo.rows ≡ some c) ((eq_iff id k).0 own) found)
      | inr other ↦
          numbers k d (sym (get-set id k (patched c patch now) repo.rows ∙ rw other refl) ∙ at)
    ]
  ]

  HasCome-create :
      (least : ℕ) (id : String) (input : TradeCandidateInput Num) (now : ℕ) (repo : Repository Num)
      → IsNumbered repo
      → HasCome least id repo
      → HasCome least id (create_candidate input now repo).1
  unfolding create_candidate candidate_from
  HasCome-create least id input now repo numbers (c, at, far) =
      elim (Bool-cases (numbered "candidate-" repo.next_id == id)) [
        | inl new ↦
            let (n, named, below) = numbers id c at in
            let same =
              numbered-injective "candidate-" repo.next_id n
                ((eq_iff (numbered "candidate-" repo.next_id) id).0 new ∙ named) in
            absurd (omega arith)
        | inr old ↦
            (c, get-set (numbered "candidate-" repo.next_id) id _ repo.rows ∙ rw old at, far)
      ]

  HasCome-move :
      (least : ℕ) (id k : String) (from : TradeCandidateStatus)
      (patch : TradeCandidateTransitionPatch) (now : ℕ) (repo : Repository Num)
      → HasCome least id repo
      → HasCome least id (move_candidate k from patch now repo).1
  unfolding patched
  HasCome-move least id k from patch now repo (c, at, far) = elim (move_inv k from patch now repo) [
    | inl same ↦ subst (HasCome least id) (sym same) (c, at, far)
    | inr (d, found, rises, same) ↦
        subst (HasCome least id) (sym same) (elim (Bool-cases (k == id)) [
          | inl own ↦
              let here = subst (λ j. get j repo.rows ≡ some d) ((eq_iff k id).0 own) found in
              (
                patched d patch now,
                get-set k id (patched d patch now) repo.rows ∙ rw own refl,
                ground arith,
              )
          | inr other ↦ (c, get-set k id (patched d patch now) repo.rows ∙ rw other at, far)
        ])
  ]

  run-IsNumbered :
      (repo : Repository Num) (ops : List (Op Num)) → IsNumbered repo → IsNumbered (run repo ops)
  unfolding run step
  run-IsNumbered repo [] h = h
  run-IsNumbered repo (creates input now ∷ ops) h =
      run-IsNumbered (create_candidate input now repo).1 ops (IsNumbered-create input now repo h)
  run-IsNumbered repo (moves id from patch now ∷ ops) h =
      run-IsNumbered (move_candidate id from patch now repo).1 ops
        (IsNumbered-move id from patch now repo h)

  run-HasCome :
      (least : ℕ) (id : String) (repo : Repository Num) (ops : List (Op Num))
      → IsNumbered repo
      → HasCome least id repo
      → HasCome least id (run repo ops)
  unfolding run step
  run-HasCome least id repo [] h come = come
  run-HasCome least id repo (creates input now ∷ ops) h come =
      run-HasCome least id (create_candidate input now repo).1 ops
        (IsNumbered-create input now repo h) (HasCome-create least id input now repo h come)
  run-HasCome least id repo (moves k from patch now ∷ ops) h come =
      run-HasCome least id (move_candidate k from patch now repo).1 ops
        (IsNumbered-move k from patch now repo h) (HasCome-move least id k from patch now repo come)

  abbrev pub won : Result InvalidTradeCandidateTransitionError (Option (TradeCandidate Num)) → Bool
  won (ok (some c)) = true
  won (ok none) = false
  won (err e) = false

  won-HasCome :
      (id : String) (from : TradeCandidateStatus) (patch : TradeCandidateTransitionPatch) (now : ℕ)
      (repo : Repository Num)
      → won (move_candidate id from patch now repo).0 ≡ true
      → HasCome (suc (rank from)) id (move_candidate id from patch now repo).1
  unfolding move_candidate patched
  won-HasCome id from patch now repo wins = elim (Bool-cases (can_transition from patch.status)) [
    | inr refused ↦ absurd (ground arith)
    | inl allowed ↦ elim (Option-cases (get id repo.rows)) [
      | inl missing ↦ absurd (ground arith)
      | inr (c, found) ↦ elim (Bool-cases (is_status c.status from)) [
        | inr other ↦ absurd (ground arith)
        | inl same ↦
            rw (allowed, found, same)
              (
                patched c patch now,
                get-set id id (patched c patch now) repo.rows ∙ rw (eq_refl id) refl,
                omega (arith, transition_rises from patch.status allowed),
              )
      ]
    ]
  ]

  come_not_won :
      (id : String) (from : TradeCandidateStatus) (patch : TradeCandidateTransitionPatch) (now : ℕ)
      (repo : Repository Num)
      → HasCome (suc (rank from)) id repo
      → won (move_candidate id from patch now repo).0 ≡ false
  unfolding move_candidate
  come_not_won id from patch now repo (c, at, far) =
      elim (Bool-cases (can_transition from patch.status)) [
        | inr refused ↦ rw refused refl
        | inl allowed ↦ elim (Bool-cases (is_status c.status from)) [
          | inr other ↦ rw (allowed, at, other) refl
          | inl same ↦ let equal = ap rank (status_eq c.status from same) in absurd (omega arith)
        ]
      ]

  -- In a repository that starts empty, once a move of a candidate out of a status has succeeded, no
  -- later move of it out of that status does, whatever is created and moved in between: a candidate is
  -- approved, executed or rejected once, even if two callers try.
  pub move_candidate-once :
      (before between : List (Op Num)) (id : String) (from : TradeCandidateStatus)
      (patch later : TradeCandidateTransitionPatch) (now then_now : ℕ)
      → let repo = run new_repository before in
        won (move_candidate id from patch now repo).0 ≡ true
        → won
            (move_candidate id from later then_now
              (run (move_candidate id from patch now repo).1 between)).0
          ≡ false
  unfolding get
  move_candidate-once before between id from patch later now then_now wins =
      let repo = run new_repository before in
      let numbers = run-IsNumbered new_repository before (λ k c e. absurd (ground arith)) in
      come_not_won id from later then_now (run (move_candidate id from patch now repo).1 between) (
        run-HasCome (suc (rank from)) id (move_candidate id from patch now repo).1 between
          (IsNumbered-move id from patch now repo numbers)
          (won-HasCome id from patch now repo wins))
