-- ===== src/Approval/Service/Expiry.antt =====
-- trade-approval/trade-candidate-service.ts: what the expiry of a candidate leaves.
use trading_intelligence.Common.{
  ◌⊎◌, eq_iff, All, All-weaken, ℕ, String, Bool, true, false, ◌≡◌, ◌≢◌, refl, sym, ap, subst, ◌∙◌,
  Option, some, none, Result, ok, err, continue, return, Bool-cases, inl, inr, ◌==◌, eq_refl,
  if◌then◌else◌,
}
use trading_intelligence.Common.Dict.{get, set, get-set, values, All-get, All-set}
use trading_intelligence.Approval.Candidates.{
  TradeCandidate, TradeCandidateStatus, Repository, is_status, can_transition, patched, expired,
}
use trading_intelligence.Approval.Moves.{
  Move, missed, elsewhere, done, IsOut, IsOut-status, is_status_refl,
}
use trading_intelligence.Approval.Moves.Steps.{transition_candidate-Move, record_about-cases}
use trading_intelligence.Approval.Service.{
  Desk, Office, to_status, is_expired, transition_candidate, after_lapse, expire_candidate,
  sweep_one,
}
use trading_intelligence.Domain.Audit.{AuditEventType}
use trading_intelligence.Lifecycle.Errors.{LifecycleError}
use trading_intelligence.Lifecycle.Service.Stored.{Returns, Returns-then}
use trading_intelligence.Lifecycle.World.{lapsed}

module _ {Num : Type 0} where
  -- Each row was there before, or has expired where a row was that has run out.
  abbrev pub Expires : ℕ → Repository Num → Repository Num → Type 0
  Expires now repo repo' =
      (k : String) (d : TradeCandidate Num)
      → get k repo'.rows ≡ some d
      → (get k repo.rows ≡ some d)
        ⊎ ((d.status ≡ expired)
            × (is_expired d now ≡ true)
            × ((c : TradeCandidate Num) × (get k repo.rows ≡ some c) × (is_expired c now ≡ true)))

  pub Expires-refl : (now : ℕ) (repo : Repository Num) → Expires now repo repo
  Expires-refl now repo k d at = inl at

  pub Expires-trans :
      (now : ℕ) (repo repo' repo'' : Repository Num)
      → Expires now repo repo'
      → Expires now repo' repo''
      → Expires now repo repo''
  Expires-trans now repo repo' repo'' p q k d at = elim (q k d at) [
    | inl before ↦ p k d before
    | inr (is_gone, late, (c, at_c, out)) ↦ elim (p k c at_c) [
      | inl first ↦ inr (is_gone, late, (c, first, out))
      | inr (_, _, earlier) ↦ inr (is_gone, late, earlier)
    ]
  ]

  -- A row that has not expired was there before.
  pub Expires-kept :
      (now : ℕ) (repo repo' : Repository Num)
      → Expires now repo repo'
      → (k : String) (c : TradeCandidate Num) → get k repo'.rows ≡ some c
      → c.status ≢ expired
      → get k repo.rows ≡ some c
  Expires-kept now repo repo' p k c at alive = elim (p k c at) [
    | inl before ↦ before
    | inr (is_gone, _, _) ↦ absurd (alive is_gone)
  ]

  -- The row under the id of a candidate runs out when the candidate does.
  abbrev pub RunsOut : ℕ → Repository Num → TradeCandidate Num → Type 0
  RunsOut now repo c =
      (x : TradeCandidate Num) → get c.id repo.rows ≡ some x → is_expired x now ≡ is_expired c now

  abbrev pub Agrees : ℕ → Repository Num → Type 0
  Agrees now repo = All (RunsOut now repo) (values repo.rows)

  -- What a step of the sweep does.
  abbrev pub Step : ℕ → Repository Num → Repository Num → Type 0
  Step now repo repo' = Expires now repo repo' × (Agrees now repo → Agrees now repo')

  pub RunsOut-Expires :
      (now : ℕ) (repo repo' : Repository Num)
      → Expires now repo repo'
      → (c : TradeCandidate Num) → RunsOut now repo c
      → RunsOut now repo' c
  RunsOut-Expires now repo repo' p c alike x at = elim (p c.id x at) [
    | inl before ↦ alike x before
    | inr (_, late, (x₀, at₀, out)) ↦ late ∙ sym out ∙ alike x₀ at₀
  ]

  pub IsOut-Expires :
      (now : ℕ) (status : TradeCandidateStatus) (id : String) (repo repo' : Repository Num)
      → status ≢ expired
      → Expires now repo repo'
      → IsOut status id repo
      → IsOut status id repo'
  IsOut-Expires now status id repo repo' live p out c at same =
      out c (Expires-kept now repo repo' p id c at (λ is_gone. live (sym same ∙ is_gone))) same

  -- What stands at a key after a candidate has been moved.
  at_moved :
      (id k : String) (p d : TradeCandidate Num) (repo : Repository Num)
      → get k (set id p repo.rows) ≡ some d
      → ((id ≡ k) × (p ≡ d)) ⊎ (get k repo.rows ≡ some d)
  at_moved id k p d repo at = elim (Bool-cases (id == k)) [
    | inl own ↦
        let there : some p ≡ some d = sym (get-set id k p repo.rows ∙ rw own refl) ∙ at in
        let row : p ≡ d = cc in inl ((eq_iff id k).0 own, row)
    | inr other ↦ inr (sym (get-set id k p repo.rows ∙ rw other refl) ∙ at)
  ]

  Move-swept :
      (now : ℕ) (id : String) (from : TradeCandidateStatus) (at : ℕ) (repo : Repository Num)
      (o : Option (TradeCandidate Num)) (repo' : Repository Num)
      → is_status expired from ≡ false
      → ((x : TradeCandidate Num) → get id repo.rows ≡ some x → is_expired x now ≡ true)
      → Move id from (to_status expired) at repo o repo'
      → Expires now repo repo' × IsOut from id repo'
  unfolding patched is_expired
  Move-swept now id from at repo o repo' live late (missed missing) =
      (Expires-refl now repo, λ c at_c same. absurd cc)
  Move-swept now id from at repo o repo' live late (elsewhere c at_c other) =
      (Expires-refl now repo, IsOut-status from id repo c at_c other)
  Move-swept now id from at repo o repo' live late (done c at_c same) = (
    λ k d at_k. elim (at_moved id k gone d repo at_k) [
      | inr before ↦ inl before
      | inl (own, row) ↦ inr (
        sym (ap (λ x. x.status) row),
        ap (λ x. is_expired x now) (sym row) ∙ late c at_c,
        (c, subst (λ i. get i repo.rows ≡ some c) own at_c, late c at_c),
      )
    ],
    IsOut-status from id (record repo { rows = set id gone repo.rows }) gone
        (get-set id id gone repo.rows ∙ rw (eq_refl id) refl) live,
  )
    where
      gone : TradeCandidate Num
      gone = patched c (to_status expired) at

  Move-Agrees :
      (now : ℕ) (id : String) (from : TradeCandidateStatus) (at : ℕ) (repo : Repository Num)
      (o : Option (TradeCandidate Num)) (repo' : Repository Num)
      → Move id from (to_status expired) at repo o repo'
      → Agrees now repo
      → Agrees now repo'
  unfolding patched is_expired
  Move-Agrees now id from at repo o repo' (missed missing) h = h
  Move-Agrees now id from at repo o repo' (elsewhere c at_c other) h = h
  Move-Agrees now id from at repo o repo' (done c at_c same) h =
      All-set (RunsOut now after) id gone repo.rows
        (of c (All-get (RunsOut now repo) id repo.rows c h at_c))
        (All-weaken (RunsOut now repo) (RunsOut now after) of (values repo.rows) h)
    where
      gone : TradeCandidate Num
      gone = patched c (to_status expired) at

      after : Repository Num
      after = record repo { rows = set id gone repo.rows }

      of : (d : TradeCandidate Num) → RunsOut now repo d → RunsOut now after d
      of d alike x at_x = elim (at_moved id d.id gone x repo at_x) [
        | inr before ↦ alike x before
        | inl (own, row) ↦
            ap (λ x. is_expired x now) (sym row)
            ∙ alike c (subst (λ i. get i repo.rows ≡ some c) own at_c)
      ]

pub live_status :
    (status : TradeCandidateStatus) → is_status expired status ≡ false → status ≢ expired
live_status status live same =
    differs (subst (λ t. is_status expired t ≡ true) (sym same) (is_status_refl expired))
  where
    differs : is_status expired status ≢ true
    differs h = cc

module _ {Num B : Type 0} (office : Office Num) (now : ℕ) where
  expire_candidate-swept :
      (reason id : String) (from : TradeCandidateStatus) (desk : Desk Num B)
      → can_transition from expired ≡ true
      → is_status expired from ≡ false
      → ((x : TradeCandidate Num) → get id desk.candidates.rows ≡ some x → is_expired x now ≡ true)
      → Returns
          (λ o (d : Desk Num B). Step now desk.candidates d.candidates × IsOut from id d.candidates)
          (expire_candidate office now reason id from desk)
  unfolding expire_candidate after_lapse
  expire_candidate-swept reason id from desk allowed live late =
      Returns-then left left (transition_candidate office id from (to_status expired))
        (after_lapse office now reason) desk moved_out after
    where
      left : Option (TradeCandidate Num) → Desk Num B → Type 0
      left o d = Step now desk.candidates d.candidates × IsOut from id d.candidates

      moved_out : Returns left (transition_candidate office id from (to_status expired) desk)
      moved_out =
          let (o, repo, made, how) =
            transition_candidate-Move office id from (to_status expired) desk allowed in
          let at = office.env.clock desk.world.clock_reads in
          let (p, out) = Move-swept now id from at desk.candidates o repo live late how in
          subst (Returns left) (sym made)
            ((p, Move-Agrees now id from at desk.candidates o repo how), out)

      after :
          (o : Option (TradeCandidate Num)) (d : Desk Num B)
          → left o d
          → Returns left (after_lapse office now reason o d)
      after none d p = p
      after (some c) d p =
          elim (record_about-cases office now AuditEventType.trade_candidate_expired c
            (lapsed reason) d) [
              | inl e ↦ subst (λ x. Returns left (continue (λ _. return (some c)) x)) (sym e) p
              | inr (message, refusal, e) ↦
                  subst (λ x. Returns left (continue (λ _. return (some c)) x)) (sym e) tt
            ]

  pub sweep_one-swept :
      (status : TradeCandidateStatus) (c : TradeCandidate Num) (desk : Desk Num B)
      → can_transition status expired ≡ true
      → is_status expired status ≡ false
      → RunsOut now desk.candidates c
      → Returns
          (λ o (d : Desk Num B).
            Step now desk.candidates d.candidates
            × (is_expired c now ≡ true → IsOut status c.id d.candidates))
          (sweep_one office now status c desk)
  sweep_one-swept status c desk allowed live alike = pick (is_expired c now) refl
    where
      left : Option (TradeCandidate Num) → Desk Num B → Type 0
      left o d =
          Step now desk.candidates d.candidates
          × (is_expired c now ≡ true → IsOut status c.id d.candidates)

      expired_one :
          is_expired c now ≡ true
          → Returns left (expire_candidate office now "expiry-sweep" c.id status desk)
      expired_one e = weaken (expire_candidate office now "expiry-sweep" c.id status desk) (
          expire_candidate-swept "expiry-sweep" c.id status desk allowed live
            (λ x at. alike x at ∙ e))
        where
          weaken :
              (x : Result (LifecycleError Num) (Option (TradeCandidate Num)) × Desk Num B)
              → Returns
                  (λ o (d : Desk Num B).
                    Step now desk.candidates d.candidates × IsOut status c.id d.candidates)
                  x
              → Returns left x
          weaken (ok o, d) (kept, out) = (kept, λ _. out)
          weaken (err e, d) h = tt

      pick :
          (b : Bool)
          → is_expired c now ≡ b
          → Returns left (
              (if b then expire_candidate office now "expiry-sweep" c.id status else return none)
                desk)
      pick true e = expired_one e
      pick false e = ((Expires-refl now desk.candidates, λ h. h), λ gone. absurd cc)
