-- ===== src/Approval/Service/Sweep.antt =====
-- trade-approval/trade-candidate-service.ts: what the sweep over expired candidates leaves.
use trading_intelligence.Common.{
  ap, All-weaken, ℕ, String, true, false, ◌≡◌, ◌≢◌, refl, sym, subst, ◌∙◌, List, [], ◌∷◌, Option,
  some, Result, ok, err, ◌>>=◌, return, ◌++◌, All,
}
use trading_intelligence.Common.Dict.{get, IsDict, All-values}
use trading_intelligence.Common.Int.{ℤ}
use trading_intelligence.Common.Time.{Timestamp}
use trading_intelligence.Approval.Candidates.{
  TradeCandidate, TradeCandidateStatus, Repository, is_status, can_transition, pending, approved,
  expired,
}
use trading_intelligence.Approval.Duplicates.{list_candidates}
use trading_intelligence.Approval.Moves.{IsOut}
use trading_intelligence.Approval.Service.{
  Desk, Office, is_expired, sweep_one, sweep_found, sweep_filter, sweep_status,
  sweep_expired_candidates, add_expired,
}
use trading_intelligence.Lifecycle.Errors.{LifecycleError}
use trading_intelligence.Lifecycle.Service.Stored.{Returns, Returns-then}
use trading_intelligence.Approval.Service.Expiry.{
  Expires, Expires-refl, Expires-trans, Expires-kept, RunsOut, Agrees, Step, RunsOut-Expires,
  IsOut-Expires, live_status, sweep_one-swept,
}
use trading_intelligence.Approval.Service.Listed.{All-list_candidates, All-listed}

module _ {Num : Type 0} where
  -- No key stands in the rows twice, and each row is stored under its own id.
  abbrev pub IsKeyed : Repository Num → Type 0
  IsKeyed repo =
      IsDict repo.rows
      × ((k : String) (c : TradeCandidate Num) → get k repo.rows ≡ some c → c.id ≡ k)

  abbrev IsLiveKeyed : Repository Num → Type 0
  IsLiveKeyed repo =
      (k : String) (c : TradeCandidate Num)
      → get k repo.rows ≡ some c
      → c.status ≢ expired
      → c.id ≡ k

  IsKeyed-Agrees : (now : ℕ) (repo : Repository Num) → IsKeyed repo → Agrees now repo
  IsKeyed-Agrees now repo (dict, keyed) =
      All-values (RunsOut now repo) repo.rows dict λ k c at x at_x.
        let own = keyed k c at in let row : x ≡ c = cc in ap (λ x. is_expired x now) row

  -- No row of the strategy and the instrument that has run out is in the status.
  abbrev pub IsSwept : ℕ → String → String → TradeCandidateStatus → Repository Num → Type 0
  IsSwept now strategy_id instrument status repo =
      (k : String) (c : TradeCandidate Num)
      → get k repo.rows ≡ some c
      → c.input.strategy_id ≡ strategy_id
      → c.input.instrument ≡ instrument
      → is_expired c now ≡ true
      → c.status ≢ status

module _ {Num B : Type 0} (office : Office Num) (now : ℕ) where
  sweep_found-swept :
      (status : TradeCandidateStatus) (cs : List (TradeCandidate Num)) (desk : Desk Num B)
      → can_transition status expired ≡ true
      → is_status expired status ≡ false
      → All (RunsOut now desk.candidates) cs
      → Returns
          (λ gone (d : Desk Num B).
            Step now desk.candidates d.candidates
            × All (λ c. is_expired c now ≡ true → IsOut status c.id d.candidates) cs)
          (sweep_found office now status cs desk)
  unfolding sweep_found
  sweep_found-swept status [] desk allowed live alike =
      ((Expires-refl now desk.candidates, λ h. h), tt)
  sweep_found-swept status (c ∷ cs) desk allowed live (own, alike) =
      Returns-then first all (sweep_one office now status c)
        (λ gone. sweep_found office now status cs >>= λ rest. return (add_expired gone rest)) desk
        (sweep_one-swept office now status c desk allowed live own)
        (others alike (λ d. sweep_found-swept status cs d allowed live))
    where
      first : Option (TradeCandidate Num) → Desk Num B → Type 0
      first o d =
          Step now desk.candidates d.candidates
          × (is_expired c now ≡ true → IsOut status c.id d.candidates)

      all : List (TradeCandidate Num) → Desk Num B → Type 0
      all gone d =
          Step now desk.candidates d.candidates
          × All (λ c. is_expired c now ≡ true → IsOut status c.id d.candidates) (c ∷ cs)

      others :
          All (RunsOut now desk.candidates) cs
          → ((d : Desk Num B)
              → All (RunsOut now d.candidates) cs
              → Returns
                  (λ rest (e : Desk Num B).
                    Step now d.candidates e.candidates
                    × All (λ c. is_expired c now ≡ true → IsOut status c.id e.candidates) cs)
                  (sweep_found office now status cs d))
          → (gone : Option (TradeCandidate Num)) (d : Desk Num B) → first gone d
          → Returns all
              ((sweep_found office now status cs >>= λ rest. return (add_expired gone rest)) d)
      others alike swept gone d ((p, agrees), out) =
          Returns-then
            (λ rest (e : Desk Num B).
              Step now d.candidates e.candidates
              × All (λ c. is_expired c now ≡ true → IsOut status c.id e.candidates) cs)
            all (sweep_found office now status cs) (λ rest. return (add_expired gone rest)) d
            (swept d (
              All-weaken (RunsOut now desk.candidates) (RunsOut now d.candidates)
                (RunsOut-Expires now desk.candidates d.candidates p) cs alike))
            (λ rest e ((q, agree), outs). (
              (
                Expires-trans now desk.candidates d.candidates e.candidates p q,
                λ h. agree (agrees h),
              ),
              (
                λ run_out.
                    IsOut-Expires now status c.id d.candidates e.candidates
                      (live_status status live) q (out run_out),
                outs,
              ),
            ))

  module _ (locale_compare : Timestamp → Timestamp → ℤ) where
    sweep_status-IsSwept :
        (strategy_id instrument : String) (status : TradeCandidateStatus) (desk : Desk Num B)
        → can_transition status expired ≡ true
        → is_status expired status ≡ false
        → IsLiveKeyed desk.candidates
        → Agrees now desk.candidates
        → Returns
            (λ gone (d : Desk Num B).
              Step now desk.candidates d.candidates
              × IsSwept now strategy_id instrument status d.candidates)
            (sweep_status office locale_compare now strategy_id instrument status desk)
    unfolding sweep_status
    sweep_status-IsSwept strategy_id instrument status desk allowed live keyed alike =
        go (sweep_found office now status listed desk) (
          sweep_found-swept status listed desk allowed live (
            All-listed locale_compare (RunsOut now desk.candidates) strategy_id instrument status
              desk.candidates alike))
      where
        listed : List (TradeCandidate Num)
        listed =
            list_candidates locale_compare (sweep_filter status strategy_id instrument)
              desk.candidates

        go :
            (x : Result (LifecycleError Num) (List (TradeCandidate Num)) × Desk Num B)
            → Returns
                (λ gone (d : Desk Num B).
                  Step now desk.candidates d.candidates
                  × All (λ c. is_expired c now ≡ true → IsOut status c.id d.candidates) listed)
                x
            → Returns
                (λ gone (d : Desk Num B).
                  Step now desk.candidates d.candidates
                  × IsSwept now strategy_id instrument status d.candidates)
                x
        go (err e, d) h = tt
        go (ok gone, d) ((p, agrees), outs) = (
          (p, agrees),
          λ k c at_k of_strategy of_instrument run_out same.
              let alive : c.status ≢ expired =
                λ is_gone. live_status status live (sym same ∙ is_gone) in
              let before = Expires-kept now desk.candidates d.candidates p k c at_k alive in
              All-list_candidates locale_compare P strategy_id instrument status desk.candidates
                outs k c before of_strategy of_instrument same run_out c
                (subst (λ i. get i d.candidates.rows ≡ some c) (sym (keyed k c before alive)) at_k)
                same,
        )
          where
            P : TradeCandidate Num → Type 0
            P c = is_expired c now ≡ true → IsOut status c.id d.candidates

    -- Where no key stands in the rows twice and each row is stored under its own id: when the sweep over
    -- the expired candidates of a strategy and an instrument returns, no pending and no approved row of
    -- the two is left whose time has run out, and each row is one that was there before, unchanged, or
    -- has become EXPIRED in the place of one whose time had run out.
    pub sweep_expired_candidates-IsSwept :
        (strategy_id instrument : String) (desk : Desk Num B)
        → IsKeyed desk.candidates
        → Returns
            (λ gone (d : Desk Num B).
              Expires now desk.candidates d.candidates
              × IsSwept now strategy_id instrument pending d.candidates
              × IsSwept now strategy_id instrument approved d.candidates)
            (sweep_expired_candidates office locale_compare now strategy_id instrument desk)
    unfolding sweep_expired_candidates can_transition is_status
    sweep_expired_candidates-IsSwept strategy_id instrument desk keyed =
        Returns-then (left pending desk) both
          (sweep_status office locale_compare now strategy_id instrument pending)
          (λ xs. sweep_status office locale_compare now strategy_id instrument approved >>= λ ys.
            return (xs ++ ys))
          desk
          (sweep_status-IsSwept strategy_id instrument pending desk refl refl
            (λ k c at alive. keyed.1 k c at) (IsKeyed-Agrees now desk.candidates keyed))
          (λ xs mid ((p, agrees), none_pending).
            Returns-then (left approved mid) both
              (sweep_status office locale_compare now strategy_id instrument approved)
              (λ ys. return (xs ++ ys)) mid
              (sweep_status-IsSwept strategy_id instrument approved mid refl refl
                (λ k c at_k alive.
                  keyed.1 k c (Expires-kept now desk.candidates mid.candidates p k c at_k alive))
                (agrees (IsKeyed-Agrees now desk.candidates keyed)))
              (λ ys d ((q, _), none_approved). (
                Expires-trans now desk.candidates mid.candidates d.candidates p q,
                (λ k c at_k s i run_out same.
                    none_pending k c
                      (Expires-kept now mid.candidates d.candidates q k c at_k
                        (λ is_gone. live_status pending refl (sym same ∙ is_gone)))
                      s i run_out same),
                none_approved,
              )))
      where
        left : TradeCandidateStatus → Desk Num B → List (TradeCandidate Num) → Desk Num B → Type 0
        left status before gone d =
            Step now before.candidates d.candidates
            × IsSwept now strategy_id instrument status d.candidates

        both : List (TradeCandidate Num) → Desk Num B → Type 0
        both gone d =
            Expires now desk.candidates d.candidates
            × IsSwept now strategy_id instrument pending d.candidates
            × IsSwept now strategy_id instrument approved d.candidates
