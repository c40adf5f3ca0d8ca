-- ===== src/Approval/Service/Listed.antt =====
-- trade-approval/trade-candidate-repository.ts: the rows that a list of the candidates has.
use trading_intelligence.Common.{
  String, Bool, true, ◌≡◌, refl, sym, subst, List, [], ◌∷◌, some, Bool-cases, inl, inr, ◌==◌,
  eq_refl, All, filter,
}
use trading_intelligence.Common.Dict.{get, values, All-get}
use trading_intelligence.Common.Int.{ℤ, pos, leb_ℤ}
use trading_intelligence.Common.Time.{Timestamp}
use trading_intelligence.Approval.Candidates.{
  TradeCandidate, TradeCandidateStatus, Repository, is_status,
}
use trading_intelligence.Approval.Duplicates.{
  insert, sort, list_candidates, status_matches, text_matches,
}
use trading_intelligence.Approval.Moves.{is_status_refl}
use trading_intelligence.Approval.Service.{sweep_filter}

All-filter :
    {A : Type 0} (P : A → Type 0) (f : A → Bool) (xs : List A)
    → All P (filter f xs)
    → All (λ x. f x ≡ true → P x) xs
All-filter P f [] h = tt
All-filter {A = A} P f (x ∷ xs) h = elim (Bool-cases (f x)) [
  | inl hit ↦ let (p, rest) = cons (rw hit at h) in (λ _. p, All-filter P f xs rest)
  | inr miss ↦ (λ hit. absurd cc, All-filter P f xs (rw miss at h))
]
  where
    cons : All P (x ∷ filter f xs) → P x × All P (filter f xs)
    cons l = l

All-filtered :
    {A : Type 0} (P : A → Type 0) (f : A → Bool) (xs : List A) → All P xs → All P (filter f xs)
All-filtered P f [] h = tt
All-filtered P f (x ∷ xs) (p, h) = elim (Bool-cases (f x)) [
  | inl hit ↦ rw hit (p, All-filtered P f xs h)
  | inr miss ↦ rw miss (All-filtered P f xs h)
]

text_matches_refl : (s : String) → text_matches (some s) s ≡ true
unfolding text_matches
text_matches_refl s = elim (Bool-cases (s == "")) [
  | inl e ↦ rw e refl
  | inr e ↦ rw (e, eq_refl s) refl
]

module _ {Num : Type 0} (locale_compare : Timestamp → Timestamp → ℤ)
    (P : TradeCandidate Num → Type 0) where
  All-insert :
      (c : TradeCandidate Num) (ds : List (TradeCandidate Num))
      → All P (insert locale_compare c ds)
      → P c × All P ds
  unfolding insert
  All-insert c [] h = h
  All-insert c (d ∷ ds) h =
      elim (Bool-cases (leb_ℤ (locale_compare d.created_at c.created_at) (pos 0))) [
        | inl hit ↦ rw hit at h
        | inr miss ↦
            let (p, rest) = after (rw miss at h) in
            let (q, others) = All-insert c ds rest in (q, (p, others))
      ]
    where
      after : All P (d ∷ insert locale_compare c ds) → P d × All P (insert locale_compare c ds)
      after x = x

  All-sort : (cs : List (TradeCandidate Num)) → All P (sort locale_compare cs) → All P cs
  unfolding sort
  All-sort [] h = tt
  All-sort (c ∷ cs) h =
      let (p, rest) = All-insert c (sort locale_compare cs) h in (p, All-sort cs rest)

  All-inserted :
      (c : TradeCandidate Num) (ds : List (TradeCandidate Num))
      → P c
      → All P ds
      → All P (insert locale_compare c ds)
  unfolding insert
  All-inserted c [] p h = (p, tt)
  All-inserted c (d ∷ ds) p (q, h) =
      elim (Bool-cases (leb_ℤ (locale_compare d.created_at c.created_at) (pos 0))) [
        | inl hit ↦ rw hit (p, (q, h))
        | inr miss ↦ rw miss (q, All-inserted c ds p h)
      ]

  All-sorted : (cs : List (TradeCandidate Num)) → All P cs → All P (sort locale_compare cs)
  unfolding sort
  All-sorted [] h = tt
  All-sorted (c ∷ cs) (p, h) = All-inserted c (sort locale_compare cs) p (All-sorted cs h)

module _ {Num : Type 0} (locale_compare : Timestamp → Timestamp → ℤ)
    (P : TradeCandidate Num → Type 0) where
  -- What holds of all rows, holds of the listed ones.
  pub All-listed :
      (strategy_id instrument : String) (status : TradeCandidateStatus) (repo : Repository Num)
      → All P (values repo.rows)
      → All P (list_candidates locale_compare (sweep_filter status strategy_id instrument) repo)
  unfolding list_candidates status_matches
  All-listed strategy_id instrument status repo h =
      All-filtered P _ _
        (All-filtered P _ _ (All-filtered P _ _ (All-sorted locale_compare P (values repo.rows) h)))

  -- What holds of the listed rows, holds of each row with the status, the strategy and the instrument.
  pub All-list_candidates :
      (strategy_id instrument : String) (status : TradeCandidateStatus) (repo : Repository Num)
      → All P (list_candidates locale_compare (sweep_filter status strategy_id instrument) repo)
      → (k : String) (c : TradeCandidate Num) → get k repo.rows ≡ some c
      → c.input.strategy_id ≡ strategy_id
      → c.input.instrument ≡ instrument
      → c.status ≡ status
      → P c
  unfolding list_candidates status_matches
  All-list_candidates strategy_id instrument status repo h k c at_k of_strategy of_instrument same =
      All-get Q k repo.rows c
        (All-sort locale_compare Q (values repo.rows) (
          All-filter (λ c. in_strategy c → in_instrument c → P c) (λ c. is_status c.status status)
            (sort locale_compare (values repo.rows))
            (All-filter (λ c. in_instrument c → P c)
              (λ c. text_matches (some strategy_id) c.input.strategy_id)
              (filter (λ c. is_status c.status status) (sort locale_compare (values repo.rows)))
              (All-filter P (λ c. text_matches (some instrument) c.input.instrument)
                (filter (λ c. text_matches (some strategy_id) c.input.strategy_id)
                  (filter (λ c. is_status c.status status)
                    (sort locale_compare (values repo.rows))))
                h))))
        at_k (subst (λ s. is_status s status ≡ true) (sym same) (is_status_refl status))
        (subst (λ s. text_matches (some strategy_id) s ≡ true) (sym of_strategy)
          (text_matches_refl strategy_id))
        (subst (λ s. text_matches (some instrument) s ≡ true) (sym of_instrument)
          (text_matches_refl instrument))
    where
      in_strategy : TradeCandidate Num → Type 0
      in_strategy c = text_matches (some strategy_id) c.input.strategy_id ≡ true

      in_instrument : TradeCandidate Num → Type 0
      in_instrument c = text_matches (some instrument) c.input.instrument ≡ true

      Q : TradeCandidate Num → Type 0
      Q c = is_status c.status status ≡ true → in_strategy c → in_instrument c → P c
