-- ===== src/Lifecycle/Service/Stored.antt =====
-- What holds when a method returns, and what the calls of the service have then stored.
use trading_intelligence.Common.{
  ◌≡◌, refl, subst, ◌∙◌, some, Result, ok, err, M, ◌>>=◌, continue, eq_refl,
}
use trading_intelligence.Common.Dict.{get, get-set}
use trading_intelligence.Common.Numbers.{Numbers}
use trading_intelligence.Lifecycle.Errors.{LifecycleError}
use trading_intelligence.Lifecycle.Record.{TradeLifecycleRecord}
use trading_intelligence.Lifecycle.Status.{TradeLifecycleStatus}
use trading_intelligence.Lifecycle.Store.Invariant.{update_inv}
use trading_intelligence.Lifecycle.Service.Announced.{Ends}
use trading_intelligence.Lifecycle.Service.Calls.{Call, call, call-Ends, target, Opening}
use trading_intelligence.Lifecycle.World.{World, Env}

-- What holds of the result and the world when a method returns.
abbrev pub Returns : {W E A : Type 0} → (A → W → Type 0) → Result E A × W → Type 0
Returns P (ok a, w) = P a w
Returns P (err e, w) = Unit {0}

pub Returns-both :
    {W E A : Type 0} (P Q : A → W → Type 0) (x : Result E A × W)
    → Returns P x
    → Returns Q x
    → Returns (λ a w. P a w × Q a w) x
Returns-both P Q (ok a, w) p q = (p, q)
Returns-both P Q (err e, w) p q = tt

pub Returns-then :
    {W E A B : Type 0}
    → (P : A → W → Type 0) (Q : B → W → Type 0) (m : M W E A) (f : A → M W E B) (w : W)
    → Returns P (m w)
    → ((a : A) (w' : W) → P a w' → Returns Q (f a w'))
    → Returns Q ((m >>= f) w)
Returns-then {W = W} {E = E} {A = A} P Q m f w h k = go (m w) h
  where
    go : (x : Result E A × W) → Returns P x → Returns Q (continue f x)
    go (ok a, w') p = k a w' p
    go (err e, w') p = tt

module _ {Num S : Type 0} where
  -- The record that a call on `r` returns has the status, and stands in the store under the id of `r`.
  abbrev pub Moved :
      TradeLifecycleRecord Num
      → TradeLifecycleStatus
      → TradeLifecycleRecord Num
      → World Num S
      → Type 0
  Moved r status r' w = (r'.id ≡ r.id) × (r'.status ≡ status) × (get r.id w.store ≡ some r')

module _ {Num S : Type 0} ⦃num : Numbers Num⦄ (env : Env) where
  pub call-Moved :
      (r : TradeLifecycleRecord Num) (c : Call Num) (w : World Num S)
      → Returns (Moved r (target c)) (call env r c w)
  call-Moved r c w = go (call env r c w) (call-Ends env r c w)
    where
      go :
          (x : Result (LifecycleError Num) (TradeLifecycleRecord Num) × World Num S)
          → Ends r (target c) (Opening r c) w x
          → Returns (Moved r (target c)) x
      go (ok r', w') (same, at_target, _, _, announced) =
          let (_, _, stored) = update_inv r' w.store w'.store announced.stored in
          (
            same,
            at_target,
            subst (λ k. get k w'.store ≡ some r') same
                (subst (λ m. get r'.id m ≡ some r') stored
                  (get-set r'.id r'.id r' w.store ∙ rw (eq_refl r'.id) refl)),
          )
      go (err e, w') _ = tt
