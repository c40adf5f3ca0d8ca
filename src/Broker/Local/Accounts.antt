-- ===== src/Broker/Local/Accounts.antt =====
-- The money of the local broker: what was paid in is in cash, in open positions or in the results
-- of the trades.
use trading_intelligence.Common.{
  String, true, ◌≡◌, refl, sym, ap, ap₂, subst, ◌∙◌, List, [], ◌∷◌, ◌++◌, Option, some, arith, inl,
  inr, Option-cases, Bool-cases, ◌==◌, All, All-append,
}
use trading_intelligence.Common.Numbers.{Numbers, IsExact}
use trading_intelligence.Common.Time.{Timestamp}
use trading_intelligence.Domain.Orders.{PaperPosition, CompletedTrade, OrderRequest, buy}
use trading_intelligence.Broker.Local.{
  PaperBrokerState, World, create, place_market_order, close_position, opened, refusal, after_open,
  after_close, completed, direction, find_position, remove_position,
}
use trading_intelligence.Broker.Local.Invariant.{Call, place, close, run, refusal-none, found_id}

module _ {Num : Type 0} ⦃num : Numbers Num⦄ where
  unfoldable pub sum_of {ℓ} : {A : Type ℓ} → (A → Num) → List A → Num
  sum_of f [] = num.lit 0
  sum_of f (x ∷ xs) = num.add (f x) (sum_of f xs)

  abbrev pub cost : PaperPosition Num → Num
  cost p = num.mul p.quantity p.entry_price

  -- What the open positions cost, and what the completed trades brought.
  abbrev pub invested : PaperBrokerState Num → Num
  invested s = sum_of cost s.open_positions

  abbrev pub earned : PaperBrokerState Num → Num
  earned s = sum_of (λ (t : CompletedTrade Num). t.realised_pnl) s.completed_trades

  module _ (exact : IsExact Num) where
    open exact use {add_comm, add_assoc, add-zero, sub-add, mul_comm, sub-mul, mul-one}

    add_left_comm : (x y z : Num) → num.add x (num.add y z) ≡ num.add y (num.add x z)
    add_left_comm x y z =
        sym (add_assoc x y z) ∙ ap (λ t. num.add t z) (add_comm x y) ∙ add_assoc y x z

    sum_of-append {ℓ} :
        {A : Type ℓ} (f : A → Num) (xs : List A) (x : A)
        → sum_of f (xs ++ x ∷ []) ≡ num.add (sum_of f xs) (f x)
    unfolding sum_of
    sum_of-append f [] x = add_comm (f x) (num.lit 0)
    sum_of-append f (y ∷ xs) x =
        ap (num.add (f y)) (sum_of-append f xs x) ∙ sym (add_assoc (f y) (sum_of f xs) (f x))

    sum_of-remove :
        (f : PaperPosition Num → Num) (id : String) (ps : List (PaperPosition Num))
        (p : PaperPosition Num)
        → find_position id ps ≡ some p
        → sum_of f ps ≡ num.add (f p) (sum_of f (remove_position id ps))
    unfolding sum_of find_position remove_position
    sum_of-remove f id [] p h = ground arith
    sum_of-remove f id (q ∷ ps) p h = elim (Bool-cases (q.position_id == id)) [
      | inl hit ↦ ground arith
      | inr miss ↦ ground (
        arith,
        sum_of-remove f id ps p,
        add_left_comm (f q) (f p) (sum_of f (remove_position id ps)),
      )
    ]

    regroup_open : (c v s : Num) → num.add (num.sub c v) (num.add s v) ≡ num.add c s
    regroup_open c v s =
        add_left_comm (num.sub c v) s v ∙ ap (num.add s) (sub-add c v) ∙ add_comm s c

    regroup_close :
        (c a s b : Num) → num.add (num.add c (num.add a s)) (num.sub b a) ≡ num.add (num.add c b) s
    regroup_close c a s b =
        add_assoc c (num.add a s) (num.sub b a)
        ∙ ap (num.add c) (
            add_comm (num.add a s) (num.sub b a)
            ∙ sym (add_assoc (num.sub b a) a s)
            ∙ ap (λ t. num.add t s) (sub-add b a))
        ∙ sym (add_assoc c b s)

    -- The balance of the books, with every open position a long one.
    record IsBalanced (s : PaperBrokerState Num) : Type 0 where
      books :
          num.add s.account.starting_cash_balance (earned s)
          ≡ num.add s.account.cash_balance (invested s)
      long : All (λ (p : PaperPosition Num). p.side ≡ buy) s.open_positions

    open-IsBalanced :
        (s : PaperBrokerState Num) (order : OrderRequest Num)
        → order.side ≡ buy
        → IsBalanced s
        → IsBalanced (after_open s order)
    unfolding after_open opened
    open-IsBalanced s order long b = record {
      books =
          b.books
          ∙ sym (
              regroup_open s.account.cash_balance (num.mul order.quantity order.price) (invested s))
          ∙ ap (num.add (num.sub s.account.cash_balance (num.mul order.quantity order.price)))
              (sym (sum_of-append cost s.open_positions (opened s order)));
      long =
          All-append (λ (p : PaperPosition Num). p.side ≡ buy) s.open_positions
            (opened s order ∷ []) b.long (long, tt);
    }

    long_of_found :
        (id : String) (ps : List (PaperPosition Num)) (p : PaperPosition Num)
        → find_position id ps ≡ some p
        → All (λ (q : PaperPosition Num). q.side ≡ buy) ps
        → p.side ≡ buy
    unfolding find_position
    long_of_found id [] p h l = ground arith
    long_of_found id (q ∷ ps) p h l = ground (arith, long_of_found id ps p)

    long-remove :
        (id : String) (ps : List (PaperPosition Num))
        → All (λ (q : PaperPosition Num). q.side ≡ buy) ps
        → All (λ (q : PaperPosition Num). q.side ≡ buy) (remove_position id ps)
    unfolding remove_position
    long-remove id [] l = tt
    long-remove id (q ∷ ps) l = ground (arith, long-remove id ps l.1)

    -- The result of a long trade is what it sold for less what it cost.
    pnl_lem :
        (s : PaperBrokerState Num) (p : PaperPosition Num) (price : Num) (time : Timestamp)
        (reason : String)
        → p.side ≡ buy
        → (completed s p price time reason).realised_pnl
          ≡ num.sub (num.mul p.quantity price) (cost p)
    unfolding completed direction
    pnl_lem s p price time reason long =
        rw (long, direction)
          (mul-one (num.mul (num.sub price p.entry_price) p.quantity)
            ∙ sub-mul price p.entry_price p.quantity
            ∙ cc (mul_comm price p.quantity, mul_comm p.entry_price p.quantity))

    close-IsBalanced :
        (s : PaperBrokerState Num) (p : PaperPosition Num) (price : Num) (time : Timestamp)
        (reason : String)
        → find_position p.position_id s.open_positions ≡ some p
        → IsBalanced s
        → IsBalanced (after_close s p price (completed s p price time reason))
    unfolding after_close
    close-IsBalanced s p price time reason found b = record {
      books =
          ap (num.add s.account.starting_cash_balance)
            (sum_of-append (λ (t : CompletedTrade Num). t.realised_pnl) s.completed_trades trade)
          ∙ sym (add_assoc s.account.starting_cash_balance (earned s) trade.realised_pnl)
          ∙ ap₂ num.add (b.books ∙ ap (num.add s.account.cash_balance) split)
              (pnl_lem s p price time reason long)
          ∙ regroup_close s.account.cash_balance (cost p) rest (num.mul p.quantity price);
      long = long-remove p.position_id s.open_positions b.long;
    }
      where
        trade : CompletedTrade Num
        trade = completed s p price time reason

        rest : Num
        rest = sum_of cost (remove_position p.position_id s.open_positions)

        split : invested s ≡ num.add (cost p) rest
        split = sum_of-remove cost p.position_id s.open_positions p found

        long : p.side ≡ buy
        long = long_of_found p.position_id s.open_positions p found b.long

    place-IsBalanced :
        (w : World Num) (order : OrderRequest Num)
        → IsBalanced w.state
        → IsBalanced (place_market_order order w).1.state
    unfolding place_market_order
    place-IsBalanced w order b = elim (Option-cases (refusal w.state order)) [
      | inl fills ↦
          rw (fills, place_market_order)
            (open-IsBalanced w.state order (refusal-none w order fills).long b)
      | inr (e, refused) ↦ rw (refused, place_market_order) b
    ]

    close_position-IsBalanced :
        (w : World Num) (id : String) (price : Num) (time : Timestamp) (reason : String)
        → IsBalanced w.state
        → IsBalanced (close_position id price time reason w).1.state
    unfolding close_position
    close_position-IsBalanced w id price time reason b =
        elim (Option-cases (find_position id w.state.open_positions)) [
          | inl missing ↦ rw (missing, close_position) b
          | inr (p, found) ↦
              rw (found, close_position)
                (close-IsBalanced w.state p price time reason
                  (subst (λ i. find_position i w.state.open_positions ≡ some p)
                    (sym (found_id id w.state.open_positions p found)) found)
                  b)
        ]

    run-IsBalanced :
        (w : World Num) (cs : List (Call Num)) → IsBalanced w.state → IsBalanced (run w cs).state
    unfolding run
    run-IsBalanced w [] b = b
    run-IsBalanced w (place order ∷ cs) b =
        run-IsBalanced (place_market_order order w).1 cs (place-IsBalanced w order b)
    run-IsBalanced w (close id price time reason ∷ cs) b =
        run-IsBalanced (close_position id price time reason w).1 cs
          (close_position-IsBalanced w id price time reason b)

    starting_kept :
        (w : World Num) (cs : List (Call Num))
        → (run w cs).state.account.starting_cash_balance ≡ w.state.account.starting_cash_balance
    unfolding run
    starting_kept w [] = refl
    starting_kept w (place order ∷ cs) =
        starting_kept (place_market_order order w).1 cs
        ∙ elim (Option-cases (refusal w.state order)) [
          | inl fills ↦ unfold place_market_order after_open in rw (fills, place_market_order)
          | inr (e, refused) ↦ unfold place_market_order in rw (refused, place_market_order)
        ]
    starting_kept w (close id price time reason ∷ cs) =
        starting_kept (close_position id price time reason w).1 cs
        ∙ elim (Option-cases (find_position id w.state.open_positions)) [
          | inl missing ↦ unfold close_position in rw (missing, close_position)
          | inr (p, found) ↦ unfold close_position after_close in rw (found, close_position)
        ]

    -- Whatever orders and closes a fresh account sees, the money put in plus the results of the
    -- completed trades is the cash plus the cost of the open positions, in exact arithmetic.
    pub run-create-balanced :
        (stored : Option (PaperBrokerState Num)) (cash : Num) (cs : List (Call Num))
        → let s = (run (create stored cash true) cs).state in
          num.add cash (earned s) ≡ num.add s.account.cash_balance (invested s)
    unfolding create sum_of
    run-create-balanced stored cash cs =
        subst (λ c. num.add c (earned s) ≡ num.add s.account.cash_balance (invested s))
          (starting_kept start cs)
          (run-IsBalanced start cs (record { books = refl; long = tt })).books
      where
        start : World Num
        start = create stored cash true

        s : PaperBrokerState Num
        s = (run start cs).state
