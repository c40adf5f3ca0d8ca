-- ===== src/Broker/Local/Invariant.antt =====
-- What any sequence of orders and closes keeps true of the local broker.
use trading_intelligence.Common.{
  ◌+◌, String, true, false, ◌≡◌, refl, List, [], ◌∷◌, Option, none, some, arith, err, is_ok,
  find-passes, Option-cases, ◌↔◌, inl, inr, ◌==◌, eq_iff,
}
use trading_intelligence.Common.Decimal.{numbered}
use trading_intelligence.Common.Numbers.{Numbers}
use trading_intelligence.Common.Time.{Timestamp}
use trading_intelligence.Domain.Orders.{PaperPosition, OrderRequest, buy}
use trading_intelligence.Broker.{no_open_position}
use trading_intelligence.Broker.Local.{
  PaperBrokerState, World, create, place_market_order, close_position, opened, refusal,
  has_duplicate, find_position, is_long,
}
use trading_intelligence.Broker.Local.Positions.{
  Numbered, OnePerSlot, Numbered-append, Numbered-remove, find-remove, OnePerSlot-remove,
  OnePerSlot-append,
}

pub data Call (Num : Type 0) : Type 0 where
  place : OrderRequest Num → Call Num
  close : String → Num → Timestamp → String → Call Num

-- The position ids rise with the counter, so no two are equal; a strategy has at most one position
-- on an instrument; and the store holds the state that is in memory.
pub record IsConsistent {Num : Type 0} (w : World Num) : Type 0 where
  pub ids : Numbered 0 w.state.next_position_seq w.state.open_positions
  pub slots : OnePerSlot w.state.open_positions
  pub persisted : w.saved ≡ some w.state

-- What an order must satisfy to be filled.
pub record IsFillable {Num : Type 0} ⦃num : Numbers Num⦄ (w : World Num) (order : OrderRequest Num)
    : Type 0 where
  pub long : order.side ≡ buy
  pub positive : num.le order.quantity (num.lit 0) ≡ false
  pub affordable : num.lt w.state.account.cash_balance (num.mul order.quantity order.price) ≡ false
  pub fresh : has_duplicate order.strategy_id order.instrument w.state.open_positions ≡ false

module _ {Num : Type 0} ⦃num : Numbers Num⦄ where
  unfoldable pub step : World Num → Call Num → World Num
  step w (place order) = (place_market_order order w).1
  step w (close id price time reason) = (close_position id price time reason w).1

  unfoldable pub run : World Num → List (Call Num) → World Num
  unfolding step
  run w [] = w
  run w (c ∷ cs) = run (step w c) cs

  pub refusal-none :
      (w : World Num) (order : OrderRequest Num) → refusal w.state order ≡ none → IsFillable w order
  unfolding refusal is_long
  refusal-none w order h = record {
    long = ground arith;
    positive = ground arith;
    affordable = ground arith;
    fresh = ground arith;
  }

  fillable_no_refusal :
      (w : World Num) (order : OrderRequest Num) → IsFillable w order → refusal w.state order ≡ none
  unfolding refusal is_long
  fillable_no_refusal w order h = ground arith

  -- An order is filled exactly when it is long, for a positive quantity, within the cash, and the
  -- strategy has no position on the instrument; a refused order changes nothing.
  pub place_market_order-filled_iff :
      (w : World Num) (order : OrderRequest Num)
      → ((is_ok (place_market_order order w).0 ≡ true) ↔ IsFillable w order)
        × (is_ok (place_market_order order w).0 ≡ false → (place_market_order order w).1 ≡ w)
  unfolding place_market_order
  place_market_order-filled_iff w order = elim (Option-cases (refusal w.state order)) [
    | inl fills ↦ (
      rw (fills, place_market_order) (λ h. refusal-none w order fills, λ h. refl),
      λ h. ground arith,
    )
    | inr (e, refused) ↦ (
      ((λ h. ground arith), (λ h. ground (arith, fillable_no_refusal w order h))),
      rw (refused, place_market_order) (λ h. refl),
    )
  ]

  opened_id :
      (s : PaperBrokerState Num) (order : OrderRequest Num)
      → (opened s order).position_id ≡ numbered "position-" (s.next_position_seq + 1)
  unfolding opened
  opened_id s order = refl

  opened_slot :
      (w : World Num) (order : OrderRequest Num)
      → has_duplicate order.strategy_id order.instrument w.state.open_positions ≡ false
      → has_duplicate
          (opened w.state order).strategy_id
          (opened w.state order).instrument
          w.state.open_positions
        ≡ false
  unfolding opened
  opened_slot w order h = h

  place-IsConsistent :
      (w : World Num) (order : OrderRequest Num)
      → IsConsistent w
      → IsConsistent (place_market_order order w).1
  unfolding place_market_order
  place-IsConsistent w order c = elim (Option-cases (refusal w.state order)) [
    | inl fills ↦
        rw (fills, place_market_order)
          (record {
            ids =
                Numbered-append 0 w.state.next_position_seq w.state.open_positions
                  (opened w.state order) (omega arith) (opened_id w.state order) c.ids;
            slots =
                OnePerSlot-append w.state.open_positions (opened w.state order)
                  (opened_slot w order (refusal-none w order fills).fresh) c.slots;
            persisted = refl;
          })
    | inr (e, refused) ↦ rw (refused, place_market_order) c
  ]

  close-IsConsistent :
      (w : World Num) (id : String) (price : Num) (time : Timestamp) (reason : String)
      → IsConsistent w
      → IsConsistent (close_position id price time reason w).1
  unfolding close_position
  close-IsConsistent w id price time reason c =
      elim (Option-cases (find_position id w.state.open_positions)) [
        | inl missing ↦ rw (missing, close_position) c
        | inr (p, found) ↦
            rw (found, close_position)
              (record {
                ids =
                    Numbered-remove p.position_id 0 w.state.next_position_seq w.state.open_positions
                      c.ids;
                slots = OnePerSlot-remove p.position_id w.state.open_positions c.slots;
                persisted = refl;
              })
      ]

  run-IsConsistent :
      (w : World Num) (cs : List (Call Num)) → IsConsistent w → IsConsistent (run w cs)
  unfolding run
  run-IsConsistent w [] c = c
  run-IsConsistent w (place order ∷ cs) c =
      run-IsConsistent (place_market_order order w).1 cs (place-IsConsistent w order c)
  run-IsConsistent w (close id price time reason ∷ cs) c =
      run-IsConsistent (close_position id price time reason w).1 cs
        (close-IsConsistent w id price time reason c)

  -- From a fresh account, whatever orders and closes follow and whichever of them fail: position ids
  -- are all different, no strategy has two positions on an instrument, and the store holds exactly
  -- the state in memory.
  pub run-create-IsConsistent :
      (stored : Option (PaperBrokerState Num)) (cash : Num) (cs : List (Call Num))
      → IsConsistent (run (create stored cash true) cs)
  unfolding create
  run-create-IsConsistent stored cash cs =
      run-IsConsistent (create stored cash true) cs
        (record { ids = tt; slots = tt; persisted = refl })

  close_missing :
      (w : World Num) (id : String) (price : Num) (time : Timestamp) (reason : String)
      → find_position id w.state.open_positions ≡ none
      → close_position id price time reason w ≡ (err (no_open_position id), w)
  unfolding close_position
  close_missing w id price time reason missing = rw (missing, close_position)

  pub found_id :
      (id : String) (ps : List (PaperPosition Num)) (p : PaperPosition Num)
      → find_position id ps ≡ some p
      → p.position_id ≡ id
  unfolding find_position
  found_id id ps p h = (eq_iff p.position_id id).0 (find-passes (λ q. q.position_id == id) ps p h)

  close_position-gone :
      (w : World Num) (id : String) (price : Num) (time : Timestamp) (reason : String)
      → IsConsistent w
      → find_position id (close_position id price time reason w).1.state.open_positions ≡ none
  unfolding close_position
  close_position-gone w id price time reason c =
      elim (Option-cases (find_position id w.state.open_positions)) [
        | inl missing ↦ rw (missing, close_position) missing
        | inr (p, found) ↦
            rw (found, close_position, found_id id w.state.open_positions p found)
              (find-remove id 0 w.state.next_position_seq w.state.open_positions c.ids)
      ]

  -- In a consistent state, after a call that closes a position, or finds none to close, closing the
  -- same id again is refused and changes nothing.
  pub close_position_twice :
      (w : World Num) (id : String) (price later_price : Num) (time later : Timestamp)
      (reason again : String)
      → IsConsistent w
      → let w' = (close_position id price time reason w).1 in
        close_position id later_price later again w' ≡ (err (no_open_position id), w')
  close_position_twice w id price later_price time later reason again c =
      close_missing (close_position id price time reason w).1 id later_price later again
        (close_position-gone w id price time reason c)
