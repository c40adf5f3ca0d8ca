-- ===== src/Broker/Local.antt =====
-- `LocalPaperBroker` over the in-memory store.
pub mod Interface
pub mod Positions
pub mod Invariant
pub mod Accounts
use trading_intelligence.Common.{
  ℕ, suc, ◌+◌, String, Bool, true, false, ◌&&◌, List, [], ◌∷◌, ◌++◌, Option, none, some, any, find,
  ◌==◌, if◌then◌else◌, Result, ok, err, M, ◌>>=◌, ◌>>◌, return, throw, get_or_else,
}
use trading_intelligence.Common.Decimal.{numbered}
use trading_intelligence.Common.Numbers.{Numbers}
use trading_intelligence.Common.Time.{Timestamp}
use trading_intelligence.Domain.Orders.{
  Account, PaperPosition, CompletedTrade, OrderRequest, OrderSide, buy, sell,
}
use trading_intelligence.Broker.{
  BrokerError, only_long_supported, quantity_not_positive, insufficient_cash, already_open,
  no_open_position,
}

pub record PaperBrokerState (Num : Type 0) : Type 0 where
  pub account : Account Num
  pub open_positions : List (PaperPosition Num)
  pub completed_trades : List (CompletedTrade Num)
  pub next_order_seq : ℕ
  pub next_position_seq : ℕ
  pub next_trade_seq : ℕ

unfoldable pub initial_paper_broker_state : {Num : Type 0} → Num → PaperBrokerState Num
initial_paper_broker_state starting_cash = record {
  account = record { cash_balance = starting_cash; starting_cash_balance = starting_cash };
  open_positions = [];
  completed_trades = [];
  next_order_seq = 0;
  next_position_seq = 0;
  next_trade_seq = 0;
}

-- The broker's own state, and what the store holds (`null` before the first save).
pub record World (Num : Type 0) : Type 0 where
  pub state : PaperBrokerState Num
  pub saved : Option (PaperBrokerState Num)

unfoldable pub is_long : OrderSide → Bool
is_long buy = true
is_long sell = false

module _ {Num : Type 0} where
  -- `store.save(this.state)`
  abbrev save : M (World Num) (BrokerError Num) (Unit {0})
  save w = (ok tt, record w { saved = some w.state })

  abbrev get_state : M (World Num) (BrokerError Num) (PaperBrokerState Num)
  get_state w = (ok w.state, w)

  abbrev put_state : PaperBrokerState Num → M (World Num) (BrokerError Num) (Unit {0})
  put_state s w = (ok tt, record w { state = s })

  -- `create`: a reset ignores what the store holds; either way the state is saved at once.
  unfoldable pub create : Option (PaperBrokerState Num) → Num → Bool → World Num
  unfolding initial_paper_broker_state
  create stored starting_cash reset_state =
      let loaded = if reset_state then none else stored in
      let state = get_or_else loaded (initial_paper_broker_state starting_cash) in
      record { state = state; saved = some state }

  unfoldable pub has_duplicate : String → String → List (PaperPosition Num) → Bool
  has_duplicate strategy_id instrument positions =
      any (λ p. (p.strategy_id == strategy_id) && (p.instrument == instrument)) positions

  unfoldable pub find_position : String → List (PaperPosition Num) → Option (PaperPosition Num)
  find_position id positions = find (λ p. p.position_id == id) positions

  -- `splice(index, 1)` at the first position with this id.
  unfoldable pub remove_position : String → List (PaperPosition Num) → List (PaperPosition Num)
  remove_position id [] = []
  remove_position id (p ∷ ps) = if p.position_id == id then ps else p ∷ remove_position id ps

  -- The position that an accepted order opens, under the next two numbers.
  unfoldable pub opened : PaperBrokerState Num → OrderRequest Num → PaperPosition Num
  unfolding numbered
  opened s order = record {
    position_id = numbered "position-" (s.next_position_seq + 1);
    strategy_id = order.strategy_id;
    strategy_version = order.strategy_version;
    source_type = order.source_type;
    instrument = order.instrument;
    side = order.side;
    quantity = order.quantity;
    entry_price = order.price;
    entry_timestamp = order.timestamp;
    entry_order_id = numbered "order-" (s.next_order_seq + 1);
    take_profit_percent = order.take_profit_percent;
    stop_loss_percent = order.stop_loss_percent;
    broker_position_id = none;
  }

module _ {Num : Type 0} ⦃num : Numbers Num⦄ where
  -- The four refusals of `placeMarketOrder`, in their order.
  unfoldable pub refusal : PaperBrokerState Num → OrderRequest Num → Option (BrokerError Num)
  unfolding is_long has_duplicate
  refusal s order =
      if is_long order.side
      then if num.le order.quantity (num.lit 0)
        then some (quantity_not_positive order.quantity)
        else if num.lt s.account.cash_balance (num.mul order.quantity order.price)
        then some (insufficient_cash (num.mul order.quantity order.price) s.account.cash_balance)
        else if has_duplicate order.strategy_id order.instrument s.open_positions
        then some (already_open order.strategy_id order.instrument)
        else none
      else some (only_long_supported order.side)

  unfoldable pub after_open : PaperBrokerState Num → OrderRequest Num → PaperBrokerState Num
  unfolding opened
  after_open s order = record s {
    account = record {
      cash_balance = num.sub s.account.cash_balance (num.mul order.quantity order.price);
      starting_cash_balance = s.account.starting_cash_balance;
    };
    open_positions = s.open_positions ++ opened s order ∷ [];
    next_order_seq = s.next_order_seq + 1;
    next_position_seq = s.next_position_seq + 1;
  }

  unfoldable pub place_market_order :
      OrderRequest Num → M (World Num) (BrokerError Num) (PaperPosition Num × String)
  unfolding refusal after_open
  place_market_order order w = elim (refusal w.state order) [
    | some e ↦ throw e w
    | none ↦
        (do
          put_state (after_open w.state order)
          save
          return (opened w.state order, numbered "order-" (w.state.next_order_seq + 1)))
          w
  ]

  unfoldable pub direction : OrderSide → Num
  direction buy = num.lit 1
  direction sell = num.neg (num.lit 1)

  -- The trade that closing a position completes.
  unfoldable pub completed :
      PaperBrokerState Num → PaperPosition Num → Num → Timestamp → String → CompletedTrade Num
  unfolding direction numbered
  completed s p exit_price exit_timestamp close_reason = record {
    trade_id = numbered "trade-" (s.next_trade_seq + 1);
    position_id = p.position_id;
    strategy_id = p.strategy_id;
    strategy_version = p.strategy_version;
    source_type = p.source_type;
    instrument = p.instrument;
    side = p.side;
    quantity = p.quantity;
    entry_price = p.entry_price;
    entry_timestamp = p.entry_timestamp;
    entry_order_id = p.entry_order_id;
    exit_price = exit_price;
    exit_timestamp = exit_timestamp;
    exit_order_id = numbered "order-" (s.next_order_seq + 1);
    realised_pnl =
        num.mul (num.mul (num.sub exit_price p.entry_price) p.quantity) (direction p.side);
    close_reason = close_reason;
  }

  unfoldable pub after_close :
      PaperBrokerState Num → PaperPosition Num → Num → CompletedTrade Num → PaperBrokerState Num
  unfolding remove_position
  after_close s p exit_price trade = record s {
    account = record {
      cash_balance = num.add s.account.cash_balance (num.mul p.quantity exit_price);
      starting_cash_balance = s.account.starting_cash_balance;
    };
    open_positions = remove_position p.position_id s.open_positions;
    completed_trades = s.completed_trades ++ trade ∷ [];
    next_order_seq = s.next_order_seq + 1;
    next_trade_seq = s.next_trade_seq + 1;
  }

  unfoldable pub close_position :
      String
      → Num
      → Timestamp
      → String
      → M (World Num) (BrokerError Num) (CompletedTrade Num × String)
  unfolding find_position completed after_close
  close_position id exit_price exit_timestamp close_reason w =
      elim (find_position id w.state.open_positions) [
        | none ↦ throw (no_open_position id) w
        | some p ↦
            let trade = completed w.state p exit_price exit_timestamp close_reason in
            (do
              put_state (after_close w.state p exit_price trade)
              save
              return (trade, trade.exit_order_id))
              w
      ]
