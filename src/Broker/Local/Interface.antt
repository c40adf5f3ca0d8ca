-- ===== src/Broker/Local/Interface.antt =====
-- `LocalPaperBroker implements PaperBroker`: the accessors hand out the fields of the state.
use trading_intelligence.Common.Numbers.{Numbers}
use trading_intelligence.Broker.{PaperBroker}
use trading_intelligence.Broker.Local.{World, place_market_order, close_position}

module _ {Num : Type 0} ⦃num : Numbers Num⦄ where
  unfoldable pub local_paper_broker : PaperBroker Num (World Num)
  unfolding place_market_order close_position
  local_paper_broker = record {
    get_account = λ w. w.state.account;
    get_open_positions = λ w. w.state.open_positions;
    get_completed_trades = λ w. w.state.completed_trades;
    place_market_order = place_market_order;
    close_position = close_position;
  }
