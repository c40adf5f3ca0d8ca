-- ===== src/Approval/Builder.antt =====
-- trade-approval/build-trade-candidate.ts: the levels and the input of a candidate.
use trading_intelligence.Common.{ℕ, ◌+◌, String, [], Option, get_or_else}
use trading_intelligence.Common.Numbers.{Numbers, max}
use trading_intelligence.Common.Time.{iso}
use trading_intelligence.Approval.Candidates.{TradeCandidateInput}
use trading_intelligence.Domain.Market.{MarketDecision, MarketDecisionContext, MarketDataSnapshot}
use trading_intelligence.Domain.Orders.{OrderSide, OrderSizingMode}

pub record TradeLevels (Num : Type 0) : Type 0 where
  pub entry_price : Num
  pub stop_loss : Num
  pub take_profit : Num
  pub risk_reward : Num

pub record BuildTradeCandidateInputOptions (Num : Type 0) : Type 0 where
  pub decision : MarketDecision Num
  pub context : MarketDecisionContext Num
  pub market_data_snapshot : MarketDataSnapshot Num
  pub amount : Num
  pub sizing_mode : OrderSizingMode
  pub analysis_run_id : Option String
  pub now : ℕ
  pub expiry_ms : ℕ

module _ {Num : Type 0} ⦃num : Numbers Num⦄ where
  -- 1.5, 2 and 0.001
  abbrev pub atr_stop_multiplier : Num
  atr_stop_multiplier = num.div (num.lit 3) (num.lit 2)

  abbrev pub reward_risk_ratio : Num
  reward_risk_ratio = num.lit 2

  abbrev pub min_stop_distance_ratio : Num
  min_stop_distance_ratio = num.div (num.lit 1) (num.lit 1000)

  abbrev pub stop_distance : MarketDecisionContext Num → Num → Num
  stop_distance context entry =
      max (num.mul context.atr14 atr_stop_multiplier) (num.mul entry min_stop_distance_ratio)

  unfoldable pub compute_trade_levels : MarketDecisionContext Num → OrderSide → TradeLevels Num
  unfolding max
  compute_trade_levels context OrderSide.buy =
      let stop = stop_distance context context.ask in
      record {
        entry_price = context.ask;
        stop_loss = num.sub context.ask stop;
        take_profit = num.add context.ask (num.mul stop reward_risk_ratio);
        risk_reward = reward_risk_ratio;
      }
  compute_trade_levels context OrderSide.sell =
      let stop = stop_distance context context.bid in
      record {
        entry_price = context.bid;
        stop_loss = num.add context.bid stop;
        take_profit = num.sub context.bid (num.mul stop reward_risk_ratio);
        risk_reward = reward_risk_ratio;
      }

  -- Called with the side of a decision that is BUY or SELL.
  unfoldable pub build_trade_candidate_input :
      BuildTradeCandidateInputOptions Num → OrderSide → TradeCandidateInput Num
  unfolding compute_trade_levels
  build_trade_candidate_input options side =
      let levels = compute_trade_levels options.context side in
      record {
        analysis_run_id = options.analysis_run_id;
        strategy_id = options.context.strategy.strategy_id;
        strategy_version = options.context.strategy.version;
        instrument = options.context.instrument;
        side = side;
        confidence = options.decision.confidence;
        entry_price = levels.entry_price;
        stop_loss = levels.stop_loss;
        take_profit = levels.take_profit;
        risk_reward = levels.risk_reward;
        reasoning = options.decision.reasoning;
        validation_notes = get_or_else options.decision.validation_notes [];
        expires_at = iso (options.now + options.expiry_ms);
        execution = record {
          market_context = options.context;
          market_data_snapshot = options.market_data_snapshot;
          amount = options.amount;
          sizing_mode = options.sizing_mode;
        };
      }
