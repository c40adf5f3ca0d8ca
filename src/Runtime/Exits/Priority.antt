-- ===== src/Runtime/Exits/Priority.antt =====
-- The order of the exit triggers.
use trading_intelligence.Common.{ℕ, Bool, true, not, ◌≡◌, ◌↔◌, ◌≤◌, arith, some}
use trading_intelligence.Common.Numbers.{Numbers}
use trading_intelligence.Domain.Market.{
  ExitTrigger, kill_switch, stop_loss, take_profit, strategy_disabled, max_holding_duration,
  opposing_signal,
}
use trading_intelligence.Runtime.Exits.{
  EvaluateExitTriggerInput, evaluate_exit_trigger, stop_hit, target_hit, held_too_long, is_sell,
}

-- The place of a trigger in the order that the source's comment gives, the most urgent first.
unfoldable pub rank : ExitTrigger → ℕ
rank kill_switch = 0
rank stop_loss = 1
rank take_profit = 2
rank strategy_disabled = 3
rank max_holding_duration = 4
rank opposing_signal = 5

module _ {Num : Type 0} ⦃num : Numbers Num⦄ where
  -- Whether there is this reason to close the position.
  unfoldable pub is_due : EvaluateExitTriggerInput Num → ExitTrigger → Bool
  is_due input kill_switch = input.kill_switch_enabled
  is_due input stop_loss = stop_hit input
  is_due input take_profit = target_hit input
  is_due input strategy_disabled = not input.strategy_still_enabled
  is_due input max_holding_duration = held_too_long input
  is_due input opposing_signal = is_sell input.fresh_decision.action

  fired_is_due :
      (input : EvaluateExitTriggerInput Num) (t : ExitTrigger)
      → evaluate_exit_trigger input ≡ some t
      → is_due input t ≡ true
  unfolding evaluate_exit_trigger is_due
  fired_is_due input kill_switch e = ground arith
  fired_is_due input stop_loss e = ground arith
  fired_is_due input take_profit e = ground arith
  fired_is_due input strategy_disabled e = ground arith
  fired_is_due input max_holding_duration e = ground arith
  fired_is_due input opposing_signal e = ground arith

  fired_is_first :
      (input : EvaluateExitTriggerInput Num) (t u : ExitTrigger)
      → evaluate_exit_trigger input ≡ some t
      → is_due input u ≡ true
      → rank t ≤ rank u
  unfolding evaluate_exit_trigger is_due rank
  fired_is_first input t kill_switch e due = ground arith
  fired_is_first input t stop_loss e due = ground arith
  fired_is_first input t take_profit e due = ground arith
  fired_is_first input t strategy_disabled e due = ground arith
  fired_is_first input t max_holding_duration e due = ground arith
  fired_is_first input t opposing_signal e due = ground arith

  first_fires :
      (input : EvaluateExitTriggerInput Num) (t : ExitTrigger)
      → is_due input t ≡ true
      → ((u : ExitTrigger) → is_due input u ≡ true → rank t ≤ rank u)
      → evaluate_exit_trigger input ≡ some t
  unfolding evaluate_exit_trigger is_due rank
  first_fires input kill_switch due first = ground arith
  first_fires input stop_loss due first = ground (arith, first kill_switch)
  first_fires input take_profit due first = ground (arith, first kill_switch, first stop_loss)
  first_fires input strategy_disabled due first =
      ground (arith, first kill_switch, first stop_loss, first take_profit)
  first_fires input max_holding_duration due first =
      ground (arith, first kill_switch, first stop_loss, first take_profit, first strategy_disabled)
  first_fires input opposing_signal due first = ground (
    arith,
    first kill_switch,
    first stop_loss,
    first take_profit,
    first strategy_disabled,
    first max_holding_duration,
  )

  -- A trigger fires exactly if there is its reason to close the position and no reason of a more urgent
  -- trigger, in the order KILL_SWITCH, STOP_LOSS, TAKE_PROFIT, STRATEGY_DISABLED, MAX_HOLDING_DURATION,
  -- OPPOSING_SIGNAL.
  pub evaluate_exit_trigger_iff :
      (input : EvaluateExitTriggerInput Num) (t : ExitTrigger)
      → (evaluate_exit_trigger input ≡ some t)
        ↔ ((is_due input t ≡ true) × ((u : ExitTrigger) → is_due input u ≡ true → rank t ≤ rank u))
  evaluate_exit_trigger_iff input t = (
    λ e. (fired_is_due input t e, λ u. fired_is_first input t u e),
    λ (due, first). first_fires input t due first,
  )
