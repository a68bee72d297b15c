-- ===== src/Lib.antt =====
-- pretrend_ai: market regimes from macro and price features, a next-step signal, an allocation, a simulated
-- portfolio and the orders of a paper broker.
--
-- The parts and how they interact. The horizon deciders read the features of a day and give a mid regime and a
-- short signal, and the regime of the macro series gives the long phase. The transition engine walks over the days of these
-- labels in order: it counts the episodes of each state and their survival, scores the day, and carries a
-- 20-day bias from row to row with a cooldown and a hysteresis. The position engine turns the labels of a day
-- into two hard gates, the policy selector adds the numbers of a policy, and the allocation engine carries the
-- invested ratio from row to row. The rebalancer mixes core weights with tactical ones, and the portfolio
-- trades towards them. The paper simulation runs the gates, the rebalancer and the portfolio over the days.
-- The execution planner turns a target ratio into orders for the broker's account, the trading task picks the
-- plan of the weekday, and the order manager places the orders and cancels the ones that are not filled. The Gold layer serves macro
-- observations as they were known before a trade date, and the similarity builder ranks past days.
--
-- The files and the code.
--   Base: shared names, Boolean tests, lists, integers, sorting (pandas' `sort_values`, as a stable sort),
--     counting (`collections.Counter.most_common`), dictionaries, and the floats. A float is a parameter, the
--     record FloatOps, because the language implements it; where a property needs laws of IEEE arithmetic they
--     are a record of hypotheses (OrderLaws, Strategy.Range.RatioLaws, Backtest.Solvency.SignLaws) or one law
--     (Similarity.Order.NegLaw), and the
--     decimals of twelve places in Base/Float obey them.
--   Regime.Labels: src/pretrend/observability/regime/horizon/schema.py. A label is a constructor.
--   Regime.Horizon.Short, Mid, Long: the deciders of horizon/short_engine.py, mid_engine.py and long_engine.py;
--     ShortAgreement and MidVotes hold their theorems.
--   Regime.Episodes: `_build_state_history` of transition/engine.py, which rotation/engine.py repeats, over any
--     type of states; PointInTime and Survival hold its theorems.
--   Regime.Rotation: rotation/engine.py, on Regime.Episodes; PointInTime holds its theorem.
--   Regime.Transition: the rest of transition/engine.py. Score: `_compute_horizon_biases` and
--     `compute_overlay_score`; Hysteresis: `apply_hysteresis`; Signal: `build_next_step_signal`, its loop state
--     a record; Switching and Runs: theorems on a row and on runs of rows.
--   Gold.Select, Gold.Calendar: src/pretrend/pipeline/features/gold_macro_features.py; PointInTime, Latest
--     and Cascade hold the theorems.
--   Similarity.TopN: src/pretrend/observability/similarity/builder.py; Ranking, Order and Replace hold the
--     theorems.
--   Strategy.Position: src/pretrend/observability/regime/position/engine.py and
--     src/pretrend/pipeline/strategy_engine/policy_selector/engine.py; Strategy.Allocation:
--     src/pretrend/pipeline/strategy_engine/allocation/engine.py; Gates, Range and HardGate: theorems.
--   Backtest.Portfolio, Rebalance: src/pretrend/pipeline/backtest/portfolio.py; Solvency and TradeOrder:
--     theorems; DecimalSigns: the law instance.
--   Backtest.Rebalancer: src/pretrend/pipeline/backtest/rebalancer.py, the target weights with their tactical part.
--   Backtest.Bias: the bias overlays of src/pretrend/pipeline/backtest/runner.py, in Day with their part of the
--     daily loop; Lock, Override and LookAhead: theorems on runs of days. Backtest.Tranche: the
--     runner's staged sale and weekly purchase, with their two errors; TrancheSales and TrancheSolvency: theorems on them.
--   Paper: src/pretrend/pipeline/paper/execution.py. Rebalance: `_rebalance_to_target`, with Trades, Priced and
--     Locks on its trades and its failures; Gates: the soft gate and the group gates, with RiskOff on them;
--     Simulation: `simulate_paper_execution`, its loop state the record Account, in the files Day (targets and
--     trades of a day), Close (guardrail and rows) and Run (a turn and the whole loop). DayTrades, Weekdays,
--     PricedTargets, Total, Tranches, Plan, PointInTime, LookAhead, Invariant, Days and WellFormed: lemmas and
--     theorems on it. Base.AsOf: the lookups of the latest rows at or before a day that it shares with the
--     rebalancer.
--   Broker.Trader, Execute, Orders: `execute_from_ledger_rows` of src/pretrend/pipeline/broker/order_manager.py;
--     OrderSafety, LedgerOrders and OrderCount: lemmas and theorems.
--   Broker.Planner, Targets: src/pretrend/pipeline/broker/execution_planner.py; Broker.TradingDay: the plan of a
--     weekday and the guardrail of dags/broker_mock_trading_dag.py; WeekdaySales composes plan and placing,
--     and Capital is on the loop over the months.
--   Broker.Kis: the token, the retry and the inquiry of fills of src/pretrend/pipeline/broker/kis_mock.py; Reload and
--     Retry: theorems.
--   Broker.Adapter, Unfilled: the interface of src/pretrend/pipeline/broker/base.py as a record over the outside
--     world, and `check_and_cancel_unfilled` of src/pretrend/pipeline/broker/order_manager.py; CancelSafety
--     and Coverage: theorems.
--   Scenarios: the theorems at concrete inputs, and tests.
--
-- Conventions. A date is its proleptic ordinal, a natural number, so that a Monday is a number that leaves 1
-- when divided by 7. A cell that is None or NaN is `none`. A frame is the list of its rows. A loop is structural
-- recursion on the rows, so nothing runs out of fuel, but for the loop over the months of
-- Broker.TradingDay, which runs on fuel; Broker.Capital says how much is enough. A survival probability is kept
-- as its numerator and denominator.
--
-- Not modelled: reading and writing of files, databases and networks, text for people, language models, the
-- arithmetic of rolling windows in the dataframe library, the joins of the horizon engines, the universe
-- selection, the rest of the backtest runner's loop, the requests and answers of the broker client, and the reconciliation of
-- positions.
pub mod Base
pub mod Regime
pub mod Gold
pub mod Similarity
pub mod Strategy
pub mod Backtest
pub mod Broker
pub mod Paper
pub mod Scenarios
