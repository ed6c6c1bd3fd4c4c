-- ===== src/Lib.antt =====
-- MSS, a market analysis and paper trading system: its shadow-live risk and decision layer.
--
-- The system trades on paper ("shadow"). Every event of a paper position goes to an append-only
-- journal, one per symbol; after a restart the open positions are recovered from the journals,
-- their risk is aggregated, and a new candidate must pass the eligibility gate and the portfolio
-- governor before a position is opened. A safety decision over the whole session can block all of
-- it. The parts, with their code:
--
--   Common       what the parts share: texts, dictionaries, floats, integers
--   Governor     src/mss/analysis/portfolio_risk_governor.py
--     Eligibility  MarketEligibilityGate.evaluate, the spread and staleness gate
--     Tags         PortfolioRiskGovernor._normalize_exposure_tags
--     Portfolio    PortfolioRiskGovernor.evaluate, with its loops as functions over the positions
--   Profiles     src/mss/analysis/instrument_profile_registry.py, the table of instruments
--   RiskState    src/mss/analysis/shadow_portfolio_risk_state.py: Position is build_position,
--                Snapshot is snapshot and governor_positions
--   Journal      src/mss/analysis/shadow_trade_journal.py: Json the decoded values, Chain is
--                _read_events and verify, Append is append_event,
--                Transaction the lock around it, with the steps of several processes in between
--   Recovery     src/mss/analysis/shadow_portfolio_risk_recovery.py: Replay is the loop over the
--                events, Keys the dictionary of open positions, OpenIds a description without it
--   Aggregator   src/mss/analysis/shadow_portfolio_risk_aggregator.py: Sources is the loop that
--                checks the sources, Sort the sort of them, Gather the loop over their journals
--   VirtualPosition  src/mss/analysis/virtual_position_engine.py: Engine is the class, Lifecycle the
--                steps that a position can take
--   Safety       Decision is src/mss/analysis/shadow_live_safety_governor.py, Facts is
--                src/mss/analysis/shadow_live_runtime_safety_adapter.py
--   Continuity   src/mss/analysis/shadow_portfolio_continuity_policy.py
--   Arbitrator   src/mss/analysis/multi_symbol_candidate_arbitrator.py; Index describes the
--                dictionary of its candidates
--   Entry        Signal and Strategy are src/mss/analysis/frozen_shadow_strategy_adapter.py, its
--                signals and its entries; Watcher is src/mss/analysis/causal_next_candle_entry_watcher.py
--   Heartbeat    src/mss/analysis/shadow_live_runtime_heartbeat.py, with Beats for the runs of it
--   Telemetry    src/mss/analysis/shadow_live_runtime_telemetry.py, the counters of a session
--   Supervisor   src/mss/analysis/shadow_live_runtime_supervisor.py; History is a description of a
--                session by its rounds, Session the rounds that the supervisor accepts
--   Sizing       src/mss/analysis/shadow_risk_calculator.py, the volume of a trade
--   Valuation    src/mss/analysis/shadow_trade_valuation.py, its profit
--   ShadowTrade  src/mss/analysis/shadow_trade_engine.py: Open is open_trade with Override for its
--                volume_override, Update is update_trade; it stands on Sizing, VirtualPosition,
--                Valuation and Journal
--   PositionRecovery  src/mss/analysis/shadow_position_recovery.py, the open position of one
--                journal; Events is its loop
--   CarryForward src/mss/analysis/shadow_portfolio_carry_forward.py: Events reads the journals,
--                Source holds the checks that both calls begin with, Import what the import stages
--                and inspect_consumption, Commit the rest of import_open_position
--   Structure    src/mss/analysis/structure_state.py
--   Restart      src/mss/analysis/demo_broker_shadow_restart_reconciler.py
--   OfflineClosure  src/mss/analysis/demo_broker_offline_closure_reconciler.py, of which Deals
--                has the data and Legacy reconcile_legacy
--
-- Modules named Laws, Admission, Limits, Invariant, Distinct, Binding, Opening, Updates, Pairs,
-- Single, Found, Closed, Allowed, Order, Choice, Timing, Activation, Contract, Health, Trend,
-- Match, Counters, Judging, Rounds, Again, Bounds, Closing, Committed, Keyed, ReadBack,
-- Recovered, Serial and Success hold proofs, those named Examples hold tests and concrete
-- instances.
--
-- How the code is represented:
--   * a dataclass is a record, a reason string a constructor named after it, None is none; an
--     exception that a caller can meet is an error value. A guard that rejects a value of another
--     Python type has no counterpart, since the definitions are typed;
--   * a text is the list of its code points. strip and upper are those of ASCII texts;
--   * floats are a type N with a record Float of operations, without laws, so that NaN is allowed
--     for. A literal is a ratio of two numbers. Examples use exact thousandths;
--   * a JSON value is a data type; json, hashlib, str, float and int on such values are the record
--     Library, whose operations are arguments of the definitions. RoundTrips and ShowsPrevious state
--     what a theorem needs of json: that an encoded event is read back, and that the encoding of an
--     event shows the hash before it;
--   * the terminal's symbols and valuations are the record Terminal, and the rounding of floats the
--     record Rounding, arguments likewise. ReadsBack states of json that the texts and numbers of an
--     event stay at their keys;
--   * a file is none where it does not exist, and else the list of its lines, each complete. The
--     resolution of paths and the files of a directory are arguments; a path that has been
--     resolved resolves to itself;
--   * loops are structural recursions over lists, so nothing runs on fuel.
--
-- Not modelled: a lock of the journal that fails for another reason than being held; failing reads
-- and writes, and a line cut short; the callback before the write, which append_event does not pass; the index of
-- the journal in a database; the detectors and the signal pipeline; the terminal adapters, the
-- experiments, the backtests and the reports, which are calls of a terminal, files and numerical
-- work.
pub mod Common
pub mod Governor
pub mod Profiles
pub mod RiskState
pub mod Journal
pub mod Recovery
pub mod Aggregator
pub mod VirtualPosition
pub mod Safety
pub mod Continuity
pub mod Arbitrator
pub mod Entry
pub mod Heartbeat
pub mod Structure
pub mod Restart
pub mod OfflineClosure
pub mod Telemetry
pub mod Supervisor
pub mod Sizing
pub mod Valuation
pub mod ShadowTrade
pub mod PositionRecovery
pub mod CarryForward
