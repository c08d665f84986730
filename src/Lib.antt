-- ===== src/Lib.antt =====
-- The Bifrost IB gateway plugin (src/bifrost_plugin/ib_gateway): one process that holds the TWS
-- sessions of all environments, writes ticks, quotes, snapshots and health to redis-ib, and answers
-- commands from Redis streams.
--
-- The parts, and the files that model them:
--   protocol.py       Protocol: the operations, CommandMessage, is_expired, dumps_result,
--                     parse_stream_fields.
--   redis_keys.py     RedisKeys: the key names and the key functions.
--   operator.py       Operator: op_allowed_on_stream, process_entry (_process_entry), handle_read,
--                     poll and operator_loop. Log, Replies, Confine and Outage hold the proofs.
--   writer.py         Writer: the methods of GatewayRedisWriter by their names, without a leading
--                     underscore; Writer.Laws has the proofs.
--   on_demand.py,     OnDemand: list_fresh_on_demand_stk and list_fresh_on_demand_opt, which share
--   on_demand_opt.py  OnDemand.Keep.list_fresh; build_desired_stk_symbols; parse_opt_contract_key.
--   connection.py     Connection: the methods of SlotConnection on a Slot, which is the record
--                     SlotConnection with the world beside it. Connection.Awaits is connect cut at
--                     its awaits. Connect, Reach, Automaton, Phases, Alone, Interleaved, Failover and
--                     Backoff hold the proofs.
--   live.py           Live: the slots together (Live.State) and the self-healing (Live.SelfHeal).
--                     Heal, Ladder, Visits and Slots hold the proofs. Live.Orders is
--                     _refresh_order_reads and Live.MarketData _reconcile_host_market_data, with
--                     proofs in Absent and in Book. Live.OptCache is _register_on_demand_opt,
--                     _refresh_opt_cache_once and _opt_cache_loop, with the proofs in Live.CacheLaws.
--                     Live.Commands is handle_command and health_dict; Live.Reads says what its read
--                     operations leave as it is, and Live.Serve puts the gateway behind the operator
--                     loop. Live.Market
--                     is _market_loop, with the loop over its slots in Live.Accounts and the proofs
--                     in Sessions, Absent, GatherSound and MarketSound. Live.Health is _health_loop,
--                     with HealthSound and HealthOutage. Live.Turns lets the tasks of the gateway
--                     take turns, from LiveGateway.__init__ (new_live) on; CommandSound and Replies
--                     hold what it and App need of the commands.
--   mock.py           Mock: MockGateway with _mock_accounts (Mock.State), _tick_loop (Mock.Ticks),
--                     _refresh_opt_cache_once and _opt_cache_loop (Mock.OptCache), handle_command
--                     (Mock.Commands) and _health_loop (Mock.Health). Quotes, Prices, Turns,
--                     Symbols, Cache and Replies hold the proofs.
--   ib_ops.py         IbOps: _execution_contract_fields, with its proofs in IbOps.Fields; and by file
--                     the functions of these names: Accounts (position_to_dict, _managed_account_ids,
--                     fetch_accounts_snapshot_rows), OpenOrders (_order_to_dict, fetch_open_orders),
--                     Executions (fetch_executions), Quotes (fetch_underlying_price,
--                     fetch_option_quote_one_shot), Snapshot (fetch_option_snapshot,
--                     fetch_option_expirations). Streams and Selection hold proofs.
--   settings.py       Startup: of load_settings the slots and the watchlist, with _env_bool,
--                     _resolve_redis_port, _resolve_redis_host and _port_from_type; Startup.Load is
--                     GatewaySettings and load_settings. Slots, Start, Sources and Override
--                     hold the proofs. The records of settings that a part reads stand with it.
--   app.py            App: make_redis, the engine that run_gateway starts (start_engine), and its
--                     handle_command (engine_command); App.Answers has the proof.
--   log_filters.py    LogFilters: DropAccountEcho.filter is keeps_line; LogFilters.Laws has the
--                     proof.
--
-- The operator loop parses each entry with Protocol and writes results with Writer. The self-
-- healing reads the kill switch and the snapshot through Writer's keys, and disconnects and
-- connects the slots with Connection. The commands, the market loop and the option cache read TWS
-- through IbOps. App gives the operator loop either engine for a handler. Protocol.Reply has the
-- replies that both engines make. Prelude, Float, Text, Effects, Json and Redis carry what the
-- parts share; Effects.Keep has the actions that leave a part of the world, or a property of it,
-- as it is, and Effects.Returns those whose results have a property; OnDemand.Spares what a
-- listing leaves as it is; Operator.Reach says what serving a stream leaves as it is. Examples applies the theorems to concrete doubles.
--
-- Code that acts is a function from a world to an outcome and a world (Effects.Io): a write that
-- was made before an exception stays made. Parameters stand for what is not in the repository:
-- Redis (the redis client), Tws (ib_insync and asyncio as a slot uses them), Ib (the objects of
-- ib_insync and the calls on a connected session), Feed and Tickers (its streams in the market
-- loop), Waits and WithinRows (asyncio's sleep and wait_for), Python (json, str, int, float of any
-- value), Env (the clock, sleeping, the stop event), strftime, Random (random.uniform), and
-- read_float (float of a text).
-- The operator's handler is an argument, which Live.Serve fills with handle_command, and
-- Live.Market fills the interface OrderReads with the functions of IbOps. Hypotheses on the
-- parameters are named: Encodes, Answers, IsQuiet, HasRoom, HashWrites, RefusesSet, RefusesAll,
-- Conflicts, Watches, RunsOn, IsUniform, KeepsOrder, IsApart,
-- KeepsBook, Spares.
--
-- Numbers and texts: a text is the list of its code points, with ASCII letter case, digits and
-- numerals; a float is nan, an infinity, or an integer of ticks of one millionth of a second, so
-- rounding is not modelled but for round, which is a parameter. Delays of the reconnect loop are
-- whole milliseconds.
--
-- Fuel: the while loops of operator_loop, reconnect_loop, opt_cache_loop, market_loop, health_loop
-- and tick_loop take at most `fuel` rounds, so that a run that the stop event has not ended is cut
-- off there. The loop over the client ids has one round for each id, as in the source. Everything
-- else is structural recursion.
--
-- Not modelled: logging; the awaits as points where other tasks run, but for those of connect (in
-- the relation Piece the methods of a slot interleave at them; Step lets other tasks run between
-- the methods of a slot, and in Turn each round of a loop and each served stream runs without
-- interruption); enter_maintenance in Piece, as no code calls it; the cancellation of a task from
-- outside, other than by a deadline that the code itself sets; of load_settings the opening of the
-- file; the run methods of the engines and what run_gateway does with signals and tasks, which
-- only start and cancel the tasks; runner.py, which calls run_gateway, and config.py, two records
-- without operations.
pub mod Prelude
pub mod Float
pub mod Text
pub mod Effects
pub mod Json
pub mod Redis
pub mod RedisKeys
pub mod Protocol
pub mod Writer
pub mod Operator
pub mod OnDemand
pub mod Connection
pub mod Ib
pub mod IbOps
pub mod Live
pub mod Mock
pub mod Startup
pub mod App
pub mod LogFilters
pub mod Examples
