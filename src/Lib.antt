-- ===== src/Lib.antt =====
-- Verification of ratio: a bot that opens a like-count market between a post and its answer on X,
-- takes stakes by mentions, and settles after a day.
--
-- The program. `RatioEngine` (apps/agent/src/engine.ts) polls mentions, resolves the pair of tweets
-- that a mention points at, opens a market on a chain, places the stakes that mentions ask for,
-- samples likes, and settles the markets that are due. It talks to X (x.ts), to wallets
-- (wallets.ts) and to a chain (packages/chain/src/index.ts) through interfaces, keeps its records in
-- a store (store.ts), and is driven by timers (main.ts). Apart from it, a subgraph (subgraph/src)
-- indexes the events of the chain: markets, trades, positions, users and claims. The fee split of a
-- launch is turned into what the chain's initializer accepts by packages/chain/src/evm/beneficiaries.ts,
-- and `EvmMarketChain` (packages/chain/src/evm/index.ts) is the chain that the engine bets on: it
-- opens markets, swaps stakes, settles and claims by transactions of a node; `DopplerMarketChain`
-- (packages/chain/src/solana.ts) does so on Solana, through packages/doppler/src. The web
-- application (apps/web) stands behind an access wall, and has a scanner that alerts to markets.
--
-- The files.
--   Base            names passed on from the libraries; tests, lists, maps and integers over the
--                   native numbers.
--   Flow            async methods as a monad, for the engine, the chain client and the web's bets;
--                   Ends is the
--                   rules that follow a method step by step.
--   Texts           texts as the codes of their characters: letter case, addresses, hexadecimal data.
--   Store           apps/agent/src/store.ts: Records (the records), Memory (`InMemoryStore`), Boards
--                   (its boards); and apps/agent/src/storeSupabase.ts: Rows (`toRow`, `fromRow`),
--                   Supabase (`saveMarket`, `updateMarket`, `hydrate`). Ranking, Columns and
--                   Mirror are proofs, Tests applies them.
--   Engine          apps/agent/src/engine.ts: World (what it works on, and the services), Monad
--                   (async methods), Bets (`placeBet` and the stake branch of `handleMention`), Shares
--                   (the fee merge), Creation (`resolvePair`, `createMarket`), Settlement
--                   (`resolveMarket`), Loops (`tick`, the crons, `reportHidden`), Runs (the crons of
--                   apps/agent/src/main.ts). The other modules are proofs: Frames and Walk are
--                   rules that follow a method step by step; Once, Fees, Invariant,
--                   Reports, Runs, Orders, Success, Closing, Payouts, Rescues and Verdicts hold what is
--                   proved; Tests applies it to a small world.
--   Index           subgraph/src: Entities (subgraph/schema.graphql and shared.ts), Handlers
--                   (factory.ts, oracle.ts, swaps.ts, migrator.ts); Totals, Balance, Keys and Synced are
--                   proofs,
--                   Tests applies them to one market.
--   Chain           packages/chain/src/evm: Beneficiaries (beneficiaries.ts); Payees and Accepted are
--                   proofs, Tests applies them to a split. Evm is `EvmMarketChain` (index.ts): Node
--                   (transactions, reads and their answers), Logs (what receipts tell), Client (the
--                   shared steps), Markets and Settle (the methods); Trace is what the shared steps
--                   send, Known the tokens and amounts that they find, Verdict, Claims, Openings, Stakes, Patience and Progress hold what is proved, Tests
--                   applies it to a node. Serial is `SerialQueue` (serial.ts), with the proofs Order and
--                   InFlight; Price is `coinbaseEthUsd` (price.ts), with the proof Freshness. Subgraph
--                   is `RatioSubgraph` (subgraph.ts): Rows and Client, with the proof Agreement and
--                   Tests. Mock is `MockMarketChain` (packages/chain/src/index.ts), with the proofs
--                   Steps, Frozen and Quotes and Tests.
--   Mention         apps/agent/src/parse.ts: Regex (how its expressions match), Patterns
--                   (the expressions), Parse (`parseMention`); Steps, Printing and Short are proofs, Tests applies them.
--   Doppler         packages/doppler/src and packages/chain/src/solana.ts: Node (the SDK, the node and
--                   instructions), Tx (tx.ts), Markets and Trades (pairMarket.ts), Chain
--                   (`DopplerMarketChain`, solana.ts). Sends is what retries submit, Plans what stands
--                   on the chain after several transactions; Plans, Sponsors, Stakes and Restart hold what is
--                   proved, Rebuilt what they use, Tests applies it to a small node.
--   Web             apps/web: Access (lib/access.ts) and Wall (middleware.ts), Scanner
--                   (lib/scanner.ts), BetServer (lib/betServer.ts); Matched, Firing and Ledger are proofs, Tests
--                   applies them.
--
-- How it is modelled. A method is a function from a world, the store and the history of calls, to a
-- result and a world, so changes made before an error stay. The answer of every service (X, the
-- wallets, the chain, the clock) is a function of the whole history of calls: nothing is assumed
-- about it but what a theorem says. The lower-casing of handles is a service too, and so is the
-- parser of mentions, which Mention models by itself. Texts that the bot posts are kept as template and values. Dollars are whole
-- millionths and implied probabilities millionths, where the source has floating-point numbers;
-- times are whole milliseconds from the epoch. Jobs run one after another, as timers of one process
-- that never overlap with themselves; interleavings of two jobs at an `await` are not modelled. The
-- time limit on a launch counts as a launch that throws. Loops are structural recursion over the
-- lists that they walk, so no fuel is needed. In the index, an identifier is a text, a counter is an
-- i32 by its 32 bits, and a total a natural number; the graph library (bytes, hashes, the reading of
-- an i32, which may abort) is a parameter, and an entity is saved under its id. In the chain client, what the node, the signers and the
-- price source answer is a function of the calls so far, a value that cannot be encoded counts as a
-- call that throws, and so does a price that is missing or negative; the data of a log is hexadecimal. Its waits
-- are recursion on the rounds that are left, thirty as in the source. Its transactions run one after
-- another in a method; how those of several methods interleave is the queue's model, where promises
-- start and settle by explicit steps, as calls and responses do in that of the price.
-- On Solana, the addresses and instructions that the SDK derives are parameters, a signer is its address, and
-- the loops of retries and polls are recursion on the rounds that are left, four and sixty as in the source.
-- The simulated chain keeps a floating-point number by its bits, with its arithmetic as a parameter. A regular
-- expression is matched by recursion on it and on the text; an amount is the decimal that is written.
-- A character counts as one unit of UTF-16 where a text is cut.
-- In the scanner, ratios are compared exactly, minutes are whole, the clock is read once in an operation,
-- and the state is one that has been loaded.
-- The database is a parameter too, with laws on what an upsert and an update do to the row of an id;
-- a column whose value is not of the type that a cast names is refused.
--
-- Not modelled: the trader leaderboard and the open positions of the store, which divide and compare
-- floating-point numbers; the clients of X and of the custody service, the SDK of the Solana programs, and the filters of the database, whose
-- work is network calls; the wording of posts; pages, routes and displays of the web
-- application, and its server of wallets;
-- the simulations; the Solidity contracts.
pub mod Base
pub mod Chain
pub mod Doppler
pub mod Engine
pub mod Flow
pub mod Index
pub mod Mention
pub mod Store
pub mod Texts
pub mod Web
