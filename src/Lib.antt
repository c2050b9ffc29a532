-- ===== src/Lib.antt =====
-- Yield Forge, the Go back end of an assistant for personal investments (internal/, cmd/).
--
-- Parts and files:
-- * internal/platform/money, the arithmetic that all others share: Money.Ratio (ratio.go: ShareBps,
--   AccrueSimpleInterest, WeightedMeanBps, ApplyBps), Money.Allocate (AllocateBps) and Money.Decimal
--   (money.go: DecimalToMinor). Money.HalfUp describes rounding without any code, and
--   Money.Allocate.Reference the largest-remainder method on exact numbers.
-- * internal/marketdata, tickers, sectors, indicators and quotes: Marketdata.Ticker, .Sector,
--   .Indicator, .Quote; Marketdata.Postgres (postgres/postgres.go, their store), Marketdata.Sources
--   (watchlist.go, ingest/holdings_source.go and ingest/composite_source.go, the tickers to fetch) and
--   Marketdata.Ingest (ingest/worker.go, a run of the ingestion); .Kept and .Counts hold proofs.
-- * internal/portfolio, holdings: Portfolio.Holding and .Build (their data and how they are built from
--   input), Portfolio.Service (the operations over the repository of ports.go), and
--   Portfolio.Postgres (portfolio/postgres, that repository over its two tables, with its statements in
--   .Statements); .Validity, .Described, .Rates, .Ownership, Postgres.Isolation and Postgres.Runs
--   hold proofs.
-- * internal/dashboard, totals and breakdowns over holdings and quotes: Dashboard.Compute
--   (compute.go) and Dashboard.Service (service.go); .Reconcile, .Sectors, .Shares,
--   .Totals and .Fetch hold proofs.
-- * internal/projection, income and net worth in three scenarios: Projection.Compute; .NetWorth and
--   .Income hold proofs.
-- * internal/profile, an investor's profile: Profile.Values (the parsers), Profile.Service (service.go
--   over the repository of ports.go) and Profile.Postgres (postgres/postgres.go); .Objectives and
--   .Saved hold proofs.
-- * internal/health, a score from 0 to 100: Health.Compute, and Health.Inputs for what service.go
--   reads from dashboard, holdings, profile and policy rate; .Score and .Target hold proofs.
-- * internal/rebalancing, the split of a contribution: Rebalancing.Split (split.go, contribution.go
--   and the arithmetic of engine.go) and Rebalancing.Candidates (the grounding guard of engine.go);
--   .Whole, .Illustrative and .Grounded hold proofs.
-- * internal/insight, the gate round generated texts: Insight.Gate (gate.go, advice.go), and the cache
--   of results in front of it: Insight.Cache (factory/memcache.go, factory/cached.go); .Capacity,
--   .SameRequest and .Provenance hold proofs.
-- * internal/auth, accounts and sessions: Auth (auth.go, token.go), Auth.Service (service.go over the
--   ports of ports.go), Auth.Bcrypt (bcrypt/bcrypt.go) and Auth.Postgres (postgres/postgres.go);
--   .WellFormed, .Reachable, .Sessions and .Accounts hold proofs.
-- * internal/platform/config, the configuration from the environment: Config (the data and the methods),
--   Config.Env (the readers and the .env file), Config.Blocks and Config.Load (Load); .Checks, .Validity
--   and .DotEnv hold proofs.
-- * internal/transport/http/holdings.go, the handlers of the holdings: Transport.Holdings, on
--   Portfolio.Service; .Rejected holds proofs.
-- Base holds integers, texts, association lists, tables, operations on a state and errors; Tests runs
-- the code at concrete inputs.
--
-- Conventions. A function of the source has its name in snake case. An int64, and an int, is an
-- integer whose operations wrap around at 64 bits (Base.Int64); the products of big.Int are exact and
-- only the final Int64 wraps. A text is its list of code points, as in valid UTF-8, and the tables of
-- package unicode beyond ASCII are the parameter Unicode. A map is an association list, with the zero
-- value on a missing key where the source reads it so. An error is the sentinel that errors.Is finds,
-- and `failure n` is any other; the wrapped messages are left out. A time is a count of nanoseconds.
-- A closed string type is a data type, with `unset` where its zero value "" is reachable. Readers of
-- other parts and of stores are arguments that answer as they do during one request. A store over SQL
-- is a record of tables, as lists of rows in the order of insertion; each statement is modelled as
-- PostgreSQL runs it, with its casts, unique indexes, foreign keys and integer columns. What the
-- database draws or rounds is the parameter Database, and it answers every statement. Calls of a
-- service follow one another; what is drawn at random, and the reading of the clock, are arguments.
--
-- Bounds and fuel. ShareBps calls itself on the negated part: share_bps_fuel counts the calls, and
-- share_bps gives it two, which are enough for every part but the least int64, on which the source
-- does not return; the model of share_bps has 0 there. All other loops run over lists or counters.
--
-- Not modelled: the other HTTP handlers and the JSON adapters, logging and telemetry, which are glue
-- round libraries; outages of the database; the time that a call takes; the formatted notes, messages
-- and explanations, which no decision reads; the prompts and the providers of generated text; the
-- adapters that fetch market data; the listings over all users or all quotes; chat and its store.
pub mod Auth
pub mod Config
pub mod Base
pub mod Money
pub mod Marketdata
pub mod Portfolio
pub mod Dashboard
pub mod Projection
pub mod Profile
pub mod Health
pub mod Insight
pub mod Rebalancing
pub mod Transport
pub mod Tests
