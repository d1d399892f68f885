-- ===== src/Chain/Price.antt =====
-- `coinbaseEthUsd` (packages/chain/src/evm/price.ts): a price that is kept for a while, and fetched once
-- for all the callers that wait for it. A price is in millionths of a dollar.
use ratio.Base.{
  ℕ, ◌+◌, Bool, true, false, Option, none, some, List, [], ◌∷◌, String, nat_eq, ◌==◌, ltb, leb,
  if◌then◌else◌, or_else,
}
use ratio.Flow.{Result, ok, throw}
pub mod Freshness

pub record CoinbasePriceOpts : Type 0 where
  pub ttl_ms : Option ℕ
  pub max_stale_ms : Option ℕ

abbrev pub ttl_of : CoinbasePriceOpts → ℕ
ttl_of opts = or_else opts.ttl_ms 60000

abbrev pub max_stale_of : CoinbasePriceOpts → ℕ
max_stale_of opts = or_else opts.max_stale_ms 600000

pub record Rate : Type 0 where
  pub usd : ℕ
  pub at_ms : ℕ

-- What a request comes to: it fails, its status is an error, or its body has an amount, which is
-- `none` where it is absent, no finite number, or negative.
pub data Response : Type 0 where
  unreachable : (message : String) → Response
  refused : (status : ℕ) → Response
  spot : (amount : Option ℕ) → Response

-- What has happened, for the record.
pub data Entry : Type 0 where
  requested failed : Entry
  loaded : Rate → Entry
  asked : (caller : ℕ) → Entry
  answered : (caller at_ms : ℕ) → (outcome : Result ℕ) → Entry

pub record Source : Type 0 where
  pub cached : Option Rate
  pub inflight : Bool
  -- The callers that await the request in flight.
  pub waiting : List ℕ
  pub log : List Entry

abbrev pub fresh_source : Source
fresh_source = record { cached = none; inflight = false; waiting = []; log = [] }

-- What `load` makes of a response.
unfoldable pub load_result : Response → Result ℕ
load_result (unreachable message) = throw message
load_result (refused status) = throw "coinbase spot"
load_result (spot none) = throw "coinbase spot returned an unusable price"
load_result (spot (some usd)) =
    if usd == 0 then throw "coinbase spot returned an unusable price" else ok usd

-- A cached rate, while it is younger than `life`.
unfoldable pub young : ℕ → ℕ → Option Rate → Option ℕ
young life now none = none
young life now (some r) = if ltb now (r.at_ms + life) then some r.usd else none

-- The callers of a failed request: a rate that is not too old, or the error.
unfoldable pub fallback : CoinbasePriceOpts → ℕ → Option Rate → Result ℕ
fallback opts now none = throw "no usable ETH price"
fallback opts now (some r) =
    if leb now (r.at_ms + max_stale_of opts) then ok r.usd else throw "no usable ETH price"

unfoldable pub answer_all : ℕ → Result ℕ → List ℕ → List Entry → List Entry
answer_all now outcome [] log = log
answer_all now outcome (c ∷ cs) log = answered c now outcome ∷ answer_all now outcome cs log

-- A caller that finds no young rate waits, and requests one if no request is in flight.
unfoldable pub await_rate : ℕ → Source → Source
await_rate caller s = record s {
  inflight = true;
  waiting = caller ∷ s.waiting;
  log = if s.inflight then asked caller ∷ s.log else requested ∷ asked caller ∷ s.log;
}

unfoldable pub ask : CoinbasePriceOpts → ℕ → ℕ → Source → Source
ask opts caller now s = elim (young (ttl_of opts) now s.cached) [
  | some usd ↦ record s { log = answered caller now (ok usd) ∷ asked caller ∷ s.log }
  | none ↦ await_rate caller s
]

-- The request in flight comes to an end.
unfoldable pub land : CoinbasePriceOpts → ℕ → Result ℕ → Source → Source
land opts now (ok usd) s =
    let r : Rate = record { usd = usd; at_ms = now } in
    record {
      cached = some r;
      inflight = false;
      waiting = [];
      log = answer_all now (ok usd) s.waiting (loaded r ∷ s.log);
    }
land opts now (throw message) s = record s {
  inflight = false;
  waiting = [];
  log = answer_all now (fallback opts now s.cached) s.waiting (failed ∷ s.log);
}

pub data Event : Type 0 where
  called : (caller now : ℕ) → Event
  responded : Response → (now : ℕ) → Event

unfoldable pub step : CoinbasePriceOpts → Event → Source → Source
step opts (called caller now) s = ask opts caller now s
step opts (responded response now) s =
    if s.inflight then land opts now (load_result response) s else s

-- The latest event first.
unfoldable pub play : CoinbasePriceOpts → List Event → Source
play opts [] = fresh_source
play opts (e ∷ es) = step opts e (play opts es)
