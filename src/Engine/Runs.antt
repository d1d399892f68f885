-- ===== src/Engine/Runs.antt =====
-- Any sequence of the engine's entry points, in any order: what apps/agent/src/main.ts schedules
-- as timers and what the extension's clients report, one at a time.
use ratio.Base.{List, [], ◌∷◌, String}
use ratio.Store.Memory.{empty}
use ratio.Engine.World.{Services, EngineConfig, World}
use ratio.Engine.Monad.{M}
use ratio.Engine.Frames.{Moves}
use ratio.Engine.Loops.{tick, resolve_due_markets, sample_likes_due_markets, report_hidden}
use ratio.Engine.Invariant.{
  IsSoundStore, Keeps, tick-Keeps, resolve_due_markets-Keeps, sample_likes_due_markets-Keeps,
}
use ratio.Engine.Reports.{report_hidden-Keeps}

pub data Action : Type 0 where
  mentions settlement likes_sampler : Action
  hidden_report : (market_id reporter_id : String) → Action

abbrev pub start : World
start = record { store = empty; history = [] }

module _ (services : Services) (config : EngineConfig) where
  unfoldable pub perform : Action → M (Unit {0})
  perform mentions = tick services config
  perform settlement = resolve_due_markets services config
  perform likes_sampler = sample_likes_due_markets services config
  perform (hidden_report id reporter) = report_hidden services config id reporter

  -- A cron logs what its job throws, and goes on.
  unfoldable pub run : List Action → World → World
  run [] w = w
  run (a ∷ jobs) w = run jobs (perform a w).1

  perform-Keeps : (a : Action) → Moves (Keeps config) (perform a)
  unfolding perform
  perform-Keeps mentions = tick-Keeps services config
  perform-Keeps settlement = resolve_due_markets-Keeps services config
  perform-Keeps likes_sampler = sample_likes_due_markets-Keeps services config
  perform-Keeps (hidden_report id reporter) = report_hidden-Keeps config services id reporter

  run-Keeps : (jobs : List Action) (w : World) → (Keeps config).Rel w (run jobs w)
  unfolding run
  run-Keeps [] w h = h
  run-Keeps (a ∷ jobs) w h = run-Keeps jobs _ ((perform-Keeps a).rel w h)

-- Whatever X, the wallets and the chain answer, and in whatever order the jobs run and reports
-- come in from the start, every market of the store stands once, under the id of its side B,
-- between two authors of whom the first is not the tagger, about an answer that was fresh; it
-- closes one market duration after it opened, has a winner exactly when it is not open, and
-- carries the badge only with enough distinct reporters.
pub run-IsSoundStore :
    (services : Services) (config : EngineConfig) (jobs : List Action)
    → IsSoundStore config (run services config jobs start).store
run-IsSoundStore services config jobs =
    run-Keeps services config jobs start (record { sound = tt; unique = tt })
