-- ===== src/Chain/Serial.antt =====
-- `SerialQueue` (packages/chain/src/evm/serial.ts): the promises that `run` chains, and how they
-- come to run and settle, in any interleaving.
use ratio.Base.{
  ℕ, zero, suc, ◌+◌, Bool, true, false, ◌&&◌, Option, none, some, List, [], ◌∷◌, if◌then◌else◌,
  nat_eq, ◌==◌, length,
}
use ratio.Base.Maps.{get, set}
use ratio.Texts.{Text, text_eq, lower}
pub mod Order
pub mod InFlight

-- What a promise of `run` is at: `fn` is yet to be called, it was called, its promise has settled,
-- with `true` where it was fulfilled.
pub data Phase : Type 0 where
  waiting running : Phase
  settled : (fulfilled : Bool) → Phase

abbrev pub is_waiting : Phase → Bool
is_waiting waiting = true
is_waiting _ = false

abbrev pub is_running : Phase → Bool
is_running running = true
is_running _ = false

abbrev pub is_settled : Phase → Bool
is_settled (settled fulfilled) = true
is_settled _ = false

-- `next`, behind the promise that it was chained to, if there was one.
pub record Job : Type 0 where
  pub id : ℕ
  pub key : Text
  pub previous : Option ℕ
  pub phase : Phase

-- The promises that `run` has made, the latest first, and the tail for every key.
pub record Queue : Type 0 where
  pub jobs : List Job
  pub tails : List (Text × ℕ)

abbrev pub empty : Queue
empty = record { jobs = []; tails = [] }

-- A `run`, up to its `return`.
unfoldable pub run : Text → Queue → Queue
run key q =
    let k = lower key in
    let id = length q.jobs in
    record {
      jobs = record { id = id; key = k; previous = get k q.tails; phase = waiting } ∷ q.jobs;
      tails = set k id q.tails;
    }

-- Whether that promise has settled, among those that are there.
unfoldable pub has_settled : ℕ → List Job → Bool
has_settled id [] = false
has_settled id (j ∷ js) = if j.id == id then is_settled j.phase else has_settled id js

-- `prev.then(fn, fn)` calls `fn` once `prev` has settled, in either way; `Promise.resolve()` has.
unfoldable pub is_ready : Option ℕ → List Job → Bool
is_ready none js = true
is_ready (some id) js = has_settled id js

-- The promise's `fn` is called, if it can be.
unfoldable pub start : ℕ → List Job → List Job
start id [] = []
start id (j ∷ js) =
    if j.id == id
    then (if is_waiting j.phase && is_ready j.previous js
        then record j { phase = running } ∷ js
        else j ∷ js)
    else j ∷ start id js

-- What `fn` returned settles.
unfoldable pub settle : ℕ → Bool → List Job → List Job
settle id fulfilled [] = []
settle id fulfilled (j ∷ js) =
    if j.id == id
    then (if is_running j.phase then record j { phase = settled fulfilled } ∷ js else j ∷ js)
    else j ∷ settle id fulfilled js

pub data Event : Type 0 where
  asked : (key : Text) → Event
  started : (id : ℕ) → Event
  ended : (id : ℕ) → (fulfilled : Bool) → Event

unfoldable pub step : Event → Queue → Queue
step (asked key) q = run key q
step (started id) q = record q { jobs = start id q.jobs }
step (ended id fulfilled) q = record q { jobs = settle id fulfilled q.jobs }

-- The latest event first.
unfoldable pub play : List Event → Queue
play [] = empty
play (e ∷ es) = step e (play es)
