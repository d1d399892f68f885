-- ===== src/Chain/Serial/Order.antt =====
-- The promises of `SerialQueue` (packages/chain/src/evm/serial.ts) for one key run in their order.
use ratio.Base.{
  ℕ, suc, ◌<◌, ◌≡◌, refl, ◌∙◌, sym, ap, Bool, true, false, ◌&&◌, Option, none, some, List, [], ◌∷◌,
  if◌then◌else◌, nat_eq, ◌==◌, eq_of_beq, subst, length, arith, Bool-cases, inl, inr,
}
use ratio.Base.Maps.{get, get-set}
use ratio.Texts.{Text, text_eq, lower}
use ratio.Chain.Serial.{
  Phase, waiting, running, settled, is_waiting, is_running, is_settled, Job, Queue, run,
  has_settled, is_ready, start, settle, Event, asked, started, ended, step, play,
}

-- Every promise for the key has settled.
abbrev pub AllSettled : Text → List Job → Type 0
AllSettled k [] = Unit
AllSettled k (j ∷ js) = (j.key == k ≡ true → is_settled j.phase ≡ true) × AllSettled k js

-- A promise that is past waiting has only settled ones of its key before it.
abbrev pub IsOrdered : List Job → Type 0
IsOrdered [] = Unit
IsOrdered (j ∷ js) = (is_waiting j.phase ≡ false → AllSettled j.key js) × IsOrdered js

-- The latest promise for a key.
abbrev pub latest : Text → List Job → Option ℕ
latest k [] = none
latest k (j ∷ js) = if j.key == k then some j.id else latest k js

abbrev pub IsLinked : List Job → Type 0
IsLinked [] = Unit
IsLinked (j ∷ js) = (j.id ≡ length js) × (j.previous ≡ latest j.key js) × IsLinked js

pub record IsSerial (q : Queue) : Type 0 where
  pub ordered : IsOrdered q.jobs
  pub linked : IsLinked q.jobs
  pub tails : (k : Text) → get k q.tails ≡ latest k q.jobs

pub latest-below :
    (k : Text) (js : List Job) (i : ℕ) → IsLinked js → latest k js ≡ some i → i < length js
latest-below k [] i h e = cc
latest-below k (j ∷ js) i h e = elim (Bool-cases (j.key == k)) [
  | inl same ↦ ground (arith, h.0)
  | inr other ↦ ground (arith, latest-below k js i h.2)
]

-- Where the latest promise for a key has settled, all of them have.
settled_behind :
    (k : Text) (js : List Job) (i : ℕ)
    → IsLinked js
    → IsOrdered js
    → latest k js ≡ some i
    → has_settled i js ≡ true
    → AllSettled k js
unfolding has_settled
settled_behind k [] i l o e h = cc
settled_behind k (j ∷ js) i l o e h = elim (Bool-cases (j.key == k)) [
  | inl same ↦
      let done : is_settled j.phase ≡ true = ground arith in
      let past : is_waiting j.phase ≡ false = ground (arith, done) in
      let same_key : j.key ≡ k = eq_of_beq j.key k same in
      (λ _. done, subst (λ x. AllSettled x js) same_key (o.0 past))
  | inr other ↦
      let below = latest-below k js i l.2 (ground arith) in
      (
        λ h'. cc (h', other),
        settled_behind k js i l.2 o.1 (ground arith) (ground (arith, l.0, below)),
      )
]

none_behind : (k : Text) (js : List Job) → latest k js ≡ none → AllSettled k js
none_behind k [] e = tt
none_behind k (j ∷ js) e = elim (Bool-cases (j.key == k)) [
  | inl same ↦ absurd (ground arith)
  | inr other ↦ (λ h. cc (h, other), none_behind k js (ground arith))
]

-- Starting and settling a promise leave the chain as it is.
pub record KeepsChain (js js' : List Job) : Type 0 where
  pub same_length : length js' ≡ length js
  pub same_latest : (k : Text) → latest k js' ≡ latest k js
  pub keeps_settled : (k : Text) → AllSettled k js → AllSettled k js'

keep_head : (j : Job) (js js' : List Job) → KeepsChain js js' → KeepsChain (j ∷ js) (j ∷ js')
keep_head j js js' h = record {
  same_length = ap suc h.same_length;
  same_latest = λ k. ap (λ o. if j.key == k then some j.id else o) (h.same_latest k);
  keeps_settled = λ k a. (a.0, h.keeps_settled k a.1);
}

keep_all : (js : List Job) → KeepsChain js js
keep_all js = record { same_length = refl; same_latest = λ k. refl; keeps_settled = λ k a. a }

start-KeepsChain : (id : ℕ) (js : List Job) → KeepsChain js (start id js)
unfolding start
start-KeepsChain id [] = keep_all []
start-KeepsChain id (j ∷ js) = elim (Bool-cases (j.id == id)) [
  | inr other ↦ rw other (keep_head j js (start id js) (start-KeepsChain id js))
  | inl same ↦ rw same (elim (Bool-cases (is_waiting j.phase && is_ready j.previous js)) [
    | inr blocked ↦ rw blocked (keep_all (j ∷ js))
    | inl may ↦ rw may (record {
      same_length = refl;
      same_latest = λ k. refl;
      keeps_settled = λ k a. (λ e. absurd (unsettled j.phase (ground arith) (a.0 e)), a.1);
    })
  ])
]
  where
    unsettled : (p : Phase) → is_waiting p ≡ true → is_settled p ≡ true → ⊥
    unsettled waiting h e = cc e
    unsettled running h e = cc h
    unsettled (settled f) h e = cc h

settle-KeepsChain : (id : ℕ) (f : Bool) (js : List Job) → KeepsChain js (settle id f js)
unfolding settle
settle-KeepsChain id f [] = keep_all []
settle-KeepsChain id f (j ∷ js) = elim (Bool-cases (j.id == id)) [
  | inr other ↦ rw other (keep_head j js (settle id f js) (settle-KeepsChain id f js))
  | inl same ↦ rw same (elim (Bool-cases (is_running j.phase)) [
    | inr idle ↦ rw idle (keep_all (j ∷ js))
    | inl runs ↦ rw runs (record {
      same_length = refl;
      same_latest = λ k. refl;
      keeps_settled = λ k a. (λ _. refl, a.1);
    })
  ])
]

ready_behind :
    (k : Text) (js : List Job) (previous : Option ℕ)
    → IsLinked js
    → IsOrdered js
    → previous ≡ latest k js
    → is_ready previous js ≡ true
    → AllSettled k js
unfolding is_ready
ready_behind k js none l o e h = none_behind k js (sym e)
ready_behind k js (some i) l o e h = settled_behind k js i l o (sym e) h

-- Both facts about the promises, kept by a change of one phase.
abbrev IsChain : List Job → Type 0
IsChain js = IsOrdered js × IsLinked js

IsChain-behind :
    (j : Job) (js js' : List Job)
    → KeepsChain js js'
    → IsChain (j ∷ js)
    → IsChain js'
    → IsChain (j ∷ js')
IsChain-behind j js js' h c c' = (
  (λ past. h.keeps_settled j.key (c.0.0 past), c'.0),
  (c.1.0 ∙ sym h.same_length, c.1.1 ∙ sym (h.same_latest j.key), c'.1),
)

start-IsChain : (id : ℕ) (js : List Job) → IsChain js → IsChain (start id js)
unfolding start
start-IsChain id [] c = c
start-IsChain id (j ∷ js) c = elim (Bool-cases (j.id == id)) [
  | inr other ↦ rw other (
      IsChain-behind j js (start id js) (start-KeepsChain id js) c
        (start-IsChain id js (c.0.1, c.1.2)))
  | inl same ↦ rw same (elim (Bool-cases (is_waiting j.phase && is_ready j.previous js)) [
    | inr blocked ↦ rw blocked c
    | inl may ↦ rw may (
      (λ _. ready_behind j.key js j.previous c.1.2 c.0.1 c.1.1 (ground arith), c.0.1),
      (c.1.0, c.1.1, c.1.2),
    )
  ])
]

settle-IsChain : (id : ℕ) (f : Bool) (js : List Job) → IsChain js → IsChain (settle id f js)
unfolding settle
settle-IsChain id f [] c = c
settle-IsChain id f (j ∷ js) c = elim (Bool-cases (j.id == id)) [
  | inr other ↦ rw other (
      IsChain-behind j js (settle id f js) (settle-KeepsChain id f js) c
        (settle-IsChain id f js (c.0.1, c.1.2)))
  | inl same ↦ rw same (elim (Bool-cases (is_running j.phase)) [
    | inr idle ↦ rw idle c
    | inl runs ↦ rw runs ((λ _. c.0.0 (past j.phase runs), c.0.1), (c.1.0, c.1.1, c.1.2))
  ])
]
  where
    past : (p : Phase) → is_running p ≡ true → is_waiting p ≡ false
    past waiting h = cc h
    past running h = refl
    past (settled g) h = refl

step-IsSerial : (e : Event) (q : Queue) → IsSerial q → IsSerial (step e q)
unfolding step run
step-IsSerial (asked key) q h = record {
  ordered = (λ past. cc past, h.ordered);
  linked = (refl, h.tails (lower key), h.linked);
  tails = λ k.
      get-set (lower key) k (length q.jobs) q.tails
      ∙ ap (λ o. if lower key == k then some (length q.jobs) else o) (h.tails k);
}
step-IsSerial (started id) q h =
    let c = start-IsChain id q.jobs (h.ordered, h.linked) in
    record {
      ordered = c.0;
      linked = c.1;
      tails = λ k. h.tails k ∙ sym ((start-KeepsChain id q.jobs).same_latest k);
    }
step-IsSerial (ended id f) q h =
    let c = settle-IsChain id f q.jobs (h.ordered, h.linked) in
    record {
      ordered = c.0;
      linked = c.1;
      tails = λ k. h.tails k ∙ sym ((settle-KeepsChain id f q.jobs).same_latest k);
    }

pub play-IsSerial : (es : List Event) → IsSerial (play es)
unfolding play get
play-IsSerial [] = record { ordered = tt; linked = tt; tails = λ k. refl }
play-IsSerial (e ∷ es) = step-IsSerial e (play es) (play-IsSerial es)
