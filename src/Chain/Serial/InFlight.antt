-- ===== src/Chain/Serial/InFlight.antt =====
-- `SerialQueue` (packages/chain/src/evm/serial.ts) has one call in flight for each key, and a failure
-- does not hold up the calls behind it.
use ratio.Base.{
  ℕ, ◌+◌, ◌≤◌, ◌<◌, ◌≡◌, ◌≢◌, refl, sym, Bool, true, false, ◌&&◌, Option, none, some, List, [], ◌∷◌,
  if◌then◌else◌, nat_eq, ◌==◌, eq_of_beq, ne_of_beq, subst, length, arith, Bool-cases, inl, inr,
}
use ratio.Texts.{Text, text_eq, lower}
use ratio.Chain.Serial.{
  Phase, waiting, running, settled, is_waiting, is_running, is_settled, Job, has_settled, is_ready,
  start, Event, play,
}
use ratio.Chain.Serial.Order.{AllSettled, IsOrdered, latest, latest-below, IsLinked, play-IsSerial}

-- How many promises of a key are in a phase.
abbrev pub count : (Phase → Bool) → Text → List Job → ℕ
count p k [] = 0
count p k (j ∷ js) = let rest = count p k js in if j.key == k && p j.phase then 1 + rest else rest

settled_idle : (k : Text) (js : List Job) → AllSettled k js → count is_running k js ≡ 0
settled_idle k [] a = refl
settled_idle k (j ∷ js) a = elim (Bool-cases (j.key == k)) [
  | inr other ↦ ground (arith, other, settled_idle k js a.1)
  | inl same ↦ ground (arith, same, idle j.phase (a.0 same), settled_idle k js a.1)
]
  where
    idle : (p : Phase) → is_settled p ≡ true → is_running p ≡ false
    idle waiting h = refl
    idle running h = cc h
    idle (settled f) h = refl

one_running : (k : Text) (js : List Job) → IsOrdered js → count is_running k js ≤ 1
one_running k [] o = omega arith
one_running k (j ∷ js) o = elim (Bool-cases (j.key == k && is_running j.phase)) [
  | inr other ↦ rw other (one_running k js o.1)
  | inl runs ↦
      let same_key : j.key ≡ k = eq_of_beq j.key k (ground arith) in
      let behind = o.0 (past j.phase (ground arith)) in
      rw runs (omega (arith, settled_idle k js (subst (λ x. AllSettled x js) same_key behind)))
]
  where
    past : (p : Phase) → is_running p ≡ true → is_waiting p ≡ false
    past waiting h = cc h
    past running h = refl
    past (settled f) h = refl

-- Whatever is asked for, started and settled in whatever order, at most one call is in flight for a
-- key, letter case aside.
pub play-one_running :
    (es : List Event) (key : Text) → count is_running (lower key) (play es).jobs ≤ 1
play-one_running es key = one_running (lower key) (play es).jobs (play-IsSerial es).ordered

all_settled :
    (k : Text) (js : List Job)
    → count is_running k js ≡ 0
    → count is_waiting k js ≡ 0
    → AllSettled k js
all_settled k [] r w = tt
all_settled k (j ∷ js) r w = elim (Bool-cases (j.key == k)) [
  | inr other ↦
      (λ h. cc (h, other), all_settled k js (ground (arith, other)) (ground (arith, other)))
  | inl same ↦ (
    λ _. done j.phase (ground (arith, same)) (ground (arith, same)),
    all_settled k js (ground (arith, same)) (ground (arith, same)),
  )
]
  where
    done : (p : Phase) → is_running p ≡ false → is_waiting p ≡ false → is_settled p ≡ true
    done waiting r w = cc w
    done running r w = cc r
    done (settled f) r w = refl

ready :
    (k : Text) (js : List Job) → IsLinked js → AllSettled k js → is_ready (latest k js) js ≡ true
unfolding is_ready has_settled
ready k [] l a = refl
ready k (j ∷ js) l a = elim (Bool-cases (j.key == k)) [
  | inl same ↦ ground (arith, same, a.0 same)
  | inr other ↦ rw other (behind (latest k js) refl (ready k js l.2 a.1))
]
  where
    behind : (o : Option ℕ) → latest k js ≡ o → is_ready o js ≡ true → is_ready o (j ∷ js) ≡ true
    behind none e h = refl
    behind (some i) e h = ground (arith, l.0, latest-below k js i l.2 e)

some_start :
    (k : Text) (js : List Job)
    → IsLinked js
    → count is_running k js ≡ 0
    → count is_waiting k js ≢ 0
    → (id : ℕ) × (id < length js) × (count is_running k (start id js) ≡ 1)
unfolding start
some_start k [] l r w = absurd (w refl)
some_start k (j ∷ js) l r w = elim (Bool-cases (count is_waiting k js == 0)) [
  | inr more ↦
      let (id, below, starts) =
        some_start k js l.2 (ground arith) (ne_of_beq (count is_waiting k js) 0 more) in
      (id, ground (arith, below), ground (arith, below, starts, l.0))
  | inl last ↦
      let quiet : count is_running k js ≡ 0 = ground arith in
      let same : j.key == k ≡ true = ground arith in
      let idle : is_waiting j.phase ≡ true = ground arith in
      let behind = all_settled k js quiet (ground arith) in
      let may : is_ready j.previous js ≡ true = rw l.1 (
        subst (λ x. is_ready (latest x js) js ≡ true) (sym (eq_of_beq j.key k same))
          (ready k js l.2 behind)) in
      (j.id, ground (arith, l.0), ground (arith, quiet, same, idle, may))
]

-- A key is never stuck: if a call waits and none is in flight, then one can start, whether those
-- before it were fulfilled or failed.
pub play-starts :
    (es : List Event) (key : Text)
    → count is_running (lower key) (play es).jobs ≡ 0
    → count is_waiting (lower key) (play es).jobs ≢ 0
    → (id : ℕ) × (count is_running (lower key) (start id (play es).jobs) ≡ 1)
play-starts es key r w =
    let (id, _, starts) = some_start (lower key) (play es).jobs (play-IsSerial es).linked r w in
    (id, starts)
