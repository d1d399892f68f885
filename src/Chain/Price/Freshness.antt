-- ===== src/Chain/Price/Freshness.antt =====
-- What the callers of `coinbaseEthUsd` (packages/chain/src/evm/price.ts) are answered.
use ratio.Base.{
  ℕ, ◌+◌, ◌-◌, ◌≢◌, ◌≤◌, ◌<◌, ◌≡◌, refl, ◌∙◌, sym, ap, true, false, Option, none, some, List, [],
  ◌∷◌, nat_eq, ◌==◌, ltb, leb, if◌then◌else◌, arith, Bool-cases, inl, inr, ◌⊎◌, length, subst,
  ne_of_beq, leb→le, leb→lt, ltb→lt,
}
use ratio.Flow.{Result, ok, throw}
use ratio.Chain.Price.{
  CoinbasePriceOpts, ttl_of, max_stale_of, Rate, Response, Entry, requested, failed, loaded, asked,
  answered, Source, load_result, young, fallback, answer_all, await_rate, ask, land, Event, called,
  responded, step, play,
}

abbrev pub last_rate : List Entry → Option Rate
last_rate [] = none
last_rate (loaded r ∷ log) = some r
last_rate (e ∷ log) = last_rate log

-- Requests that have not come to an end.
abbrev pub pending : List Entry → ℕ
pending [] = 0
pending (requested ∷ log) = 1 + pending log
pending (loaded r ∷ log) = pending log - 1
pending (failed ∷ log) = pending log - 1
pending (e ∷ log) = pending log

-- The calls, and the answers.
abbrev pub calls : List Entry → ℕ
calls [] = 0
calls (asked c ∷ log) = 1 + calls log
calls (e ∷ log) = calls log

abbrev pub answers : List Entry → ℕ
answers [] = 0
answers (answered c at o ∷ log) = 1 + answers log
answers (e ∷ log) = answers log

module _ (opts : CoinbasePriceOpts) where
  -- An answer is the latest rate, young or not too old; a refusal has none that would do.
  abbrev pub IsHonest : ℕ → Result ℕ → List Entry → Type 0
  IsHonest at (ok usd) log =
      (r : Rate) × (last_rate log ≡ some r)
      × (r.usd ≡ usd)
      × ((at < r.at_ms + ttl_of opts) ⊎ (at ≤ r.at_ms + max_stale_of opts))
  IsHonest at (throw e) log = (r : Rate) → last_rate log ≡ some r → r.at_ms + max_stale_of opts < at

  abbrev pub AllHonest : List Entry → Type 0
  AllHonest [] = Unit
  AllHonest (answered c at outcome ∷ log) = IsHonest at outcome log × AllHonest log
  AllHonest (requested ∷ log) = (pending log ≡ 0) × AllHonest log
  AllHonest (loaded r ∷ log) = (r.usd ≢ 0) × AllHonest log
  AllHonest (e ∷ log) = AllHonest log

  -- What holds between a source and its record.
  record IsKept (s : Source) : Type 0 where
    latest : s.cached ≡ last_rate s.log
    one : pending s.log ≡ (if s.inflight then 1 else 0)
    open_calls : calls s.log ≡ answers s.log + length s.waiting
    none_left : s.inflight ≡ false → length s.waiting ≡ 0
    honest : AllHonest s.log

  record Answers (n : ℕ) (log log' : List Entry) : Type 0 where
    same_rate : last_rate log' ≡ last_rate log
    same_pending : pending log' ≡ pending log
    same_calls : calls log' ≡ calls log
    more : answers log' ≡ n + answers log
    honest : AllHonest log'

  IsHonest-same :
      (at : ℕ) (o : Result ℕ) (log log' : List Entry)
      → last_rate log' ≡ last_rate log
      → IsHonest at o log
      → IsHonest at o log'
  IsHonest-same at (ok usd) log log' e h = (h.0, e ∙ h.1, h.2, h.3)
  IsHonest-same at (throw m) log log' e h = λ r e'. h r (sym e ∙ e')

  answer_all-Answers :
      (at : ℕ) (o : Result ℕ) (callers : List ℕ) (log : List Entry)
      → IsHonest at o log
      → AllHonest log
      → Answers (length callers) log (answer_all at o callers log)
  unfolding answer_all
  answer_all-Answers at o [] log h a = record {
    same_rate = refl;
    same_pending = refl;
    same_calls = refl;
    more = omega arith;
    honest = a;
  }
  answer_all-Answers at o (c ∷ cs) log h a =
      let rest = answer_all-Answers at o cs log h a in
      record {
        same_rate = rest.same_rate;
        same_pending = rest.same_pending;
        same_calls = rest.same_calls;
        more = omega (arith, rest.more);
        honest = (IsHonest-same at o log (answer_all at o cs log) rest.same_rate h, rest.honest);
      }

  fallback-IsHonest :
      (now : ℕ) (cached : Option Rate) (log : List Entry)
      → cached ≡ last_rate log
      → IsHonest now (fallback opts now cached) log
  unfolding fallback
  fallback-IsHonest now none log e = λ r e'. cc (e, e')
  fallback-IsHonest now (some r) log e = elim (Bool-cases (leb now (r.at_ms + max_stale_of opts))) [
    | inl fits ↦ rw fits (r, sym e, refl, inr (leb→le _ _ fits))
    | inr old ↦ rw old (λ r' e'. too_old r' (e ∙ e') (leb→lt _ _ old))
  ]
    where
      too_old :
          (r' : Rate)
          → some r ≡ some r'
          → r.at_ms + max_stale_of opts < now
          → r'.at_ms + max_stale_of opts < now
      too_old r' same h = ground (arith, same)

  await_rate-IsKept : (caller : ℕ) (s : Source) → IsKept s → IsKept (await_rate caller s)
  unfolding await_rate
  await_rate-IsKept caller s h = elim (Bool-cases s.inflight) [
    | inl flying ↦ rw flying (record {
      latest = h.latest;
      one = h.one ∙ ap (λ b. if b then 1 else 0) flying;
      open_calls = omega (arith, h.open_calls);
      none_left = λ e. cc e;
      honest = h.honest;
    })
    | inr idle ↦
        let quiet : pending s.log ≡ 0 = h.one ∙ ap (λ b. if b then 1 else 0) idle in
        rw idle (record {
          latest = h.latest;
          one = omega (arith, quiet);
          open_calls = omega (arith, h.open_calls);
          none_left = λ e. cc e;
          honest = (quiet, h.honest);
        })
  ]

  ask-IsKept : (caller now : ℕ) (s : Source) → IsKept s → IsKept (ask opts caller now s)
  unfolding ask young
  ask-IsKept caller now s h = split s.cached refl
    where
      split :
          (cached : Option Rate)
          → s.cached ≡ cached
          → IsKept (elim (young (ttl_of opts) now cached) [
            | some usd ↦ record s { log = answered caller now (ok usd) ∷ asked caller ∷ s.log }
            | none ↦ await_rate caller s
          ])
      split none e = await_rate-IsKept caller s h
      split (some r) e = elim (Bool-cases (ltb now (r.at_ms + ttl_of opts))) [
        | inr old ↦ rw old (await_rate-IsKept caller s h)
        | inl fits ↦ rw fits (record {
          latest = h.latest;
          one = h.one;
          open_calls = omega (arith, h.open_calls);
          none_left = h.none_left;
          honest = ((r, sym h.latest ∙ e, refl, inl (ltb→lt _ _ fits)), h.honest);
        })
      ]

  -- What a request comes to is an error or a price that is not zero.
  abbrev IsUsable : Result ℕ → Type 0
  IsUsable (ok usd) = usd ≢ 0
  IsUsable (throw e) = Unit

  load_result-IsUsable : (response : Response) → IsUsable (load_result response)
  unfolding load_result
  load_result-IsUsable (Response.unreachable message) = tt
  load_result-IsUsable (Response.refused status) = tt
  load_result-IsUsable (Response.spot none) = tt
  load_result-IsUsable (Response.spot (some usd)) = elim (Bool-cases (usd == 0)) [
    | inl zero_price ↦ rw zero_price tt
    | inr some_price ↦ rw some_price (ne_of_beq usd 0 some_price)
  ]

  land-IsKept :
      (now : ℕ) (res : Result ℕ) (s : Source)
      → IsUsable res
      → s.inflight ≡ true
      → IsKept s
      → IsKept (land opts now res s)
  unfolding land
  land-IsKept now (ok usd) s usable flying h =
      let r : Rate = record { usd = usd; at_ms = now } in
      let one : pending s.log ≡ 1 = h.one ∙ ap (λ b. if b then 1 else 0) flying in
      let all =
        answer_all-Answers now (ok usd) s.waiting (loaded r ∷ s.log)
          (r, refl, refl, inr (omega arith)) (usable, h.honest) in
      record {
        latest = sym all.same_rate;
        one = omega (arith, all.same_pending, one);
        open_calls = omega (arith, all.same_calls, all.more, h.open_calls);
        none_left = λ _. refl;
        honest = all.honest;
      }
  land-IsKept now (throw e) s usable flying h =
      let one : pending s.log ≡ 1 = h.one ∙ ap (λ b. if b then 1 else 0) flying in
      let all =
        answer_all-Answers now (fallback opts now s.cached) s.waiting (failed ∷ s.log)
          (IsHonest-same now (fallback opts now s.cached) s.log (failed ∷ s.log) refl
            (fallback-IsHonest now s.cached s.log h.latest))
          h.honest in
      record {
        latest = h.latest ∙ sym all.same_rate;
        one = omega (arith, all.same_pending, one);
        open_calls = omega (arith, all.same_calls, all.more, h.open_calls);
        none_left = λ _. refl;
        honest = all.honest;
      }

  step-IsKept : (e : Event) (s : Source) → IsKept s → IsKept (step opts e s)
  unfolding step
  step-IsKept (called caller now) s h = ask-IsKept caller now s h
  step-IsKept (responded response now) s h = elim (Bool-cases s.inflight) [
    | inr idle ↦
        subst (λ b. IsKept (if b then land opts now (load_result response) s else s)) (sym idle) h
    | inl flying ↦
        subst (λ b. IsKept (if b then land opts now (load_result response) s else s)) (sym flying)
          (land-IsKept now (load_result response) s (load_result-IsUsable response) flying h)
  ]

  play-IsKept : (es : List Event) → IsKept (play opts es)
  unfolding play
  play-IsKept [] = record {
    latest = refl;
    one = refl;
    open_calls = refl;
    none_left = λ _. refl;
    honest = tt;
  }
  play-IsKept (e ∷ es) = step-IsKept e (play opts es) (play-IsKept es)

-- However calls and responses interleave, a price that is answered is the latest that was fetched, is
-- not zero, and was fetched less than the time to live or at most the limit of staleness ago; a
-- refusal means that nothing fetched was that young. A request is made only when none is in flight.
pub play-AllHonest :
    (opts : CoinbasePriceOpts) (es : List Event) → AllHonest opts (play opts es).log
play-AllHonest opts es = (play-IsKept opts es).honest

-- No caller is left waiting: when no request is in flight, as many answers were given as there were
-- calls.
pub play-answered :
    (opts : CoinbasePriceOpts) (es : List Event)
    → (play opts es).inflight ≡ false
    → calls (play opts es).log ≡ answers (play opts es).log
play-answered opts es idle =
    omega (arith, (play-IsKept opts es).open_calls, (play-IsKept opts es).none_left idle)
