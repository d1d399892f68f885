-- ===== src/Web/Firing.antt =====
-- A rule of the scanner (apps/web/lib/scanner.ts) fires once for a market.
use ratio.Base.{
  ℕ, zero, suc, ◌+◌, ◌≤◌, ◌≡◌, refl, ◌∙◌, ap, true, false, List, [], ◌∷◌, ◌++◌, String, string_eq,
  nat_eq, ◌==◌, includes, NoDup, All, take, length, length-append, includes-append, arith,
  Bool-cases, inl, inr,
}
use ratio.Web.Scanner.{
  FixtureMarket, ScannerRule, ScannerAlert, Scanner, market_matches, Scan, scan_market, scan_feed,
  Round, scan_rules, feed_markets, save, evaluate,
}
use ratio.Web.Matched.{AllSound, IsAlert, scan_rules-AllSound}

-- Every market that matches is in the log.
abbrev pub Covers : ScannerRule → ℕ → List String → List FixtureMarket → Type 0
Covers rule now_ms matched ms =
    All (λ m. market_matches m rule.conditions now_ms ≡ true → includes matched m.market_id ≡ true)
      ms

-- What one rule's pass does.
pub record IsScanned (s s' : Scan) : Type 0 where
  pub grows : (id : String) → includes s.matched id ≡ true → includes s'.matched id ≡ true
  pub once : NoDup s.matched → NoDup s'.matched
  pub counted : length s'.matched + s.fired ≡ length s.matched + s'.fired
  pub alerted : length s'.alerts + s.fired ≡ length s.alerts + s'.fired

NoDup-append : (l : List String) (x : String) → includes l x ≡ false → NoDup l → NoDup (l ++ x ∷ [])
NoDup-append [] x h n = (refl, tt)
NoDup-append (y ∷ l) x h n = (
  includes-append l (x ∷ []) y
      ∙ ground (arith, n.0, h, string_eq.same_iff x y, string_eq.same_iff y x),
  NoDup-append l x (ground (arith, h)) n.1,
)

nothing-IsScanned : (s : Scan) → IsScanned s s
nothing-IsScanned s = record { grows = λ id h. h; once = λ n. n; counted = refl; alerted = refl }

then-IsScanned : (s s' s'' : Scan) → IsScanned s s' → IsScanned s' s'' → IsScanned s s''
then-IsScanned s s' s'' h k = record {
  grows = λ id x. k.grows id (h.grows id x);
  once = λ n. k.once (h.once n);
  counted = omega (arith, h.counted, k.counted);
  alerted = omega (arith, h.alerted, k.alerted);
}

scan_market-IsScanned :
    (rule : ScannerRule) (now_ms : ℕ) (m : FixtureMarket) (s : Scan)
    → IsScanned s (scan_market rule now_ms m s)
      × (market_matches m rule.conditions now_ms ≡ true
          → includes (scan_market rule now_ms m s).matched m.market_id ≡ true)
unfolding scan_market
scan_market-IsScanned rule now_ms m s = elim (Bool-cases (includes s.matched m.market_id)) [
  | inl known ↦ rw known (nothing-IsScanned s, λ _. known)
  | inr fresh ↦ rw fresh (elim (Bool-cases (market_matches m rule.conditions now_ms)) [
    | inr differs ↦ rw differs (nothing-IsScanned s, λ e. cc e)
    | inl matches ↦ rw matches (
      record {
        grows = λ id h. includes-append s.matched (m.market_id ∷ []) id ∙ ground (arith, h);
        once = λ n. NoDup-append s.matched m.market_id fresh n;
        counted = omega (arith, length-append s.matched (m.market_id ∷ []));
        alerted = omega arith;
      },
      λ _.
          includes-append s.matched (m.market_id ∷ []) m.market_id
          ∙ ground (arith, string_eq.same_iff m.market_id m.market_id),
    )
  ])
]

scan_feed-IsScanned :
    (rule : ScannerRule) (now_ms : ℕ) (ms : List FixtureMarket) (s : Scan)
    → IsScanned s (scan_feed rule now_ms ms s)
      × Covers rule now_ms (scan_feed rule now_ms ms s).matched ms
unfolding scan_feed
scan_feed-IsScanned rule now_ms [] s = (nothing-IsScanned s, tt)
scan_feed-IsScanned rule now_ms (m ∷ ms) s =
    let one = scan_market-IsScanned rule now_ms m s in
    let s1 = scan_market rule now_ms m s in
    let rest = scan_feed-IsScanned rule now_ms ms s1 in
    (
      then-IsScanned s s1 (scan_feed rule now_ms ms s1) one.0 rest.0,
      (λ e. rest.0.grows m.market_id (one.1 e), rest.1),
    )

scan_market-covered :
    (rule : ScannerRule) (now_ms : ℕ) (m : FixtureMarket) (s : Scan)
    → (market_matches m rule.conditions now_ms ≡ true → includes s.matched m.market_id ≡ true)
    → scan_market rule now_ms m s ≡ s
unfolding scan_market
scan_market-covered rule now_ms m s h = elim (Bool-cases (includes s.matched m.market_id)) [
  | inl known ↦ rw known refl
  | inr fresh ↦ elim (Bool-cases (market_matches m rule.conditions now_ms)) [
    | inr differs ↦ rw (fresh, differs) refl
    | inl matches ↦ cc (h matches, fresh)
  ]
]

-- A pass over a feed that the log covers changes nothing.
scan_feed-covered :
    (rule : ScannerRule) (now_ms : ℕ) (ms : List FixtureMarket) (s : Scan)
    → Covers rule now_ms s.matched ms
    → scan_feed rule now_ms ms s ≡ s
unfolding scan_feed
scan_feed-covered rule now_ms [] s c = refl
scan_feed-covered rule now_ms (m ∷ ms) s c =
    ap (scan_feed rule now_ms ms) (scan_market-covered rule now_ms m s c.0)
    ∙ scan_feed-covered rule now_ms ms s c.1

-- The log of every rule, in numbers and one by one.
abbrev pub total_matched : List ScannerRule → ℕ
total_matched [] = 0
total_matched (r ∷ rs) = length r.matched_market_ids + total_matched rs

abbrev pub AllOnce : List ScannerRule → Type 0
AllOnce rules = All (λ r. NoDup r.matched_market_ids) rules

abbrev pub AllCover : ℕ → List FixtureMarket → List ScannerRule → Type 0
AllCover now_ms feed rules = All (λ r. Covers r now_ms r.matched_market_ids feed) rules

record IsRound (now_ms : ℕ) (feed : List FixtureMarket) (rules : List ScannerRule) (fired : ℕ)
    (r : Round) : Type 0 where
  once : AllOnce rules → AllOnce r.rules
  covers : AllCover now_ms feed r.rules
  counted : total_matched r.rules + fired ≡ total_matched rules + r.fired

scan_rules-IsRound :
    (now_ms : ℕ) (feed : List FixtureMarket) (rules : List ScannerRule) (alerts : List ScannerAlert)
    (fired : ℕ)
    → IsRound now_ms feed rules fired (scan_rules now_ms feed rules alerts fired)
unfolding scan_rules
scan_rules-IsRound now_ms feed [] alerts fired = record {
  once = λ o. o;
  covers = tt;
  counted = refl;
}
scan_rules-IsRound now_ms feed (r ∷ rs) alerts fired =
    let start : Scan = record { matched = r.matched_market_ids; alerts = alerts; fired = fired } in
    let s = scan_feed r now_ms feed start in
    let one = scan_feed-IsScanned r now_ms feed start in
    let rest = scan_rules-IsRound now_ms feed rs s.alerts s.fired in
    record {
      once = λ o. (one.0.once o.0, rest.once o.1);
      covers = (one.1, rest.covers);
      counted = omega (arith, one.0.counted, rest.counted);
    }

scan_rules-covered :
    (now_ms : ℕ) (feed : List FixtureMarket) (rules : List ScannerRule) (alerts : List ScannerAlert)
    (fired : ℕ)
    → AllCover now_ms feed rules
    → scan_rules now_ms feed rules alerts fired
      ≡ record { rules = rules; alerts = alerts; fired = fired }
unfolding scan_rules
scan_rules-covered now_ms feed [] alerts fired c = refl
scan_rules-covered now_ms feed (r ∷ rs) alerts fired c =
    rw
      (
        scan_feed-covered r now_ms feed
            (record { matched = r.matched_market_ids; alerts = alerts; fired = fired }) c.0,
        scan_rules-covered now_ms feed rs alerts fired c.1,
      )
      refl

take_all : {A : Type 0} (n : ℕ) (l : List A) → length l ≤ n → take n l ≡ l
take_all zero [] h = refl
take_all zero (x ∷ l) h = absurd (omega (arith, h))
take_all (suc n) [] h = refl
take_all (suc n) (x ∷ l) h = ap (λ k. x ∷ k) (take_all n l (omega (arith, h)))

length-take_le : {A : Type 0} (n : ℕ) (l : List A) → length (take n l) ≤ n
length-take_le zero l = omega arith
length-take_le (suc n) [] = omega arith
length-take_le (suc n) (x ∷ l) = omega (arith, length-take_le n l)

-- What an evaluation leaves behind.
pub record IsEvaluated (now_ms : ℕ) (c c' : Scanner) : Type 0 where
  pub once : AllOnce c.state.rules → AllOnce c'.state.rules
  pub covers : AllCover now_ms (feed_markets c) c'.state.rules
  pub sound : AllSound now_ms (feed_markets c) c.state.rules c'.state.rules
  pub counted :
      c'.state.metrics.alerts_fired + total_matched c.state.rules
      ≡ c.state.metrics.alerts_fired + total_matched c'.state.rules
  pub new : List ScannerAlert
  pub newest : c'.state.alerts ≡ take 20 (new ++ c.state.alerts)
  pub each_alert : All (IsAlert now_ms (feed_markets c) c.state.rules) new
  pub as_many : length new + total_matched c.state.rules ≡ total_matched c'.state.rules
  pub few : length c'.state.alerts ≤ 20
  pub same_world : c'.world_markets ≡ c.world_markets

evaluated : (now_ms : ℕ) (c : Scanner) → IsEvaluated now_ms c (evaluate now_ms c)
unfolding evaluate save
evaluated now_ms c =
    let round = scan_rules now_ms (feed_markets c) c.state.rules c.state.alerts 0 in
    let all = scan_rules-IsRound now_ms (feed_markets c) c.state.rules c.state.alerts 0 in
    let true_ones =
      scan_rules-AllSound now_ms (feed_markets c) c.state.rules c.state.rules c.state.alerts 0
        (λ r there. there) in
    elim (Bool-cases (round.fired == 0)) [
      | inl quiet ↦ rw quiet (record {
        once = all.once;
        covers = all.covers;
        counted = omega (arith, all.counted);
        sound = true_ones.0;
        new = true_ones.1.new;
        newest = ap (take 20) true_ones.1.added;
        each_alert = true_ones.1.alert;
        as_many = omega (arith, all.counted, true_ones.1.counted);
        few = length-take_le 20 round.alerts;
        same_world = refl;
      })
      | inr loud ↦ rw loud (record {
        once = all.once;
        covers = all.covers;
        counted = omega (arith, all.counted);
        sound = true_ones.0;
        new = true_ones.1.new;
        newest = ap (take 20) true_ones.1.added;
        each_alert = true_ones.1.alert;
        as_many = omega (arith, all.counted, true_ones.1.counted);
        few = length-take_le 20 round.alerts;
        same_world = refl;
      })
    ]

settled_same :
    (now_ms : ℕ) (c : Scanner)
    → AllCover now_ms (feed_markets c) c.state.rules
    → length c.state.alerts ≤ 20
    → evaluate now_ms c ≡ c
unfolding evaluate
settled_same now_ms c covered few =
    rw
      (
        scan_rules-covered now_ms (feed_markets c) c.state.rules c.state.alerts 0 covered,
        take_all 20 c.state.alerts few,
        zero_more c.state.metrics.alerts_fired,
      )
      refl
  where
    zero_more : (n : ℕ) → n + 0 ≡ n
    zero_more n = omega arith

-- An evaluation logs every open market that matches a rule in the rule's log, once, if it stood there
-- once before, and logs nothing else: what is new in a log is an open market that matches its rule.
-- As many alerts are new as markets are new in the logs, each names one of the rules and an open
-- market that matches it, and the latest twenty of them and of the old ones are kept. Evaluating
-- again at the same time changes nothing.
pub evaluate-IsEvaluated :
    (now_ms : ℕ) (c : Scanner)
    → IsEvaluated now_ms c (evaluate now_ms c)
      × (evaluate now_ms (evaluate now_ms c) ≡ evaluate now_ms c)
evaluate-IsEvaluated now_ms c =
    let all = evaluated now_ms c in
    (all, settled_same now_ms (evaluate now_ms c) (rw all.same_world all.covers) all.few)
