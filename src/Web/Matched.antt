-- ===== src/Web/Matched.antt =====
-- What an evaluation of the scanner (apps/web/lib/scanner.ts) logs and alerts to is a market that
-- matches.
use ratio.Base.{
  ℕ, ◌+◌, ◌≡◌, refl, ◌∙◌, ap, true, List, [], ◌∷◌, ◌++◌, String, string_eq, nat_eq, includes, All,
  All-append, length, length-append, arith, Bool-cases, ◌⊎◌, inl, inr,
}
use ratio.Web.Scanner.{
  FixtureMarket, ScannerRule, ScannerAlert, market_matches, Scan, scan_market, scan_feed,
  scan_rules,
}

abbrev pub IsIn : {A : Type 0} → A → List A → Type 0
IsIn a [] = ⊥
IsIn a (x ∷ xs) = (x ≡ a) ⊎ IsIn a xs

-- A market of the feed has this id, and matches the rule.
pub record IsMatch (rule : ScannerRule) (now_ms : ℕ) (feed : List FixtureMarket) (id : String)
    : Type 0 where
  pub market : FixtureMarket
  pub listed : IsIn market feed
  pub named : market.market_id ≡ id
  pub matches : market_matches market rule.conditions now_ms ≡ true

-- The log has only what it had and what matches.
abbrev pub IsSoundLog : ScannerRule → ℕ → List FixtureMarket → List String → Type 0
IsSoundLog rule now_ms feed matched =
    All (λ id. (includes rule.matched_market_ids id ≡ true) ⊎ IsMatch rule now_ms feed id) matched

abbrev pub AllSound : ℕ → List FixtureMarket → List ScannerRule → List ScannerRule → Type 0
AllSound now_ms feed [] [] = Unit
AllSound now_ms feed (r ∷ rs) (r' ∷ rs') =
    (r'.conditions ≡ r.conditions)
    × IsSoundLog r now_ms feed r'.matched_market_ids
    × AllSound now_ms feed rs rs'
AllSound now_ms feed _ _ = ⊥

-- An alert names one of the rules and a market that matches it.
pub record IsAlert (now_ms : ℕ) (feed : List FixtureMarket) (rules : List ScannerRule)
    (a : ScannerAlert) : Type 0 where
  pub rule : ScannerRule
  pub of_rules : IsIn rule rules
  pub of_rule : a.rule_id ≡ rule.id
  pub match : IsMatch rule now_ms feed a.market_id
  pub now : a.at_ms ≡ now_ms

-- The alerts that are new, each of them true, as many as fired.
pub record IsAlerted (now_ms : ℕ) (feed : List FixtureMarket) (rules : List ScannerRule)
    (old alerts : List ScannerAlert) (before fired : ℕ) : Type 0 where
  pub new : List ScannerAlert
  pub added : alerts ≡ new ++ old
  pub counted : fired ≡ length new + before
  pub alert : All (IsAlert now_ms feed rules) new

append_assoc : {A : Type 0} (xs ys zs : List A) → xs ++ (ys ++ zs) ≡ (xs ++ ys) ++ zs
append_assoc [] ys zs = refl
append_assoc (x ∷ xs) ys zs = ap (λ l. x ∷ l) (append_assoc xs ys zs)

module _ (now_ms : ℕ) (feed : List FixtureMarket) (rules : List ScannerRule) where
  silent :
      (alerts : List ScannerAlert) (fired : ℕ)
      → IsAlerted now_ms feed rules alerts alerts fired fired
  silent alerts fired = record { new = []; added = refl; counted = omega arith; alert = tt }

  then-IsAlerted :
      (a b c : List ScannerAlert) (i j k : ℕ)
      → IsAlerted now_ms feed rules a b i j
      → IsAlerted now_ms feed rules b c j k
      → IsAlerted now_ms feed rules a c i k
  then-IsAlerted a b c i j k one two = record {
    new = two.new ++ one.new;
    added = two.added ∙ ap (λ l. two.new ++ l) one.added ∙ append_assoc two.new one.new a;
    counted = omega (arith, one.counted, two.counted, length-append two.new one.new);
    alert = All-append (IsAlert now_ms feed rules) two.new one.new two.alert one.alert;
  }

  module _ (rule : ScannerRule) (among : IsIn rule rules) where
    abbrev Goes : Scan → Scan → Type 0
    Goes s s' =
        (IsSoundLog rule now_ms feed s.matched → IsSoundLog rule now_ms feed s'.matched)
        × IsAlerted now_ms feed rules s.alerts s'.alerts s.fired s'.fired

    stays : (s : Scan) → Goes s s
    stays s = ((λ l. l), silent s.alerts s.fired)

    scan_market-Goes :
        (m : FixtureMarket) (s : Scan) → IsIn m feed → Goes s (scan_market rule now_ms m s)
    unfolding scan_market
    scan_market-Goes m s listed = elim (Bool-cases (includes s.matched m.market_id)) [
      | inl known ↦ rw known (stays s)
      | inr fresh ↦ rw fresh (elim (Bool-cases (market_matches m rule.conditions now_ms)) [
        | inr differs ↦ rw differs (stays s)
        | inl matches ↦
            let match : IsMatch rule now_ms feed m.market_id = record {
              market = m;
              listed = listed;
              named = refl;
              matches = matches;
            } in
            rw matches (
              (λ l. All-append _ s.matched (m.market_id ∷ []) l (inr match, tt)),
              record {
                new = _ ∷ [];
                added = refl;
                counted = refl;
                alert = (
                  record {
                    rule = rule;
                    of_rules = among;
                    of_rule = refl;
                    match = match;
                    now = refl;
                  },
                  tt,
                );
              },
            )
      ])
    ]

    scan_feed-Goes :
        (ms : List FixtureMarket) (s : Scan)
        → ((m : FixtureMarket) → IsIn m ms → IsIn m feed)
        → Goes s (scan_feed rule now_ms ms s)
    unfolding scan_feed
    scan_feed-Goes [] s into = stays s
    scan_feed-Goes (m ∷ ms) s into =
        let s1 = scan_market rule now_ms m s in
        let s2 = scan_feed rule now_ms ms s1 in
        let one = scan_market-Goes m s (into m (inl refl)) in
        let rest = scan_feed-Goes ms s1 (λ x there. into x (inr there)) in
        (
          (λ l. rest.0 (one.0 l)),
          then-IsAlerted s.alerts s1.alerts s2.alerts s.fired s1.fired s2.fired one.1 rest.1,
        )

  all_logged :
      (rule : ScannerRule) (ids : List String)
      → ((id : String) → includes ids id ≡ true → includes rule.matched_market_ids id ≡ true)
      → IsSoundLog rule now_ms feed ids
  all_logged rule [] into = tt
  all_logged rule (id ∷ ids) into = (
    inl (into id (ground (arith, string_eq.same_iff id id))),
    all_logged rule ids (λ k there. into k (ground (arith, there))),
  )

  pub scan_rules-AllSound :
      (some_rules : List ScannerRule) (alerts : List ScannerAlert) (fired : ℕ)
      → ((r : ScannerRule) → IsIn r some_rules → IsIn r rules)
      → let round = scan_rules now_ms feed some_rules alerts fired in
        AllSound now_ms feed some_rules round.rules
        × IsAlerted now_ms feed rules alerts round.alerts fired round.fired
  unfolding scan_rules
  scan_rules-AllSound [] alerts fired into = (tt, silent alerts fired)
  scan_rules-AllSound (r ∷ rs) alerts fired into =
      let start : Scan = record {
        matched = r.matched_market_ids;
        alerts = alerts;
        fired = fired;
      } in
      let s = scan_feed r now_ms feed start in
      let one = scan_feed-Goes r (into r (inl refl)) feed start (λ m there. there) in
      let rest = scan_rules-AllSound rs s.alerts s.fired (λ x there. into x (inr there)) in
      let last = scan_rules now_ms feed rs s.alerts s.fired in
      (
        (refl, one.0 (all_logged r r.matched_market_ids (λ id h. h)), rest.0),
        then-IsAlerted alerts s.alerts last.alerts fired s.fired last.fired one.1 rest.1,
      )
