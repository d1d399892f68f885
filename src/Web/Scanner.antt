-- ===== src/Web/Scanner.antt =====
-- The market scanner (apps/web/lib/scanner.ts). Dollars, and the ratios that a rule asks for, are whole
-- millionths; ratios are compared exactly. Handles are texts. The state is that of a scanner that has
-- loaded, and what goes to the browser's storage is its last copy.
use ratio.Base.{
  ℕ, ◌+◌, ◌-◌, ◌*◌, ◌/◌, Bool, true, false, not, ◌&&◌, ◌||◌, Option, none, some, List, [], ◌∷◌,
  ◌++◌, String, string_eq, nat_eq, ◌==◌, ltb, leb, if◌then◌else◌, keep, includes, take, length,
}
use ratio.Texts.{Text, text_eq, lower}
use ratio.Store.Records.{PairType, quote, reply}

-- What the scanner reads of a `FixtureMarket`.
pub record FixtureMarket : Type 0 where
  pub market_id : String
  pub open_status : Bool
  pub pair_type : PairType
  pub handle_a : Text
  pub handle_b : Text
  pub likes_a : ℕ
  pub likes_b : ℕ
  pub pot_a_usd : ℕ
  pub pot_b_usd : ℕ
  pub settles_at_ms : ℕ

pub record RuleConditions : Type 0 where
  pub gap_ratio_max : Option ℕ
  pub gap_ratio_min : Option ℕ
  pub gap_abs_max : Option ℕ
  pub likes_min : Option ℕ
  pub likes_max : Option ℕ
  pub staked_min : Option ℕ
  pub staked_max : Option ℕ
  pub imbalance_ratio_min : Option ℕ
  pub mins_left_max : Option ℕ
  pub mins_left_min : Option ℕ
  pub watchlist : Option (List Text)
  pub pair_type : Option PairType

-- The summary is a text that is made from the conditions.
pub record ScannerRule : Type 0 where
  pub id : String
  pub conditions : RuleConditions
  pub created_at_ms : ℕ
  pub matched_market_ids : List String

pub record ScannerAlert : Type 0 where
  -- The time and the number of alerts, which the source writes into one text.
  pub id : ℕ × ℕ
  pub rule_id : String
  pub market_id : String
  pub handle_a : Text
  pub handle_b : Text
  pub likes_a : ℕ
  pub likes_b : ℕ
  pub pot_a_usd : ℕ
  pub pot_b_usd : ℕ
  pub mins_left : ℕ
  pub at_ms : ℕ

pub record Metrics : Type 0 where
  pub rules_created : ℕ
  pub alerts_fired : ℕ
  pub alert_bets : ℕ

pub record Persisted : Type 0 where
  pub rules : List ScannerRule
  pub alerts : List ScannerAlert
  pub metrics : Metrics
  pub last_alert_click : Option (String × ℕ)

-- The module's state, the injected markets and the browser's storage.
pub record Scanner : Type 0 where
  pub world_markets : List FixtureMarket
  pub state : Persisted
  pub storage : Option Persisted

abbrev pub max : ℕ → ℕ → ℕ
max a b = if leb a b then b else a

abbrev pub min : ℕ → ℕ → ℕ
min a b = if leb a b then a else b

abbrev pub unit : ℕ
unit = 1000000

-- A condition that is not set holds.
abbrev pub if_set {ℓ} : {A : Type ℓ} → Option A → (A → Bool) → Bool
if_set none p = true
if_set (some a) p = p a

abbrev pub same_pair : PairType → PairType → Bool
same_pair quote quote = true
same_pair reply reply = true
same_pair _ _ = false

abbrev pub watches : FixtureMarket → List Text → Bool
watches m [] = false
watches m (h ∷ hs) = ((h == lower m.handle_a) || (h == lower m.handle_b)) || watches m hs

unfoldable pub market_matches : FixtureMarket → RuleConditions → ℕ → Bool
market_matches m c now_ms =
    let leader = max m.likes_a m.likes_b in
    let trailer = max 1 (min m.likes_a m.likes_b) in
    let staked = m.pot_a_usd + m.pot_b_usd in
    let big_pot = max m.pot_a_usd m.pot_b_usd in
    let small_pot = max unit (min m.pot_a_usd m.pot_b_usd) in
    let left_ms = m.settles_at_ms - now_ms in
    if_set c.gap_ratio_max (λ x. leb (leader * unit) (x * trailer))
    && (if_set c.gap_ratio_min (λ x. leb (x * trailer) (leader * unit))
        && (if_set c.gap_abs_max (λ x. leb ((m.likes_a - m.likes_b) + (m.likes_b - m.likes_a)) x)
            && (if_set c.likes_min (λ x. leb x leader)
                && (if_set c.likes_max (λ x. leb leader x)
                    && (if_set c.staked_min (λ x. leb x staked)
                        && (if_set c.staked_max (λ x. leb staked x)
                            && (if_set c.imbalance_ratio_min
                                  (λ x. leb (x * small_pot) (big_pot * unit))
                                && (if_set c.mins_left_max (λ x. leb left_ms (x * 60000))
                                    && (if_set c.mins_left_min (λ x. leb (x * 60000) left_ms)
                                        && (if_set c.watchlist (λ hs. watches m hs)
                                            && if_set c.pair_type
                                                (λ t. same_pair m.pair_type t)))))))))))

abbrev pub alert_for : ScannerRule → FixtureMarket → ℕ → ℕ → ScannerAlert
alert_for rule m now_ms count = record {
  id = (now_ms, count);
  rule_id = rule.id;
  market_id = m.market_id;
  handle_a = m.handle_a;
  handle_b = m.handle_b;
  likes_a = m.likes_a;
  likes_b = m.likes_b;
  pot_a_usd = m.pot_a_usd;
  pot_b_usd = m.pot_b_usd;
  mins_left = (m.settles_at_ms - now_ms + 30000) / 60000;
  at_ms = now_ms;
}

-- What the loops of `evaluate` change: the rule's log, the alerts and the count of those fired.
pub record Scan : Type 0 where
  pub matched : List String
  pub alerts : List ScannerAlert
  pub fired : ℕ

unfoldable pub scan_market : ScannerRule → ℕ → FixtureMarket → Scan → Scan
scan_market rule now_ms m s =
    if includes s.matched m.market_id
    then s
    else if not (market_matches m rule.conditions now_ms)
    then s
    else record {
      matched = s.matched ++ m.market_id ∷ [];
      alerts = alert_for rule m now_ms (length s.alerts) ∷ s.alerts;
      fired = 1 + s.fired;
    }

unfoldable pub scan_feed : ScannerRule → ℕ → List FixtureMarket → Scan → Scan
scan_feed rule now_ms [] s = s
scan_feed rule now_ms (m ∷ ms) s = scan_feed rule now_ms ms (scan_market rule now_ms m s)

pub record Round : Type 0 where
  pub rules : List ScannerRule
  pub alerts : List ScannerAlert
  pub fired : ℕ

unfoldable pub scan_rules :
    ℕ → List FixtureMarket → List ScannerRule → List ScannerAlert → ℕ → Round
scan_rules now_ms feed [] alerts fired = record { rules = []; alerts = alerts; fired = fired }
scan_rules now_ms feed (r ∷ rs) alerts fired =
    let s =
      scan_feed r now_ms feed
        (record { matched = r.matched_market_ids; alerts = alerts; fired = fired }) in
    let rest = scan_rules now_ms feed rs s.alerts s.fired in
    record rest { rules = record r { matched_market_ids = s.matched } ∷ rest.rules }

abbrev pub feed_markets : Scanner → List FixtureMarket
feed_markets c = keep (λ m. m.open_status) c.world_markets

unfoldable pub save : Scanner → Scanner
save c = record c { storage = some c.state }

unfoldable pub evaluate : ℕ → Scanner → Scanner
evaluate now_ms c =
    let round = scan_rules now_ms (feed_markets c) c.state.rules c.state.alerts 0 in
    let after : Scanner = record c {
      state = record c.state {
        rules = round.rules;
        alerts = take 20 round.alerts;
        metrics = record c.state.metrics {
          alerts_fired = c.state.metrics.alerts_fired + round.fired;
        };
      };
    } in
    if round.fired == 0 then after else save after

unfoldable pub save_rule : RuleConditions → String → ℕ → Scanner → Scanner
save_rule conditions id now_ms c =
    let rule : ScannerRule = record {
      id = id;
      conditions = conditions;
      created_at_ms = now_ms;
      matched_market_ids = [];
    } in
    evaluate now_ms (
      save (record c {
        state = record c.state {
          rules = c.state.rules ++ rule ∷ [];
          metrics = record c.state.metrics { rules_created = c.state.metrics.rules_created + 1 };
        };
      }))

unfoldable pub delete_rule : String → Scanner → Scanner
delete_rule id c =
    save
      (record c { state = record c.state { rules = keep (λ r. not (r.id == id)) c.state.rules } })

unfoldable pub dismiss_alert : ℕ × ℕ → Scanner → Scanner
dismiss_alert id c = save (record c {
  state = record c.state {
    alerts = keep (λ a. not ((a.id.0 == id.0) && (a.id.1 == id.1))) c.state.alerts;
  };
})

unfoldable pub note_alert_click : String → ℕ → Scanner → Scanner
note_alert_click market_id now_ms c =
    save (record c { state = record c.state { last_alert_click = some (market_id, now_ms) } })

-- A bet within thirty minutes of a click for its market.
unfoldable pub credit_bet_from_alert : String → ℕ → Scanner → Scanner
credit_bet_from_alert market_id now_ms c = elim c.state.last_alert_click [
  | none ↦ c
  | some click ↦
      if (click.0 == market_id) && ltb now_ms (click.1 + 30 * 60000)
      then save (record c {
        state = record c.state {
          metrics = record c.state.metrics { alert_bets = c.state.metrics.alert_bets + 1 };
          last_alert_click = none;
        };
      })
      else c
]
