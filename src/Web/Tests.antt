-- ===== src/Web/Tests.antt =====
-- The access wall (apps/web/lib/access.ts, apps/web/middleware.ts), the scanner
-- (apps/web/lib/scanner.ts) and a bet (apps/web/lib/betServer.ts) on small inputs.
use ratio.Base.{◌≡◌, refl, true, false, none, some, [], ◌∷◌}
use ratio.Texts.{Text, codes, lower}
use ratio.Store.Records.{reply, side_b}
use ratio.Flow.{ok}
use ratio.Web.Access.{
  b64url, sign, verify_access, verify_split, sign_access, verify_access-sign_access,
}
use ratio.Web.Wall.{
  Request, middleware, is_open_path, is_creator_apply, is_share_image, is_market_page, is_crawler,
  IsAdmitted, middleware-IsAdmitted,
}
use ratio.Web.Scanner.{FixtureMarket, ScannerRule, Scanner, evaluate}
use ratio.Web.BetServer.{Viewer, Site, place_real_bet}
use ratio.Web.Ledger.{World, IsPlaced, place_real_bet-IsPlaced}
use ratio.Web.Firing.{IsEvaluated, evaluate-IsEvaluated}

-- Any function to base64 will do here.
abbrev hmac : Text → Text → Text
hmac secret payload = codes "ab+/=="

verify_access-sign_access_example :
    verify_access hmac
      (codes "secret")
      (some (sign_access hmac (codes "secret") (codes "be.ta") (codes "17")))
    ≡ true
verify_access-sign_access_example =
    verify_access-sign_access hmac (codes "secret") (codes "be.ta") (codes "17") (λ payload. refl)

abbrev visit : Request
visit = record {
  pathname = codes "/wallet";
  user_agent = none;
  cookie = some (codes "be.ta.17.ab-_");
}

middleware-IsAdmitted_example : IsAdmitted hmac (some (codes "secret")) visit
unfolding middleware is_open_path is_creator_apply is_share_image is_market_page is_crawler
    verify_access verify_split sign b64url lower
middleware-IsAdmitted_example = middleware-IsAdmitted hmac (some (codes "secret")) visit refl

abbrev listed : FixtureMarket
listed = record {
  market_id = "m1";
  open_status = true;
  pair_type = reply;
  handle_a = codes "Ann";
  handle_b = codes "bob";
  likes_a = 880;
  likes_b = 860;
  pot_a_usd = 125000000;
  pot_b_usd = 0;
  settles_at_ms = 7200000;
}

-- Neck and neck, with one of ann's markets.
abbrev rule : ScannerRule
rule = record {
  id = "r1";
  conditions = record {
    gap_ratio_max = some 1150000;
    gap_ratio_min = none;
    gap_abs_max = none;
    likes_min = some 500;
    likes_max = none;
    staked_min = none;
    staked_max = none;
    imbalance_ratio_min = none;
    mins_left_max = some 120;
    mins_left_min = none;
    watchlist = some (codes "ann" ∷ []);
    pair_type = some reply;
  };
  created_at_ms = 10;
  matched_market_ids = [];
}

abbrev scanner : Scanner
scanner = record {
  world_markets = listed ∷ record listed { market_id = "m2"; open_status = false } ∷ [];
  state = record {
    rules = rule ∷ [];
    alerts = [];
    metrics = record { rules_created = 1; alerts_fired = 0; alert_bets = 0 };
    last_alert_click = none;
  };
  storage = none;
}

evaluate-IsEvaluated_example :
    IsEvaluated 60000 scanner (evaluate 60000 scanner)
    × (evaluate 60000 (evaluate 60000 scanner) ≡ evaluate 60000 scanner)
evaluate-IsEvaluated_example = evaluate-IsEvaluated 60000 scanner

abbrev site : Site
site = record {
  look_up = λ h id. ok (some (record { open_status = true; settles_at_ms = 900 }));
  now = λ h. 500;
  get_wallet = λ h viewer. ok (codes "0x01");
  balance_usd = λ h wallet. ok 30000000;
  swap = λ h id side amount wallet. ok (77, codes "0xbeef");
  insert_bet = λ h bet. ok tt;
  min_stake_usd = 1000000;
  max_stake_usd = 500000000;
}

abbrev viewer : Viewer
viewer = record { x_user_id = "7"; handle = "Dave" }

abbrev quiet : World
quiet = record { store = tt; history = [] }

place_real_bet-IsPlaced_example :
    let (res, w) = place_real_bet site viewer "m1" side_b 25000000 quiet in
    IsPlaced site viewer "m1" side_b 25000000 quiet res w
place_real_bet-IsPlaced_example = place_real_bet-IsPlaced site viewer "m1" side_b 25000000 quiet
