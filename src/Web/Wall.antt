-- ===== src/Web/Wall.antt =====
-- The access wall: `middleware` of apps/web/middleware.ts, as a decision on a request.
use ratio.Base.{
  ◌≡◌, refl, Bool, true, false, ◌&&◌, ◌||◌, Option, none, some, List, [], ◌∷◌, if◌then◌else◌,
  nat_eq, ◌==◌, includes, drop, arith, Bool-cases, inl, inr, or_else, eq_of_beq,
}
use ratio.Texts.{Text, codes, text_eq, lower, starts_with, contains_any}
use ratio.Web.Access.{verify_access, IsSigned, verify_access-IsSigned}

pub record Request : Type 0 where
  pub pathname : Text
  pub user_agent : Option Text
  -- The access cookie.
  pub cookie : Option Text

pub data Answer : Type 0 where
  next to_gate to_home : Answer

abbrev pub public_paths : List Text
public_paths = codes "/signup" ∷ []

unfoldable pub is_creator_apply : Text → Bool
is_creator_apply p = (p == codes "/creator-apply") || starts_with (codes "/creator-apply/") p

-- Behind `[^/]+`, which takes everything up to a slash and at least one character: whether the rest
-- starts with the tail, or is empty where there is no tail.
abbrev pub after_segment : Option Text → Bool → Text → Bool
after_segment none started [] = started
after_segment (some tail) started [] = started && starts_with tail []
after_segment tail started (c ∷ cs) =
    let rest = after_segment tail true cs in
    if c == 47
    then started && elim tail [ none ↦ false | some t ↦ starts_with t (c ∷ cs) ]
    else rest

-- What stands behind "/m/".
abbrev pub market_part : Text → Option Text
market_part p = if starts_with (codes "/m/") p then some (drop 3 p) else none

-- `/^\/m\/[^/]+\/opengraph-image/`
unfoldable pub is_share_image : Text → Bool
is_share_image p = elim (market_part p) [
  | none ↦ false
  | some rest ↦ after_segment (some (codes "/opengraph-image")) false rest
]

-- `/^\/m\/[^/]+$/`
unfoldable pub is_market_page : Text → Bool
is_market_page p = elim (market_part p) [ none ↦ false | some rest ↦ after_segment none false rest ]

abbrev pub crawlers : List Text
crawlers =
    codes "twitterbot"
    ∷ codes "facebookexternalhit"
    ∷ codes "linkedinbot"
    ∷ codes "slackbot"
    ∷ codes "discordbot"
    ∷ codes "telegrambot"
    ∷ codes "whatsapp"
    ∷ []

-- `CRAWLER_UA`, letter case aside.
unfoldable pub is_crawler : Option Text → Bool
is_crawler agent = contains_any crawlers (lower (or_else agent []))

abbrev pub gate : Text
gate = codes "/gate"

-- What the wall lets through without a cookie.
unfoldable pub is_open_path : Request → Bool
is_open_path req =
    includes public_paths req.pathname
    || (is_creator_apply req.pathname
        || (is_share_image req.pathname
            || (is_market_page req.pathname && is_crawler req.user_agent)))

-- An empty secret counts as none.
abbrev pub configured : Option Text → Option Text
configured (some (c ∷ cs)) = some (c ∷ cs)
configured _ = none

module _ (hmac : (secret payload : Text) → Text) where
  unfoldable pub middleware : Option Text → Request → Answer
  middleware secret req = if is_open_path req then next else elim (configured secret) [
    | none ↦ if req.pathname == gate then next else to_gate
    | some key ↦
        if verify_access hmac key req.cookie
        then (if req.pathname == gate then to_home else next)
        else if req.pathname == gate
        then next
        else to_gate
  ]

  -- Why a request gets past the wall.
  pub data IsAdmitted (secret : Option Text) (req : Request) : Type 0 where
    open_path : is_open_path req ≡ true → IsAdmitted secret req
    at_gate : req.pathname ≡ gate → IsAdmitted secret req
    signed :
        (key cookie : Text)
        → secret ≡ some key
        → req.cookie ≡ some cookie
        → IsSigned hmac key cookie
        → IsAdmitted secret req

  cookie-IsSigned :
      (key : Text) (cookie : Option Text)
      → verify_access hmac key cookie ≡ true
      → (c : Text) × (cookie ≡ some c) × IsSigned hmac key c
  unfolding verify_access
  cookie-IsSigned key none h = cc h
  cookie-IsSigned key (some c) h = (c, refl, verify_access-IsSigned hmac key c h)

-- The wall fails closed: a request is let through only on an open path, at the gate, or with a cookie
-- that carries the signature of its payload under the secret that is configured.
pub middleware-IsAdmitted :
    (hmac : (secret payload : Text) → Text) (secret : Option Text) (req : Request)
    → middleware hmac secret req ≡ next
    → IsAdmitted hmac secret req
unfolding middleware
middleware-IsAdmitted hmac secret req h = elim (Bool-cases (is_open_path req)) [
  | inl opened ↦ open_path opened
  | inr walled ↦ elim (Bool-cases (req.pathname == gate)) [
    | inl gated ↦ at_gate (eq_of_beq req.pathname gate gated)
    | inr elsewhere ↦ keyed secret refl walled elsewhere h
  ]
]
  where
    keyed :
        (s : Option Text)
        → secret ≡ s
        → is_open_path req ≡ false
        → req.pathname == gate ≡ false
        → middleware hmac s req ≡ next
        → IsAdmitted hmac secret req
    keyed none same w e n = absurd (ground (arith, w, e, n))
    keyed (some []) same w e n = absurd (ground (arith, w, e, n))
    keyed (some (c ∷ cs)) same w e n = elim (Bool-cases (verify_access hmac (c ∷ cs) req.cookie)) [
      | inr forged ↦ absurd (ground (arith, w, e, n, forged))
      | inl verified ↦
          let (cookie, given, proper) = cookie-IsSigned hmac (c ∷ cs) req.cookie verified in
          signed (c ∷ cs) cookie same given proper
    ]
