-- ===== src/Mention/Parse.antt =====
-- `parseMention` and `substantiveText` (apps/agent/src/parse.ts). An amount is the decimal that is written.
use ratio.Base.{
  ℕ, ◌+◌, ◌-◌, ◌*◌, Bool, true, ◌||◌, not, Option, none, some, [], ◌∷◌, ltb, nat_eq, ◌==◌,
  if◌then◌else◌, or_else, is_none,
}
use ratio.Base.Maps.{get}
use ratio.Texts.{Text, codes, lower, text_eq}
use ratio.Store.Records.{Side, side_a, side_b}
use ratio.Engine.World.{StakeUnit, usd_unit, eth_unit}
use ratio.Mention.Regex.{Captures, is_space, or_try, search_in, replace_all}
use ratio.Mention.Patterns.{bet_handle_re, bet_letter_re, create_re, tag_of, any_tag, any_link}

-- The digits as one number, and how many of them stand behind the point.
pub record Decimal : Type 0 where
  pub digits : ℕ
  pub places : ℕ

pub data SideRef : Type 0 where
  by_side : Side → SideRef
  by_handle : Text → SideRef

pub data ParsedIntent : Type 0 where
  create : ParsedIntent
  bet : SideRef → Decimal → StakeUnit → ParsedIntent
  ignore : ParsedIntent

abbrev pub trim_start : Text → Text
trim_start [] = []
trim_start (c ∷ cs) = let rest = trim_start cs in if is_space c then rest else c ∷ cs

abbrev pub keep_unless_blank : ℕ → Text → Text
keep_unless_blank c [] = if is_space c then [] else c ∷ []
keep_unless_blank c (d ∷ ds) = c ∷ d ∷ ds

abbrev pub trim_end : Text → Text
trim_end [] = []
trim_end (c ∷ cs) = keep_unless_blank c (trim_end cs)

unfoldable pub trim : Text → Text
trim t = trim_end (trim_start t)

-- `Number(…)` of what `amount_part` captures.
unfoldable pub decimals_from : ℕ → ℕ → Text → Decimal
decimals_from digits places [] = record { digits = digits; places = places }
decimals_from digits places (c ∷ cs) = decimals_from (digits * 10 + (c - 48)) (places + 1) cs

unfoldable pub decimal_from : ℕ → Text → Decimal
decimal_from digits [] = record { digits = digits; places = 0 }
decimal_from digits (c ∷ cs) =
    let whole = decimal_from (digits * 10 + (c - 48)) cs in
    if c == 46 then decimals_from digits 0 cs else whole

abbrev pub capture : ℕ → ℕ → Captures → Option Text
capture n m caps = or_try (get n caps) (get m caps)

unfoldable pub amount_of : Captures → Decimal
amount_of caps = decimal_from 0 (or_else (capture 2 7 caps) [])

-- `$` means dollars, everything else the currency of the chain.
unfoldable pub unit_of : Captures → StakeUnit
unit_of caps = if is_none (capture 1 6 caps) then eth_unit else usd_unit

-- `sideRaw === "a" || sideRaw === "1" ? 0 : 1`
unfoldable pub side_of : Captures → Side
side_of caps =
    let raw = lower (or_else (capture 4 5 caps) []) in
    if raw == codes "a" || raw == codes "1" then side_a else side_b

-- A match of a bet counts where its amount is positive.
abbrev pub bet_of : Option Captures → (Captures → SideRef) → ParsedIntent → ParsedIntent
bet_of none side other = other
bet_of (some caps) side other =
    if ltb 0 (amount_of caps).digits then bet (side caps) (amount_of caps) (unit_of caps) else other

-- An empty handle counts as none.
abbrev pub given : Option Text → Option Text
given (some (c ∷ cs)) = some (c ∷ cs)
given _ = none

unfoldable pub without_bot : Option Text → Text → Text
without_bot bot t = elim (given bot) [
  | none ↦ t
  | some name ↦ replace_all (tag_of name) (32 ∷ []) t
]

unfoldable pub is_tagged : Option Text → Text → Bool
is_tagged bot t = elim (given bot) [
  | none ↦ true
  | some name ↦ not (is_none (search_in (tag_of name) t))
]

unfoldable pub creation_of : Text → ParsedIntent
creation_of [] = create
creation_of (c ∷ cs) = if is_none (search_in create_re (c ∷ cs)) then ignore else create

unfoldable pub parse_mention : Text → Option Text → ParsedIntent
parse_mention t bot =
    let rest = without_bot bot t in
    let cleaned = trim (replace_all any_tag [] rest) in
    bet_of (search_in bet_handle_re rest) (λ caps. by_handle (or_else (capture 4 5 caps) []))
      (bet_of (search_in bet_letter_re cleaned) (λ caps. by_side (side_of caps))
        (if is_tagged bot t then creation_of cleaned else ignore))

-- Mention text minus tags and links.
unfoldable pub substantive_text : Text → Text
substantive_text t = trim (replace_all any_link [] (replace_all any_tag [] t))
