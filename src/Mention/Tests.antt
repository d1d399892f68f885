-- ===== src/Mention/Tests.antt =====
-- Mentions and what they ask for.
use ratio.Base.{◌≡◌, refl, some, none, [], Option, arith, ◌<◌}
use ratio.Base.Maps.{get, set}
use ratio.Texts.{Text, codes, lower}
use ratio.Store.Records.{side_a, side_b}
use ratio.Engine.World.{usd_unit, eth_unit}
use ratio.Mention.Regex.{run, run_star, search_from, search_in, replace_from, replace_all}
use ratio.Mention.Patterns.{
  amount_then_handle, handle_then_amount, bet_letter_re, create_re, tag_of,
}
use ratio.Mention.Parse.{
  create, bet, ignore, by_side, by_handle, trim, decimals_from, decimal_from, amount_of, unit_of,
  side_of, without_bot, is_tagged, creation_of, parse_mention, substantive_text,
}
use ratio.Mention.Short.{parse_mention-short_text}
use ratio.Mention.Printing.{parse_mention-stake_text}

abbrev bot : Option Text
bot = some (codes "ratiobot")

-- Names every definition that a mention is parsed with.
abbrev parsing : Unit {0}
unfolding get set lower run run_star search_from search_in replace_from replace_all
    amount_then_handle handle_then_amount bet_letter_re create_re tag_of trim decimals_from
    decimal_from amount_of unit_of side_of without_bot is_tagged creation_of parse_mention
    substantive_text
parsing = tt

on_handle :
    parse_mention (codes "@RatioBot $25 on @cora") bot
    ≡ bet (by_handle (codes "cora")) (record { digits = 25; places = 0 }) usd_unit
unfolding parsing
on_handle = refl

handle_first :
    parse_mention (codes "@cora 0.5 eth") none
    ≡ bet (by_handle (codes "cora")) (record { digits = 5; places = 1 }) eth_unit
unfolding parsing
handle_first = refl

on_letter :
    parse_mention (codes "0.01 on b") bot
    ≡ bet (by_side side_b) (record { digits = 1; places = 2 }) eth_unit
unfolding parsing
on_letter = refl

-- Our name without a tag, and with one.
bare_word : parse_mention (codes "RATIO") bot ≡ ignore
unfolding parsing
bare_word = refl

tagged_word : parse_mention (codes "@ratiobot ratio this!") bot ≡ create
unfolding parsing
tagged_word = refl

bare_tag : parse_mention (codes "@ratiobot") bot ≡ create
unfolding parsing
bare_tag = refl

no_side : parse_mention (codes "$25") bot ≡ ignore
unfolding parsing
no_side = refl

no_tags_or_links : substantive_text (codes " @cora see https://t.co/x now ") ≡ codes "see  now"
unfolding parsing
no_tags_or_links = refl

five_positive : 0 < (decimal_from 0 (codes "5")).digits
unfolding parsing
five_positive = omega arith

more_positive : 0 < (decimal_from 0 (codes "25")).digits
unfolding parsing
more_positive = omega arith

parse_mention-short_text_example :
    parse_mention (codes "$51") bot ≡ bet (by_side side_a) (decimal_from 0 (codes "5")) usd_unit
parse_mention-short_text_example = parse_mention-short_text bot 53 [] (refl, tt) five_positive

no_bot_there : without_bot bot (codes "$25 @cora") ≡ codes "$25 @cora"
unfolding parsing
no_bot_there = refl

parse_mention-stake_text_example :
    parse_mention (codes "$25 @cora") bot
    ≡ bet (by_handle (codes "cora")) (decimal_from 0 (codes "25")) usd_unit
parse_mention-stake_text_example =
    parse_mention-stake_text bot 50 99 (codes "5") (codes "ora") (refl, (refl, tt))
      (refl, (refl, (refl, (refl, tt)))) more_positive no_bot_there
