-- ===== src/Mention/Printing.antt =====
-- A stake in dollars on a handle, as it is written and as it is read (apps/agent/src/parse.ts).
use ratio.Base.{
  ℕ, ◌-◌, ◌<◌, ◌≡◌, refl, true, Option, some, [], ◌∷◌, ◌++◌, nat_eq, length, take, All, lt→ltb,
}
use ratio.Base.Maps.{get, set}
use ratio.Texts.{Text, text_eq}
use ratio.Engine.World.{usd_unit}
use ratio.Mention.Regex.{
  Regex, seq, plus, Captures, is_digit, is_word, is_space, run_star, run, finish, search_from,
  search_in,
}
use ratio.Mention.Patterns.{
  chain, spaces, eth_part, on_part, tag_part, amount_part, bet_handle_re, amount_then_handle,
}
use ratio.Mention.Parse.{
  bet, by_handle, decimal_from, amount_of, unit_of, without_bot, parse_mention,
}
use ratio.Mention.Steps.{
  run_star-whole, run_star-stop, run_star-All, last_of, take-append, take-whole,
}
use ratio.Mention.Short.{Digits, digit-space}

abbrev pub Word : Text → Type 0
Word = All (λ c. is_word c ≡ true)

abbrev pub tagged : Text → Text
tagged handle = 32 ∷ 64 ∷ handle

-- "$", an amount, a space and a handle.
abbrev pub stake_text : Text → Text → Text
stake_text digits handle = 36 ∷ (digits ++ tagged handle)

-- What stands behind the amount.
abbrev handle_tail : Regex
handle_tail = chain (spaces ∷ eth_part 3 ∷ plus is_space ∷ on_part ∷ tag_part 4 ∷ [])

abbrev stake_captures : Text → Text → Text → Captures
stake_captures dollar digits handle =
    (1, dollar)
    ∷ (
      2,
      take (length (digits ++ tagged handle) - length (tagged handle)) (digits ++ tagged handle),
    )
    ∷ (4, take (length handle - 0) handle)
    ∷ []

amount-stake :
    (b : Option ℕ) (c h : ℕ) (ds hs dollar : Text)
    → Digits (c ∷ ds)
    → Word (h ∷ hs)
    → run
        (seq (amount_part 2) handle_tail)
        ((1, dollar) ∷ [])
        (record { before = b; rest = c ∷ ds ++ tagged (h ∷ hs) })
        finish
      ≡ some (
        stake_captures dollar (c ∷ ds) (h ∷ hs),
        record { before = last_of (some h) hs; rest = [] },
      )
unfolding run run_star set
amount-stake b c h ds hs dollar digits word = rw digits.0 (
    run_star-whole is_digit (some c) ds (tagged (h ∷ hs)) _ _ _ digits.1
      (λ b'. rw word.0 (run_star-All is_word (some h) hs _ _ _ word.1 refl)))

dollar_in : Text → Text → Text
dollar_in digits handle =
    take (length (stake_text digits handle) - length (digits ++ tagged handle))
      (stake_text digits handle)

handle-stake :
    (c h : ℕ) (ds hs : Text)
    → Digits (c ∷ ds)
    → Word (h ∷ hs)
    → search_in bet_handle_re (stake_text (c ∷ ds) (h ∷ hs))
      ≡ some (stake_captures (dollar_in (c ∷ ds) (h ∷ hs)) (c ∷ ds) (h ∷ hs))
unfolding search_in search_from amount_then_handle run set dollar_in
handle-stake c h ds hs digits word =
    rw
      (
        run_star-stop is_space (some 36) c (ds ++ tagged (h ∷ hs)) _ _ (digit-space c digits.0),
        amount-stake (some 36) c h ds hs (dollar_in (c ∷ ds) (h ∷ hs)) digits word,
      )
      refl

-- A text that reads "$", a positive whole amount, a space and a handle, and in which no tag of the bot
-- is blotted out: it is parsed as a bet of that amount, in dollars, on the person of that handle.
pub parse_mention-stake_text :
    (bot : Option Text) (c h : ℕ) (ds hs : Text)
    → Digits (c ∷ ds)
    → Word (h ∷ hs)
    → 0 < (decimal_from 0 (c ∷ ds)).digits
    → without_bot bot (stake_text (c ∷ ds) (h ∷ hs)) ≡ stake_text (c ∷ ds) (h ∷ hs)
    → parse_mention (stake_text (c ∷ ds) (h ∷ hs)) bot
      ≡ bet (by_handle (h ∷ hs)) (decimal_from 0 (c ∷ ds)) usd_unit
unfolding parse_mention amount_of unit_of get
parse_mention-stake_text bot c h ds hs digits word positive untagged =
    rw
      (
        untagged,
        handle-stake c h ds hs digits word,
        take-append (c ∷ ds) (tagged (h ∷ hs)),
        take-whole (h ∷ hs),
        lt→ltb 0 _ positive,
      )
      refl
