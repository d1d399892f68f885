-- ===== src/Mention/Patterns.antt =====
-- The regular expressions of apps/agent/src/parse.ts. A handle of the bot is made of word characters,
-- so that it stands for itself in one.
use ratio.Base.{ℕ, Bool, ◌||◌, not, List, [], ◌∷◌, nat_eq, ◌==◌}
use ratio.Texts.{Text, codes, text_eq}
use ratio.Mention.Regex.{
  Regex, one, seq, alt, opt, star, plus, group, boundary, nothing, is_digit, is_word, is_space,
  letter,
}

abbrev pub chain : List Regex → Regex
chain [] = nothing
chain (r ∷ rs) = seq r (chain rs)

abbrev pub char : ℕ → Regex
char c = one (λ x. x == c)

-- A text in any letter case.
abbrev pub word : Text → Regex
word [] = nothing
word (c ∷ cs) = seq (one (letter c)) (word cs)

-- `(\$)?`, `(\d+(?:\.\d+)?)` and `(eth|Ξ)?` under the flag `i`, by the numbers of their groups.
abbrev pub dollar_part : ℕ → Regex
dollar_part n = opt (group n (char 36))

abbrev pub amount_part : ℕ → Regex
amount_part n = group n (seq (plus is_digit) (opt (chain (char 46 ∷ plus is_digit ∷ []))))

abbrev pub is_xi : ℕ → Bool
is_xi c = c == 926 || c == 958

abbrev pub eth_part : ℕ → Regex
eth_part n = opt (group n (alt (word (codes "eth")) (one is_xi)))

-- `(?:on\s+)?`
abbrev pub on_part : Regex
on_part = opt (seq (word (codes "on")) (plus is_space))

abbrev pub is_side_letter : ℕ → Bool
is_side_letter c = letter 97 c || (letter 98 c || (c == 49 || c == 50))

abbrev pub spaces : Regex
spaces = star is_space

-- `@(\w+)`
abbrev pub tag_part : ℕ → Regex
tag_part n = seq (char 64) (group n (plus is_word))

unfoldable pub amount_then_handle : Regex
amount_then_handle = chain (
    dollar_part 1
    ∷ spaces
    ∷ amount_part 2
    ∷ spaces
    ∷ eth_part 3
    ∷ plus is_space
    ∷ on_part
    ∷ tag_part 4
    ∷ [])

unfoldable pub handle_then_amount : Regex
handle_then_amount =
    chain (
      tag_part 5
      ∷ plus is_space
      ∷ dollar_part 6
      ∷ spaces
      ∷ amount_part 7
      ∷ spaces
      ∷ eth_part 8
      ∷ [])

abbrev pub bet_handle_re : Regex
bet_handle_re = alt amount_then_handle handle_then_amount

unfoldable pub bet_letter_re : Regex
bet_letter_re =
    alt
      (chain (
        dollar_part 1
        ∷ spaces
        ∷ amount_part 2
        ∷ spaces
        ∷ eth_part 3
        ∷ spaces
        ∷ on_part
        ∷ group 4 (one is_side_letter)
        ∷ boundary
        ∷ []))
      (chain (
        boundary
        ∷ group 5 (one is_side_letter)
        ∷ boundary
        ∷ spaces
        ∷ dollar_part 6
        ∷ spaces
        ∷ amount_part 7
        ∷ spaces
        ∷ eth_part 8
        ∷ []))

unfoldable pub create_re : Regex
create_re = chain (
    boundary
    ∷ alt (seq (word (codes "market")) (opt (word (codes " this")))) (
        alt
          (seq (word (codes "ratio"))
            (opt (alt (word (codes " this")) (alt (word (codes " that")) (word (codes " them"))))))
          (alt (word (codes "create")) (word (codes "open"))))
    ∷ boundary
    ∷ [])

-- `@${botHandle}\b`
unfoldable pub tag_of : Text → Regex
tag_of bot = chain (char 64 ∷ word bot ∷ boundary ∷ [])

-- `/@\w+/g`
abbrev pub any_tag : Regex
any_tag = seq (char 64) (plus is_word)

-- `/https?:\/\/\S+/g`
abbrev pub any_link : Regex
any_link = chain (
    char 104
    ∷ char 116
    ∷ char 116
    ∷ char 112
    ∷ opt (char 115)
    ∷ char 58
    ∷ char 47
    ∷ char 47
    ∷ plus (λ c. not (is_space c))
    ∷ [])
