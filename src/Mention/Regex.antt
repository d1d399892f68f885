-- ===== src/Mention/Regex.antt =====
-- The regular expressions of apps/agent/src/parse.ts, matched as JavaScript does: the first choice that
-- lets the rest match is taken, and a repetition takes as much as it can.
use ratio.Base.{
  ℕ, zero, suc, ◌-◌, Bool, false, ◌&&◌, ◌||◌, not, Option, none, some, List, [], ◌∷◌, ◌++◌, leb,
  nat_eq, ◌==◌, if◌then◌else◌, length, take,
}
use ratio.Base.Maps.{set}
use ratio.Texts.{Text, to_lower}

pub data Regex : Type 0 where
  -- One character that passes a test.
  one : (ℕ → Bool) → Regex
  seq : Regex → Regex → Regex
  alt : Regex → Regex → Regex
  -- `r?`
  opt : Regex → Regex
  -- Any number of characters that pass a test, and at least one.
  star : (ℕ → Bool) → Regex
  plus : (ℕ → Bool) → Regex
  -- `(r)`, by its number.
  group : ℕ → Regex → Regex
  -- `\b`
  boundary : Regex
  nothing : Regex

-- What the groups captured.
abbrev pub Captures : Type 0
Captures = List (ℕ × Text)

-- Where a match stands: the character before, and the rest.
pub record Place : Type 0 where
  pub before : Option ℕ
  pub rest : Text

-- What follows a part of a match.
abbrev pub Next : Type 0
Next = Captures → Place → Option (Captures × Place)

-- `\w`, `\d` and `\s`
abbrev pub is_digit : ℕ → Bool
is_digit c = leb 48 c && leb c 57

abbrev pub is_word : ℕ → Bool
is_word c = is_digit c || ((leb 65 c && leb c 90) || ((leb 97 c && leb c 122) || c == 95))

abbrev pub is_space : ℕ → Bool
is_space c =
    c == 32
    || ((leb 9 c && leb c 13)
        || (c == 160
            || (c == 5760
                || ((leb 8192 c && leb c 8202)
                    || (c == 8232
                        || (c == 8233
                            || (c == 8239 || (c == 8287 || (c == 12288 || c == 65279)))))))))

-- A letter in either case.
abbrev pub letter : ℕ → ℕ → Bool
letter a c = to_lower c == to_lower a

abbrev pub word_at : Option ℕ → Bool
word_at none = false
word_at (some c) = is_word c

abbrev pub head : Text → Option ℕ
head [] = none
head (c ∷ cs) = some c

-- Exactly one side of the place is a character of a word.
abbrev pub at_boundary : Place → Bool
at_boundary p =
    (word_at p.before && not (word_at (head p.rest)))
    || (not (word_at p.before) && word_at (head p.rest))

abbrev pub or_try : {A : Type 0} → Option A → Option A → Option A
or_try none b = b
or_try (some a) b = some a

-- A repetition takes the next character if it can, and gives it back if the rest does not match.
unfoldable pub run_star : (ℕ → Bool) → Option ℕ → Text → Captures → Next → Option (Captures × Place)
run_star p before [] caps k = k caps (record { before = before; rest = [] })
run_star p before (c ∷ cs) caps k =
    let more = run_star p (some c) cs caps k in
    let stop = k caps (record { before = before; rest = c ∷ cs }) in
    if p c then or_try more stop else stop

unfoldable pub run : Regex → Captures → Place → Next → Option (Captures × Place)
run (one p) caps s k = elim s.rest [
  | [] ↦ none
  | c ∷ cs ↦ if p c then k caps (record { before = some c; rest = cs }) else none
]
run (seq r t) caps s k = run r caps s (λ caps' s'. run t caps' s' k)
run (alt r t) caps s k = or_try (run r caps s k) (run t caps s k)
run (opt r) caps s k = or_try (run r caps s k) (k caps s)
run (star p) caps s k = run_star p s.before s.rest caps k
run (plus p) caps s k = elim s.rest [
  | [] ↦ none
  | c ∷ cs ↦ if p c then run_star p (some c) cs caps k else none
]
run (group n r) caps s k =
    run r caps s λ caps' s'. k (set n (take (length s.rest - length s'.rest) s.rest) caps') s'
run boundary caps s k = if at_boundary s then k caps s else none
run nothing caps s k = k caps s

abbrev pub finish : Next
finish caps s = some (caps, s)

-- `text.match(re)`: the first place where it matches.
unfoldable pub search_from : Regex → Option ℕ → Text → Option (Captures × Place)
search_from r before [] = run r [] (record { before = before; rest = [] }) finish
search_from r before (c ∷ cs) =
    let later = search_from r (some c) cs in
    or_try (run r [] (record { before = before; rest = c ∷ cs }) finish) later

abbrev pub captured : Option (Captures × Place) → Option Captures
captured none = none
captured (some (caps, s)) = some caps

unfoldable pub search_in : Regex → Text → Option Captures
search_in r t = captured (search_from r none t)

-- What follows a match, or the lack of one.
abbrev pub resume : Option (Captures × Place) → Text → (Place → Text) → Text
resume none same f = same
resume (some (caps, s)) same f = f s

-- `text.replace(re, by)` with the flag `g`, for an expression that matches no empty text: characters
-- of a match that are left to pass over, and the rest.
unfoldable pub replace_from : Regex → Text → ℕ → Option ℕ → Text → Text
replace_from r by skip before [] = []
replace_from r by (suc skip) before (c ∷ cs) = replace_from r by skip (some c) cs
replace_from r by zero before (c ∷ cs) =
    let same = c ∷ replace_from r by zero (some c) cs in
    resume (run r [] (record { before = before; rest = c ∷ cs }) finish) same
      (λ s. by ++ replace_from r by (length cs - length s.rest) (some c) cs)

unfoldable pub replace_all : Regex → Text → Text → Text
replace_all r by t = replace_from r by zero none t
