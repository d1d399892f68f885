-- ===== src/Mention/Steps.antt =====
-- How the expressions of apps/agent/src/parse.ts match, one part at a time.
use ratio.Base.{
  ℕ, zero, ◌-◌, ◌≡◌, refl, ap, Bool, true, false, Option, none, some, [], ◌∷◌, ◌++◌, nat_eq, ◌==◌,
  if◌then◌else◌, length, length-append, take, All, arith,
}
use ratio.Texts.{Text}
use ratio.Mention.Regex.{
  Regex, one, seq, alt, opt, star, plus, group, boundary, nothing, Captures, Place, Next, or_try,
  run_star, run, finish, search_from, search_in, replace_from, replace_all, at_boundary,
}

-- No character of the text is this one.
abbrev pub Lacks : ℕ → Text → Type 0
Lacks x = All (λ c. (c == x) ≡ false)

-- A next step that fails at every place whose rest lacks the character.
abbrev pub Fails : ℕ → Next → Type 0
Fails x k = (caps : Captures) (s : Place) → Lacks x s.rest → k caps s ≡ none

or_try-none : {A : Type 0} (a b : Option A) → a ≡ none → b ≡ none → or_try a b ≡ none
or_try-none a b p q = cc (p, q)

if_none :
    {A : Type 0} (b : Bool) (x y : Option A) → x ≡ none → y ≡ none → (if b then x else y) ≡ none
if_none true x y p q = p
if_none false x y p q = q

run_star-Fails :
    (x : ℕ) (p : ℕ → Bool) (b : Option ℕ) (t : Text) (caps : Captures) (k : Next)
    → Fails x k
    → Lacks x t
    → run_star p b t caps k ≡ none
unfolding run_star
run_star-Fails x p b [] caps k fails lacks = fails caps _ tt
run_star-Fails x p b (c ∷ cs) caps k fails lacks =
    let stop = fails caps (record { before = b; rest = c ∷ cs }) lacks in
    let more = run_star-Fails x p (some c) cs caps k fails lacks.1 in
    if_none (p c) _ _ (or_try-none _ _ more stop) stop

-- What is followed by a failure fails.
run-Fails :
    (x : ℕ) (r : Regex) (caps : Captures) (b : Option ℕ) (t : Text) (k : Next)
    → Fails x k
    → Lacks x t
    → run r caps (record { before = b; rest = t }) k ≡ none
unfolding run
run-Fails x (one p) caps b [] k fails lacks = refl
run-Fails x (one p) caps b (c ∷ cs) k fails lacks =
    if_none (p c) _ _ (fails caps (record { before = some c; rest = cs }) lacks.1) refl
run-Fails x (seq r t') caps b t k fails lacks =
    run-Fails x r caps b t _ (λ caps' s' l. run-Fails x t' caps' s'.before s'.rest k fails l) lacks
run-Fails x (alt r t') caps b t k fails lacks =
    or_try-none _ _ (run-Fails x r caps b t k fails lacks) (run-Fails x t' caps b t k fails lacks)
run-Fails x (opt r) caps b t k fails lacks =
    or_try-none _ _ (run-Fails x r caps b t k fails lacks) (fails caps _ lacks)
run-Fails x (star p) caps b t k fails lacks = run_star-Fails x p b t caps k fails lacks
run-Fails x (plus p) caps b [] k fails lacks = refl
run-Fails x (plus p) caps b (c ∷ cs) k fails lacks =
    if_none (p c) _ _ (run_star-Fails x p (some c) cs caps k fails lacks.1) refl
run-Fails x (group n r) caps b t k fails lacks =
    run-Fails x r caps b t _ (λ caps' s' l. fails _ s' l) lacks
run-Fails x boundary caps b t k fails lacks =
    if_none (at_boundary (record { before = b; rest = t })) _ _ (fails caps _ lacks) refl
run-Fails x nothing caps b t k fails lacks = fails caps _ lacks

-- An expression that matches nowhere in a text that lacks the character.
abbrev pub Needs : ℕ → Regex → Type 0
Needs x r =
    (caps : Captures) (b : Option ℕ) (t : Text) (k : Next)
    → Lacks x t
    → run r caps (record { before = b; rest = t }) k ≡ none

pub Needs-char : (x : ℕ) → Needs x (one (λ c. c == x))
unfolding run
Needs-char x caps b [] k lacks = refl
Needs-char x caps b (c ∷ cs) k lacks = rw lacks.0 refl

pub Needs-first : (x : ℕ) (r t : Regex) → Needs x r → Needs x (seq r t)
unfolding run
Needs-first x r t needs caps b txt k lacks = needs caps b txt _ lacks

pub Needs-later : (x : ℕ) (r t : Regex) → Needs x t → Needs x (seq r t)
unfolding run
Needs-later x r t needs caps b txt k lacks =
    run-Fails x r caps b txt _ (λ caps' s' l. needs caps' s'.before s'.rest k l) lacks

pub Needs-alt : (x : ℕ) (r t : Regex) → Needs x r → Needs x t → Needs x (alt r t)
unfolding run
Needs-alt x r t p q caps b txt k lacks =
    or_try-none _ _ (p caps b txt k lacks) (q caps b txt k lacks)

search_from-none :
    (x : ℕ) (r : Regex) (b : Option ℕ) (t : Text) → Needs x r → Lacks x t → search_from r b t ≡ none
unfolding search_from
search_from-none x r b [] needs lacks = needs [] b [] finish tt
search_from-none x r b (c ∷ cs) needs lacks =
    or_try-none _ _ (needs [] b (c ∷ cs) finish lacks)
      (search_from-none x r (some c) cs needs lacks.1)

pub search_in-none : (x : ℕ) (r : Regex) (t : Text) → Needs x r → Lacks x t → search_in r t ≡ none
unfolding search_in
search_in-none x r t needs lacks = rw (search_from-none x r none t needs lacks) refl

replace_from-same :
    (x : ℕ) (r : Regex) (by : Text) (b : Option ℕ) (t : Text)
    → Needs x r
    → Lacks x t
    → replace_from r by zero b t ≡ t
unfolding replace_from
replace_from-same x r by b [] needs lacks = refl
replace_from-same x r by b (c ∷ cs) needs lacks =
    rw (needs [] b (c ∷ cs) finish lacks)
      (ap (λ l. c ∷ l) (replace_from-same x r by (some c) cs needs lacks.1))

pub replace_all-same :
    (x : ℕ) (r : Regex) (by t : Text) → Needs x r → Lacks x t → replace_all r by t ≡ t
unfolding replace_all
replace_all-same x r by t needs lacks = replace_from-same x r by none t needs lacks

or_try-some : {A : Type 0} (a b : Option A) (v : A) → a ≡ some v → or_try a b ≡ some v
or_try-some a b v p = rw p refl

-- A repetition over all of what it can take.
pub run_star-whole :
    (p : ℕ → Bool) (b : Option ℕ) (xs : Text) (rest : Text) (caps : Captures) (k : Next)
    (v : Captures × Place)
    → All (λ c. p c ≡ true) xs
    → ((b' : Option ℕ) → run_star p b' rest caps k ≡ some v)
    → run_star p b (xs ++ rest) caps k ≡ some v
unfolding run_star
run_star-whole p b [] rest caps k v all goes = goes b
run_star-whole p b (c ∷ xs) rest caps k v all goes =
    rw all.0 (or_try-some _ _ v (run_star-whole p (some c) xs rest caps k v all.1 goes))

-- The character before the end of a text.
abbrev pub last_of : Option ℕ → Text → Option ℕ
last_of b [] = b
last_of b (c ∷ cs) = last_of (some c) cs

-- A repetition that reaches the end.
pub run_star-All :
    (p : ℕ → Bool) (b : Option ℕ) (xs : Text) (caps : Captures) (k : Next) (v : Captures × Place)
    → All (λ c. p c ≡ true) xs
    → k caps (record { before = last_of b xs; rest = [] }) ≡ some v
    → run_star p b xs caps k ≡ some v
unfolding run_star
run_star-All p b [] caps k v all goes = goes
run_star-All p b (c ∷ xs) caps k v all goes =
    rw all.0 (or_try-some _ _ v (run_star-All p (some c) xs caps k v all.1 goes))

-- One that cannot take the next character.
pub run_star-stop :
    (p : ℕ → Bool) (b : Option ℕ) (c : ℕ) (cs : Text) (caps : Captures) (k : Next)
    → p c ≡ false
    → run_star p b (c ∷ cs) caps k ≡ k caps (record { before = b; rest = c ∷ cs })
unfolding run_star
run_star-stop p b c cs caps k stops = rw stops refl

-- One that has to give back the last character that it took.
pub run_star-back :
    (p : ℕ → Bool) (b : Option ℕ) (c : ℕ) (caps : Captures) (k : Next)
    → p c ≡ true
    → k caps (record { before = some c; rest = [] }) ≡ none
    → run_star p b (c ∷ []) caps k ≡ k caps (record { before = b; rest = c ∷ [] })
unfolding run_star
run_star-back p b c caps k yes' fails = rw (yes', fails) refl

-- What stands before the rest.
pub take-append : (xs rest : Text) → take (length (xs ++ rest) - length rest) (xs ++ rest) ≡ xs
take-append xs rest =
    let n : length (xs ++ rest) - length rest ≡ length xs = omega (arith, length-append xs rest) in
    rw n (take_front xs rest)
  where
    take_front : (xs rest : Text) → take (length xs) (xs ++ rest) ≡ xs
    take_front [] rest = refl
    take_front (x ∷ xs) rest = ap (λ l. x ∷ l) (take_front xs rest)

pub take-whole : (xs : Text) → take (length xs - 0) xs ≡ xs
take-whole xs = let n : length xs - 0 ≡ length xs = omega arith in rw n (all_of xs)
  where
    all_of : (xs : Text) → take (length xs) xs ≡ xs
    all_of [] = refl
    all_of (x ∷ xs) = ap (λ l. x ∷ l) (all_of xs)
