-- ===== src/Mention/Short.antt =====
-- A stake that names no side (apps/agent/src/parse.ts): its last digit is read as the side.
use ratio.Base.{
  ℕ, ◌-◌, ◌<◌, ◌≡◌, refl, true, false, Option, none, some, [], ◌∷◌, ◌++◌, nat_eq, ◌==◌, length,
  take, All, All-append, arith, lt→ltb,
}
use ratio.Base.Maps.{get, set}
use ratio.Texts.{Text, lower, text_eq}
use ratio.Store.Records.{side_a}
use ratio.Engine.World.{usd_unit}
use ratio.Mention.Regex.{
  Regex, one, seq, group, boundary, Captures, Place, is_digit, is_space, run_star, run, finish,
  search_from, search_in, replace_all,
}
use ratio.Mention.Patterns.{
  bet_handle_re, bet_letter_re, amount_then_handle, handle_then_amount, any_tag, tag_of, chain,
  spaces, eth_part, on_part, is_side_letter, amount_part,
}
use ratio.Mention.Parse.{
  bet, by_side, trim_end, trim, keep_unless_blank, decimal_from, amount_of, unit_of, side_of,
  without_bot, parse_mention,
}
use ratio.Mention.Steps.{
  Lacks, Needs, Needs-char, Needs-first, Needs-later, Needs-alt, search_in-none, replace_all-same,
  run_star-whole, run_star-stop, take-append,
}

abbrev pub Digits : Text → Type 0
Digits = All (λ c. is_digit c ≡ true)

pub Digits-Lacks : (t : Text) → Digits t → Lacks 64 t
Digits-Lacks [] h = tt
Digits-Lacks (c ∷ cs) h = (digit_apart c h.0, Digits-Lacks cs h.1)
  where
    digit_apart : (c : ℕ) → is_digit c ≡ true → (c == 64) ≡ false
    digit_apart c h = ground arith

pub digit-space : (c : ℕ) → is_digit c ≡ true → is_space c ≡ false
digit-space c h = ground arith

pub tag-Needs : (name : Text) → Needs 64 (tag_of name)
unfolding tag_of
tag-Needs name = Needs-first 64 _ _ (Needs-char 64)

bet_handle-Needs : Needs 64 bet_handle_re
unfolding amount_then_handle handle_then_amount
bet_handle-Needs =
    Needs-alt 64 _ _
      (Needs-later 64 _ _ (
        Needs-later 64 _ _ (
          Needs-later 64 _ _ (
            Needs-later 64 _ _ (
              Needs-later 64 _ _ (
                Needs-later 64 _ _ (
                  Needs-later 64 _ _
                    (Needs-first 64 _ _ (Needs-first 64 _ _ (Needs-char 64))))))))))
      (Needs-first 64 _ _ (Needs-first 64 _ _ (Needs-char 64)))

without_bot-same : (bot : Option Text) (t : Text) → Lacks 64 t → without_bot bot t ≡ t
unfolding without_bot
without_bot-same none t lacks = refl
without_bot-same (some []) t lacks = refl
without_bot-same (some (c ∷ cs)) t lacks =
    replace_all-same 64 (tag_of (c ∷ cs)) _ t (tag-Needs (c ∷ cs)) lacks

any_tag-same : (t : Text) → Lacks 64 t → replace_all any_tag [] t ≡ t
any_tag-same t lacks = replace_all-same 64 any_tag [] t (Needs-first 64 _ _ (Needs-char 64)) lacks

trim_end-same : (xs : Text) (c : ℕ) → is_space c ≡ false → trim_end (xs ++ c ∷ []) ≡ xs ++ c ∷ []
trim_end-same [] c visible = rw visible refl
trim_end-same (x ∷ xs) c visible = rw (trim_end-same xs c visible) (kept x xs c)
  where
    kept : (x : ℕ) (xs : Text) (c : ℕ) → keep_unless_blank x (xs ++ c ∷ []) ≡ x ∷ xs ++ c ∷ []
    kept x [] c = refl
    kept x (y ∷ xs) c = refl

-- "$", digits, and a last digit of one.
abbrev pub short_text : Text → Text
short_text ds = 36 ∷ (ds ++ 49 ∷ [])

short_text-Lacks : (ds : Text) → Digits ds → Lacks 64 (short_text ds)
short_text-Lacks ds h =
    (refl, All-append (λ c. (c == 64) ≡ false) ds (49 ∷ []) (Digits-Lacks ds h) (refl, tt))

trim-short : (ds : Text) → trim (short_text ds) ≡ short_text ds
unfolding trim
trim-short ds = trim_end-same (36 ∷ ds) 49 refl

abbrev last_one : Text
last_one = 49 ∷ []

-- What stands behind the amount.
abbrev letter_tail : Regex
letter_tail =
    chain (spaces ∷ eth_part 3 ∷ spaces ∷ on_part ∷ group 4 (one is_side_letter) ∷ boundary ∷ [])

abbrev short_captures : Text → Text → Captures
short_captures dollar digits =
    (1, dollar)
    ∷ (2, take (length (digits ++ last_one) - length last_one) (digits ++ last_one))
    ∷ (4, last_one)
    ∷ []

abbrev at_end : Place
at_end = record { before = some 49; rest = [] }

amount-short :
    (b : Option ℕ) (c : ℕ) (ds dollar : Text)
    → Digits (c ∷ ds)
    → run
        (seq (amount_part 2) letter_tail)
        ((1, dollar) ∷ [])
        (record { before = b; rest = c ∷ ds ++ last_one })
        finish
      ≡ some (short_captures dollar (c ∷ ds), at_end)
unfolding run run_star set
amount-short b c ds dollar h =
    rw h.0 (run_star-whole is_digit (some c) ds last_one _ _ _ h.1 (λ b'. refl))

dollar_of : Text → Text
dollar_of ds = take (length (short_text ds) - length (ds ++ last_one)) (short_text ds)

letter-short :
    (c : ℕ) (ds : Text)
    → Digits (c ∷ ds)
    → search_in bet_letter_re (short_text (c ∷ ds))
      ≡ some (short_captures (dollar_of (c ∷ ds)) (c ∷ ds))
unfolding search_in search_from bet_letter_re run set dollar_of
letter-short c ds h =
    rw
      (
        run_star-stop is_space (some 36) c (ds ++ last_one) _ _ (digit-space c h.0),
        amount-short (some 36) c ds (dollar_of (c ∷ ds)) h,
      )
      refl

-- A reply, or any other mention, that reads only "$" and a whole amount with the last digit 1, the
-- amount before that digit being positive: whatever the bot is called, it is parsed as a bet of the
-- amount without that digit on side A, in dollars.
pub parse_mention-short_text :
    (bot : Option Text) (c : ℕ) (ds : Text)
    → Digits (c ∷ ds)
    → 0 < (decimal_from 0 (c ∷ ds)).digits
    → parse_mention (short_text (c ∷ ds)) bot
      ≡ bet (by_side side_a) (decimal_from 0 (c ∷ ds)) usd_unit
unfolding parse_mention amount_of unit_of side_of lower get
parse_mention-short_text bot c ds h positive =
    let t = short_text (c ∷ ds) in
    let lacks = short_text-Lacks (c ∷ ds) h in
    rw
      (
        without_bot-same bot t lacks,
        search_in-none 64 bet_handle_re t bet_handle-Needs lacks,
        any_tag-same t lacks,
        trim-short (c ∷ ds),
        letter-short c ds h,
        take-append (c ∷ ds) last_one,
        lt→ltb 0 _ positive,
      )
      refl
