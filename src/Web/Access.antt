-- ===== src/Web/Access.antt =====
-- The access cookie (apps/web/lib/access.ts). The HMAC, in base64, is a parameter.
use ratio.Base.{
  ℕ, zero, suc, ◌+◌, ◌≡◌, ◌≢◌, refl, ◌∙◌, sym, ap, Bool, true, false, ◌&&◌, Option, none, some, [],
  ◌∷◌, ◌++◌, if◌then◌else◌, nat_eq, ◌==◌, includes, take, drop, length, map, arith, Bool-cases, inl,
  inr, eq_of_beq, beq_self, subst, length-append, append_assoc,
}
use ratio.Texts.{Text, codes, text_eq}

-- `"+"` to `"-"` and `"/"` to `"_"`.
abbrev pub url_code : ℕ → ℕ
url_code c = if c == 43 then 45 else if c == 47 then 95 else c

-- Whether a text is of nothing but `"="`.
abbrev pub is_padding : Text → Bool
is_padding [] = true
is_padding (c ∷ cs) = (c == 61) && is_padding cs

-- `replace(/=+$/, "")`
abbrev pub strip_padding : Text → Text
strip_padding [] = []
strip_padding (c ∷ cs) =
    let rest = strip_padding cs in if (c == 61) && is_padding cs then [] else c ∷ rest

-- The base64 of some bytes, as it goes into a link.
unfoldable pub b64url : Text → Text
b64url base64 = strip_padding (map url_code base64)

-- `lastIndexOf`
abbrev pub last_index_of : ℕ → Text → Option ℕ
last_index_of c [] = none
last_index_of c (d ∷ ds) = elim (last_index_of c ds) [
  | some i ↦ some (suc i)
  | none ↦ if d == c then some 0 else none
]

module _ (hmac : (secret payload : Text) → Text) where
  unfoldable pub sign : Text → Text → Text
  sign secret payload = b64url (hmac secret payload)

  -- `stamp` is the time, in digits.
  unfoldable pub sign_access : (secret code stamp : Text) → Text
  sign_access secret code stamp =
      let payload = code ++ codes "." ++ stamp in payload ++ codes "." ++ sign secret payload

  -- The cookie split at its last dot.
  unfoldable pub verify_split : Text → Text → Option ℕ → Bool
  verify_split secret cookie none = false
  verify_split secret cookie (some zero) = false
  verify_split secret cookie (some (suc i)) =
      sign secret (take (suc i) cookie) == drop (suc (suc i)) cookie

  unfoldable pub verify_access : Text → Option Text → Bool
  verify_access secret none = false
  verify_access secret (some cookie) = verify_split secret cookie (last_index_of 46 cookie)

-- Lemmas on the split.
take-append : (p r : Text) → take (length p) (p ++ r) ≡ p
take-append [] r = refl
take-append (c ∷ p) r = ap (λ l. c ∷ l) (take-append p r)

drop-append : (p : Text) (c : ℕ) (r : Text) → drop (suc (length p)) (p ++ c ∷ r) ≡ r
drop-append [] c r = refl
drop-append (d ∷ p) c r = drop-append p c r

last_absent : (c : ℕ) (s : Text) → includes s c ≡ false → last_index_of c s ≡ none
last_absent c [] h = refl
last_absent c (d ∷ s) h = ground (arith, last_absent c s (ground arith))

last_index_of-append :
    (c : ℕ) (p s : Text) → includes s c ≡ false → last_index_of c (p ++ c ∷ s) ≡ some (length p)
last_index_of-append c [] s h = ground (arith, last_absent c s h)
last_index_of-append c (d ∷ p) s h = rw (last_index_of-append c p s h) refl

pub take-drop :
    (c : ℕ) (t : Text) (i : ℕ) → last_index_of c t ≡ some i → t ≡ take i t ++ c ∷ drop (suc i) t
take-drop c [] i e = cc e
take-drop c (d ∷ t) i e = behind (last_index_of c t) (take-drop c t) e
  where
    behind :
        (o : Option ℕ)
        → ((j : ℕ) → o ≡ some j → t ≡ take j t ++ c ∷ drop (suc j) t)
        → elim o [ some i ↦ some (suc i) | none ↦ if d == c then some 0 else none ] ≡ some i
        → d ∷ t ≡ take i (d ∷ t) ++ c ∷ drop (suc i) (d ∷ t)
    behind (some j) h e' =
        let same : suc j ≡ i = cc e' in
        subst (λ k. d ∷ t ≡ take k (d ∷ t) ++ c ∷ drop (suc k) (d ∷ t)) same
          (ap (λ l. d ∷ l) (h j refl))
    behind none h e' = elim (Bool-cases (d == c)) [
      | inr other ↦ absurd (ground (arith, other))
      | inl same ↦
          let first : 0 ≡ i = ground (arith, same) in
          subst (λ k. d ∷ t ≡ take k (d ∷ t) ++ c ∷ drop (suc k) (d ∷ t)) first
            (ap (λ x. x ∷ t) (eq_of_beq d c same))
    ]

url_code-dotless : (t : Text) → includes t 46 ≡ false → includes (map url_code t) 46 ≡ false
url_code-dotless [] h = refl
url_code-dotless (c ∷ t) h = ground (arith, url_code-dotless t (ground arith))

strip_padding-dotless : (t : Text) → includes t 46 ≡ false → includes (strip_padding t) 46 ≡ false
strip_padding-dotless [] h = refl
strip_padding-dotless (c ∷ t) h = elim (Bool-cases ((c == 61) && is_padding t)) [
  | inl padding ↦ rw padding refl
  | inr kept ↦ rw kept (ground (arith, h, strip_padding-dotless t (ground (arith, h))))
]

pub b64url-dotless : (t : Text) → includes t 46 ≡ false → includes (b64url t) 46 ≡ false
unfolding b64url
b64url-dotless t h = strip_padding-dotless (map url_code t) (url_code-dotless t h)

split-verifies :
    (hmac : Text → Text → Text) (secret payload : Text) (i : ℕ)
    → length payload ≡ suc i
    → includes (sign hmac secret payload) 46 ≡ false
    → verify_access hmac secret (some (payload ++ 46 ∷ sign hmac secret payload)) ≡ true
unfolding verify_access verify_split
split-verifies hmac secret payload i n dotless =
    let mac = sign hmac secret payload in
    let cookie = payload ++ 46 ∷ mac in
    let taken : take (suc i) cookie ≡ payload =
      ap (λ k. take k cookie) (sym n) ∙ take-append payload (46 ∷ mac) in
    let dropped : drop (suc (suc i)) cookie ≡ mac =
      ap (λ k. drop (suc k) cookie) (sym n) ∙ drop-append payload 46 mac in
    ap (verify_split hmac secret cookie) (last_index_of-append 46 payload mac dotless ∙ ap some n)
    ∙ ap (λ t. sign hmac secret t == drop (suc (suc i)) cookie) taken
    ∙ ap (λ t. mac == t) dropped
    ∙ beq_self mac

-- A cookie that was signed verifies with the same secret, whatever the code, a dot in it included, and
-- the time. The hypothesis is that base64 has no dot.
pub verify_access-sign_access :
    (hmac : (secret payload : Text) → Text) (secret code stamp : Text)
    → ((payload : Text) → includes (hmac secret payload) 46 ≡ false)
    → verify_access hmac secret (some (sign_access hmac secret code stamp)) ≡ true
unfolding sign_access sign
verify_access-sign_access hmac secret code stamp dotless =
    let payload = code ++ codes "." ++ stamp in
    let i : ℕ = length code + length stamp in
    let n : length payload ≡ suc i =
      omega (arith, length-append (code ++ codes ".") stamp, length-append code (codes ".")) in
    ap (λ t. verify_access hmac secret (some t))
      (append_assoc payload (codes ".") (b64url (hmac secret payload)))
    ∙ split-verifies hmac secret payload i n
        (b64url-dotless (hmac secret payload) (dotless payload))

-- A cookie that verifies is a payload that is not empty, a dot and the payload's own signature.
pub IsSigned : (hmac : Text → Text → Text) → Text → Text → Type 0
IsSigned hmac secret cookie =
    (payload : Text) × (payload ≢ []) × (cookie ≡ payload ++ 46 ∷ sign hmac secret payload)

pub verify_access-IsSigned :
    (hmac : Text → Text → Text) (secret cookie : Text)
    → verify_access hmac secret (some cookie) ≡ true
    → IsSigned hmac secret cookie
unfolding verify_access verify_split IsSigned
verify_access-IsSigned hmac secret cookie h = behind (last_index_of 46 cookie) refl h
  where
    behind :
        (o : Option ℕ)
        → last_index_of 46 cookie ≡ o
        → verify_split hmac secret cookie o ≡ true
        → (payload : Text) × (payload ≢ []) × (cookie ≡ payload ++ 46 ∷ sign hmac secret payload)
    behind none l e = cc e
    behind (some zero) l e = cc e
    behind (some (suc i)) l e =
        let whole = take-drop 46 cookie (suc i) l in
        let same =
          eq_of_beq (sign hmac secret (take (suc i) cookie)) (drop (suc (suc i)) cookie) e in
        (
          take (suc i) cookie,
          some_text cookie l,
          whole ∙ ap (λ m. take (suc i) cookie ++ 46 ∷ m) (sym same),
        )
      where
        some_text : (t : Text) → last_index_of 46 t ≡ some (suc i) → take (suc i) t ≢ []
        some_text [] x = cc x
        some_text (c ∷ t) x = λ y. cc y
