-- ===== src/Texts.antt =====
-- Texts that the program looks into: addresses and hexadecimal data, as the codes of their characters.
-- Lower case is that of ASCII, to which addresses and handles belong.
use Prim.Native.Char.{code}
use Prim.Native.String as Native
use ratio.Base.{
  ℕ, ◌+◌, ◌-◌, ◌*◌, ◌≡◌, refl, Bool, true, false, ◌&&◌, ◌||◌, List, [], ◌∷◌, String, map, arith,
  leb, if◌then◌else◌, nat_eq, ◌==◌, Comparable, length, drop,
}

abbrev pub Text : Type 0
Text = List ℕ

abbrev pub codes : String → Text
codes Native.String.[] = []
codes (Native.String.◌∷◌ c s) = code c ∷ codes s

abbrev pub to_lower : ℕ → ℕ
to_lower c = if leb 65 c && leb c 90 then c + 32 else c

-- `toLowerCase`
unfoldable pub lower : Text → Text
lower t = map to_lower t

-- `/[0-9a-fA-F]/`
abbrev pub is_hex : ℕ → Bool
is_hex c = (leb 48 c && leb c 57) || ((leb 65 c && leb c 70) || (leb 97 c && leb c 102))

abbrev pub all_hex : Text → Bool
all_hex [] = true
all_hex (c ∷ cs) = is_hex c && all_hex cs

-- The value of a digit in lower case.
abbrev pub digit : ℕ → ℕ
digit c = if leb c 57 then c - 48 else c - 87

-- The number that hexadecimal digits spell behind those that make `acc`.
unfoldable pub hex_from : ℕ → Text → ℕ
hex_from acc [] = acc
hex_from acc (c ∷ cs) = hex_from (acc * 16 + digit c) cs

-- `BigInt` of a text "0x…".
unfoldable pub number : Text → ℕ
number t = hex_from 0 (drop 2 t)

-- `/^0x[0-9a-fA-F]{40}$/`
unfoldable pub is_address : Text → Bool
is_address (x ∷ y ∷ t) = (x == 48) && ((y == 120) && ((length t == 40) && all_hex t))
is_address _ = false

abbrev text_same : Text → Text → Bool
text_same [] [] = true
text_same (x ∷ xs) (y ∷ ys) = (x == y) && text_same xs ys
text_same _ _ = false

pub text_same_refl : (t : Text) → text_same t t ≡ true
text_same_refl [] = refl
text_same_refl (x ∷ t) = ground (arith, text_same_refl t)

pub text_same_eq : (s t : Text) → text_same s t ≡ true → s ≡ t
text_same_eq [] [] h = refl
text_same_eq [] (y ∷ t) h = cc
text_same_eq (x ∷ s) [] h = cc
text_same_eq (x ∷ s) (y ∷ t) h =
    let head : x ≡ y = ground arith in
    let tail : text_same s t ≡ true = ground arith in cc (head, text_same_eq s t tail)

instance abbrev pub text_eq : Comparable Text
text_eq = record {
  same_iff = λ s t. (text_same_eq s t, λ e. rw e (text_same_refl t));
  same = text_same;
}

abbrev pub starts_with : Text → Text → Bool
starts_with [] t = true
starts_with (p ∷ ps) [] = false
starts_with (p ∷ ps) (c ∷ cs) = (p == c) && starts_with ps cs

abbrev pub contains : Text → Text → Bool
contains word [] = starts_with word []
contains word (c ∷ cs) = starts_with word (c ∷ cs) || contains word cs

abbrev pub contains_any : List Text → Text → Bool
contains_any [] t = false
contains_any (w ∷ ws) t = contains w t || contains_any ws t

-- Equally long hexadecimal texts that spell one number agree in lower case.
hex_from_injective :
    (a b : ℕ) (s t : Text)
    → all_hex s ≡ true
    → all_hex t ≡ true
    → length s ≡ length t
    → hex_from a (lower s) ≡ hex_from b (lower t)
    → (a ≡ b) × (lower s ≡ lower t)
unfolding hex_from lower
hex_from_injective a b [] [] hs ht n e = (e, refl)
hex_from_injective a b [] (d ∷ t) hs ht n e = absurd (omega (arith, n))
hex_from_injective a b (c ∷ s) [] hs ht n e = absurd (omega (arith, n))
hex_from_injective a b (c ∷ s) (d ∷ t) hs ht n e =
    let rest =
      hex_from_injective (a * 16 + digit (to_lower c)) (b * 16 + digit (to_lower d)) s t
        (ground arith) (ground arith) (omega (arith, n)) e in
    let heads : (a ≡ b) × (to_lower c ≡ to_lower d) = ground (arith, rest.0) in
    (heads.0, cc (heads.1, rest.1))

-- Addresses that read as one number agree in lower case.
pub number_injective :
    (s t : Text)
    → is_address s ≡ true
    → is_address t ≡ true
    → number (lower s) ≡ number (lower t)
    → lower s ≡ lower t
unfolding is_address number lower
number_injective (x ∷ y ∷ s) (x' ∷ y' ∷ t) hs ht e =
    let tails = hex_from_injective 0 0 s t (ground arith) (ground arith) (ground arith) e in
    let first : x ≡ x' = ground arith in
    let second : y ≡ y' = ground arith in cc (first, second, tails.1)
number_injective [] t hs ht e = cc
number_injective (x ∷ []) t hs ht e = cc
number_injective (x ∷ y ∷ s) [] hs ht e = cc
number_injective (x ∷ y ∷ s) (x' ∷ []) hs ht e = cc
