-- ===== src/Chain/Accepted.antt =====
-- A valid split is accepted: `buildBeneficiaries` (packages/chain/src/evm/beneficiaries.ts).
use ratio.Texts.{Text, text_eq, lower, number, is_address, number_injective}
use ratio.Base.{
  ℕ, ◌*◌, ◌≤◌, ◌<◌, ◌≡◌, ◌≢◌, refl, sym, ap, ◌∙◌, true, false, some, List, [], ◌∷◌, nat_eq, ◌==◌,
  map, All, NoDup, includes, or_else, arith, ltb, Option-cases, inl, inr, ne_of_beq,
}
use ratio.Base.Maps.{keys, values, get, All-set}
use ratio.Engine.World.{ok}
use ratio.Engine.Shares.{
  share_of-get, sum, add_share, merge_into, share_of, sum-merge_into, share_of-merge_into,
  merge_into-NoDup,
}
use ratio.Chain.Beneficiaries.{
  Party, DopplerBeneficiary, wad, min_owner_shares, wad_per_bp, positive_share, shares_of,
  total_shares, merge_parties, sort_beneficiaries, check_merged, build_beneficiaries,
}
use ratio.Chain.Payees.{
  shares_for, total_shares-shares_of, shares_for-shares_of, IsAscending, IsAccepted,
  All-sort_beneficiaries, insert_beneficiary-IsAscending, total_shares-sort, shares_for-sort,
}

-- A wallet with its share, as a party.
abbrev pub party_of : Text × ℕ → Party
party_of e = record { wallet = e.0; share_bps = some e.1 }

-- The parts as they are merged.
abbrev pub parts : List (Text × ℕ) → List (Text × ℕ)
parts [] = []
parts (e ∷ es) = (lower e.0, e.1) ∷ parts es

abbrev pub IsValid : Text × ℕ → Type 0
IsValid e = (is_address e.0 ≡ true) × (0 < e.1)

merge_parties-valid :
    (es : List (Text × ℕ)) (merged : List (Text × ℕ))
    → All IsValid es
    → merge_parties (map party_of es) merged ≡ ok (merge_into merged (parts es))
unfolding merge_parties merge_into positive_share
merge_parties-valid [] merged h = refl
merge_parties-valid (e ∷ es) merged h =
    let positive : (e.1 == 0) ≡ false = ground (arith, h.0.1) in
    rw (h.0.0, positive) (merge_parties-valid es _ h.1)

-- A merged entry: its key is the lower case of an address, and it has a share.
abbrev Merged : Text → ℕ → Type 0
Merged k n = ((x : Text) × (is_address x ≡ true) × (lower x ≡ k)) × (0 < n)

merge_into-Merged :
    (es merged : List (Text × ℕ))
    → All IsValid es
    → All (λ p. Merged p.0 p.1) merged
    → All (λ p. Merged p.0 p.1) (merge_into merged (parts es))
unfolding merge_into add_share
merge_into-Merged [] merged h a = a
merge_into-Merged (e ∷ es) merged h a =
    merge_into-Merged es _ h.1
      (All-set Merged (lower e.0) _ merged ((e.0, h.0.0, refl), omega (arith, h.0.1)) a)

sum-parts : (es : List (Text × ℕ)) → sum (values (parts es)) ≡ sum (values es)
sum-parts [] = refl
sum-parts ((x, n) ∷ es) = omega (arith, sum-parts es)

shares_of-positive :
    (m : List (Text × ℕ)) → All (λ p. Merged p.0 p.1) m → All (λ b. 0 < b.shares) (shares_of m)
unfolding shares_of
shares_of-positive [] a = tt
shares_of-positive ((k, n) ∷ m) a = (omega (arith, a.0.1), shares_of-positive m a.1)

number-ne :
    (k j : Text) (n v : ℕ) → Merged k n → Merged j v → (j == k) ≡ false → number k ≢ number j
number-ne k j n v ((x, ax, lx), _) ((y, ay, ly), _) differ same =
    ne_of_beq j k differ
      (sym ly ∙ sym (number_injective x y ax ay (ap number lx ∙ same ∙ sym (ap number ly))) ∙ lx)

shares_of-apart :
    (k : Text) (n : ℕ) (m : List (Text × ℕ))
    → Merged k n
    → All (λ p. Merged p.0 p.1) m
    → includes (keys m) k ≡ false
    → All (λ c. number k ≢ number c.beneficiary) (shares_of m)
unfolding shares_of
shares_of-apart k n [] h a absent = tt
shares_of-apart k n ((j, v) ∷ m) h a absent =
    (number-ne k j n v h a.0 (ground arith), shares_of-apart k n m h a.1 (ground arith))

sort_beneficiaries-IsAscending :
    (m : List (Text × ℕ))
    → All (λ p. Merged p.0 p.1) m
    → NoDup (keys m)
    → IsAscending (sort_beneficiaries (shares_of m))
unfolding sort_beneficiaries shares_of IsAscending
sort_beneficiaries-IsAscending [] a u = tt
sort_beneficiaries-IsAscending ((k, n) ∷ m) a u =
    insert_beneficiary-IsAscending _ _
      (All-sort_beneficiaries (λ c. number k ≢ number c.beneficiary) (shares_of m)
        (shares_of-apart k n m a.0 a.1 u.0))
      (sort_beneficiaries-IsAscending m a.1 u.1)

check_merged-IsAccepted :
    (owner : Text) (m : List (Text × ℕ))
    → All (λ p. Merged p.0 p.1) m
    → NoDup (keys m)
    → sum (values m) ≡ 10000
    → 500 ≤ share_of (lower owner) m
    → (out : List DopplerBeneficiary) × (check_merged owner m ≡ ok out) × IsAccepted owner out
unfolding check_merged
check_merged-IsAccepted owner m a u whole enough =
    let low = lower owner in
    let out = sort_beneficiaries (shares_of m) in
    let full : total_shares out ≡ wad =
      omega (arith, total_shares-sort (shares_of m), total_shares-shares_of m, whole) in
    let owned : min_owner_shares ≤ shares_for low out =
      omega (arith, shares_for-sort low (shares_of m), shares_for-shares_of low m, enough) in
    let sums : (sum (values m) == 10000) ≡ true = ground (arith, whole) in
    let fits : (total_shares out == wad) ≡ true = ground (arith, full) in
    let accepted : IsAccepted owner out = record {
      ascending = sort_beneficiaries-IsAscending m a u;
      positive = All-sort_beneficiaries (λ b. 0 < b.shares) (shares_of m) (shares_of-positive m a);
      whole = full;
      owner_share = owned;
    } in
    elim (Option-cases (get low m)) [
      | inl missing ↦
          absurd (omega (arith, enough, share_of-get low m u, ap (λ o. or_else o 0) missing))
      | inr (bps, found) ↦
          let held : or_else (get low m) 0 ≡ bps = rw found refl in
          let rich : ltb (bps * wad_per_bp) min_owner_shares ≡ false =
            ground (arith, enough, share_of-get low m u, held) in
          (out, rw (sums, found, rich, fits) refl, accepted)
    ]

-- A valid split is accepted: if every wallet is an address with a positive share, the shares sum
-- to 10000 and the airlock owner has at least 500 of them, in any letter case and over any number of
-- parties, then the beneficiaries come out strictly ascending by the number of their address, so
-- without a duplicate, each with a positive share, all of them exactly one WAD, and the owner with
-- at least a twentieth.
pub build_beneficiaries-IsAccepted :
    (owner : Text) (es : List (Text × ℕ))
    → All IsValid es
    → sum (values es) ≡ 10000
    → 500 ≤ share_of (lower owner) (parts es)
    → (out : List DopplerBeneficiary) × (build_beneficiaries (map party_of es) owner ≡ ok out)
      × IsAccepted owner out
unfolding build_beneficiaries
build_beneficiaries-IsAccepted owner [] h whole enough = absurd (omega (arith, whole))
build_beneficiaries-IsAccepted owner (e ∷ es) h whole enough =
    let all = parts (e ∷ es) in
    rw (merge_parties-valid (e ∷ es) [] h) (
      check_merged-IsAccepted owner (merge_into [] all) (merge_into-Merged (e ∷ es) [] h tt)
        (merge_into-NoDup [] all tt)
        (omega (arith, sum-merge_into [] all, sum-parts (e ∷ es), whole))
        (omega (arith, share_of-merge_into (lower owner) [] all, enough)))
