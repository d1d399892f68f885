-- ===== src/Chain/Beneficiaries.antt =====
-- `buildBeneficiaries` (packages/chain/src/evm/beneficiaries.ts). A share is `none` when it is no
-- integer or negative.
use ratio.Texts.{Text, text_eq, lower, number, is_address}
use ratio.Base.{
  ℕ, ◌+◌, ◌*◌, ◌/◌, not, Option, none, some, List, [], ◌∷◌, nat_eq, ◌==◌, ltb, if◌then◌else◌,
}
use ratio.Base.Maps.{get, values}
use ratio.Engine.World.{Result, ok, throw}
use ratio.Engine.Shares.{sum, add_share}

pub record Party : Type 0 where
  pub wallet : Text
  pub share_bps : Option ℕ

pub record DopplerBeneficiary : Type 0 where
  pub beneficiary : Text
  pub shares : ℕ

abbrev pub wad : ℕ
wad = 1000000000000000000

abbrev pub min_owner_shares : ℕ
min_owner_shares = wad / 20

abbrev pub wad_per_bp : ℕ
wad_per_bp = wad / 10000

-- A party's share, if it is a positive integer.
unfoldable pub positive_share : Party → Result ℕ
positive_share p = elim p.share_bps [
  | none ↦ throw "shareBps must be a positive integer"
  | some n ↦ if n == 0 then throw "shareBps must be a positive integer" else ok n
]

unfoldable pub shares_of : List (Text × ℕ) → List DopplerBeneficiary
shares_of [] = []
shares_of ((wallet, bps) ∷ m) =
    record { beneficiary = wallet; shares = bps * wad_per_bp } ∷ shares_of m

unfoldable pub total_shares : List DopplerBeneficiary → ℕ
total_shares [] = 0
total_shares (b ∷ bs) = b.shares + total_shares bs

-- What follows a result.
abbrev pub and_then {ℓ κ} : {A : Type ℓ} {B : Type κ} → Result A → (A → Result B) → Result B
and_then (ok a) f = f a
and_then (throw e) f = throw e

unfoldable pub merge_parties : List Party → List (Text × ℕ) → Result (List (Text × ℕ))
merge_parties [] merged = ok merged
merge_parties (p ∷ ps) merged =
    if not (is_address p.wallet)
    then throw "not an address"
    else and_then (positive_share p) λ n. merge_parties ps (add_share (lower p.wallet) n merged)

-- The sort by the number of the address.
unfoldable pub insert_beneficiary :
    DopplerBeneficiary → List DopplerBeneficiary → List DopplerBeneficiary
insert_beneficiary b [] = b ∷ []
insert_beneficiary b (c ∷ cs) =
    let rest = insert_beneficiary b cs in
    if ltb (number b.beneficiary) (number c.beneficiary) then b ∷ c ∷ cs else c ∷ rest

unfoldable pub sort_beneficiaries : List DopplerBeneficiary → List DopplerBeneficiary
sort_beneficiaries [] = []
sort_beneficiaries (b ∷ bs) = insert_beneficiary b (sort_beneficiaries bs)

-- From the merged shares on.
unfoldable pub check_merged : Text → List (Text × ℕ) → Result (List DopplerBeneficiary)
check_merged airlock_owner merged =
    if not (sum (values merged) == 10000)
    then throw "shareBps must sum to 10000"
    else elim (get (lower airlock_owner) merged) [
      | none ↦ throw "airlock owner must be a beneficiary"
      | some bps ↦
          let out = sort_beneficiaries (shares_of merged) in
          if ltb (bps * wad_per_bp) min_owner_shares
          then throw "airlock owner needs at least 500 bps"
          else if not (total_shares out == wad)
          then throw "shares must sum to 1e18"
          else ok out
    ]

unfoldable pub build_beneficiaries : List Party → Text → Result (List DopplerBeneficiary)
build_beneficiaries [] airlock_owner = throw "no fee beneficiaries given"
build_beneficiaries (p ∷ ps) airlock_owner =
    and_then (merge_parties (p ∷ ps) []) (check_merged airlock_owner)
