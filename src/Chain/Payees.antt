-- ===== src/Chain/Payees.antt =====
-- What the initializer requires of the fee beneficiaries, and the sums and the sort of
-- `buildBeneficiaries` (packages/chain/src/evm/beneficiaries.ts).
use ratio.Texts.{Text, text_eq, lower, number}
use ratio.Base.{
  ℕ, ◌+◌, ◌*◌, ◌≤◌, ◌<◌, ◌≡◌, ◌≢◌, refl, List, [], ◌∷◌, nat_eq, ◌==◌, All, if◌then◌else◌, arith,
  ltb, Bool-cases, inl, inr,
}
use ratio.Base.Maps.{values}
use ratio.Engine.Shares.{sum, share_of}
use ratio.Chain.Beneficiaries.{
  DopplerBeneficiary, wad, min_owner_shares, wad_per_bp, shares_of, total_shares,
  insert_beneficiary, sort_beneficiaries,
}

-- What one address gets.
abbrev pub shares_for : Text → List DopplerBeneficiary → ℕ
shares_for a [] = 0
shares_for a (b ∷ bs) = (if b.beneficiary == a then b.shares else 0) + shares_for a bs

pub total_shares-shares_of :
    (m : List (Text × ℕ)) → total_shares (shares_of m) ≡ sum (values m) * wad_per_bp
unfolding total_shares shares_of
total_shares-shares_of [] = refl
total_shares-shares_of ((k, n) ∷ m) = omega (arith, total_shares-shares_of m)

pub shares_for-shares_of :
    (k : Text) (m : List (Text × ℕ)) → shares_for k (shares_of m) ≡ share_of k m * wad_per_bp
unfolding shares_of
shares_for-shares_of k [] = refl
shares_for-shares_of k ((j, n) ∷ m) = ground (arith, shares_for-shares_of k m)

-- Each address reads as a greater number than the one before it, as all further ones.
unfoldable pub IsAscending : List DopplerBeneficiary → Type 0
IsAscending [] = Unit {0}
IsAscending (b ∷ bs) = All (λ c. number b.beneficiary < number c.beneficiary) bs × IsAscending bs

-- What the initializer requires.
pub record IsAccepted (owner : Text) (bs : List DopplerBeneficiary) : Type 0 where
  pub ascending : IsAscending bs
  pub positive : All (λ b. 0 < b.shares) bs
  pub whole : total_shares bs ≡ wad
  pub owner_share : min_owner_shares ≤ shares_for (lower owner) bs

All-insert_beneficiary :
    (Q : DopplerBeneficiary → Type 0) (b : DopplerBeneficiary) (cs : List DopplerBeneficiary)
    → Q b
    → All Q cs
    → All Q (insert_beneficiary b cs)
unfolding insert_beneficiary
All-insert_beneficiary Q b [] q h = (q, tt)
All-insert_beneficiary Q b (c ∷ cs) q h =
    elim (Bool-cases (ltb (number b.beneficiary) (number c.beneficiary))) [
      | inl less ↦ rw less (q, h)
      | inr more ↦ rw more (h.0, All-insert_beneficiary Q b cs q h.1)
    ]

pub All-sort_beneficiaries :
    (Q : DopplerBeneficiary → Type 0) (bs : List DopplerBeneficiary)
    → All Q bs
    → All Q (sort_beneficiaries bs)
unfolding sort_beneficiaries
All-sort_beneficiaries Q [] h = tt
All-sort_beneficiaries Q (b ∷ bs) h =
    All-insert_beneficiary Q b _ h.0 (All-sort_beneficiaries Q bs h.1)

All-above :
    (n k : ℕ) (cs : List DopplerBeneficiary)
    → n < k
    → All (λ c. k < number c.beneficiary) cs
    → All (λ c. n < number c.beneficiary) cs
All-above n k [] less h = tt
All-above n k (c ∷ cs) less h = (omega (arith, less, h.0), All-above n k cs less h.1)

pub insert_beneficiary-IsAscending :
    (b : DopplerBeneficiary) (cs : List DopplerBeneficiary)
    → All (λ c. number b.beneficiary ≢ number c.beneficiary) cs
    → IsAscending cs
    → IsAscending (insert_beneficiary b cs)
unfolding insert_beneficiary IsAscending
insert_beneficiary-IsAscending b [] apart h = (tt, tt)
insert_beneficiary-IsAscending b (c ∷ cs) apart h =
    elim (Bool-cases (ltb (number b.beneficiary) (number c.beneficiary))) [
      | inl less ↦ rw less ((ground arith, All-above _ _ cs (ground arith) h.0), h)
      | inr more ↦ rw more (
        All-insert_beneficiary (λ d. number c.beneficiary < number d.beneficiary) b cs
            (ground (arith, apart.0)) h.0,
        insert_beneficiary-IsAscending b cs apart.1 h.1,
      )
    ]

total_shares-insert :
    (b : DopplerBeneficiary) (cs : List DopplerBeneficiary)
    → total_shares (insert_beneficiary b cs) ≡ b.shares + total_shares cs
unfolding insert_beneficiary total_shares
total_shares-insert b [] = refl
total_shares-insert b (c ∷ cs) = ground (arith, total_shares-insert b cs)

pub total_shares-sort :
    (bs : List DopplerBeneficiary) → total_shares (sort_beneficiaries bs) ≡ total_shares bs
unfolding sort_beneficiaries total_shares
total_shares-sort [] = refl
total_shares-sort (b ∷ bs) =
    omega (arith, total_shares-insert b (sort_beneficiaries bs), total_shares-sort bs)

shares_for-insert :
    (a : Text) (b : DopplerBeneficiary) (cs : List DopplerBeneficiary)
    → shares_for a (insert_beneficiary b cs) ≡ shares_for a (b ∷ cs)
unfolding insert_beneficiary
shares_for-insert a b [] = refl
shares_for-insert a b (c ∷ cs) = ground (arith, shares_for-insert a b cs)

pub shares_for-sort :
    (a : Text) (bs : List DopplerBeneficiary)
    → shares_for a (sort_beneficiaries bs) ≡ shares_for a bs
unfolding sort_beneficiaries
shares_for-sort a [] = refl
shares_for-sort a (b ∷ bs) =
    omega (arith, shares_for-insert a b (sort_beneficiaries bs), shares_for-sort a bs)
