-- ===== src/Engine/Shares.antt =====
-- Fee shares per wallet: the merging loop of `createMarket` (apps/agent/src/engine.ts), also that
-- of `buildBeneficiaries` (packages/chain/src/evm/beneficiaries.ts).
use ratio.Base.{
  ℕ, ◌+◌, ◌≡◌, List, [], ◌∷◌, arith, or_else, if◌then◌else◌, ◌==◌, Comparable, NoDup, refl, false,
  inl, inr, Bool-cases, eq_of_beq, includes,
}
use ratio.Base.Maps.{keys, values, get, set, keys-set-NoDup}

abbrev pub sum : List ℕ → ℕ
sum [] = 0
sum (x ∷ xs) = x + sum xs

module _ {ℓ} {K : Type ℓ} ⦃e : Comparable K⦄ where
  -- `merged.set(wallet, (merged.get(wallet) ?? 0) + bps)`
  unfoldable pub add_share : K → ℕ → List (K × ℕ) → List (K × ℕ)
  add_share k n m = set k (or_else (get k m) 0 + n) m

  unfoldable pub merge_into : List (K × ℕ) → List (K × ℕ) → List (K × ℕ)
  merge_into merged [] = merged
  merge_into merged ((k, n) ∷ parts) = merge_into (add_share k n merged) parts

  -- What one wallet gets from a list of parts that may name it several times.
  abbrev pub share_of : K → List (K × ℕ) → ℕ
  share_of k [] = 0
  share_of k ((j, n) ∷ parts) = (if j == k then n else 0) + share_of k parts

  sum-set :
      (k : K) (n : ℕ) (m : List (K × ℕ))
      → sum (values (set k (or_else (get k m) 0 + n) m)) ≡ sum (values m) + n
  unfolding get set
  sum-set k n [] = omega arith
  sum-set k n ((j, v) ∷ m) = ground (arith, sum-set k n m)

  -- Merging loses no share and makes none up.
  pub sum-merge_into :
      (merged parts : List (K × ℕ))
      → sum (values (merge_into merged parts)) ≡ sum (values merged) + sum (values parts)
  unfolding merge_into add_share
  sum-merge_into merged [] = omega arith
  sum-merge_into merged ((k, n) ∷ parts) =
      omega (arith, sum-merge_into (add_share k n merged) parts, sum-set k n merged)

  share_of-set :
      (j k : K) (n : ℕ) (m : List (K × ℕ))
      → share_of j (set k (or_else (get k m) 0 + n) m) ≡ share_of j m + (if k == j then n else 0)
  unfolding get set
  share_of-set j k n [] = ground arith
  share_of-set j k n ((i, v) ∷ m) =
      ground (arith, share_of-set j k n m, e.same_iff i k, e.same_iff k j, e.same_iff i j)

  -- Every wallet has what the parts give it.
  pub share_of-merge_into :
      (j : K) (merged parts : List (K × ℕ))
      → share_of j (merge_into merged parts) ≡ share_of j merged + share_of j parts
  unfolding merge_into add_share
  share_of-merge_into j merged [] = omega arith
  share_of-merge_into j merged ((k, n) ∷ parts) =
      omega (arith, share_of-merge_into j (add_share k n merged) parts, share_of-set j k n merged)

  pub merge_into-NoDup :
      (merged parts : List (K × ℕ)) → NoDup (keys merged) → NoDup (keys (merge_into merged parts))
  unfolding merge_into add_share
  merge_into-NoDup merged [] h = h
  merge_into-NoDup merged ((k, n) ∷ parts) h =
      merge_into-NoDup (add_share k n merged) parts (keys-set-NoDup k _ merged h)

  -- What a map that names no key twice says of one.
  share_of-absent : (k : K) (m : List (K × ℕ)) → includes (keys m) k ≡ false → share_of k m ≡ 0
  share_of-absent k [] h = refl
  share_of-absent k ((j, n) ∷ m) h = ground (arith, share_of-absent k m)

  pub share_of-get :
      (k : K) (m : List (K × ℕ)) → NoDup (keys m) → share_of k m ≡ or_else (get k m) 0
  unfolding get
  share_of-get k [] u = refl
  share_of-get k ((j, n) ∷ m) u = elim (Bool-cases (j == k)) [
    | inl hit ↦
        let same : j ≡ k = eq_of_beq j k hit in
        rw hit (omega (arith, share_of-absent k m (rw (← same) u.0)))
    | inr miss ↦ rw miss (omega (arith, share_of-get k m u.1))
  ]
