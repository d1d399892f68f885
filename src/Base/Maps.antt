-- ===== src/Base/Maps.antt =====
-- A JavaScript `Map` as an association list in insertion order: `set` keeps the place of a key
-- that is there, and appends one that is not.
use mathlib.Core.Path.{◌≡◌, refl, sym, subst}
use mathlib.Core.Bool.{true, not}
use mathlib.Core.List.{List, [], ◌∷◌}
use mathlib.Core.Logic.{inl, inr}
use mathlib.Core.Option
use mathlib.Core.Option.{Option, none, some}
use native.Mathlib.Omega.{arith}
use ratio.Base.Equality.{Comparable, ◌==◌, eq_of_beq}
use ratio.Base.Tests.{if◌then◌else◌, is_none, Bool-cases}
use ratio.Base.Lists.{includes, NoDup, All}

module _ {ℓ κ} {K : Type ℓ} {V : Type κ} where
  abbrev pub keys : List (K × V) → List K
  keys [] = []
  keys ((k, v) ∷ m) = k ∷ keys m

  abbrev pub values : List (K × V) → List V
  values [] = []
  values ((k, v) ∷ m) = v ∷ values m

module _ {ℓ κ} {K : Type ℓ} {V : Type κ} ⦃e : Comparable K⦄ where
  unfoldable pub get : K → List (K × V) → Option V
  get k [] = none
  get k ((j, v) ∷ m) = if j == k then some v else get k m

  unfoldable pub set : K → V → List (K × V) → List (K × V)
  set k v [] = (k, v) ∷ []
  set k v ((j, w) ∷ m) = if j == k then (j, v) ∷ m else (j, w) ∷ set k v m

  pub get-set :
      (k j : K) (v : V) (m : List (K × V))
      → get j (set k v m) ≡ (if k == j then some v else get j m)
  unfolding get set
  get-set k j v [] = refl
  get-set k j v ((i, w) ∷ m) =
      ground (arith, e.same_iff k j, e.same_iff i k, e.same_iff i j, get-set k j v m)

  pub includes-keys-set :
      (k j : K) (v : V) (m : List (K × V))
      → includes (keys (set k v m)) j ≡ (if k == j then true else includes (keys m) j)
  unfolding set
  includes-keys-set k j v [] = ground arith
  includes-keys-set k j v ((i, w) ∷ m) =
      ground (arith, e.same_iff k j, e.same_iff i k, e.same_iff i j, includes-keys-set k j v m)

  pub keys-set-NoDup :
      (k : K) (v : V) (m : List (K × V)) → NoDup (keys m) → NoDup (keys (set k v m))
  unfolding set
  keys-set-NoDup k v [] h = (refl, tt)
  keys-set-NoDup k v ((i, w) ∷ m) h =
      ground
        (arith, e.same_iff i k, e.same_iff k i, includes-keys-set k i v m, keys-set-NoDup k v m h.1)

  -- `const m = map.get(k); if (m) Object.assign(m, patch)`, as a function on the value.
  unfoldable pub adjust : K → (V → V) → List (K × V) → List (K × V)
  adjust k f [] = []
  adjust k f ((j, v) ∷ m) = if j == k then (j, f v) ∷ m else (j, v) ∷ adjust k f m

  pub keys-adjust : (k : K) (f : V → V) (m : List (K × V)) → keys (adjust k f m) ≡ keys m
  unfolding adjust
  keys-adjust k f [] = refl
  keys-adjust k f ((j, v) ∷ m) = ground (arith, keys-adjust k f m)

  pub get-adjust :
      (k j : K) (f : V → V) (m : List (K × V))
      → get j (adjust k f m) ≡ (if k == j then Option.map f (get j m) else get j m)
  unfolding get adjust
  get-adjust k j f [] = ground arith
  get-adjust k j f ((i, w) ∷ m) =
      ground (arith, e.same_iff k j, e.same_iff i k, e.same_iff i j, get-adjust k j f m)

  pub includes-keys_iff : (k : K) (m : List (K × V)) → is_none (get k m) ≡ not (includes (keys m) k)
  unfolding get
  includes-keys_iff k [] = refl
  includes-keys_iff k ((j, v) ∷ m) = ground (arith, includes-keys_iff k m)

  module _ {ν} (P : K → V → Type ν) where
    pub All-set :
        (k : K) (v : V) (m : List (K × V))
        → P k v
        → All (λ p. P p.0 p.1) m
        → All (λ p. P p.0 p.1) (set k v m)
    unfolding set
    All-set k v [] h a = (h, tt)
    All-set k v ((j, w) ∷ m) h a = elim (Bool-cases (j == k)) [
      | inl same ↦ rw same (subst (λ i. P i v) (sym (eq_of_beq j k same)) h, a.1)
      | inr other ↦ rw other (a.0, All-set k v m h a.1)
    ]

    pub All-adjust :
        (k : K) (f : V → V) (m : List (K × V))
        → ((j : K) (v : V) → P j v → P j (f v))
        → All (λ p. P p.0 p.1) m
        → All (λ p. P p.0 p.1) (adjust k f m)
    unfolding adjust
    All-adjust k f [] h a = tt
    All-adjust k f ((j, w) ∷ m) h a = elim (Bool-cases (j == k)) [
      | inl same ↦ rw same (h j w a.0, a.1)
      | inr other ↦ rw other (a.0, All-adjust k f m h a.1)
    ]

    -- The same where only the entry that is there has to be looked at.
    pub All-adjust_at :
        (k : K) (f : V → V) (v : V) (m : List (K × V))
        → get k m ≡ some v
        → P k (f v)
        → All (λ p. P p.0 p.1) m
        → All (λ p. P p.0 p.1) (adjust k f m)
    unfolding adjust get
    All-adjust_at k f v [] e h a = cc
    All-adjust_at k f v ((j, w) ∷ m) e h a = elim (Bool-cases (j == k)) [
      | inl same ↦
          let same_key : j ≡ k = eq_of_beq j k same in
          let same_value : w ≡ v = ground arith in rw same (rw (same_key, same_value) h, a.1)
      | inr other ↦ rw other (a.0, All-adjust_at k f v m (ground arith) h a.1)
    ]

    pub get-All :
        (k : K) (v : V) (m : List (K × V)) → get k m ≡ some v → All (λ p. P p.0 p.1) m → P k v
    unfolding get
    get-All k v [] e a = cc
    get-All k v ((j, w) ∷ m) e a = elim (Bool-cases (j == k)) [
      | inl same ↦
          let same_key : j ≡ k = eq_of_beq j k same in
          let same_value : w ≡ v = ground arith in rw (← same_key, ← same_value) a.0
      | inr other ↦ get-All k v m (ground arith) a.1
    ]
