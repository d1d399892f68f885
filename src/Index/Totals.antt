-- ===== src/Index/Totals.antt =====
-- Sums over the entities of the index (subgraph/src), and when the totals agree.
use ratio.Base.{
  ℕ, ◌+◌, ◌≡◌, refl, ◌∙◌, sym, ap, Bool, true, false, Option, none, some, List, [], ◌∷◌, String,
  string_eq, nat_eq, if◌then◌else◌, or_else, arith,
}
use ratio.Base.Maps.{get, set}
use ratio.Index.Entities.{Market, User, Index, user, new_user}
use ratio.Index.Handlers.{maybe}

add_zero : (n : ℕ) → n + 0 ≡ n
add_zero n = omega arith

-- A sum over the entities of one kind, and what one id has in it.
abbrev pub total {ℓ} : {V : Type ℓ} → (V → ℕ) → List (String × V) → ℕ
total f [] = 0
total f ((k, v) ∷ m) = f v + total f m

abbrev held {ℓ} : {V : Type ℓ} → (V → ℕ) → Option V → ℕ
held f none = 0
held f (some v) = f v

module _ {ℓ} {V : Type ℓ} (f : V → ℕ) where
  total-set :
      (k : String) (v : V) (m : List (String × V))
      → total f (set k v m) + held f (get k m) ≡ total f m + f v
  unfolding get set
  total-set k v [] = omega arith
  total-set k v ((j, w) ∷ m) = ground (arith, total-set k v m)

  -- An entity that is saved with so much more.
  total_raised :
      (k : String) (v : V) (m : List (String × V)) (d : ℕ)
      → f v ≡ held f (get k m) + d
      → total f (set k v m) ≡ total f m + d
  total_raised k v m d h = omega (arith, total-set k v m)

  held-or_else : (o : Option V) (v : V) → f v ≡ 0 → f (or_else o v) ≡ held f o
  held-or_else none v h = h
  held-or_else (some w) v h = refl

  -- An entity that is loaded, or made new, and saved with so much more.
  pub total_loaded :
      (k : String) (base v : V) (m : List (String × V)) (d : ℕ)
      → f base ≡ 0
      → f v ≡ f (or_else (get k m) base) + d
      → total f (set k v m) ≡ total f m + d
  total_loaded k base v m d zero_base h =
      total_raised k v m d (h ∙ ap (λ n. n + d) (held-or_else (get k m) base zero_base))

  pub total_found :
      (k : String) (old v : V) (m : List (String × V)) (d : ℕ)
      → get k m ≡ some old
      → f v ≡ f old + d
      → total f (set k v m) ≡ total f m + d
  total_found k old v m d found h = total_raised k v m d (rw found h)

  -- An entity whose id is new.
  pub total_new :
      (k : String) (v : V) (m : List (String × V))
      → get k m ≡ none
      → total f (set k v m) ≡ total f m + f v
  total_new k v m new = total_raised k v m (f v) (rw new (omega arith))

  pub total_kept :
      (k : String) (old v : V) (m : List (String × V))
      → get k m ≡ some old
      → f v ≡ f old
      → total f (set k v m) ≡ total f m
  total_kept k old v m found h =
      omega (arith, total_found k old v m 0 found (h ∙ sym (add_zero (f old))))

  pub total_reloaded :
      (k : String) (base v : V) (m : List (String × V))
      → f base ≡ 0
      → f v ≡ f (or_else (get k m) base)
      → total f (set k v m) ≡ total f m
  total_reloaded k base v m zero_base h =
      omega (
        arith,
        total_loaded k base v m 0 zero_base (h ∙ sym (add_zero (f (or_else (get k m) base)))),
      )

-- The seven sums against the two totals of the protocol.
pub record IsBalanced (ix : Index) : Type 0 where
  pub staked_markets : total (λ m. m.total_staked) ix.markets ≡ ix.protocol.total_staked
  pub staked_positions : total (λ p. p.net_staked) ix.positions ≡ ix.protocol.total_staked
  pub staked_users : total (λ u. u.total_staked) ix.users ≡ ix.protocol.total_staked
  pub staked_trades : total (λ t. t.amount_in) ix.trades ≡ ix.protocol.total_staked
  pub paid_markets : total (λ m. m.total_claimed) ix.markets ≡ ix.protocol.total_paid_out
  pub paid_users : total (λ u. u.total_paid_out) ix.users ≡ ix.protocol.total_paid_out
  pub paid_claims : total (λ c. c.payout) ix.claims ≡ ix.protocol.total_paid_out

pub maybe-cases :
    {A B : Type 0} (P : B → Type 0) (o : Option A) (b : B) (f : A → B)
    → (o ≡ none → P b)
    → ((a : A) → o ≡ some a → P (f a))
    → P (maybe o b f)
maybe-cases P none b f h k = h refl
maybe-cases P (some a) b f h k = k a refl

pub if-cases :
    {B : Type 0} (P : B → Type 0) (c : Bool) (x y : B) → P x → P y → P (if c then x else y)
if-cases P true x y h k = h
if-cases P false x y h k = k

-- A market is saved with its totals unchanged, or with zeros.
pub same_markets :
    (ix : Index) (oracle : String) (m : Market) (n : ℕ)
    → m.total_staked ≡ held (λ m'. m'.total_staked) (get oracle ix.markets)
    → m.total_claimed ≡ held (λ m'. m'.total_claimed) (get oracle ix.markets)
    → IsBalanced ix
    → IsBalanced (record ix {
      markets = set oracle m ix.markets;
      protocol = record ix.protocol { market_count = n };
    })
same_markets ix oracle m n staked paid h = record {
  staked_markets =
      omega (arith, total-set (λ m'. m'.total_staked) oracle m ix.markets, h.staked_markets);
  staked_positions = h.staked_positions;
  staked_users = h.staked_users;
  staked_trades = h.staked_trades;
  paid_markets =
      omega (arith, total-set (λ m'. m'.total_claimed) oracle m ix.markets, h.paid_markets);
  paid_users = h.paid_users;
  paid_claims = h.paid_claims;
}

-- A user is saved with the same totals.
pub same_users :
    (ix : Index) (a : String) (u : User)
    → u.total_staked ≡ (user a ix).total_staked
    → u.total_paid_out ≡ (user a ix).total_paid_out
    → IsBalanced ix
    → IsBalanced (record ix { users = set a u ix.users })
same_users ix a u staked paid h = record {
  staked_markets = h.staked_markets;
  staked_positions = h.staked_positions;
  staked_users = omega (
    arith,
    total_loaded (λ u'. u'.total_staked) a new_user u ix.users 0 refl (omega (arith, staked)),
    h.staked_users,
  );
  staked_trades = h.staked_trades;
  paid_markets = h.paid_markets;
  paid_users = omega (
    arith,
    total_loaded (λ u'. u'.total_paid_out) a new_user u ix.users 0 refl (omega (arith, paid)),
    h.paid_users,
  );
  paid_claims = h.paid_claims;
}
