-- ===== src/Chain/Subgraph/Agreement.antt =====
-- The reads of `RatioSubgraph` (packages/chain/src/evm/subgraph.ts) against the index (subgraph/src)
-- that the server serves.
use mathlib.Core.List.{Perm, Permᴰ}
use mathlib.Core.Logic.{∥∥₁_elim}
use native.Mathlib.Decide.{ℕ_discrete}
use ratio.Base.{
  ℕ, ◌+◌, ◌≤◌, ◌≡◌, refl, ◌∙◌, ap, subst, true, some, List, [], ◌∷◌, map, String, string_eq, suc,
  zero, take, length, All, NoDup, arith,
}
use ratio.Flow.{Result, ok, Machine, ◌>>=◌, follow, pure, call, branch, cases}
use ratio.Flow.Ends.{Ends, after, Ends-pure}
use ratio.Index.Entities.{Market, Index, Trade, Host, empty_index}
use ratio.Index.Handlers.{Event, sync}
use ratio.Index.Totals.{total, IsBalanced}
use ratio.Index.Keys.{IsReadable, kept_ids}
use ratio.Index.Synced.{sync-IsBalanced}
use ratio.Chain.Subgraph.Rows.{
  MarketRow, TradeRow, Query, health_query, world_query, Response, Graph, Health, IndexedTrade,
  IndexedWorld,
}
use ratio.Chain.Subgraph.Client.{
  indexed_market, indexed_trade, indexed_world, health_of, reverse_onto, Asks, body_of, query,
  health, world,
}

abbrev pub sum : List ℕ → ℕ
sum [] = 0
sum (x ∷ xs) = x + sum xs

sum-Permᴰ : {xs ys : List ℕ} → Permᴰ xs ys → sum xs ≡ sum ys
sum-Permᴰ Permᴰ.nil = refl
sum-Permᴰ (Permᴰ.cons e p) = omega (arith, e, sum-Permᴰ p)
sum-Permᴰ (Permᴰ.swap e f) = omega (arith, e, f)
sum-Permᴰ (Permᴰ.trans p q) = sum-Permᴰ p ∙ sum-Permᴰ q

length-Permᴰ : {xs ys : List ℕ} → Permᴰ xs ys → length xs ≡ length ys
length-Permᴰ Permᴰ.nil = refl
length-Permᴰ (Permᴰ.cons e p) = omega (arith, length-Permᴰ p)
length-Permᴰ (Permᴰ.swap e f) = refl
length-Permᴰ (Permᴰ.trans p q) = length-Permᴰ p ∙ length-Permᴰ q

numbers_set : IsSet ℕ
numbers_set = hlevel (ℕ_discrete)

sum-Perm : (xs ys : List ℕ) → Perm xs ys → sum xs ≡ sum ys
sum-Perm xs ys p = ∥∥₁_elim p (numbers_set (sum xs) (sum ys)) sum-Permᴰ

length-Perm : (xs ys : List ℕ) → Perm xs ys → length xs ≡ length ys
length-Perm xs ys p = ∥∥₁_elim p (numbers_set (length xs) (length ys)) length-Permᴰ

take_all : {A : Type 0} (n : ℕ) (xs : List A) → length xs ≤ n → take n xs ≡ xs
take_all zero [] h = refl
take_all zero (x ∷ xs) h = absurd (omega (arith, h))
take_all (suc n) [] h = refl
take_all (suc n) (x ∷ xs) h = ap (λ l. x ∷ l) (take_all n xs (omega (arith, h)))

length-map : {A : Type 0} (f : A → ℕ) (xs : List A) → length (map f xs) ≡ length xs
length-map f [] = refl
length-map f (x ∷ xs) = ap suc (length-map f xs)

-- A response without errors.
abbrev pub answered : {T : Type 0} → T → Response T
answered x = record { is_ok = true; status = "200"; errors = []; body = some x }

abbrev pub stake_of : String × Market → ℕ
stake_of p = p.1.total_staked

abbrev pub amount_of : String × Trade → ℕ
amount_of p = p.1.amount_in

-- The server serves the index: it gives the protocol's entity, and of the markets and the trades as
-- many as were asked for, in an order of its own, where no more than a thousand were asked for, the
-- most that a Graph node gives at once.
pub record Serves (ix : Index) (graph : Graph) : Type 0 where
  pub serves_protocol :
      (h : List Query)
      → graph.protocol_row h
        ≡ ok (
            answered (
              some (record {
                market_count = ix.protocol.market_count;
                trade_count = ix.protocol.trade_count;
                total_staked = ix.protocol.total_staked;
              })))
  pub serves_world :
      (h : List Query) (m n : ℕ)
      → m ≤ 1000
      → n ≤ 1000
      → (markets : List MarketRow) × (trades : List TradeRow) × (graph.world_rows h m n
          ≡ ok (answered (take m markets, take n trades)))
        × Perm (map (λ r. r.total_staked) markets) (map stake_of ix.markets)
        × Perm (map (λ r. r.amount_in) trades) (map amount_of ix.trades)

sum-total : {V : Type 0} (f : V → ℕ) (m : List (String × V)) → sum (map (λ p. f p.1) m) ≡ total f m
sum-total f [] = refl
sum-total f ((k, v) ∷ m) = omega (arith, sum-total f m)

stakes_kept :
    (rows : List MarketRow)
    → sum (map (λ m. m.total_staked_wei) (map indexed_market rows))
      ≡ sum (map (λ r. r.total_staked) rows)
unfolding indexed_market
stakes_kept [] = refl
stakes_kept (r ∷ rows) = ap (λ n. r.total_staked + n) (stakes_kept rows)

amounts_reversed :
    (rows : List TradeRow) (acc : List IndexedTrade)
    → sum (map (λ t. t.amount_in_wei) (reverse_onto (map indexed_trade rows) acc))
      ≡ sum (map (λ r. r.amount_in) rows) + sum (map (λ t. t.amount_in_wei) acc)
unfolding indexed_trade
amounts_reversed [] acc = omega arith
amounts_reversed (r ∷ rows) acc = omega (arith, amounts_reversed rows (indexed_trade r ∷ acc))

-- All are taken where they are no more than asked for, in whatever order.
sum-take :
    {A B : Type 0} (f : A → ℕ) (g : B → ℕ) (m : ℕ) (rows : List A) (all : List B)
    → Perm (map f rows) (map g all)
    → length all ≤ m
    → sum (map f (take m rows)) ≡ sum (map g all)
sum-take f g m rows all same few =
    let few_rows : length rows ≤ m = omega (
      arith,
      length-map f rows,
      length-map g all,
      length-Perm (map f rows) (map g all) same,
      few,
    ) in
    ap (λ l. sum (map f l)) (take_all m rows few_rows) ∙ sum-Perm (map f rows) (map g all) same

balance_of :
    (host : Host) (events : List Event) (ix : Index)
    → All (IsReadable host) events
    → NoDup (kept_ids host events)
    → sync host events empty_index ≡ some ix
    → IsBalanced ix
balance_of host events ix readable distinct synced =
    let (found, reached, balanced) = sync-IsBalanced host events readable distinct in
    let same : found ≡ ix = cc (reached, synced) in subst IsBalanced same balanced

-- A read whose response has a body.
Ends-read :
    {T A B : Type 0} (P : Result B → Machine (Unit {0}) Query → Type 0) (q : Query)
    (answer : List Query → Result (Response T)) (g : T → A) (f : A → Asks B)
    (w : Machine (Unit {0}) Query) (x : T)
    → answer w.history ≡ ok (answered x)
    → Ends P (f (g x)) (after q w)
    → Ends P ((query q answer >>= λ y. pure (g y)) >>= f) w
unfolding query body_of ◌>>=◌ call follow pure branch cases
Ends-read P q answer g f w x got h = record { ends = rw got h.ends }

-- What was read agrees with itself: the markets' stakes and the trades' amounts make the total.
abbrev pub Agrees : Result (Health × IndexedWorld) → Type 0
Agrees res =
    (read : Health × IndexedWorld) × (res ≡ ok read)
    × (sum (map (λ m. m.total_staked_wei) read.1.markets) ≡ read.0.total_staked_wei)
    × (sum (map (λ t. t.amount_in_wei) read.1.trades) ≡ read.0.total_staked_wei)

pub health-world :
    (host : Host) (events : List Event) (ix : Index) (graph : Graph) (m n : ℕ)
    (v : Machine (Unit {0}) Query)
    → All (IsReadable host) events
    → NoDup (kept_ids host events)
    → sync host events empty_index ≡ some ix
    → Serves ix graph
    → m ≤ 1000
    → n ≤ 1000
    → length ix.markets ≤ m
    → length ix.trades ≤ n
    → Ends
        (λ (res : Result (Health × IndexedWorld)) w. Agrees res)
        (health graph >>= λ totals. world graph m n >>= λ w. pure (totals, w))
        v
unfolding health world health_of indexed_world
health-world host events ix graph m n v readable distinct synced serves cap_m cap_n few_markets
      few_trades =
    let P = λ (res : Result (Health × IndexedWorld)) (w : Machine (Unit {0}) Query). Agrees res in
    let there = after health_query v in
    let (markets, trades, got, same_markets, same_trades) =
      serves.serves_world there.history m n cap_m cap_n in
    let balanced = balance_of host events ix readable distinct synced in
    let staked =
      sum-take (λ r. r.total_staked) stake_of m markets ix.markets same_markets few_markets in
    let traded = sum-take (λ r. r.amount_in) amount_of n trades ix.trades same_trades few_trades in
    Ends-read P health_query _ health_of _ v _ (serves.serves_protocol _) (
      Ends-read P (world_query m n) _ indexed_world _ there _ got (
        Ends-pure P _ _ (
          _,
          refl,
          stakes_kept (take m markets)
              ∙ staked
              ∙ sum-total (λ m. m.total_staked) ix.markets
              ∙ balanced.staked_markets,
          omega (
            arith,
            amounts_reversed (take n trades) [],
            traded,
            sum-total (λ t. t.amount_in) ix.trades,
            balanced.staked_trades,
          ),
        )))
