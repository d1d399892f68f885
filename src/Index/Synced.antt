-- ===== src/Index/Synced.antt =====
-- A whole sync of the index (subgraph/src).
use mathlib.Core.Option
use ratio.Base.{
  ℕ, ◌≡◌, refl, false, Option, none, some, List, [], ◌∷◌, String, string_eq, ◌==◌, subst, arith,
  All, NoDup, includes,
}
use ratio.Base.Maps.{get}
use ratio.Index.Entities.{Index, Host, empty_index}
use ratio.Index.Handlers.{
  Event, oracle_created, market_opened, ratio_resolved, entry_tokens_set, handle_entry_tokens_set,
  handle_oracle_created, handle_market_opened, handle_ratio_resolved, swap, entry_registered,
  entry_migrated, claimed, handle, sync,
}
use ratio.Index.Totals.{IsBalanced}
use ratio.Index.Balance.{
  Goes, handle_oracle_created-IsBalanced, handle_market_opened-IsBalanced,
  handle_ratio_resolved-IsBalanced, handle_swap-Goes, handle_claimed-Goes,
  handle_entry_registered-Goes, handle_entry_migrated-Goes,
}
use ratio.Index.Keys.{
  IsReadable, kept_id, also, kept_ids, Lacks, Lacking, Lacking-Same, handle_oracle_created-Same,
  handle_market_opened-Same, handle_ratio_resolved-Same, handle_swap-Lacking,
  handle_claimed-Lacking, handle_entry_registered-Lacking, handle_entry_migrated-Lacking,
}

-- The one id that an event brings, where its number is known.
own_id :
    (P : String → Type 0) (f : ℕ → String) (o : Option ℕ) (i : ℕ)
    → o ≡ some i
    → All P (also (Option.map f o) [])
    → P (f i)
own_id P f none i no_number h = cc no_number
own_id P f (some j) i number h = let same : j ≡ i = cc number in subst (λ x. P (f x)) same h.0

other_id :
    (f : ℕ → String) (o : Option ℕ) (i : ℕ) (k : String)
    → o ≡ some i
    → includes (also (Option.map f o) []) k ≡ false
    → (f i == k) ≡ false
other_id f none i k no_number h = cc no_number
other_id f (some j) i k number h =
    let same : j ≡ i = cc number in subst (λ x. (f x == k) ≡ false) same (ground (arith, h))

module _ (host : Host) where
  handle-Goes :
      (e : Event) (ix : Index)
      → IsReadable host e
      → All (Lacks ix) (also (kept_id host e) [])
      → IsBalanced ix
      → Goes (handle host e ix)
  unfolding handle handle_entry_tokens_set
  handle-Goes (oracle_created o a i t) ix r own h =
      (_, refl, handle_oracle_created-IsBalanced o a i t ix h)
  handle-Goes (market_opened o a i t) ix r own h =
      (_, refl, handle_market_opened-IsBalanced o a i t ix h)
  handle-Goes (entry_tokens_set o a) ix r own h = (ix, refl, h)
  handle-Goes (ratio_resolved o a w x y f) ix r own h =
      (_, refl, handle_ratio_resolved-IsBalanced o a w x y f ix h)
  handle-Goes (swap o p x y) ix (i, read) own h =
      handle_swap-Goes host o i p x y ix read
        (own_id (Lacks ix) (host.concat_i32 o.tx_hash) (host.to_i32 o.log_index) i read own).0 h
  handle-Goes (entry_registered o a e t n) ix r own h =
      handle_entry_registered-Goes host o a e r.0 t n ix r.1 h
  handle-Goes (entry_migrated o a e c s) ix r own h =
      handle_entry_migrated-Goes host o a e r.0 c s ix r.1 h
  handle-Goes (claimed o a c t n) ix (i, read) own h =
      handle_claimed-Goes host o i a c t n ix read
        (own_id (Lacks ix) (host.concat_i32 o.tx_hash) (host.to_i32 o.log_index) i read own).1 h

  handle-Lacking :
      (e : Event) (ix : Index) (k : String)
      → IsReadable host e
      → includes (also (kept_id host e) []) k ≡ false
      → Lacks ix k
      → Lacking host k (handle host e ix)
  unfolding handle handle_entry_tokens_set
  handle-Lacking (oracle_created o a i t) ix k r other h =
      Lacking-Same host k ix (handle_oracle_created o a i t ix)
        (handle_oracle_created-Same o a i t ix) h
  handle-Lacking (market_opened o a i t) ix k r other h =
      Lacking-Same host k ix (handle_market_opened o a i t ix)
        (handle_market_opened-Same o a i t ix) h
  handle-Lacking (entry_tokens_set o a) ix k r other h = h
  handle-Lacking (ratio_resolved o a w x y f) ix k r other h =
      Lacking-Same host k ix (handle_ratio_resolved o a w x y f ix)
        (handle_ratio_resolved-Same o a w x y f ix) h
  handle-Lacking (swap o p x y) ix k (i, read) other h =
      handle_swap-Lacking host o i read k
        (other_id (host.concat_i32 o.tx_hash) (host.to_i32 o.log_index) i k read other) p x y ix h
  handle-Lacking (entry_registered o a e t n) ix k r other h =
      handle_entry_registered-Lacking host o a e t n k ix h
  handle-Lacking (entry_migrated o a e c s) ix k r other h =
      handle_entry_migrated-Lacking host o a e c s k ix h
  handle-Lacking (claimed o a c t n) ix k (i, read) other h =
      handle_claimed-Lacking host o i read k
        (other_id (host.concat_i32 o.tx_hash) (host.to_i32 o.log_index) i k read other) a c t n ix h

-- An id that comes first and is not among the rest.
Apart : Option String → List String → Type 0
Apart none ids = Unit
Apart (some id) ids = includes ids id ≡ false

first_id : (x : Option String) (ids : List String) → NoDup (also x ids) → Apart x ids × NoDup ids
unfolding Apart
first_id none ids h = (tt, h)
first_id (some id) ids h = h

first_lacks :
    (P : String → Type 0) (x : Option String) (ids : List String)
    → All P (also x ids)
    → All P (also x []) × All P ids
first_lacks P none ids h = (tt, h)
first_lacks P (some id) ids h = ((h.0, tt), h.1)

one_id :
    (x : Option String) (k : String) (ids : List String)
    → Apart x (k ∷ ids)
    → (includes (also x []) k ≡ false) × Apart x ids
unfolding Apart
one_id none k ids h = (refl, tt)
one_id (some id) k ids h =
    (ground (arith, h, string_eq.same_iff id k, string_eq.same_iff k id), ground (arith, h))

keep_lacking :
    (P Q : String → Type 0) (x : Option String) (ids : List String)
    → Apart x ids
    → ((k : String) → includes (also x []) k ≡ false → P k → Q k)
    → All P ids
    → All Q ids
keep_lacking P Q x [] out f h = tt
keep_lacking P Q x (k ∷ ids) out f h =
    let (other, out') = one_id x k ids out in (f k other h.0, keep_lacking P Q x ids out' f h.1)

sync-Goes :
    (host : Host) (es : List Event) (ix : Index)
    → All (IsReadable host) es
    → NoDup (kept_ids host es)
    → All (Lacks ix) (kept_ids host es)
    → IsBalanced ix
    → Goes (sync host es ix)
unfolding sync
sync-Goes host [] ix r d l h = (ix, refl, h)
sync-Goes host (e ∷ es) ix r d l h =
    let x = kept_id host e in
    let ids = kept_ids host es in
    let (out, d') = first_id x ids d in
    let (own, others) = first_lacks (Lacks ix) x ids l in
    let (ix', ends, h') = handle-Goes host e ix r.0 own h in
    let l' : All (Lacks ix') ids =
      keep_lacking (Lacks ix) (Lacks ix') x ids out
        (λ k other lacks. subst (Lacking host k) ends (handle-Lacking host e ix k r.0 other lacks))
        others in
    rw ends (sync-Goes host es ix' r.1 d' l' h')

nothing_kept : (ids : List String) → All (Lacks empty_index) ids
unfolding get
nothing_kept [] = tt
nothing_kept (id ∷ ids) = ((refl, refl), nothing_kept ids)

pub sync-IsBalanced :
    (host : Host) (events : List Event)
    → All (IsReadable host) events
    → NoDup (kept_ids host events)
    → (ix : Index) × (sync host events empty_index ≡ some ix) × IsBalanced ix
sync-IsBalanced host events readable distinct =
    sync-Goes host events empty_index readable distinct (nothing_kept (kept_ids host events))
      (record {
        staked_markets = refl;
        staked_positions = refl;
        staked_users = refl;
        staked_trades = refl;
        paid_markets = refl;
        paid_users = refl;
        paid_claims = refl;
      })
