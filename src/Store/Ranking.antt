-- ===== src/Store/Ranking.antt =====
-- The trending posts are ranked by what was staked (apps/agent/src/store.ts).
use mathlib.Core.List.{Permᴰ}
use mathlib.Core.List.Permᴰ
use ratio.Base.{
  sym, ap, subst, drop, ◌++◌, ℕ, suc, zero, ◌≤◌, ◌≡◌, refl, List, [], ◌∷◌, String, string_eq, All,
  length, take, map, or_else, arith, Bool-cases, inl, inr, ◌⊎◌,
}
use ratio.Base.Maps.{get, keys}
use ratio.Store.Memory.{Store}
use ratio.Engine.Shares.{
  sum, merge_into, merge_into-NoDup, share_of, share_of-get, share_of-merge_into,
}
use ratio.Store.Boards.{PostView, buys, post_view, more_staked, insert_by, sort_by, trending_posts}

-- Each post has at least as much staked as those after it.
unfoldable pub IsRanked : List PostView → Type 0
IsRanked [] = Unit {0}
IsRanked (v ∷ vs) = All (λ u. u.staked_volume_usd ≤ v.staked_volume_usd) vs × IsRanked vs

abbrev pub IsIn : String × List String → List (String × List String) → Type 0
IsIn e [] = ⊥
IsIn e (x ∷ xs) = (x ≡ e) ⊎ IsIn e xs

-- The volume of a view is the sum of the buys on the markets of its post.
pub record IsFaithful (s : Store) (v : PostView) : Type 0 where
  pub ids : List String
  pub indexed : IsIn (v.tweet_a_id, ids) s.by_post
  pub count : v.market_count ≡ length ids
  pub volume : v.staked_volume_usd ≡ sum (map (λ id. share_of id (buys s.bets)) ids)

module _ (P : PostView → Type 0) where
  All-insert_by :
      (x : PostView) (ys : List PostView) → P x → All P ys → All P (insert_by more_staked x ys)
  unfolding insert_by
  All-insert_by x [] p h = (p, tt)
  All-insert_by x (y ∷ ys) p h = elim (Bool-cases (more_staked x y)) [
    | inl first ↦ rw first (p, h)
    | inr later ↦ rw later (h.0, All-insert_by x ys p h.1)
  ]

  All-sort_by : (xs : List PostView) → All P xs → All P (sort_by more_staked xs)
  unfolding sort_by
  All-sort_by [] h = tt
  All-sort_by (x ∷ xs) h = All-insert_by x _ h.0 (All-sort_by xs h.1)

All-below :
    (n k : ℕ) (vs : List PostView)
    → n ≤ k
    → All (λ u. u.staked_volume_usd ≤ n) vs
    → All (λ u. u.staked_volume_usd ≤ k) vs
All-below n k [] le h = tt
All-below n k (v ∷ vs) le h = (omega (arith, le, h.0), All-below n k vs le h.1)

insert_by-IsRanked :
    (x : PostView) (ys : List PostView) → IsRanked ys → IsRanked (insert_by more_staked x ys)
unfolding insert_by IsRanked
insert_by-IsRanked x [] h = (tt, tt)
insert_by-IsRanked x (y ∷ ys) h = elim (Bool-cases (more_staked x y)) [
  | inl first ↦ rw first ((ground arith, All-below _ _ ys (ground arith) h.0), h)
  | inr later ↦ rw later (
    All-insert_by (λ u. u.staked_volume_usd ≤ y.staked_volume_usd) x ys (ground arith) h.0,
    insert_by-IsRanked x ys h.1,
  )
]

sort_by-IsRanked : (xs : List PostView) → IsRanked (sort_by more_staked xs)
unfolding sort_by IsRanked
sort_by-IsRanked [] = tt
sort_by-IsRanked (x ∷ xs) = insert_by-IsRanked x _ (sort_by-IsRanked xs)

-- The volumes that are looked up are the sums of the buys.
volumes-eq :
    (parts : List (String × ℕ)) (ids : List String)
    → sum (map (λ id. or_else (get id (merge_into [] parts)) 0) ids)
      ≡ sum (map (λ id. share_of id parts) ids)
volumes-eq parts [] = refl
volumes-eq parts (id ∷ ids) = omega (
  arith,
  volumes-eq parts ids,
  share_of-merge_into id [] parts,
  share_of-get id (merge_into [] parts) (merge_into-NoDup [] parts tt),
)

views-IsFaithful :
    (s : Store) (posts : List (String × List String))
    → ((e : String × List String) → IsIn e posts → IsIn e s.by_post)
    → All (IsFaithful s) (map (post_view (merge_into [] (buys s.bets))) posts)
unfolding post_view
views-IsFaithful s [] into = tt
views-IsFaithful s ((a, ids) ∷ posts) into = (
  record {
    ids = ids;
    indexed = into (a, ids) (inl refl);
    count = refl;
    volume = volumes-eq (buys s.bets) ids;
  },
  views-IsFaithful s posts (λ e there. into e (inr there)),
)

take-drop : {A : Type 0} (n : ℕ) (xs : List A) → take n xs ++ drop n xs ≡ xs
take-drop zero xs = refl
take-drop (suc n) [] = refl
take-drop (suc n) (x ∷ xs) = ap (λ l. x ∷ l) (take-drop n xs)

abbrev pub tweets : List PostView → List String
tweets views = map (λ v. v.tweet_a_id) views

-- Sorting loses no view and makes none up.
tweets-insert_by :
    (x : PostView) (ys : List PostView)
    → Permᴰ (tweets (insert_by more_staked x ys)) (x.tweet_a_id ∷ tweets ys)
unfolding insert_by
tweets-insert_by x [] = Permᴰ.refl (x.tweet_a_id ∷ [])
tweets-insert_by x (y ∷ ys) = elim (Bool-cases (more_staked x y)) [
  | inl first ↦ rw first (Permᴰ.refl (x.tweet_a_id ∷ y.tweet_a_id ∷ tweets ys))
  | inr later ↦
      rw later (Permᴰ.trans (Permᴰ.cons refl (tweets-insert_by x ys)) (Permᴰ.swap refl refl))
]

tweets-sort_by : (xs : List PostView) → Permᴰ (tweets (sort_by more_staked xs)) (tweets xs)
unfolding sort_by
tweets-sort_by [] = Permᴰ.nil
tweets-sort_by (x ∷ xs) =
    Permᴰ.trans (tweets-insert_by x (sort_by more_staked xs)) (Permᴰ.cons refl (tweets-sort_by xs))

tweets-views :
    (volumes : List (String × ℕ)) (posts : List (String × List String))
    → tweets (map (post_view volumes) posts) ≡ keys posts
unfolding post_view
tweets-views volumes [] = refl
tweets-views volumes ((a, ids) ∷ posts) = ap (λ l. a ∷ l) (tweets-views volumes posts)

-- The posts are the first of a ranking of all that the index has, which the others come after.
pub record IsTrending (limit : ℕ) (s : Store) (posts : List PostView) : Type 0 where
  pub others : List PostView
  pub ranked : IsRanked (posts ++ others)
  pub first : posts ≡ take limit (posts ++ others)
  pub everyone : Permᴰ (tweets (posts ++ others)) (keys s.by_post)
  pub faithful : All (IsFaithful s) (posts ++ others)

pub trending_posts-IsTrending :
    (limit : ℕ) (s : Store) → IsTrending limit s (trending_posts limit s)
unfolding trending_posts
trending_posts-IsTrending limit s =
    let volumes = merge_into [] (buys s.bets) in
    let views = map (post_view volumes) s.by_post in
    let sorted = sort_by more_staked views in
    let whole : take limit sorted ++ drop limit sorted ≡ sorted = take-drop limit sorted in
    record {
      others = drop limit sorted;
      ranked = subst IsRanked (sym whole) (sort_by-IsRanked views);
      first = ap (take limit) (sym whole);
      everyone =
          subst (λ l. Permᴰ (tweets l) (keys s.by_post)) (sym whole)
            (subst (Permᴰ (tweets sorted)) (tweets-views volumes s.by_post) (tweets-sort_by views));
      faithful =
          subst (All (IsFaithful s)) (sym whole)
            (All-sort_by (IsFaithful s) views (views-IsFaithful s s.by_post (λ e there. there)));
    }
