-- ===== src/Flow/Ends.antt =====
-- What holds of the world that a method leaves behind, from one world: the answers of its
-- surroundings are split on as the method reads them.
use ratio.Base.{◌≡◌, refl, Bool, true, false, Option, none, some, List, ◌∷◌, String, subst}
use ratio.Flow.{
  Result, ok, throw, Machine, Flow, ◌>>=◌, follow, recover, catch, both, both_results, pure, reads,
  writes, call, rethrow, branch, cases,
}

module _ {S E : Type 0} where
  pub record Ends {A : Type 0} (P : Result A → Machine S E → Type 0) (m : Flow S E A)
      (w : Machine S E) : Type 0 where
    pub ends : P (m w).0 (m w).1

  -- The world after one more event.
  abbrev pub after : E → Machine S E → Machine S E
  after e w = record w { history = e ∷ w.history }

module _ {S E B : Type 0} (P : Result B → Machine S E → Type 0) where
  pub Ends-pure : (b : B) (w : Machine S E) → P (ok b) w → Ends P (pure b) w
  unfolding pure
  Ends-pure b w h = record { ends = h }

  pub Ends-raise : (e : String) (w : Machine S E) → P (throw e) w → Ends P (rethrow e) w
  unfolding rethrow
  Ends-raise e w h = record { ends = h }

  follow-post :
      {A : Type 0} (r : Result A) (v : Machine S E) (f : A → Flow S E B)
      → ((e : String) → r ≡ throw e → P (throw e) v)
      → ((a : A) → r ≡ ok a → Ends P (f a) v)
      → P (follow (r, v) f).0 (follow (r, v) f).1
  unfolding follow
  follow-post (ok a) v f h k = (k a refl).ends
  follow-post (throw e) v f h k = h e refl

  pub Ends-ask :
      {A : Type 0} (e : E) (answer : List E → Result A) (f : A → Flow S E B) (w : Machine S E)
      → ((err : String) → answer w.history ≡ throw err → P (throw err) (after e w))
      → ((a : A) → answer w.history ≡ ok a → Ends P (f a) (after e w))
      → Ends P (call e answer >>= f) w
  unfolding ◌>>=◌ call
  Ends-ask e answer f w h k = record { ends = follow-post (answer w.history) (after e w) f h k }

  answer-post :
      (r : Result B) (v : Machine S E)
      → ((e : String) → r ≡ throw e → P (throw e) v)
      → ((b : B) → r ≡ ok b → P (ok b) v)
      → P r v
  answer-post (ok b) v h k = k b refl
  answer-post (throw e) v h k = h e refl

  -- The last call of a method.
  pub Ends-tell :
      (e : E) (answer : List E → Result B) (w : Machine S E)
      → ((err : String) → answer w.history ≡ throw err → P (throw err) (after e w))
      → ((b : B) → answer w.history ≡ ok b → P (ok b) (after e w))
      → Ends P (call e answer) w
  unfolding call
  Ends-tell e answer w h k = record { ends = answer-post (answer w.history) (after e w) h k }

  pub Ends-reads :
      {A : Type 0} (g : S → A) (f : A → Flow S E B) (w : Machine S E)
      → Ends P (f (g w.store)) w
      → Ends P (reads g >>= f) w
  unfolding ◌>>=◌ reads follow
  Ends-reads g f w h = record { ends = h.ends }

  pub Ends-writes :
      (g : S → S) (f : Unit {0} → Flow S E B) (w : Machine S E)
      → Ends P (f tt) (record w { store = g w.store })
      → Ends P (writes g >>= f) w
  unfolding ◌>>=◌ writes follow
  Ends-writes g f w h = record { ends = h.ends }

  pub Ends-branch :
      (b : Bool) (m n : Flow S E B) (w : Machine S E)
      → (b ≡ true → Ends P m w)
      → (b ≡ false → Ends P n w)
      → Ends P (branch b m n) w
  unfolding branch
  Ends-branch true m n w h k = record { ends = (h refl).ends }
  Ends-branch false m n w h k = record { ends = (k refl).ends }

  pub Ends-cases :
      {A : Type 0} (o : Option A) (m : Flow S E B) (f : A → Flow S E B) (w : Machine S E)
      → (o ≡ none → Ends P m w)
      → ((a : A) → o ≡ some a → Ends P (f a) w)
      → Ends P (cases o m f) w
  unfolding cases
  Ends-cases none m f w h k = record { ends = (h refl).ends }
  Ends-cases (some a) m f w h k = record { ends = (k a refl).ends }

  pub Ends-cases-none :
      {A : Type 0} (m : Flow S E B) (f : A → Flow S E B) (w : Machine S E)
      → Ends P m w
      → Ends P (cases none m f) w
  unfolding cases
  Ends-cases-none m f w h = record { ends = h.ends }

  pub Ends-cases-some :
      {A : Type 0} (a : A) (m : Flow S E B) (f : A → Flow S E B) (w : Machine S E)
      → Ends P (f a) w
      → Ends P (cases (some a) m f) w
  unfolding cases
  Ends-cases-some a m f w h = record { ends = h.ends }

  follow_both-post :
      {A C : Type 0} (r : Result A) (s : Result C) (v : Machine S E) (f : A × C → Flow S E B)
      → ((e : String) → P (throw e) v)
      → ((a : A) (c : C) → r ≡ ok a → s ≡ ok c → Ends P (f (a, c)) v)
      → P (follow (both_results r s, v) f).0 (follow (both_results r s, v) f).1
  unfolding follow both_results
  follow_both-post (ok a) (ok c) v f h k = (k a c refl refl).ends
  follow_both-post (ok a) (throw e) v f h k = h e
  follow_both-post (throw e) s v f h k = h e

  -- Two calls at once: both are made before either answer counts.
  pub Ends-ask_both :
      {A C : Type 0} (d e : E) (left : List E → Result A) (right : List E → Result C)
      (f : A × C → Flow S E B) (w : Machine S E)
      → ((err : String) → P (throw err) (after e (after d w)))
      → ((a : A) (c : C)
          → left w.history ≡ ok a
          → right (d ∷ w.history) ≡ ok c
          → Ends P (f (a, c)) (after e (after d w)))
      → Ends P (both (call d left) (call e right) >>= f) w
  unfolding ◌>>=◌ both call
  Ends-ask_both d e left right f w h k = record {
    ends = follow_both-post (left w.history) (right (d ∷ w.history)) _ f h k;
  }

  -- A method that is known by what it ensures.
  pub Ends-bind :
      {A : Type 0} {Q : Result A → Machine S E → Type 0} (m : Flow S E A) (f : A → Flow S E B)
      (w : Machine S E)
      → Ends Q m w
      → ((e : String) (v : Machine S E) → Q (throw e) v → P (throw e) v)
      → ((a : A) (v : Machine S E) → Q (ok a) v → Ends P (f a) v)
      → Ends P (m >>= f) w
  unfolding ◌>>=◌
  Ends-bind {A} {Q} m f w q h k = record { ends = go (m w).0 (m w).1 q.ends }
    where
      go : (r : Result A) (v : Machine S E) → Q r v → P (follow (r, v) f).0 (follow (r, v) f).1
      go r v q' =
          follow-post r v f (λ e same. h e v (subst (λ r'. Q r' v) same q'))
            (λ a same. k a v (subst (λ r'. Q r' v) same q'))

  pub Ends-catch :
      {Q : Result B → Machine S E → Type 0} (m : Flow S E B) (g : String → Flow S E B)
      (w : Machine S E)
      → Ends Q m w
      → ((b : B) (v : Machine S E) → Q (ok b) v → P (ok b) v)
      → ((e : String) (v : Machine S E) → Q (throw e) v → Ends P (g e) v)
      → Ends P (catch m g) w
  unfolding catch
  Ends-catch {Q} m g w q h k = record { ends = go (m w).0 (m w).1 q.ends }
    where
      go : (r : Result B) (v : Machine S E) → Q r v → P (recover (r, v) g).0 (recover (r, v) g).1
      go (ok b) v q' = h b v q'
      go (throw e) v q' = (k e v q').ends

  -- Calls whose answers are known.
  pub Ends-answered :
      {A : Type 0} (e : E) (answer : List E → Result A) (f : A → Flow S E B) (w : Machine S E)
      (a : A)
      → answer w.history ≡ ok a
      → Ends P (f a) (after e w)
      → Ends P (call e answer >>= f) w
  unfolding ◌>>=◌ call follow
  Ends-answered e answer f w a got h = record { ends = rw got h.ends }

  pub Ends-answered_both :
      {A C : Type 0} (d e : E) (left : List E → Result A) (right : List E → Result C)
      (f : A × C → Flow S E B) (w : Machine S E) (a : A) (c : C)
      → left w.history ≡ ok a
      → right (d ∷ w.history) ≡ ok c
      → Ends P (f (a, c)) (after e (after d w))
      → Ends P (both (call d left) (call e right) >>= f) w
  unfolding ◌>>=◌ both call follow both_results
  Ends-answered_both d e left right f w a c got_left got_right h = record {
    ends = rw (got_left, got_right) h.ends;
  }

  pub Ends-then :
      (b : Bool) (m n : Flow S E B) (w : Machine S E)
      → b ≡ true
      → Ends P m w
      → Ends P (branch b m n) w
  unfolding branch
  Ends-then b m n w holds h = record { ends = rw holds h.ends }

  pub Ends-else :
      (b : Bool) (m n : Flow S E B) (w : Machine S E)
      → b ≡ false
      → Ends P n w
      → Ends P (branch b m n) w
  unfolding branch
  Ends-else b m n w fails h = record { ends = rw fails h.ends }

  pub Ends-given :
      {A : Type 0} (o : Option A) (m : Flow S E B) (f : A → Flow S E B) (w : Machine S E) (a : A)
      → o ≡ some a
      → Ends P (f a) w
      → Ends P (cases o m f) w
  unfolding cases
  Ends-given o m f w a there h = record { ends = rw there h.ends }
