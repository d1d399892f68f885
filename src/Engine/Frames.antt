-- ===== src/Engine/Frames.antt =====
-- Two-state properties of the engine's methods: rules that carry a reflexive and transitive
-- relation between the world before and the world after through `do`, `try` and loops.
use ratio.Base.{◌≡◌, ◌∙◌, refl, Bool, true, false, Option, none, some, List, [], ◌∷◌, String}
use ratio.Store.Memory.{Store}
use ratio.Engine.World.{Result, ok, throw, Event, History, World}
use ratio.Engine.Monad.{
  M, ◌>>=◌, follow, recover, catch, both, pure, done, rethrow, branch, cases, reads, call,
}
use ratio.Engine.Loops.{for_each}

recover-done : (r : Result (Unit {0}) × World) → recover r (λ _. done) ≡ (ok tt, r.1)
unfolding recover pure
recover-done (ok a, w) = refl
recover-done (throw e, w) = refl

-- A body whose errors are swallowed always ends well.
pub catch-done : (m : M (Unit {0})) (w : World) → catch m (λ _. done) w ≡ (ok tt, (m w).1)
unfolding catch
catch-done m w = recover-done (m w)

-- A loop over a list, one round at a time.
pub for_each-cons :
    {A : Type 0} (body : A → M (Unit {0})) (x : A) (xs : List A) (w : World)
    → for_each body (x ∷ xs) w ≡ for_each body xs (body x w).1
unfolding for_each ◌>>=◌
for_each-cons body x xs w = rw (catch-done (body x) w)

-- A relation that may hold between the worlds before and after a method.
pub record Frame : Type 1 where
  pub Rel : World → World → Type 0
  pub rel_refl : (w : World) → Rel w w
  pub rel_trans : (u v w : World) → Rel u v → Rel v w → Rel u w

-- The method relates every world to the one it leaves behind, also when it throws.
pub record Moves {A : Type 0} (F : Frame) (m : M A) : Type 0 where
  pub rel : (w : World) → F.Rel w (m w).1

module _ (F : Frame) where
  pub Moves-pure : {A : Type 0} (a : A) → Moves F (pure a)
  unfolding pure
  Moves-pure a = record { rel = λ w. F.rel_refl w }

  pub Moves-reads : {A : Type 0} (f : Store → A) → Moves F (reads f)
  unfolding reads
  Moves-reads f = record { rel = λ w. F.rel_refl w }

  pub Moves-rethrow : {A : Type 0} (e : String) → Moves F (rethrow {A = A} e)
  unfolding rethrow
  Moves-rethrow e = record { rel = λ w. F.rel_refl w }

  pub Moves-call :
      {A : Type 0} (e : Event) (answer : History → Result A)
      → ((w : World) → F.Rel w (record w { history = e ∷ w.history }))
      → Moves F (call e answer)
  unfolding call
  Moves-call e answer h = record { rel = h }

  follow-Rel :
      {A : Type 0} {B : Type 0} (w : World) (r : Result A × World) (f : A → M B)
      → F.Rel w r.1
      → ((a : A) → Moves F (f a))
      → F.Rel w (follow r f).1
  unfolding follow
  follow-Rel w (ok a, v) f h k = F.rel_trans w v (f a v).1 h ((k a).rel v)
  follow-Rel w (throw e, v) f h k = h

  pub Moves-bind :
      {A : Type 0} {B : Type 0} (m : M A) (f : A → M B)
      → Moves F m
      → ((a : A) → Moves F (f a))
      → Moves F (m >>= f)
  unfolding ◌>>=◌
  Moves-bind m f h k = record { rel = λ w. follow-Rel w (m w) f (h.rel w) k }

  recover-Rel :
      {A : Type 0} (w : World) (r : Result A × World) (g : String → M A)
      → F.Rel w r.1
      → ((e : String) → Moves F (g e))
      → F.Rel w (recover r g).1
  unfolding recover
  recover-Rel w (ok a, v) g h k = h
  recover-Rel w (throw e, v) g h k = F.rel_trans w v (g e v).1 h ((k e).rel v)

  pub Moves-catch :
      {A : Type 0} (m : M A) (g : String → M A)
      → Moves F m
      → ((e : String) → Moves F (g e))
      → Moves F (catch m g)
  unfolding catch
  Moves-catch m g h k = record { rel = λ w. recover-Rel w (m w) g (h.rel w) k }

  pub Moves-both :
      {A : Type 0} {B : Type 0} (m : M A) (n : M B) → Moves F m → Moves F n → Moves F (both m n)
  unfolding both
  Moves-both m n h k = record {
    rel = λ w. F.rel_trans w (m w).1 (n (m w).1).1 (h.rel w) (k.rel (m w).1);
  }

  pub Moves-branch :
      {A : Type 0} (b : Bool) (m n : M A)
      → (b ≡ true → Moves F m)
      → (b ≡ false → Moves F n)
      → Moves F (branch b m n)
  unfolding branch
  Moves-branch true m n h k = h refl
  Moves-branch false m n h k = k refl

  pub Moves-cases :
      {A B : Type 0} (o : Option A) (m : M B) (f : A → M B)
      → (o ≡ none → Moves F m)
      → ((a : A) → o ≡ some a → Moves F (f a))
      → Moves F (cases o m f)
  unfolding cases
  Moves-cases none m f h k = h refl
  Moves-cases (some a) m f h k = k a refl

  pub Moves-for_each :
      {A : Type 0} (body : A → M (Unit {0})) (xs : List A)
      → ((x : A) → Moves F (body x))
      → Moves F (for_each body xs)
  unfolding for_each
  Moves-for_each body [] h = Moves-pure tt
  Moves-for_each body (x ∷ xs) h =
      Moves-bind _ _ (Moves-catch (body x) _ (h x) (λ e. Moves-pure tt))
        (λ a. Moves-for_each body xs h)

-- A relation that every event respects.
abbrev pub Ignores : Frame → Type 0
Ignores F = (e : Event) (w : World) → F.Rel w (record w { history = e ∷ w.history })

module _ (F : Frame) (event : Ignores F) where
  pub Moves-ask :
      {A B : Type 0} (e : Event) (answer : History → Result A) (f : A → M B)
      → ((a : A) → Moves F (f a))
      → Moves F (call e answer >>= f)
  Moves-ask e answer f h = Moves-bind F _ f (Moves-call F e answer (event e)) h

  pub Moves-post :
      {A : Type 0} (e : Event) (answer : History → Result A) → Moves F (call e answer >>= λ _. done)
  Moves-post e answer = Moves-ask e answer _ (λ _. Moves-pure F tt)

  pub Moves-tell : {A : Type 0} (e : Event) (answer : History → Result A) → Moves F (call e answer)
  Moves-tell e answer = Moves-call F e answer (event e)

-- The store stays as it is.
abbrev pub SameStore : Frame
SameStore = record {
  Rel = λ v w. w.store ≡ v.store;
  rel_refl = λ w. refl;
  rel_trans = λ u v w p q. q ∙ p;
}

pub SameStore-Ignores : Ignores SameStore
SameStore-Ignores e w = refl
