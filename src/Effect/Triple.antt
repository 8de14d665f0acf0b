-- ===== src/Effect/Triple.antt =====
-- What is true after a call: `Q` of the value that it returns, `E` of the exception that it raises,
-- and `B` if the fuel ran out. With `B` = `⊥` a triple says that the call ends.
use disc_stakka_web.Base.{Bool, true, false, ◌≡◌, ◌≢◌, refl, subst, if◌then◌else◌}
use disc_stakka_web.Effect.{
  Exc, Outcome, ok, raised, running, M, Done, ◌>>=◌, bind_outcome, handle, handle_outcome, pure,
  raise, out_of_fuel, skip, gets, modify,
}

abbrev pub After :
    {S A : Type 0} → (S → Type 0) → (A → S → Type 0) → (Exc → S → Type 0) → Outcome A → S → Type 0
After B Q E (ok a) s = Q a s
After B Q E (raised e) s = E e s
After B Q E running s = B s

pub record Triple {S A : Type 0} (B : S → Type 0) (P : S → Type 0) (m : M S A) (Q : A → S → Type 0)
    (E : Exc → S → Type 0) : Type 0 where
  pub holds : (s : S) → P s → After B Q E (m s).0 (m s).1

-- The call keeps `I`, however it ends.
abbrev pub Keeps : {S A : Type 0} → (S → Type 0) → M S A → Type 0
Keeps I m = Triple I I m (λ _. I) (λ _. I)

module _ {S A C : Type 0} (B : S → Type 0) (Q : A → S → Type 0) (E : Exc → S → Type 0) where
  After-bind_outcome :
      (R : C → S → Type 0) (f : A → M S C)
      → ((a : A) → Triple B (Q a) (f a) R E)
      → (r : Outcome A) (s : S) → After B Q E r s
      → After B R E (bind_outcome f r s).0 (bind_outcome f r s).1
  After-bind_outcome R f hf (ok a) s h = (hf a).holds s h
  After-bind_outcome R f hf (raised e) s h = h
  After-bind_outcome R f hf running s h = h

module _ {S A : Type 0} (B : S → Type 0) (Q : A → S → Type 0) (E F : Exc → S → Type 0) where
  After-handle_raised :
      (c : Bool) (h : Exc → M S A) (e : Exc) (s : S)
      → (c ≡ true → Triple B (E e) (h e) Q F)
      → (c ≡ false → E e s → F e s)
      → E e s
      → After B Q F
          ((if c then h e else λ s'. (raised e, s')) s).0
          ((if c then h e else λ s'. (raised e, s')) s).1
  After-handle_raised true h e s yes_h no_h p = (yes_h refl).holds s p
  After-handle_raised false h e s yes_h no_h p = no_h refl p

  After-handle_outcome :
      (caught : Exc → Bool) (h : Exc → M S A)
      → ((e : Exc) → caught e ≡ true → Triple B (E e) (h e) Q F)
      → ((e : Exc) (s : S) → caught e ≡ false → E e s → F e s)
      → (r : Outcome A) (s : S) → After B Q E r s
      → After B Q F (handle_outcome caught h r s).0 (handle_outcome caught h r s).1
  After-handle_outcome caught h hc hn (ok a) s p = p
  After-handle_outcome caught h hc hn (raised e) s p =
      After-handle_raised (caught e) h e s (hc e) (hn e s) p
  After-handle_outcome caught h hc hn running s p = p

module _ {S A : Type 0} (B : S → Type 0) (Q Q' : A → S → Type 0) (E E' : Exc → S → Type 0) where
  After-weaken :
      (r : Outcome A) (s : S)
      → ((a : A) (s : S) → Q a s → Q' a s)
      → ((e : Exc) (s : S) → E e s → E' e s)
      → After B Q E r s
      → After B Q' E' r s
  After-weaken (ok a) s hq he p = hq a s p
  After-weaken (raised e) s hq he p = he e s p
  After-weaken running s hq he p = p

module _ {S A : Type 0} {B : S → Type 0} {P : S → Type 0} {Q : A → S → Type 0}
    {E : Exc → S → Type 0} where
  pub bind_lem :
      {C : Type 0} {R : C → S → Type 0} {m : M S A} {f : A → M S C}
      → Triple B P m Q E
      → ((a : A) → Triple B (Q a) (f a) R E)
      → Triple B P (m >>= f) R E
  bind_lem {R} {m} {f} hm hf = record {
    holds = λ s p. After-bind_outcome B Q E R f hf (m s).0 (m s).1 (hm.holds s p);
  }

  pub handle_lem :
      {F : Exc → S → Type 0} {m : M S A} (caught : Exc → Bool) (h : Exc → M S A)
      → Triple B P m Q E
      → ((e : Exc) → caught e ≡ true → Triple B (E e) (h e) Q F)
      → ((e : Exc) (s : S) → caught e ≡ false → E e s → F e s)
      → Triple B P (handle caught m h) Q F
  handle_lem {F} {m} caught h hm hc hn = record {
    holds = λ s p. After-handle_outcome B Q E F caught h hc hn (m s).0 (m s).1 (hm.holds s p);
  }

  pub weaken :
      {P' : S → Type 0} {Q' : A → S → Type 0} {E' : Exc → S → Type 0} {m : M S A}
      → Triple B P m Q E
      → ((s : S) → P' s → P s)
      → ((a : A) (s : S) → Q a s → Q' a s)
      → ((e : Exc) (s : S) → E e s → E' e s)
      → Triple B P' m Q' E'
  weaken {Q'} {E'} {m} hm hp hq he = record {
    holds = λ s p. After-weaken B Q Q' E E' (m s).0 (m s).1 hq he (hm.holds s (hp s p));
  }

  -- A fact that follows from the precondition and does not mention the state.
  pub known_lem :
      {m : M S A} (X : Type 0) → ((s : S) → P s → X) → (X → Triple B P m Q E) → Triple B P m Q E
  known_lem X f k = record { holds = λ s p. (k (f s p)).holds s p }

  pub pure_lem : (a : A) → ((s : S) → P s → Q a s) → Triple B P (pure a) Q E
  pure_lem a h = record { holds = h }

  pub raise_lem : (e : Exc) → ((s : S) → P s → E e s) → Triple B P (raise e) Q E
  raise_lem e h = record { holds = h }

  pub fuel_lem : ((s : S) → P s → B s) → Triple B P out_of_fuel Q E
  fuel_lem h = record { holds = h }

  pub gets_lem : (f : S → A) → ((s : S) → P s → Q (f s) s) → Triple B P (gets f) Q E
  gets_lem f h = record { holds = h }

  pub if_lem :
      (b : Bool) {x y : M S A}
      → (b ≡ true → Triple B P x Q E)
      → (b ≡ false → Triple B P y Q E)
      → Triple B P (if b then x else y) Q E
  if_lem true hx hy = hx refl
  if_lem false hx hy = hy refl

module _ {S : Type 0} {B : S → Type 0} {P : S → Type 0} {Q : Done → S → Type 0}
    {E : Exc → S → Type 0} where
  pub skip_lem : ((s : S) → P s → Q tt s) → Triple B P skip Q E
  skip_lem h = record { holds = h }

  pub modify_lem : (f : S → S) → ((s : S) → P s → Q tt (f s)) → Triple B P (modify f) Q E
  modify_lem f h = record { holds = h }

-- A call of which nothing is asked.
abbrev pub Any : {S : Type 0} → S → Type 0
Any s = Unit

After-Any :
    {S A : Type 0} (r : Outcome A) (s : S) → After Any (λ (_ : A). Any {S = S}) (λ _. Any) r s
After-Any (ok a) s = tt
After-Any (raised e) s = tt
After-Any running s = tt

pub any_lem : {S A : Type 0} {P : S → Type 0} {m : M S A} → Triple Any P m (λ _. Any) (λ _. Any)
any_lem {m} = record { holds = λ s p. After-Any (m s).0 (m s).1 }

-- What every ending has is true of the state that the call leaves.
After-final :
    {S A : Type 0} (I : S → Type 0) (r : Outcome A) (s : S)
    → After I (λ (_ : A). I) (λ _. I) r s
    → I s
After-final I (ok a) s p = p
After-final I (raised e) s p = p
After-final I running s p = p

pub final_lem : {S A : Type 0} {I : S → Type 0} {m : M S A} → Keeps I m → (s : S) → I s → I (m s).1
final_lem {I} {m} h s p = After-final I (m s).0 (m s).1 (h.holds s p)

module _ {S A : Type 0} (B B' : S → Type 0) (Q Q' : A → S → Type 0) (E E' : Exc → S → Type 0) where
  -- Two postconditions at once.
  After-both :
      (r : Outcome A) (s : S)
      → After B Q E r s
      → After B' Q' E' r s
      → After (λ s. B s × B' s) (λ a s. Q a s × Q' a s) (λ e s. E e s × E' e s) r s
  After-both (ok a) s p p' = (p, p')
  After-both (raised e) s p p' = (p, p')
  After-both running s p p' = (p, p')

  After-mono :
      (r : Outcome A) (s : S)
      → ((s : S) → B s → B' s)
      → ((a : A) (s : S) → Q a s → Q' a s)
      → ((e : Exc) (s : S) → E e s → E' e s)
      → After B Q E r s
      → After B' Q' E' r s
  After-mono (ok a) s hb hq he p = hq a s p
  After-mono (raised e) s hb hq he p = he e s p
  After-mono running s hb hq he p = hb s p

module _ {S A : Type 0} {B B' P P' : S → Type 0} {Q Q' : A → S → Type 0} {E E' : Exc → S → Type 0}
    {m : M S A} where
  pub both_lem :
      Triple B P m Q E
      → Triple B' P' m Q' E'
      → Triple (λ s. B s × B' s) (λ s. P s × P' s) m (λ a s. Q a s × Q' a s) (λ e s. E e s × E' e s)
  both_lem h h' = record {
    holds = λ s p. After-both B B' Q Q' E E' (m s).0 (m s).1 (h.holds s p.0) (h'.holds s p.1);
  }

  pub weaken_all :
      Triple B P m Q E
      → ((s : S) → P' s → P s)
      → ((s : S) → B s → B' s)
      → ((a : A) (s : S) → Q a s → Q' a s)
      → ((e : Exc) (s : S) → E e s → E' e s)
      → Triple B' P' m Q' E'
  weaken_all h hp hb hq he = record {
    holds = λ s p. After-mono B B' Q Q' E E' (m s).0 (m s).1 hb hq he (h.holds s (hp s p));
  }

-- A triple read at a call that returned, and at a call that cannot run out of fuel.
module _ {S A : Type 0} {B P : S → Type 0} {Q : A → S → Type 0} {E : Exc → S → Type 0} {m : M S A}
    (h : Triple B P m Q E) (s : S) (p : P s) where
  pub returned_lem : (a : A) → (m s).0 ≡ ok a → Q a (m s).1
  returned_lem a e = subst (λ r. After B Q E r (m s).1) e (h.holds s p)

  pub raised_lem : (x : Exc) → (m s).0 ≡ raised x → E x (m s).1
  raised_lem x e = subst (λ r. After B Q E r (m s).1) e (h.holds s p)

  pub ended_lem : ((s : S) → B s → ⊥) → (m s).0 ≢ running
  ended_lem never e = never (m s).1 (subst (λ r. After B Q E r (m s).1) e (h.holds s p))

-- A last call whose postcondition does not rest on what came before it.
pub then_lem :
    {S A C : Type 0} {P : S → Type 0} {R : C → S → Type 0} (m : M S A) {f : A → M S C}
    → ((a : A) → Triple Any Any (f a) R (λ _. Any))
    → Triple Any P (m >>= f) R (λ _. Any)
then_lem m h = bind_lem (any_lem {m = m}) h
