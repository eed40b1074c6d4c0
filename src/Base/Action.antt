-- ===== src/Base/Action.antt =====
-- A call of a method that may change the state of its object and may raise. What was written
-- before a raise stays, so that the state comes back beside the error too.
use mathlib.Core.Path.{◌≡◌, refl}
use mathlib.Core.Bool.{Bool, true, false}
use mathlib.Core.Logic.{◌⊎◌, inl, inr}

pub data Result (E A : Type 0) : Type 0 where
  ok : A → Result E A
  raised : E → Result E A

abbrev pub Action : Type 0 → Type 0 → Type 0 → Type 0
Action E S A = S → Result E A × S

module _ {E S A : Type 0} where
  unfoldable pub pure : A → Action E S A
  pure a s = (ok a, s)

  unfoldable pub gets : (S → A) → Action E S A
  gets f s = (ok (f s), s)

module _ {E S : Type 0} where
  unfoldable pub raise_if : Bool → E → Action E S (Unit {0})
  raise_if true e s = (raised e, s)
  raise_if false e s = (ok tt, s)

  unfoldable pub modify : (S → S) → Action E S (Unit {0})
  modify f s = (ok tt, f s)

abbrev continue : {E S A B : Type 0} → Result E A → (A → Action E S B) → Action E S B
continue (ok a) f s = f a s
continue (raised e) f s = (raised e, s)

module _ {E S A B : Type 0} where
  infixl 5 ◌>>=◌ ◌>>◌
  -- Opening this opens the other actions too.
  unfoldable pub ◌>>=◌ : Action E S A → (A → Action E S B) → Action E S B
  unfolding pure gets raise_if modify
  ◌>>=◌ m f s = let (r, s') = m s in continue r f s'

  abbrev pub ◌>>◌ : Action E S A → Action E S B → Action E S B
  m >> k = m >>= λ _. k

-- What holds of the end of a call, one rule for each kind of step.
module _ {E S B : Type 0} (P : Result E B × S → Type 0) where
  pub raise_if_rule :
      (b : Bool) (e : E) (k : Unit {0} → Action E S B) (s : S)
      → (b ≡ true → P (raised e, s))
      → (b ≡ false → P (k tt s))
      → P ((raise_if b e >>= k) s)
  unfolding ◌>>=◌
  raise_if_rule true e k s stop go = stop refl
  raise_if_rule false e k s stop go = go refl

  pub gets_rule :
      {A : Type 0} (f : S → A) (k : A → Action E S B) (s : S) → P (k (f s) s) → P ((gets f >>= k) s)
  unfolding ◌>>=◌
  gets_rule f k s h = h

  pub modify_pure_rule : (f : S → S) (b : B) (s : S) → P (ok b, f s) → P ((modify f >> pure b) s)
  unfolding ◌>>=◌
  modify_pure_rule f b s h = h

module _ {E S A B : Type 0} (m : Action E S A) (k : A → Action E S B) {s s' : S} where
  -- A step that returns goes on, and one that raises ends the call.
  pub bind-ok : {a : A} → m s ≡ (ok a, s') → (m >>= k) s ≡ k a s'
  unfolding ◌>>=◌
  bind-ok e = rw e refl

  pub bind-raised : {e : E} → m s ≡ (raised e, s') → (m >>= k) s ≡ (raised e, s')
  unfolding ◌>>=◌
  bind-raised e = rw e refl

module _ {E A : Type 0} where
  pub Result-cases : (r : Result E A) → ((a : A) × (r ≡ ok a)) ⊎ ((e : E) × (r ≡ raised e))
  Result-cases (ok a) = inl (a, refl)
  Result-cases (raised e) = inr (e, refl)

  pub ok-injective : {a b : A} → ◌≡◌ {A = Result E A} (ok a) (ok b) → a ≡ b
  ok-injective e = cc

  pub raised-injective : {d e : E} → ◌≡◌ {A = Result E A} (raised d) (raised e) → d ≡ e
  raised-injective e = cc
