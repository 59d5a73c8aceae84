-- ===== src/Gateway/Returns.antt =====
-- Actions of gateway/connection.ts and identity/sessions.ts: what holds where one returns, with a rule
-- for each way to build an action.
use the_room_backend.Base.{◌≡◌, refl, subst, Bool, true, false, if◌then◌else◌}
use the_room_backend.Gateway.World.{
  World, Outcome, returns, throws, M, continue, ◌>>=◌, pure, world,
}

-- Where `m` starts in `P` and returns `a`, it ends in `Q a`.
pub record Returns {A : Type 0} (P : World → Type 0) (m : M A) (Q : A → World → Type 0)
    : Type 0 where
  pub at : (w : World) → P w → (a : A) → (m w).0 ≡ returns a → Q a (m w).1

Returns-continue :
    {A B : Type 0} {Q : A → World → Type 0} {R : B → World → Type 0} (r : Outcome A) (f : A → M B)
    (w : World)
    → ((a : A) → Returns (Q a) (f a) R)
    → ((a : A) → r ≡ returns a → Q a w)
    → (b : B) → (continue r f w).0 ≡ returns b
    → R b (continue r f w).1
Returns-continue (returns a) f w kf h b e = (kf a).at w (h a refl) b e
Returns-continue throws f w kf h b e = absurd (cc e)

-- From nowhere anything follows.
pub Returns-nowhere :
    {A : Type 0} (m : M A) (Q : A → World → Type 0) → Returns (λ w. true ≡ false) m Q
Returns-nowhere m Q = record { at = λ w h. absurd (cc h) }

module _ {P : World → Type 0} where
  pub Returns-pure :
      {A : Type 0} {Q : A → World → Type 0} (a : A)
      → ((w : World) → P w → Q a w)
      → Returns P (pure a) Q
  unfolding pure
  Returns-pure {A} {Q} a k = record {
    at = λ w h b e. let same : a ≡ b = cc e in subst (λ x. Q x w) same (k w h);
  }

  pub Returns-weaken :
      {A : Type 0} {m : M A} {Q R : A → World → Type 0}
      → ((a : A) (w : World) → Q a w → R a w)
      → Returns P m Q
      → Returns P m R
  Returns-weaken k km = record { at = λ w h a e. k a _ (km.at w h a e) }

  pub Returns-any : {A : Type 0} (m : M A) → Returns P m (λ a w. Unit {0})
  Returns-any m = record { at = λ w h a e. tt }

  pub Returns-world : Returns P world (λ seen w. P seen × P w)
  unfolding world
  Returns-world = record { at = λ w h seen e. let same : w ≡ seen = cc e in (subst P same h, h) }

  pub Returns-if :
      {A : Type 0} {Q : A → World → Type 0} (b : Bool) (m n : M A)
      → Returns P m Q
      → Returns P n Q
      → Returns P (if b then m else n) Q
  Returns-if true m n km kn = km
  Returns-if false m n km kn = kn

  -- A fact that does not change is a hypothesis.
  pub Returns-given :
      {A : Type 0} {C : Type 0} {m : M A} {Q : A → World → Type 0}
      → (C → Returns P m Q)
      → Returns (λ w. C × P w) m Q
  Returns-given k = record { at = λ w h. (k h.0).at w h.1 }

  pub Returns-bind :
      {A B : Type 0} {Q : A → World → Type 0} {R : B → World → Type 0} {m : M A} {f : A → M B}
      → Returns P m Q
      → ((a : A) → Returns (Q a) (f a) R)
      → Returns P (m >>= f) R
  unfolding ◌>>=◌
  Returns-bind {m = m} {f = f} km kf = record {
    at = λ w h. Returns-continue (m w).0 f (m w).1 kf (km.at w h);
  }
