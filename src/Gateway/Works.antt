-- ===== src/Gateway/Works.antt =====
-- Actions of gateway/connection.ts and identity/sessions.ts that are certain to return, with a rule for
-- each way to build an action.
use the_room_backend.Base.{◌≡◌, refl, Bool, true, false, if◌then◌else◌}
use the_room_backend.Gateway.World.{
  World, Outcome, returns, throws, M, continue, ◌>>=◌, pure, world,
}

unfoldable pub Ends : {A : Type 0} → (A → World → Type 0) → Outcome A → World → Type 0
Ends Q (returns a) w = Q a w
Ends Q throws w = true ≡ false

-- Where `m` starts in `P` it returns, and ends in `Q` of what it returns.
pub record Works {A : Type 0} (P : World → Type 0) (m : M A) (Q : A → World → Type 0) : Type 0 where
  pub at : (w : World) → P w → Ends Q (m w).0 (m w).1

Ends-continue :
    {A B : Type 0} {Q : A → World → Type 0} {R : B → World → Type 0} (r : Outcome A) (f : A → M B)
    (w : World)
    → ((a : A) → Works (Q a) (f a) R)
    → Ends Q r w
    → Ends R (continue r f w).0 (continue r f w).1
unfolding Ends
Ends-continue (returns a) f w kf h = (kf a).at w h
Ends-continue throws f w kf h = h

-- From nowhere anything follows.
pub Works-nowhere : {A : Type 0} (m : M A) (Q : A → World → Type 0) → Works (λ w. true ≡ false) m Q
Works-nowhere m Q = record { at = λ w h. absurd (cc h) }

module _ {P : World → Type 0} where
  pub Works-pure :
      {A : Type 0} {Q : A → World → Type 0} (a : A)
      → ((w : World) → P w → Q a w)
      → Works P (pure a) Q
  unfolding pure Ends
  Works-pure a k = record { at = k }

  pub Works-if :
      {A : Type 0} {Q : A → World → Type 0} (b : Bool) (m n : M A)
      → (b ≡ true → Works P m Q)
      → (b ≡ false → Works P n Q)
      → Works P (if b then m else n) Q
  Works-if true m n km kn = km refl
  Works-if false m n km kn = kn refl

  pub Works-weaken :
      {A : Type 0} {R : World → Type 0} {m : M A} {Q : A → World → Type 0}
      → ((w : World) → P w → R w)
      → Works R m Q
      → Works P m Q
  Works-weaken k km = record { at = λ w h. km.at w (k w h) }

  pub Works-world : Works P world (λ seen w. P seen × P w)
  unfolding world Ends
  Works-world = record { at = λ w h. (h, h) }

  pub Works-given :
      {A : Type 0} {C : Type 0} {m : M A} {Q : A → World → Type 0}
      → (C → Works P m Q)
      → Works (λ w. C × P w) m Q
  Works-given k = record { at = λ w h. (k h.0).at w h.1 }

  pub Works-bind :
      {A B : Type 0} {Q : A → World → Type 0} {R : B → World → Type 0} {m : M A} {f : A → M B}
      → Works P m Q
      → ((a : A) → Works (Q a) (f a) R)
      → Works P (m >>= f) R
  unfolding ◌>>=◌
  Works-bind {Q = Q} {R = R} {m = m} {f = f} km kf = record {
    at = λ w h. Ends-continue {Q = Q} {R = R} (m w).0 f (m w).1 kf (km.at w h);
  }
