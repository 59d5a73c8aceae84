-- ===== src/Gateway/Keeps.antt =====
-- Invariants of the actions of gateway/connection.ts: one rule for each way to build an action.
use the_room_backend.Base.{Bool, true, false, if◌then◌else◌}
use the_room_backend.Gateway.World.{
  Connection, Server, World, Outcome, returns, throws, M, continue, ◌>>=◌, pure, skip, throw, world,
  on_conn, on_srv,
}

-- `m` keeps `P`, whether it returns or throws.
pub record Keeps {A : Type 0} (P : World → Type 0) (m : M A) : Type 0 where
  pub at : (w : World) → P w → P (m w).1

module _ {P : World → Type 0} where
  pub Keeps-pure : {A : Type 0} (a : A) → Keeps P (pure a)
  unfolding pure
  Keeps-pure a = record { at = λ w h. h }

  pub Keeps-skip : Keeps P skip
  unfolding skip
  Keeps-skip = record { at = λ w h. h }

  pub Keeps-throw : {A : Type 0} → Keeps P (throw {A = A})
  unfolding throw
  Keeps-throw = record { at = λ w h. h }

  pub Keeps-world : Keeps P world
  unfolding world
  Keeps-world = record { at = λ w h. h }

  pub Keeps-if :
      {A : Type 0} (b : Bool) (m n : M A) → Keeps P m → Keeps P n → Keeps P (if b then m else n)
  Keeps-if true m n km kn = km
  Keeps-if false m n km kn = kn

  Keeps-continue :
      {A B : Type 0} (r : Outcome A) (f : A → M B) (w : World)
      → ((a : A) → Keeps P (f a))
      → P w
      → P (continue r f w).1
  Keeps-continue (returns a) f w k h = (k a).at w h
  Keeps-continue throws f w k h = h

  pub Keeps-bind :
      {A B : Type 0} (m : M A) (f : A → M B)
      → Keeps P m
      → ((a : A) → Keeps P (f a))
      → Keeps P (m >>= f)
  unfolding ◌>>=◌
  Keeps-bind m f km kf = record { at = λ w h. Keeps-continue (m w).0 f (m w).1 kf (km.at w h) }

  pub Keeps-on_conn :
      (f : Connection → Connection)
      → ((w : World) → P w → P (record w { conn = f w.conn }))
      → Keeps P (on_conn f)
  unfolding on_conn
  Keeps-on_conn f k = record { at = k }

  pub Keeps-on_srv :
      (f : Server → Server)
      → ((w : World) → P w → P (record w { srv = f w.srv }))
      → Keeps P (on_srv f)
  unfolding on_srv
  Keeps-on_srv f k = record { at = k }

pub ruleset keeps_rules = (Keeps-pure, Keeps-skip, Keeps-throw, Keeps-world, Keeps-if, Keeps-bind)
