-- ===== src/Http/Reads.antt =====
-- http/routes.ts: what the actions of an endpoint leave of the server, one rule for each way to
-- build an action.
use the_room_backend.Base.{
  ℕ, ◌≡◌, ◌≢◌, refl, ◌∙◌, Bool, true, false, String, if◌then◌else◌, arith, Bool-cases, Option-cases,
  inl, inr, ◌⊎◌,
}
use the_room_backend.Store.Memory.{MemoryStore, get, as_text, name_owner, name_key, block_ttl}
use the_room_backend.Gateway.RoomServer.State.{RoomServer}
use the_room_backend.Store.Memory.Owners.{get_as-store, get-abuse, block_ttl-get}
use the_room_backend.Http.Request.{Body, Response, Answer, respond}
use the_room_backend.Http.Effects.{
  Attempt, returns, throws, Thrown, http_error, other_error, HttpWorld, H, ◌>>=◌, pure, throw,
  server_now, next_fault, call, on_store, read_json,
}

-- Nothing was published or logged, no connection has changed, and no block was set or lifted.
abbrev pub IsUntouched : RoomServer → RoomServer → Type 0
IsUntouched s t =
    (t.srv.now ≡ s.srv.now)
    × (t.srv.published ≡ s.srv.published)
    × (t.conns ≡ s.conns)
    × (t.srv.store.abuse ≡ s.srv.store.abuse)
    × ((key : String) → block_ttl s.srv.now key t.srv.store ≡ block_ttl s.srv.now key s.srv.store)

IsUntouched_refl : (s : RoomServer) → IsUntouched s s
IsUntouched_refl s = (refl, refl, refl, refl, λ key. refl)

IsUntouched_trans : (s t u : RoomServer) → IsUntouched s t → IsUntouched t u → IsUntouched s u
IsUntouched_trans s t u (n, p, c, a, b) (n', p', c', a', b') =
    (n' ∙ n, p' ∙ p, c' ∙ c, a' ∙ a, λ key. cc (b key, b' key, n))

name_owner-IsUntouched :
    (room_id name : String) (s : RoomServer)
    → IsUntouched s (on_store (λ now store. name_owner now room_id name store) s).1
unfolding name_owner
name_owner-IsUntouched room_id name s =
    let k = name_key room_id name in
    let same = get_as-store as_text (get s.srv.now k s.srv.store) in
    (
      refl,
      refl,
      refl,
      rw (same, get-abuse s.srv.now k s.srv.store),
      λ key. rw (same, block_ttl-get s.srv.now key k s.srv.store),
    )

-- An action that leaves the server as it is, but for entries that have run out.
pub record Reads {A : Type 0} (m : H A) : Type 0 where
  pub at : (w : HttpWorld) → IsUntouched w.server (m w).1.server

-- An answer is an error where it is no success; `other_error` may come at any point.
abbrev pub IsError : Attempt Response → Type 0
IsError (returns response) = response.status ≢ 200
IsError (throws (http_error status code)) = Unit {0}
IsError (throws other_error) = ⊥

-- Where the action ends in an error, it has only read.
pub record Careful (m : H Response) : Type 0 where
  pub unless : (w : HttpWorld) → IsError (m w).0 → IsUntouched w.server (m w).1.server

-- An action that throws, if anything, what is no answer.
pub record Succeeds (m : H Response) : Type 0 where
  pub never : (w : HttpWorld) → ¬ IsError (m w).0

Attempt-cases :
    {A : Type 0} (r : Attempt A) → ((a : A) × (r ≡ returns a)) ⊎ ((e : Thrown) × (r ≡ throws e))
Attempt-cases (returns a) = inl (a, refl)
Attempt-cases (throws e) = inr (e, refl)

module _ {A : Type 0} where
  pub Reads-pure : (a : A) → Reads (pure a)
  unfolding pure
  Reads-pure a = record { at = λ w. IsUntouched_refl w.server }

  pub Reads-call :
      (op : RoomServer → A × RoomServer)
      → ((s : RoomServer) → IsUntouched s (op s).1)
      → Reads (call op)
  unfolding call
  Reads-call op h = record {
    at = λ w. elim (Bool-cases (next_fault w.faults).0) [
      | inl fails ↦ rw fails (IsUntouched_refl w.server)
      | inr goes ↦ rw goes (h w.server)
    ];
  }

  pub Reads-bind :
      {B : Type 0} (m : H A) (f : A → H B) → Reads m → ((a : A) → Reads (f a)) → Reads (m >>= f)
  unfolding ◌>>=◌
  Reads-bind m f hm hf = record {
    at = λ w. elim (Attempt-cases (m w).0) [
      | inl (a, e) ↦ rw e (
          IsUntouched_trans w.server (m w).1.server (f a (m w).1).1.server (hm.at w)
            ((hf a).at (m w).1))
      | inr (x, e) ↦ rw e (hm.at w)
    ];
  }

  pub Careful-bind :
      (m : H A) (f : A → H Response) → Reads m → ((a : A) → Careful (f a)) → Careful (m >>= f)
  unfolding ◌>>=◌
  Careful-bind m f hm hf = record {
    unless = λ w. elim (Attempt-cases (m w).0) [
      | inl (a, e) ↦ rw e λ error.
          IsUntouched_trans w.server (m w).1.server (f a (m w).1).1.server (hm.at w)
            ((hf a).unless (m w).1 error)
      | inr (x, e) ↦ rw e λ error. hm.at w
    ];
  }

  pub Succeeds-call :
      (op : RoomServer → A × RoomServer) (f : A → H Response)
      → ((a : A) → Succeeds (f a))
      → Succeeds (call op >>= f)
  unfolding call ◌>>=◌
  Succeeds-call op f h = record {
    never = λ w. elim (Bool-cases (next_fault w.faults).0) [
      | inl fails ↦ rw fails (λ error. error)
      | inr goes ↦ rw goes (
          (h (op w.server).0).never
            (record { server = (op w.server).1; faults = (next_fault w.faults).1 }))
    ];
  }

pub Reads-now : Reads server_now
unfolding server_now
Reads-now = record { at = λ w. IsUntouched_refl w.server }

pub Reads-if : {A : Type 0} (b : Bool) (m n : H A) → Reads m → Reads n → Reads (if b then m else n)
Reads-if true m n hm hn = hm
Reads-if false m n hm hn = hn

pub Succeeds-now :
    (f : RoomServer → H Response)
    → ((s : RoomServer) → Succeeds (f s))
    → Succeeds (server_now >>= f)
unfolding server_now ◌>>=◌
Succeeds-now f h = record { never = λ w. (h w.server).never w }

pub Succeeds-respond : (a : Answer) → Succeeds (pure (respond 200 a))
unfolding pure
Succeeds-respond a = record { never = λ w error. error refl }

pub Careful-Succeeds : (m : H Response) → Succeeds m → Careful m
Careful-Succeeds m h = record { unless = λ w error. absurd (h.never w error) }

pub Careful-Reads : (m : H Response) → Reads m → Careful m
Careful-Reads m h = record { unless = λ w error. h.at w }

pub Careful-if :
    (b : Bool) (m n : H Response) → Careful m → Careful n → Careful (if b then m else n)
Careful-if true m n hm hn = hm
Careful-if false m n hm hn = hn

pub name_owner-Reads :
    (room_id name : String)
    → Reads (call (on_store (λ now store. name_owner now room_id name store)))
name_owner-Reads room_id name = Reads-call _ (name_owner-IsUntouched room_id name)

-- A call that only looks at the store.
pub look-Reads :
    {A : Type 0} (f : ℕ → MemoryStore → A)
    → Reads (call (on_store (λ now store. (f now store, store))))
look-Reads f = Reads-call _ IsUntouched_refl

read_json-world : (b : Body) (w : HttpWorld) → (read_json b w).1 ≡ w
unfolding read_json pure throw
read_json-world b w = elim (Option-cases b.json) [
  | inl h ↦ ground (arith, h)
  | inr (json, h) ↦ ground (arith, h)
]

pub read_json-Reads : (b : Body) → Reads (read_json b)
read_json-Reads b = record { at = λ w. rw (read_json-world b w) (IsUntouched_refl w.server) }

pub ruleset reads =
    (Reads-pure, Reads-bind, Reads-if, Reads-now, name_owner-Reads, look-Reads, read_json-Reads)
