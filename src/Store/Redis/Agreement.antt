-- ===== src/Store/Redis/Agreement.antt =====
-- store/redis.ts beside store/memory.ts: when the two stores hold the same texts, and what keeps
-- them so.
use package.text.Mathlib.TextLemmas.{append_cancel_left}
use the_room_backend.Base.{
  ℕ, ◌≤◌, ◌≡◌, refl, sym, ap, ◌∙◌, Bool, true, false, none, some, String, ◌==◌, ltb, leb, arith,
  eq_iff, eq_refl, is_some, Bool-cases, inl, inr, ◌⊎◌, subst,
}
use the_room_backend.Base.Text.{◌^^◌}
use the_room_backend.Base.Dict.{lookup, delete, lookup-insert, lookup-delete}
use the_room_backend.Store.Memory.{MemoryStore, text, as_text, get, get_as, put, put_if_free}
use the_room_backend.Store.Redis.{Commands, IsRedis, k, if_live}

module _ (R : Commands) (L : IsRedis R) (p : String) where
  k_eq : (key asked : String) → (k p key == k p asked) ≡ (key == asked)
  unfolding k
  k_eq key asked = elim (Bool-cases (key == asked)) [
    | inl e ↦
        let equal_keys = (eq_iff key asked).0 e in
        (eq_iff (p ^^ key) (p ^^ asked)).1 (ap (λ x. p ^^ x) equal_keys) ∙ sym e
    | inr e ↦ elim (Bool-cases ((p ^^ key) == (p ^^ asked))) [
      | inl e' ↦
          let same =
            (eq_iff key asked).1
              (append_cancel_left p key asked ((eq_iff (p ^^ key) (p ^^ asked)).0 e')) in
          absurd (cc (same, e))
      | inr e' ↦ e' ∙ sym e
    ]
  ]

  -- Neither holds the key, or both the same text until the same time, from now on.
  unfoldable pub AgreesAt : (now : ℕ) → (key : String) → R.State → MemoryStore → Type 0
  AgreesAt now key r m =
      ((lookup key m.kv ≡ none) × ((later : ℕ) → now ≤ later → L.peek later (k p key) r ≡ none))
      ⊎ ((t : String) × (until : ℕ) × (lookup key m.kv ≡ some (record { v = text t; exp = until }))
          × ((later : ℕ)
              → now ≤ later
              → L.peek later (k p key) r ≡ if_live later (record { value = t; until = until })))

  abbrev pub Agrees : (now : ℕ) → R.State → MemoryStore → Type 0
  Agrees now r m = (key : String) → AgreesAt now key r m

  pub Agrees-later :
      (now now' : ℕ) (r : R.State) (m : MemoryStore) → now ≤ now' → Agrees now r m → Agrees now' r m
  unfolding AgreesAt
  Agrees-later now now' r m le h key = elim (h key) [
    | inl (missing, gone) ↦ inl (missing, λ later le'. gone later (omega arith))
    | inr (t, until, held, shows) ↦ inr (t, until, held, λ later le'. shows later (omega arith))
  ]

  -- One key changes; the others are as they were.
  agree_else :
      (now : ℕ) (key : String) (r r' : R.State) (m m' : MemoryStore)
      → Agrees now r m
      → ((j : String) → (key == j) ≡ false → lookup j m'.kv ≡ lookup j m.kv)
      → ((j : String) (later : ℕ)
          → (key == j) ≡ false
          → L.peek later (k p j) r' ≡ L.peek later (k p j) r)
      → AgreesAt now key r' m'
      → Agrees now r' m'
  unfolding AgreesAt
  agree_else now key r r' m m' h lookups peeks at_key j = elim (Bool-cases (key == j)) [
    | inl e ↦ subst (λ x. AgreesAt now x r' m') ((eq_iff key j).0 e) at_key
    | inr e ↦ elim (h j) [
      | inl (missing, gone) ↦
          inl (lookups j e ∙ missing, λ later le. peeks j later e ∙ gone later le)
      | inr (t, until, held, shows) ↦
          inr (t, until, lookups j e ∙ held, λ later le. peeks j later e ∙ shows later le)
    ]
  ]

  -- Reading gives the same text, and may drop what has run out.
  pub get-Agrees :
      (now : ℕ) (key : String) (r : R.State) (m : MemoryStore)
      → Agrees now r m
      → (R.get now (k p key) r ≡ (get_as as_text (get now key m)).0)
        × Agrees now r (get now key m).1
        × (is_some (L.peek now (k p key) r) ≡ is_some (get now key m).0)
  unfolding AgreesAt get
  get-Agrees now key r m h = elim (h key) [
    | inl (missing, gone) ↦
        let shown = L.get-peek now (k p key) r in
        let nothing = gone now (omega arith) in
        (rw (missing, shown, nothing), rw missing h, rw (missing, nothing))
    | inr (t, until, held, shows) ↦
        let shown = L.get-peek now (k p key) r in
        let seen = shows now (omega arith) in
        elim (Bool-cases (leb until now)) [
          | inl late ↦
              let over : ltb now until ≡ false = ground (arith, late) in
              (
                rw (held, late, shown, seen, over),
                rw (held, late)
                    (agree_else now key r r m (record m { kv = delete key m.kv }) h
                      (λ j e. rw (lookup-delete key j m.kv, e)) (λ j later e. refl)
                      (inl (
                        rw (lookup-delete key key m.kv, eq_refl key),
                        λ later le. rw (shows later le, run_out later until now le late),
                      ))),
                rw (held, late, seen, over),
              )
          | inr early ↦
              let going : ltb now until ≡ true = ground (arith, early) in
              (
                rw (held, early, shown, seen, going),
                rw (held, early) h,
                rw (held, early, seen, going),
              )
        ]
  ]
    where
      run_out : (later until now : ℕ) → now ≤ later → leb until now ≡ true → ltb later until ≡ false
      run_out later until now le late = ground (arith, late)

  -- A text that is put in both.
  pub set_at-Agrees :
      (now : ℕ) (key t : String) (until : ℕ) (only_new : Bool) (r : R.State) (m : MemoryStore)
      → Agrees now r m
      → (R.set_at now (k p key) t until only_new r).0 ≡ true
      → Agrees now (R.set_at now (k p key) t until only_new r).1 (put key (text t) until m)
  unfolding AgreesAt put
  set_at-Agrees now key t until only_new r m h done =
      agree_else now key r (R.set_at now (k p key) t until only_new r).1 m
        (put key (text t) until m) h
        (λ j e. rw (lookup-insert key j (record { v = text t; exp = until }) m.kv, e))
        (λ j later e.
          rw (L.set_at-peek now later (k p key) t (k p j) until only_new r done, k_eq key j, e))
        (inr (
          t,
          until,
          rw (lookup-insert key key (record { v = text t; exp = until }) m.kv, eq_refl key),
          λ later le. rw (
            L.set_at-peek now later (k p key) t (k p key) until only_new r done,
            eq_refl (k p key),
          ),
        ))

  set_at_done :
      (now : ℕ) (key t : String) (until : ℕ) (r : R.State)
      → (R.set_at now (k p key) t until false r).0 ≡ true
  set_at_done now key t until r = elim (Bool-cases (is_some (L.peek now (k p key) r))) [
    | inl e ↦ rw (L.set_at-answer now (k p key) t until false r, e)
    | inr e ↦ rw (L.set_at-answer now (k p key) t until false r, e)
  ]

  pub put-Agrees :
      (now : ℕ) (key t : String) (until : ℕ) (r : R.State) (m : MemoryStore)
      → Agrees now r m
      → Agrees now (R.set_at now (k p key) t until false r).1 (put key (text t) until m)
  put-Agrees now key t until r m h =
      set_at-Agrees now key t until false r m h (set_at_done now key t until r)

  -- SET NX is the claim of a free key.
  pub put_if_free-Agrees :
      (now : ℕ) (key t : String) (until : ℕ) (r : R.State) (m : MemoryStore)
      → Agrees now r m
      → ((R.set_at now (k p key) t until true r).0 ≡ (put_if_free now key (text t) until m).0)
        × Agrees now
            (R.set_at now (k p key) t until true r).1
            (put_if_free now key (text t) until m).1
  unfolding put_if_free
  put_if_free-Agrees now key t until r m h =
      let (found, agrees, held) = get-Agrees now key r m h in
      let answer = L.set_at-answer now (k p key) t until true r in
      elim (Bool-cases (is_some (get now key m).0)) [
        | inl e ↦
            let refused : (R.set_at now (k p key) t until true r).0 ≡ false =
              rw (answer, held, e) in
            (rw (e, refused), rw (e, L.set_at-refused now (k p key) t until true r refused) agrees)
        | inr e ↦
            let done : (R.set_at now (k p key) t until true r).0 ≡ true = rw (answer, held, e) in
            (
              rw (e, done),
              rw e (set_at-Agrees now key t until true r (get now key m).1 agrees done),
            )
      ]

  pub delete-Agrees :
      (now : ℕ) (key : String) (r : R.State) (m : MemoryStore)
      → Agrees now r m
      → Agrees now (R.del now (k p key) r) (record m { kv = delete key m.kv })
  unfolding AgreesAt
  delete-Agrees now key r m h =
      agree_else now key r (R.del now (k p key) r) m (record m { kv = delete key m.kv }) h
        (λ j e. rw (lookup-delete key j m.kv, e))
        (λ j later e. rw (L.del-peek now later (k p key) (k p j) r, k_eq key j, e))
        (inl (
          rw (lookup-delete key key m.kv, eq_refl key),
          λ later le. rw (L.del-peek now later (k p key) (k p key) r, eq_refl (k p key)),
        ))
