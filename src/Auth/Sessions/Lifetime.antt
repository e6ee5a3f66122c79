-- ===== src/Auth/Sessions/Lifetime.antt =====
-- How long a session lives in the SessionStore of internal/auth/manager.go.
use piccolod.Common.Map.{lookup, insert, delete, lookup-insert, lookup-delete}
use piccolod.Common.{
  ℕ, ◌+◌, ◌≤◌, ◌<◌, ◌≡◌, ◌≢◌, ◌⊎◌, inl, inr, refl, sym, ap, ◌∙◌, subst, String, true, Option, none,
  some, List, [], ◌∷◌, Eq-string, ◌==◌, ltb, if◌then◌else◌, arith, Bool-cases, Eq-cases, beq_refl,
  All,
}
use piccolod.Auth.Sessions.{
  Session, SessionStore, create, live_session, get, remove, rotated, rotate_csrf,
}

-- What happens to the sessions. The texts of a creation are the identity, the token and the user,
-- the numbers the time to live and the time.
pub data Act : Type 0 where
  creating : String → String → String → ℕ → ℕ → Act
  getting : String → ℕ → Act
  removing : String → Act
  rotating : String → String → Act

pub act : Act → SessionStore → SessionStore
act (creating id csrf user ttl now) s = (create id csrf user ttl now s).1
act (getting id now) s = (get id now s).1
act (removing id) s = remove id s
act (rotating id csrf) s = (rotate_csrf id csrf s).1

pub act_all : List Act → SessionStore → SessionStore
unfolding act
act_all [] s = s
act_all (a ∷ acts) s = act_all acts (act a s)

-- The act leaves the session alone: it is about another one, or a look or a rotation while it
-- lives.
abbrev pub Spares : String → ℕ → Act → Type 0
Spares id expiry (creating other csrf user ttl now) = other ≢ id
Spares id expiry (getting other now) = (other ≢ id) ⊎ (now ≤ expiry)
Spares id expiry (removing other) = other ≢ id
Spares id expiry (rotating other csrf) = Unit {0}

-- A session of this user that expires at the time.
abbrev pub IsLive : String → String → ℕ → SessionStore → Type 0
IsLive id user expiry s =
    (session : Session) × (lookup id s ≡ some session)
    × (session.user ≡ user)
    × (session.expires_at ≡ expiry)

inserted_other :
    (id other : String) (session : Session) (s : SessionStore)
    → other ≢ id
    → lookup id (insert other session s) ≡ lookup id s
inserted_other id other session s differs = elim (Eq-cases id other) [
  | inl (p, q) ↦ absurd (differs (sym p))
  | inr (p, q) ↦ rw (lookup-insert, q, if◌then◌else◌)
]

deleted_other :
    (id other : String) (s : SessionStore) → other ≢ id → lookup id (delete other s) ≡ lookup id s
deleted_other id other s differs = elim (Eq-cases id other) [
  | inl (p, q) ↦ absurd (differs (sym p))
  | inr (p, q) ↦ rw (lookup-delete, q, if◌then◌else◌)
]

get_other :
    (id other : String) (now : ℕ) (found : Option Session) (s : SessionStore)
    → other ≢ id
    → lookup id (live_session other now found s).1 ≡ lookup id s
unfolding live_session
get_other id other now none s differs = refl
get_other id other now (some session) s differs = elim (Bool-cases (ltb session.expires_at now)) [
  | inl e ↦ rw (e, if◌then◌else◌, deleted_other id other s differs)
  | inr e ↦ rw (e, if◌then◌else◌)
]

get-live :
    (id : String) (now : ℕ) (session : Session) (s : SessionStore)
    → lookup id s ≡ some session
    → now ≤ session.expires_at
    → get id now s ≡ (some session, s)
unfolding get live_session
get-live id now session s e early = rw e (ground (arith, early))

beq-eq : (id other : String) → other ≡ id → (id == other) ≡ true
beq-eq id other p = rw (p, beq_refl id)

get-expired :
    (id : String) (now : ℕ) (session : Session) (s : SessionStore)
    → lookup id s ≡ some session
    → session.expires_at < now
    → ((get id now s).0 ≡ none) × (lookup id (get id now s).1 ≡ none)
unfolding get live_session
get-expired id now session s e late =
    let over : ltb session.expires_at now ≡ true = ground (arith, late) in
    (
      rw (e, over, if◌then◌else◌),
      rw (e, over, if◌then◌else◌, lookup-delete, beq_refl id, if◌then◌else◌),
    )

rotated-IsLive :
    (id other csrf user : String) (expiry : ℕ) (found : Option Session) (s : SessionStore)
    → lookup other s ≡ found
    → IsLive id user expiry s
    → IsLive id user expiry (rotated other csrf found s).1
unfolding rotated
rotated-IsLive id other csrf user expiry none s f live = live
rotated-IsLive id other csrf user expiry (some old) s f (session, e, u, x) =
    elim (Eq-cases other id) [
      | inl (p, q) ↦
          let agree : some old ≡ some session = sym f ∙ ap (λ i. lookup i s) p ∙ e in
          (
            record old { csrf = csrf },
            rw (lookup-insert, beq-eq id other p, if◌then◌else◌),
            ground (arith, agree, u),
            ground (arith, agree, x),
          )
      | inr (p, q) ↦ (session, inserted_other id other _ s p ∙ e, u, x)
    ]

act-IsLive :
    (id user : String) (expiry : ℕ) (a : Act) (s : SessionStore)
    → Spares id expiry a
    → IsLive id user expiry s
    → IsLive id user expiry (act a s)
unfolding act create remove rotate_csrf get
act-IsLive id user expiry (creating other csrf v ttl now) s spared (session, e, u, x) =
    (session, inserted_other id other _ s spared ∙ e, u, x)
act-IsLive id user expiry (getting other now) s (inl differs) (session, e, u, x) =
    (session, get_other id other now (lookup other s) s differs ∙ e, u, x)
act-IsLive id user expiry (getting other now) s (inr early) (session, e, u, x) =
    elim (Eq-cases other id) [
      | inl (p, q) ↦
          subst (λ i. IsLive id user expiry (get i now s).1) (sym p)
            (
              session,
              ap (λ r. lookup id r.1) (get-live id now session s e (omega (arith, early, x))) ∙ e,
              u,
              x,
            )
      | inr (p, q) ↦ (session, get_other id other now (lookup other s) s p ∙ e, u, x)
    ]
act-IsLive id user expiry (removing other) s spared (session, e, u, x) =
    (session, deleted_other id other s spared ∙ e, u, x)
act-IsLive id user expiry (rotating other csrf) s spared live =
    rotated-IsLive id other csrf user expiry (lookup other s) s refl live

act_all-IsLive :
    (id user : String) (expiry : ℕ) (acts : List Act) (s : SessionStore)
    → All (Spares id expiry) acts
    → IsLive id user expiry s
    → IsLive id user expiry (act_all acts s)
unfolding act_all
act_all-IsLive id user expiry [] s spared live = live
act_all-IsLive id user expiry (a ∷ acts) s spared live =
    act_all-IsLive id user expiry acts (act a s) spared.1
      (act-IsLive id user expiry a s spared.0 live)

create-IsLive :
    (id csrf user : String) (ttl now : ℕ) (s : SessionStore)
    → IsLive id user (now + ttl) (create id csrf user ttl now s).1
unfolding create
create-IsLive id csrf user ttl now s = (
  record { id = id; user = user; csrf = csrf; expires_at = now + ttl },
  rw (lookup-insert, beq_refl id, if◌then◌else◌),
  refl,
  refl,
)

-- Until the time to live of a session is over, its user is found under its identity, whatever
-- happens to the other sessions, as long as the session is not removed. It may be looked at and its
-- token changed.
pub create-lives :
    (id csrf user : String) (ttl start now : ℕ) (s : SessionStore) (acts : List Act)
    → All (Spares id (start + ttl)) acts
    → now ≤ start + ttl
    → let s' = act_all acts (create id csrf user ttl start s).1 in
      (session : Session) × (get id now s' ≡ (some session, s')) × (session.user ≡ user)
create-lives id csrf user ttl start now s acts spared early =
    let (session, e, u, x) =
      act_all-IsLive id user (start + ttl) acts (create id csrf user ttl start s).1 spared
        (create-IsLive id csrf user ttl start s) in
    let s' = act_all acts (create id csrf user ttl start s).1 in
    (session, get-live id now session s' e (omega (arith, early, x)), u)

-- When the time to live of a session is over, and it was not removed before and no other session got
-- its identity, it is not found, and looking for it takes it out of the store.
pub create-expires :
    (id csrf user : String) (ttl start now : ℕ) (s : SessionStore) (acts : List Act)
    → All (Spares id (start + ttl)) acts
    → start + ttl < now
    → let s' = act_all acts (create id csrf user ttl start s).1 in
      ((get id now s').0 ≡ none) × (lookup id (get id now s').1 ≡ none)
create-expires id csrf user ttl start now s acts spared late =
    let (session, e, u, x) =
      act_all-IsLive id user (start + ttl) acts (create id csrf user ttl start s).1 spared
        (create-IsLive id csrf user ttl start s) in
    get-expired id now session (act_all acts (create id csrf user ttl start s).1) e
      (omega (arith, late, x))
