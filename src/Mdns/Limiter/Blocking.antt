-- ===== src/Mdns/Limiter/Blocking.antt =====
-- How long a client stays blocked, whatever the other clients and the cleanup do: isRateLimited and
-- performSecurityCleanup of internal/mdns/security.go.
use piccolod.Common.Map.{Map, lookup, insert, lookup-insert}
use piccolod.Common.{
  ℕ, ◌<◌, ◌≡◌, ◌≢◌, ◌⊎◌, inl, inr, sym, ap, ◌∙◌, String, true, ◌&&◌, Option, none, some, List, [],
  ◌∷◌, Eq-string, ◌==◌, Eq-cases, Bool-cases, ltb, if◌then◌else◌, All, arith, subst,
}
use piccolod.Mdns.Limiter.{
  ClientState, SecurityConfig, Limiter, is_rate_limited, client_or_new, known_client, limit,
  is_stale, drop_stale, perform_security_cleanup, over_limit, validate_packet, limited_error,
}

-- The client of this address is blocked until the time.
abbrev pub IsBlocked : String → ℕ → Limiter → Type 0
IsBlocked ip until l =
    (c : ClientState) × (lookup ip l.clients ≡ some c)
    × (c.blocked ≡ true)
    × (c.blocked_until ≡ until)

-- What happens to a limiter: a packet with its size, its sender and its time, or a cleanup.
pub data Act : Type 0 where
  packet : ℕ → String → ℕ → Act
  cleanup : ℕ → Act

pub act : SecurityConfig → Act → Limiter → Limiter
act cfg (packet size ip now) l = (validate_packet cfg size ip now l).1
act cfg (cleanup now) l = perform_security_cleanup now l

pub act_all : SecurityConfig → List Act → Limiter → Limiter
unfolding act
act_all cfg [] l = l
act_all cfg (a ∷ acts) l = act_all cfg acts (act cfg a l)

-- A packet of another client, or one before the time; a cleanup at any time.
abbrev pub IsBefore : String → ℕ → Act → Type 0
IsBefore ip until (packet size other now) = (other ≢ ip) ⊎ (now < until)
IsBefore ip until (cleanup now) = Unit {0}

inserted_other :
    (ip other : String) (c : ClientState) (clients : Map String ClientState)
    → other ≢ ip
    → lookup ip (insert other c clients) ≡ lookup ip clients
inserted_other ip other c clients differs = elim (Eq-cases ip other) [
  | inl (p, q) ↦ absurd (differs (sym p))
  | inr (p, q) ↦ rw (lookup-insert, q, if◌then◌else◌)
]

other_limit :
    (cfg : SecurityConfig) (ip other : String) (last now : ℕ) (c : ClientState) (l : Limiter)
    → other ≢ ip
    → lookup ip (limit cfg other last now c l).1.clients ≡ lookup ip l.clients
unfolding limit
other_limit cfg ip other last now c l differs = elim (Bool-cases (over_limit cfg last now c)) [
  | inl e ↦ rw (e, if◌then◌else◌, inserted_other ip other _ l.clients differs)
  | inr e ↦ rw (e, if◌then◌else◌, inserted_other ip other _ l.clients differs)
]

other_client_at :
    (cfg : SecurityConfig) (ip other : String) (now : ℕ) (found : Option ClientState) (l : Limiter)
    → other ≢ ip
    → lookup ip (client_or_new cfg other now found l).1.clients ≡ lookup ip l.clients
unfolding client_or_new known_client
other_client_at cfg ip other now none l differs = inserted_other ip other _ l.clients differs
other_client_at cfg ip other now (some c) l differs =
    elim (Bool-cases (c.blocked && ltb now c.blocked_until)) [
      | inl e ↦ rw (e, if◌then◌else◌)
      | inr e ↦ rw (e, if◌then◌else◌, other_limit cfg ip other _ now _ l differs)
    ]

other_client :
    (cfg : SecurityConfig) (ip other : String) (now : ℕ) (l : Limiter)
    → other ≢ ip
    → lookup ip (is_rate_limited cfg other now l).1.clients ≡ lookup ip l.clients
unfolding is_rate_limited
other_client cfg ip other now l differs =
    other_client_at cfg ip other now (lookup other l.clients) l differs

still_blocked :
    (cfg : SecurityConfig) (ip : String) (now until : ℕ) (l : Limiter)
    → IsBlocked ip until l
    → now < until
    → ((is_rate_limited cfg ip now l).0 ≡ true)
      × ((is_rate_limited cfg ip now l).1.clients ≡ l.clients)
unfolding is_rate_limited client_or_new known_client
still_blocked cfg ip now until l (c, e, b, u) before =
    let later : (c.blocked && ltb now c.blocked_until) ≡ true = ground (arith, b, u, before) in
    (rw (e, later, if◌then◌else◌), rw (e, later, if◌then◌else◌))

lookup-drop_stale :
    (ip : String) (now : ℕ) (clients : Map String ClientState) (c : ClientState)
    → lookup ip clients ≡ some c
    → c.blocked ≡ true
    → lookup ip (drop_stale now clients) ≡ some c
unfolding drop_stale is_stale lookup
lookup-drop_stale ip now [] c h b = ground (arith, h)
lookup-drop_stale ip now ((other, d) ∷ clients) c h b = elim (Bool-cases (ip == other)) [
  | inl q ↦ ground (arith, q, h, b)
  | inr q ↦
      ground (arith, q, h, b, lookup-drop_stale ip now clients c (rw (q, if◌then◌else◌) at h) b)
]

validate_packet-clients :
    (cfg : SecurityConfig) (size : ℕ) (ip : String) (now : ℕ) (l : Limiter)
    → ((validate_packet cfg size ip now l).1.clients ≡ l.clients)
      ⊎ ((validate_packet cfg size ip now l).1.clients ≡ (is_rate_limited cfg ip now l).1.clients)
unfolding validate_packet
validate_packet-clients cfg size ip now l = elim (Bool-cases (ltb cfg.max_packet_size size)) [
  | inl large ↦ inl (rw (large, if◌then◌else◌))
  | inr small ↦ elim (Bool-cases (ltb size 12)) [
    | inl short ↦ inl (rw (small, short, if◌then◌else◌))
    | inr long ↦ inr (rw (small, long, if◌then◌else◌))
  ]
]

IsBlocked-same :
    (ip : String) (until : ℕ) (l l' : Limiter)
    → l'.clients ≡ l.clients
    → IsBlocked ip until l
    → IsBlocked ip until l'
IsBlocked-same ip until l l' same (c, e, b, u) = (c, ap (lookup ip) same ∙ e, b, u)

query-IsBlocked :
    (cfg : SecurityConfig) (ip other : String) (now until : ℕ) (l : Limiter)
    → (other ≢ ip) ⊎ (now < until)
    → IsBlocked ip until l
    → IsBlocked ip until (is_rate_limited cfg other now l).1
query-IsBlocked cfg ip other now until l (inl differs) (c, e, b, u) =
    (c, other_client cfg ip other now l differs ∙ e, b, u)
query-IsBlocked cfg ip other now until l (inr before) (c, e, b, u) = elim (Eq-cases other ip) [
  | inl (p, q) ↦
      subst (λ o. IsBlocked ip until (is_rate_limited cfg o now l).1) (sym p)
        (c, ap (lookup ip) (still_blocked cfg ip now until l (c, e, b, u) before).1 ∙ e, b, u)
  | inr (p, q) ↦ (c, other_client cfg ip other now l p ∙ e, b, u)
]

act-IsBlocked :
    (cfg : SecurityConfig) (ip : String) (until : ℕ) (a : Act) (l : Limiter)
    → IsBefore ip until a
    → IsBlocked ip until l
    → IsBlocked ip until (act cfg a l)
unfolding act perform_security_cleanup
act-IsBlocked cfg ip until (packet size other now) l before blocked =
    elim (validate_packet-clients cfg size other now l) [
      | inl same ↦ IsBlocked-same ip until l (validate_packet cfg size other now l).1 same blocked
      | inr same ↦
          IsBlocked-same ip until (is_rate_limited cfg other now l).1
            (validate_packet cfg size other now l).1 same
            (query-IsBlocked cfg ip other now until l before blocked)
    ]
act-IsBlocked cfg ip until (cleanup now) l before (c, e, b, u) =
    (c, lookup-drop_stale ip now l.clients c e b, b, u)

act_all-IsBlocked :
    (cfg : SecurityConfig) (ip : String) (until : ℕ) (acts : List Act) (l : Limiter)
    → All (IsBefore ip until) acts
    → IsBlocked ip until l
    → IsBlocked ip until (act_all cfg acts l)
unfolding act_all
act_all-IsBlocked cfg ip until [] l before blocked = blocked
act_all-IsBlocked cfg ip until (a ∷ acts) l before blocked =
    act_all-IsBlocked cfg ip until acts (act cfg a l) before.1
      (act-IsBlocked cfg ip until a l before.0 blocked)

refused_if_limited :
    (cfg : SecurityConfig) (size : ℕ) (ip : String) (now : ℕ) (l : Limiter)
    → (is_rate_limited cfg ip now l).0 ≡ true
    → (validate_packet cfg size ip now l).0 ≢ none
unfolding validate_packet limited_error
refused_if_limited cfg size ip now l limited = ground (arith, limited)

-- A client that is blocked until a time has every packet refused that comes before the time, after
-- any packets of other clients, any of its own that came before the time, and any cleanups.
pub blocked-refused :
    (cfg : SecurityConfig) (ip : String) (until : ℕ) (acts : List Act) (l : Limiter)
    → IsBlocked ip until l
    → All (IsBefore ip until) acts
    → (size now : ℕ) → now < until
    → (validate_packet cfg size ip now (act_all cfg acts l)).0 ≢ none
blocked-refused cfg ip until acts l blocked before size now early =
    let l' = act_all cfg acts l in
    refused_if_limited cfg size ip now l'
      (still_blocked cfg ip now until l' (act_all-IsBlocked cfg ip until acts l before blocked)
        early).0

pub cleanups : List ℕ → List Act
cleanups [] = []
cleanups (now ∷ times) = cleanup now ∷ cleanups times

-- A client that is blocked is in the table after any number of cleanups at any times, however long
-- the block has been over.
pub IsBlocked-cleanups :
    (cfg : SecurityConfig) (ip : String) (until : ℕ) (times : List ℕ) (l : Limiter)
    → IsBlocked ip until l
    → IsBlocked ip until (act_all cfg (cleanups times) l)
unfolding act_all cleanups
IsBlocked-cleanups cfg ip until [] l blocked = blocked
IsBlocked-cleanups cfg ip until (now ∷ times) l blocked =
    IsBlocked-cleanups cfg ip until times (act cfg (cleanup now) l)
      (act-IsBlocked cfg ip until (cleanup now) l tt blocked)
