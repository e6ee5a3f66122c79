-- ===== src/Mdns/Limiter/Steady.antt =====
-- A client that never asks twice within a second and never pauses for more than a minute:
-- isRateLimited of internal/mdns/security.go.
use piccolod.Common.Map.{lookup, lookup-insert}
use piccolod.Common.{
  ℕ, ◌+◌, ◌≤◌, ◌<◌, ◌≡◌, refl, String, Bool, true, false, none, some, List, [], ◌∷◌, length, ◌++◌,
  ap, ◌∙◌, Eq-string, beq_refl, ltb, if◌then◌else◌, All, arith,
}
use piccolod.Mdns.Limiter.{
  ClientState, SecurityConfig, Limiter, second, minute, is_rate_limited, client_or_new, new_client,
  known_client, limit, over_limit, unblock, count_query,
}

-- The client has this count and asked at this time last.
abbrev pub HasAsked : String → ℕ → ℕ → Limiter → Type 0
HasAsked ip n last l =
    (c : ClientState) × (lookup ip l.clients ≡ some c)
    × (c.blocked ≡ false)
    × (c.query_count ≡ n)
    × (c.last_query ≡ last)

-- Times that are between a second and a minute apart.
abbrev pub AreSpaced : ℕ → List ℕ → Type 0
AreSpaced last [] = Unit {0}
AreSpaced last (now ∷ times) = (last + second ≤ now) × (now ≤ last + minute) × AreSpaced now times

-- The queries of one client, and the answer to each.
pub ask_each : SecurityConfig → String → List ℕ → Limiter → List Bool × Limiter
ask_each cfg ip [] l = ([], l)
ask_each cfg ip (now ∷ times) l =
    let r = is_rate_limited cfg ip now l in
    let rest = ask_each cfg ip times r.1 in (r.0 ∷ rest.0, rest.1)

counted : ℕ → ClientState → ClientState
unfolding count_query unblock
counted now c = count_query now (unblock now c)

counted-spaced :
    (now : ℕ) (c : ClientState)
    → c.blocked ≡ false
    → now ≤ c.last_query + minute
    → c.query_count < 18446744073709551615
    → (counted now c).query_count ≡ c.query_count + 1
unfolding counted count_query unblock
counted-spaced now c b near small = ground (arith, b, near, small)

counted-unblocked :
    (now : ℕ) (c : ClientState) → c.blocked ≡ false → (counted now c).blocked ≡ false
unfolding counted count_query unblock
counted-unblocked now c b = ground (arith, b)

known_client-open :
    (cfg : SecurityConfig) (ip : String) (now : ℕ) (c : ClientState) (l : Limiter)
    → c.blocked ≡ false
    → known_client cfg ip now c l ≡ limit cfg ip c.last_query now (counted now c) l
unfolding known_client counted
known_client-open cfg ip now c l b = rw (b, if◌then◌else◌)

over_limit-far :
    (cfg : SecurityConfig) (last now : ℕ) (c : ClientState)
    → last + second ≤ now
    → over_limit cfg last now c ≡ ltb cfg.max_queries_per_minute c.query_count
unfolding over_limit
over_limit-far cfg last now c far = ground (arith, far)

limit-over :
    (cfg : SecurityConfig) (ip : String) (last now : ℕ) (c : ClientState) (l : Limiter)
    → over_limit cfg last now c ≡ true
    → (limit cfg ip last now c l).0 ≡ true
unfolding limit
limit-over cfg ip last now c l e = rw (e, if◌then◌else◌)

limit-under :
    (cfg : SecurityConfig) (ip : String) (last now : ℕ) (c : ClientState) (l : Limiter)
    → over_limit cfg last now c ≡ false
    → ((limit cfg ip last now c l).0 ≡ false)
      × (lookup ip (limit cfg ip last now c l).1.clients ≡ some c)
unfolding limit
limit-under cfg ip last now c l e =
    (rw (e, if◌then◌else◌), rw (e, if◌then◌else◌, lookup-insert, beq_refl ip, if◌then◌else◌))

is_rate_limited-open :
    (cfg : SecurityConfig) (ip : String) (now : ℕ) (c : ClientState) (l : Limiter)
    → lookup ip l.clients ≡ some c
    → c.blocked ≡ false
    → is_rate_limited cfg ip now l ≡ limit cfg ip c.last_query now (counted now c) l
unfolding is_rate_limited client_or_new
is_rate_limited-open cfg ip now c l e b = rw (e, known_client-open cfg ip now c l b)

over_limit-spaced :
    (cfg : SecurityConfig) (now : ℕ) (c : ClientState)
    → c.blocked ≡ false
    → c.last_query + second ≤ now
    → now ≤ c.last_query + minute
    → c.query_count < 18446744073709551615
    → over_limit cfg c.last_query now (counted now c)
      ≡ ltb cfg.max_queries_per_minute (c.query_count + 1)
over_limit-spaced cfg now c b far near small =
    rw (over_limit-far cfg c.last_query now (counted now c) far, counted-spaced now c b near small)

counted-last : (now : ℕ) (c : ClientState) → (counted now c).last_query ≡ now
unfolding counted count_query
counted-last now c = refl

asks-more :
    (cfg : SecurityConfig) (ip : String) (n last now : ℕ) (l : Limiter)
    → HasAsked ip n last l
    → last + second ≤ now
    → now ≤ last + minute
    → n < cfg.max_queries_per_minute
    → cfg.max_queries_per_minute < 18446744073709551615
    → ((is_rate_limited cfg ip now l).0 ≡ false)
      × HasAsked ip (n + 1) now (is_rate_limited cfg ip now l).1
asks-more cfg ip n last now l (c, e, b, k, t) far near few small =
    let under : over_limit cfg c.last_query now (counted now c) ≡ false =
      rw
        (over_limit-spaced cfg now c b (omega (arith, t, far)) (omega (arith, t, near))
          (omega (arith, k, few, small)))
        (ground (arith, k, few)) in
    let (answer, found) = limit-under cfg ip c.last_query now (counted now c) l under in
    let open_eq = is_rate_limited-open cfg ip now c l e b in
    (
      ap (λ r. r.0) open_eq ∙ answer,
      (
        counted now c,
        ap (λ r. lookup ip r.1.clients) open_eq ∙ found,
        counted-unblocked now c b,
        counted-spaced now c b (omega (arith, t, near)) (omega (arith, k, few, small))
            ∙ ap (λ i. i + 1) k,
        counted-last now c,
      ),
    )

asks-too_much :
    (cfg : SecurityConfig) (ip : String) (n last now : ℕ) (l : Limiter)
    → HasAsked ip n last l
    → last + second ≤ now
    → now ≤ last + minute
    → n ≡ cfg.max_queries_per_minute
    → n < 18446744073709551615
    → (is_rate_limited cfg ip now l).0 ≡ true
asks-too_much cfg ip n last now l (c, e, b, k, t) far near many small =
    let over : over_limit cfg c.last_query now (counted now c) ≡ true =
      rw
        (over_limit-spaced cfg now c b (omega (arith, t, far)) (omega (arith, t, near))
          (omega (arith, k, small)))
        (ground (arith, k, many)) in
    ap (λ r. r.0) (is_rate_limited-open cfg ip now c l e b)
    ∙ limit-over cfg ip c.last_query now (counted now c) l over

-- All of them are accepted.
abbrev pub AllAccepted : List Bool → Type 0
AllAccepted = All (λ limited. limited ≡ false)

-- The answers to a client that has asked `n` times: as long as the limit of a minute is not
-- reached they accept, and they refuse the query after that.
spaced-limited :
    (cfg : SecurityConfig) (ip : String) (n last : ℕ) (times : List ℕ) (now : ℕ) (l : Limiter)
    → HasAsked ip n last l
    → AreSpaced last (times ++ now ∷ [])
    → n + length times ≡ cfg.max_queries_per_minute
    → cfg.max_queries_per_minute < 18446744073709551615
    → AllAccepted (ask_each cfg ip times l).0
      × ((is_rate_limited cfg ip now (ask_each cfg ip times l).1).0 ≡ true)
unfolding ask_each
spaced-limited cfg ip n last [] now l asked (far, near, s) full small = (
  tt,
  asks-too_much cfg ip n last now l asked far near (omega (arith, full))
      (omega (arith, full, small)),
)
spaced-limited cfg ip n last (t ∷ times) now l asked (far, near, s) full small =
    let (answer, asked') = asks-more cfg ip n last t l asked far near (omega (arith, full)) small in
    let (accepted, refused) =
      spaced-limited cfg ip (n + 1) t times now (is_rate_limited cfg ip t l).1 asked' s
        (omega (arith, full)) small in
    ((answer, accepted), refused)

new_client-HasAsked :
    (cfg : SecurityConfig) (ip : String) (now : ℕ) (l : Limiter)
    → lookup ip l.clients ≡ none
    → ((is_rate_limited cfg ip now l).0 ≡ false)
      × HasAsked ip 0 now (is_rate_limited cfg ip now l).1
unfolding is_rate_limited client_or_new new_client
new_client-HasAsked cfg ip now l e =
    (rw e, (new_client ip now, rw (e, lookup-insert, beq_refl ip, if◌then◌else◌), refl, refl, refl))

-- A new client whose queries are between a second and a minute apart is served for the first query
-- and as many more as the limit per minute allows, and is refused the next one, over however many
-- minutes the queries are spread.
pub steady-limited :
    (cfg : SecurityConfig) (ip : String) (first : ℕ) (times : List ℕ) (now : ℕ) (l : Limiter)
    → lookup ip l.clients ≡ none
    → AreSpaced first (times ++ now ∷ [])
    → length times ≡ cfg.max_queries_per_minute
    → cfg.max_queries_per_minute < 18446744073709551615
    → AllAccepted (ask_each cfg ip (first ∷ times) l).0
      × ((is_rate_limited cfg ip now (ask_each cfg ip (first ∷ times) l).1).0 ≡ true)
unfolding ask_each
steady-limited cfg ip first times now l e spaced full small =
    let (answer, asked) = new_client-HasAsked cfg ip first l e in
    let (accepted, refused) =
      spaced-limited cfg ip 0 first times now (is_rate_limited cfg ip first l).1 asked spaced
        (omega (arith, full)) small in
    ((answer, accepted), refused)
