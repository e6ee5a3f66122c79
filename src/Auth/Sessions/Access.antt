-- ===== src/Auth/Sessions/Access.antt =====
-- Which requests the middlewares of internal/server/gin_middleware.go let through.
use piccolod.Common.Map.{lookup}
use piccolod.Common.{
  ℕ, ◌≤◌, ◌≡◌, ◌≢◌, ◌↔◌, ◌⊎◌, inl, inr, refl, sym, ap, ◌∙◌, String, true, false, Option, none, some,
  Eq-string, eq_iff, ltb, if◌then◌else◌, arith, false≢true, Bool-cases, Option-cases, Eq-cases,
}
use piccolod.Auth.Sessions.{
  Session, SessionStore, live_session, get, Request, next, unauthorized, get_session, require_at,
  require_session, session_verdict, csrf_at, token_verdict, is_safe, csrf_middleware,
}

-- The request names a session that has not expired.
pub record InSession (r : Request) (now : ℕ) (s : SessionStore) (session : Session) : Type 0 where
  pub named : r.cookie ≢ ""
  pub found : lookup r.cookie s ≡ some session
  pub lives : now ≤ session.expires_at

in_session :
    (r : Request) (now : ℕ) (s : SessionStore) (session : Session)
    → r.cookie ≢ ""
    → (get r.cookie now s).0 ≡ some session
    → InSession r now s session
unfolding get live_session
in_session r now s session named h = elim (Option-cases (lookup r.cookie s)) [
  | inl e ↦ absurd (ground (arith, e, h))
  | inr (other, e) ↦ elim (Bool-cases (ltb other.expires_at now)) [
    | inl late ↦ absurd (ground (arith, e, late, h))
    | inr early ↦ record {
      named = named;
      found = ground (arith, e, early, h);
      lives = ground (arith, e, early, h);
    }
  ]
]

get-InSession :
    (r : Request) (now : ℕ) (s : SessionStore) (session : Session)
    → InSession r now s session
    → get r.cookie now s ≡ (some session, s)
unfolding get live_session
get-InSession r now s session i = ground (arith, i.found, i.lives)

cookie_cases :
    (r : Request)
    → ((r.cookie ≡ "") × (get_session r ≡ none))
      ⊎ ((r.cookie ≢ "") × (get_session r ≡ some r.cookie))
unfolding get_session
cookie_cases r = elim (Eq-cases r.cookie "") [
  | inl (p, q) ↦ inl (p, rw (q, if◌then◌else◌))
  | inr (p, q) ↦ inr (p, rw (q, if◌then◌else◌))
]

session_verdict-next :
    (found : Option Session × SessionStore)
    → (session_verdict found).0 ≡ next
    → (session : Session) × (found.0 ≡ some session)
unfolding session_verdict
session_verdict-next (none, s) h = absurd (ground (arith, h))
session_verdict-next (some session, s) h = (session, refl)

require_session-none :
    (r : Request) (now : ℕ) (s : SessionStore)
    → get_session r ≡ none
    → require_session r now s ≡ (unauthorized, s)
unfolding require_session require_at
require_session-none r now s q = rw q

require_session-some :
    (r : Request) (now : ℕ) (s : SessionStore)
    → get_session r ≡ some r.cookie
    → require_session r now s ≡ session_verdict (get r.cookie now s)
unfolding require_session require_at
require_session-some r now s q = rw q

-- A request passes requireSession just when its cookie names a session that has not expired.
pub require_session_iff :
    (r : Request) (now : ℕ) (s : SessionStore)
    → ((require_session r now s).0 ≡ next) ↔ ((session : Session) × InSession r now s session)
unfolding session_verdict
require_session_iff r now s = elim (cookie_cases r) [
  | inl (p, q) ↦ (
    λ h. absurd (ground (arith, h, require_session-none r now s q)),
    λ (session, i). absurd (i.named p),
  )
  | inr (p, q) ↦
      let same = ap (λ v. v.0) (require_session-some r now s q) in
      (
        λ h.
            let (session, e) = session_verdict-next (get r.cookie now s) (sym same ∙ h) in
            (session, in_session r now s session p e),
        λ (session, i). rw (require_session-some r now s q, get-InSession r now s session i),
      )
]

token_verdict-next :
    (token : String) (found : Option Session × SessionStore)
    → (token_verdict token found).0 ≡ next
    → (session : Session) × (found.0 ≡ some session) × (token ≢ "") × (token ≡ session.csrf)
unfolding token_verdict
token_verdict-next token (none, s) h = absurd (ground (arith, h))
token_verdict-next token (some session, s) h = elim (Eq-cases token "") [
  | inl (p, q) ↦ absurd (ground (arith, q, h))
  | inr (p, q) ↦ elim (Eq-cases token session.csrf) [
    | inl (same, e) ↦ (session, refl, p, same)
    | inr (other, e) ↦ absurd (ground (arith, q, e, h))
  ]
]

token_verdict-same :
    (token : String) (session : Session) (s : SessionStore)
    → token ≢ ""
    → token ≡ session.csrf
    → token_verdict token (some session, s) ≡ (next, s)
unfolding token_verdict
token_verdict-same token session s named same = elim (Eq-cases token "") [
  | inl (p, q) ↦ absurd (named p)
  | inr (p, q) ↦ ground (arith, q, eq_iff token session.csrf, same)
]

csrf-safe :
    (r : Request) (now : ℕ) (s : SessionStore)
    → is_safe r.method ≡ true
    → csrf_middleware r now s ≡ (next, s)
unfolding csrf_middleware
csrf-safe r now s e = rw (e, if◌then◌else◌)

csrf-none :
    (r : Request) (now : ℕ) (s : SessionStore)
    → is_safe r.method ≡ false
    → get_session r ≡ none
    → csrf_middleware r now s ≡ (unauthorized, s)
unfolding csrf_middleware csrf_at
csrf-none r now s e q = rw (e, if◌then◌else◌, q)

csrf-some :
    (r : Request) (now : ℕ) (s : SessionStore)
    → is_safe r.method ≡ false
    → get_session r ≡ some r.cookie
    → csrf_middleware r now s ≡ token_verdict r.token (get r.cookie now s)
unfolding csrf_middleware csrf_at
csrf-some r now s e q = rw (e, if◌then◌else◌, q)

-- The methods that change nothing.
abbrev pub IsSafe : String → Type 0
IsSafe method = (method ≡ "GET") ⊎ ((method ≡ "HEAD") ⊎ (method ≡ "OPTIONS"))

is_safe_iff : (method : String) → (is_safe method ≡ true) ↔ IsSafe method
unfolding is_safe
is_safe_iff method = (
  λ h. elim (Eq-cases method "GET") [
    | inl (p, q) ↦ inl p
    | inr (p, q) ↦ inr (elim (Eq-cases method "HEAD") [
      | inl (p', q') ↦ inl p'
      | inr (p', q') ↦ inr ((eq_iff method "OPTIONS").0 (ground (arith, q, q', h)))
    ])
  ],
  λ h. elim h [ inl p ↦ rw p | inr (inl p) ↦ rw p | inr (inr p) ↦ rw p ],
)

-- The request carries the token of the session that it names.
abbrev pub Carries : Request → ℕ → SessionStore → Type 0
Carries r now s =
    (session : Session) × InSession r now s session × (r.token ≢ "") × (r.token ≡ session.csrf)

-- A request passes csrfMiddleware just when its method is GET, HEAD or OPTIONS, or its cookie names
-- a session that has not expired and its header carries the token of that session, which is not
-- the empty text.
pub csrf_middleware_iff :
    (r : Request) (now : ℕ) (s : SessionStore)
    → ((csrf_middleware r now s).0 ≡ next) ↔ (IsSafe r.method ⊎ Carries r now s)
csrf_middleware_iff r now s = elim (Bool-cases (is_safe r.method)) [
  | inl e ↦ (λ h. inl ((is_safe_iff r.method).0 e), λ i. ap (λ v. v.0) (csrf-safe r now s e))
  | inr e ↦
      let unsafe : IsSafe r.method → ⊥ = λ i. false≢true (sym e ∙ (is_safe_iff r.method).1 i) in
      elim (cookie_cases r) [
        | inl (p, q) ↦ (
          λ h. absurd (ground (arith, h, csrf-none r now s e q)),
          λ i. elim i [
            | inl safe ↦ absurd (unsafe safe)
            | inr (session, i', t, u) ↦ absurd (i'.named p)
          ],
        )
        | inr (p, q) ↦
            let same = ap (λ v. v.0) (csrf-some r now s e q) in
            (
              λ h.
                  let (session, f, t, u) =
                    token_verdict-next r.token (get r.cookie now s) (sym same ∙ h) in
                  inr (session, in_session r now s session p f, t, u),
              λ i. elim i [
                | inl safe ↦ absurd (unsafe safe)
                | inr (session, i', t, u) ↦ rw (
                  csrf-some r now s e q,
                  get-InSession r now s session i',
                  token_verdict-same r.token session s t u,
                )
              ],
            )
      ]
]
