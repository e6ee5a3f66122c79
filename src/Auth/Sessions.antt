-- ===== src/Auth/Sessions.antt =====
-- internal/auth/manager.go, SessionStore, and internal/server/gin_middleware.go, requireSession and
-- csrfMiddleware. A time is a number of seconds; the random texts are arguments.
pub mod Access
pub mod Lifetime
use piccolod.Common.Map.{Map, lookup, insert, delete}
use piccolod.Common.{
  ℕ, ◌+◌, String, Bool, true, false, ◌&&◌, ◌||◌, not, Option, none, some, List, [], ◌∷◌, Eq-string,
  ◌==◌, ltb, if◌then◌else◌,
}

pub record Session : Type 0 where
  pub id : String
  pub user : String
  pub csrf : String
  pub expires_at : ℕ

abbrev pub SessionStore : Type 0
SessionStore = Map String Session

pub new_session_store : SessionStore
new_session_store = []

pub create : String → String → String → ℕ → ℕ → SessionStore → Session × SessionStore
create id csrf user ttl now s =
    let session : Session = record { id = id; user = user; csrf = csrf; expires_at = now + ttl } in
    (session, insert id session s)

live_session : String → ℕ → Option Session → SessionStore → Option Session × SessionStore
live_session id now none s = (none, s)
live_session id now (some session) s =
    if ltb session.expires_at now then (none, delete id s) else (some session, s)

-- An expired session is deleted when it is asked for.
pub get : String → ℕ → SessionStore → Option Session × SessionStore
unfolding live_session
get id now s = live_session id now (lookup id s) s

pub remove : String → SessionStore → SessionStore
remove id s = delete id s

rotated : String → String → Option Session → SessionStore → Option String × SessionStore
rotated id csrf none s = (none, s)
rotated id csrf (some session) s = (some csrf, insert id (record session { csrf = csrf }) s)

pub rotate_csrf : String → String → SessionStore → Option String × SessionStore
unfolding rotated
rotate_csrf id csrf s = rotated id csrf (lookup id s) s

-- What a middleware does with a request.
pub data Verdict : Type 0 where
  next : Verdict
  unauthorized : Verdict
  forbidden : Verdict

-- A request by its method, the value of its session cookie, which is empty where there is none,
-- and the value of its header X-CSRF-Token.
pub record Request : Type 0 where
  pub method : String
  pub cookie : String
  pub token : String

get_session : Request → Option String
get_session r = if r.cookie == "" then none else some r.cookie

session_verdict : Option Session × SessionStore → Verdict × SessionStore
session_verdict (none, s) = (unauthorized, s)
session_verdict (some session, s) = (next, s)

require_at : Option String → ℕ → SessionStore → Verdict × SessionStore
unfolding session_verdict
require_at none now s = (unauthorized, s)
require_at (some id) now s = session_verdict (get id now s)

pub require_session : Request → ℕ → SessionStore → Verdict × SessionStore
unfolding require_at get_session
require_session r now s = require_at (get_session r) now s

token_verdict : String → Option Session × SessionStore → Verdict × SessionStore
token_verdict token (none, s) = (unauthorized, s)
token_verdict token (some session, s) =
    if token == "" || not (token == session.csrf) then (forbidden, s) else (next, s)

csrf_at : Option String → String → ℕ → SessionStore → Verdict × SessionStore
unfolding token_verdict
csrf_at none token now s = (unauthorized, s)
csrf_at (some id) token now s = token_verdict token (get id now s)

is_safe : String → Bool
is_safe method = method == "GET" || method == "HEAD" || method == "OPTIONS"

pub csrf_middleware : Request → ℕ → SessionStore → Verdict × SessionStore
unfolding csrf_at is_safe get_session
csrf_middleware r now s =
    if is_safe r.method then (next, s) else csrf_at (get_session r) r.token now s
