-- ===== src/Tests/Queries.antt =====
-- The checks of internal/mdns/security.go and the sessions of internal/auth/manager.go.
use piccolod.Common.{
  ℕ, String, ◌≡◌, ◌≢◌, ◌↔◌, ◌⊎◌, ◌+◌, ◌*◌, refl, inl, inr, none, some, List, [], ◌∷◌, true, false,
  All, arith, Eq-string, eq_iff, false≢true,
}
use piccolod.Common.Map.{lookup}
use piccolod.Mdns.Limiter.{
  SecurityConfig, SecurityMetrics, Limiter, default_config, validate_packet, is_rate_limited,
  second,
}
use piccolod.Mdns.Limiter.Blocking.{IsBlocked, Act, packet, cleanup, act_all, blocked-refused}
use piccolod.Mdns.Limiter.Steady.{AllAccepted, ask_each, steady-limited}
use piccolod.Mdns.Message.{
  Message, validate_dns_message, IsMessage, validate_dns_message_iff, handle_message,
  conflict_detection, answers_only-undetected,
}
use piccolod.Auth.Sessions.{Session, SessionStore, create, get, Request, next, csrf_middleware}
use piccolod.Auth.Sessions.Lifetime
use piccolod.Auth.Sessions.Lifetime.{
  creating, getting, rotating, Spares, create-lives, create-expires,
}
use piccolod.Auth.Sessions.Access.{IsSafe, Carries, csrf_middleware_iff}

abbrev noisy : String
noisy = "10.0.0.7"

abbrev no_metrics : SecurityMetrics
no_metrics = record {
  total_queries = 0;
  blocked_queries = 0;
  malformed_packets = 0;
  rate_limit_hits = 0;
  large_packets = 0;
}

-- One client, which is blocked until the time 1000.
abbrev blocking : Limiter
blocking = record {
  clients =
      (
        noisy,
        record {
          ip = noisy;
          query_count = 11;
          last_query = 5;
          blocked = true;
          blocked_until = 1000;
        },
      )
      ∷ [];
  metrics = no_metrics;
}

blocking-IsBlocked : IsBlocked noisy 1000 blocking
unfolding lookup
blocking-IsBlocked = (_, refl, refl, refl)

abbrev acts : List Act
acts = packet 40 "10.0.0.8" 2000 ∷ cleanup 3000 ∷ packet 40 noisy 900 ∷ []

blocked-refused_example :
    (validate_packet default_config 40 noisy 999 (act_all default_config acts blocking)).0 ≢ none
blocked-refused_example =
    blocked-refused default_config noisy 1000 acts blocking blocking-IsBlocked
      (inl (λ p. false≢true ((eq_iff "10.0.0.8" noisy).1 p)), (tt, (inr (omega arith), tt))) 40 999
      (omega arith)

-- Two queries to a minute.
abbrev strict : SecurityConfig
strict = record {
  max_queries_per_second = 10;
  max_queries_per_minute = 2;
  max_packet_size = 1500;
  client_block_duration = 300;
}

abbrev steady : List ℕ
steady = 50 * second ∷ 100 * second ∷ []

steady-limited_example :
    AllAccepted (ask_each strict "10.0.0.9" (0 ∷ steady) blocking).0
    × ((is_rate_limited strict "10.0.0.9"
          (150 * second)
          (ask_each strict "10.0.0.9" (0 ∷ steady) blocking).1).0
        ≡ true)
unfolding lookup
steady-limited_example =
    steady-limited strict "10.0.0.9" 0 steady (150 * second) blocking refl
      (omega arith, omega arith, (omega arith, omega arith, (omega arith, omega arith, tt))) refl
      (omega arith)

-- A query, and the announcement of a name by another host.
abbrev query : Message
query = record {
  questions = record { name = "piccolo.local."; qtype = 1; qclass = 1 } ∷ [];
  answers = [];
  extra = 0;
  response = false;
  opcode = 0;
}

abbrev announcement : Message
announcement = record {
  questions = [];
  answers = "piccolo.local." ∷ [];
  extra = 0;
  response = true;
  opcode = 0;
}

validate_dns_message_iff_example : (validate_dns_message query ≡ none) ↔ IsMessage query
validate_dns_message_iff_example = validate_dns_message_iff query

answers_only-undetected_example : handle_message (some announcement) ≢ conflict_detection
answers_only-undetected_example = answers_only-undetected announcement refl (λ p. cc)

abbrev hour : ℕ
hour = 3600

abbrev looks : List Lifetime.Act
looks = getting "s1" 200 ∷ creating "s2" "t2" "admin" hour 250 ∷ rotating "s1" "t3" ∷ []

looks-Spares : All (Spares "s1" (100 + hour)) looks
looks-Spares = (inr (omega arith), ((λ p. false≢true ((eq_iff "s2" "s1").1 p)), (tt, tt)))

create-lives_example :
    let s' = Lifetime.act_all looks (create "s1" "t1" "admin" hour 100 []).1 in
    (session : Session) × (get "s1" 3700 s' ≡ (some session, s')) × (session.user ≡ "admin")
create-lives_example =
    create-lives "s1" "t1" "admin" hour 100 3700 [] looks looks-Spares (omega arith)

abbrev posting : Request
posting = record { method = "POST"; cookie = "s1"; token = "t1" }

abbrev store : SessionStore
store = ("s1", record { id = "s1"; user = "admin"; csrf = "t1"; expires_at = 3700 }) ∷ []

csrf_middleware_iff_example :
    ((csrf_middleware posting 200 store).0 ≡ next) ↔ (IsSafe "POST" ⊎ Carries posting 200 store)
csrf_middleware_iff_example = csrf_middleware_iff posting 200 store
