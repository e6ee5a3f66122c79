-- ===== src/Mdns/Limiter.antt =====
-- internal/mdns/security.go: the rate limiter, the checks of a packet, and the cleanup. A time is a
-- number of nanoseconds, an address its text, and each operation takes the time of its call. The
-- counters are 64-bit unsigned integers and wrap around. The logged lines are not modelled.
pub mod Blocking
pub mod Counting
pub mod Steady
use piccolod.Common.Map.{Map, lookup, insert}
use piccolod.Common.{
  ℕ, ◌+◌, ◌*◌, ◌%◌, String, Bool, true, false, ◌&&◌, Option, none, some, List, [], ◌∷◌, Eq-string,
  ltb, if◌then◌else◌, not,
}

pub record ClientState : Type 0 where
  pub ip : String
  pub query_count : ℕ
  pub last_query : ℕ
  pub blocked : Bool
  pub blocked_until : ℕ

pub record SecurityConfig : Type 0 where
  pub max_queries_per_second : ℕ
  pub max_queries_per_minute : ℕ
  pub max_packet_size : ℕ
  pub client_block_duration : ℕ

pub record SecurityMetrics : Type 0 where
  pub total_queries : ℕ
  pub blocked_queries : ℕ
  pub malformed_packets : ℕ
  pub rate_limit_hits : ℕ
  pub large_packets : ℕ

pub record Limiter : Type 0 where
  pub clients : Map String ClientState
  pub metrics : SecurityMetrics

-- The configuration that NewManager writes out.
abbrev pub second : ℕ
second = 1000000000

abbrev pub minute : ℕ
minute = 60000000000

pub default_config : SecurityConfig
default_config = record {
  max_queries_per_second = 10;
  max_queries_per_minute = 100;
  max_packet_size = 1500;
  client_block_duration = 300000000000;
}

pub new_limiter : Limiter
new_limiter = record {
  clients = [];
  metrics = record {
    total_queries = 0;
    blocked_queries = 0;
    malformed_packets = 0;
    rate_limit_hits = 0;
    large_packets = 0;
  };
}

-- Adding one to a counter of 64 bits.
abbrev pub increment : ℕ → ℕ
increment n = (n + 1) % 18446744073709551616

count_total : SecurityMetrics → SecurityMetrics
count_total m = record m { total_queries = increment m.total_queries }

count_blocked : SecurityMetrics → SecurityMetrics
count_blocked m = record m { blocked_queries = increment m.blocked_queries }

count_hit : SecurityMetrics → SecurityMetrics
count_hit m = record m { rate_limit_hits = increment m.rate_limit_hits }

block_client : SecurityConfig → ℕ → ClientState → ClientState
block_client cfg now c = record c {
  blocked = true;
  blocked_until = now + cfg.client_block_duration;
}

-- A block that has expired.
unblock : ℕ → ClientState → ClientState
unblock now c =
    if c.blocked && ltb c.blocked_until now
    then record c { blocked = false; query_count = 0 }
    else c

-- More than a minute after the last query, the count starts anew; the query is then counted.
count_query : ℕ → ClientState → ClientState
count_query now c = record c {
  query_count = increment (if ltb (c.last_query + minute) now then 0 else c.query_count);
  last_query = now;
}

-- The two limits, `last` being the time of the query before.
over_limit : SecurityConfig → ℕ → ℕ → ClientState → Bool
over_limit cfg last now c =
    if ltb now (last + second) && ltb cfg.max_queries_per_second c.query_count
    then true
    else ltb cfg.max_queries_per_minute c.query_count

limit : SecurityConfig → String → ℕ → ℕ → ClientState → Limiter → Bool × Limiter
unfolding over_limit block_client count_total count_hit
limit cfg ip last now c l =
    if over_limit cfg last now c
    then (
      true,
      record {
        clients = insert ip (block_client cfg now c) l.clients;
        metrics = count_hit (count_total l.metrics);
      },
    )
    else (false, record { clients = insert ip c l.clients; metrics = count_total l.metrics })

known_client : SecurityConfig → String → ℕ → ClientState → Limiter → Bool × Limiter
unfolding count_total count_blocked limit unblock count_query
known_client cfg ip now c l =
    if c.blocked && ltb now c.blocked_until
    then (true, record l { metrics = count_total (count_blocked l.metrics) })
    else limit cfg ip c.last_query now (count_query now (unblock now c)) l

new_client : String → ℕ → ClientState
new_client ip now = record {
  ip = ip;
  query_count = 0;
  last_query = now;
  blocked = false;
  blocked_until = 0;
}

client_or_new : SecurityConfig → String → ℕ → Option ClientState → Limiter → Bool × Limiter
unfolding new_client known_client count_total
client_or_new cfg ip now none l = (
  false,
  record { clients = insert ip (new_client ip now) l.clients; metrics = count_total l.metrics },
)
client_or_new cfg ip now (some c) l = known_client cfg ip now c l

pub is_rate_limited : SecurityConfig → String → ℕ → Limiter → Bool × Limiter
unfolding client_or_new
is_rate_limited cfg ip now l = client_or_new cfg ip now (lookup ip l.clients) l

pub data PacketError : Type 0 where
  packet_too_large : PacketError
  packet_too_small : PacketError
  client_rate_limited : PacketError

limited_error : Bool → Option PacketError
limited_error true = some client_rate_limited
limited_error false = none

-- The packet counts by its size in bytes alone.
pub validate_packet : SecurityConfig → ℕ → String → ℕ → Limiter → Option PacketError × Limiter
unfolding count_total limited_error is_rate_limited
validate_packet cfg size ip now l =
    if ltb cfg.max_packet_size size
    then (
      some packet_too_large,
      record l {
        metrics = record (count_total l.metrics) {
          large_packets = increment l.metrics.large_packets;
        };
      },
    )
    else if ltb size 12
    then (
      some packet_too_small,
      record l {
        metrics = record (count_total l.metrics) {
          malformed_packets = increment l.metrics.malformed_packets;
        };
      },
    )
    else (limited_error (is_rate_limited cfg ip now l).0, (is_rate_limited cfg ip now l).1)

-- Clients that are not blocked and were not heard of for a quarter of an hour.
is_stale : ℕ → ClientState → Bool
is_stale now c = ltb (c.last_query + 15 * minute) now && not c.blocked

drop_stale : ℕ → Map String ClientState → Map String ClientState
unfolding is_stale
drop_stale now [] = []
drop_stale now ((ip, c) ∷ clients) =
    let rest = drop_stale now clients in if is_stale now c then rest else (ip, c) ∷ rest

pub perform_security_cleanup : ℕ → Limiter → Limiter
unfolding drop_stale
perform_security_cleanup now l = record l { clients = drop_stale now l.clients }
