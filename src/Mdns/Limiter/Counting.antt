-- ===== src/Mdns/Limiter/Counting.antt =====
-- What each packet adds to the security metrics: validatePacket and isRateLimited of
-- internal/mdns/security.go.
use piccolod.Common.Map.{lookup}
use piccolod.Common.{
  ℕ, ◌≡◌, ◌⊎◌, inl, inr, refl, String, Bool, ◌&&◌, Option, none, some, ltb, Eq-string, if_both,
}
use piccolod.Mdns.Limiter.{
  ClientState, SecurityConfig, SecurityMetrics, Limiter, increment, is_rate_limited, client_or_new,
  known_client, limit, unblock, count_query, over_limit, count_total, count_blocked, count_hit,
  PacketError, client_rate_limited, packet_too_large, packet_too_small, validate_packet,
  limited_error,
}

-- Every packet is one query. A refused one is counted once more, by the reason.
abbrev pub Counted : Option PacketError → SecurityMetrics → SecurityMetrics → Type 0
Counted none m m' = m' ≡ record m { total_queries = increment m.total_queries }
Counted (some packet_too_large) m m' = m' ≡ record m {
  total_queries = increment m.total_queries;
  large_packets = increment m.large_packets;
}
Counted (some packet_too_small) m m' = m' ≡ record m {
  total_queries = increment m.total_queries;
  malformed_packets = increment m.malformed_packets;
}
Counted (some client_rate_limited) m m' =
    (m' ≡ record m {
      total_queries = increment m.total_queries;
      blocked_queries = increment m.blocked_queries;
    })
    ⊎ (m' ≡ record m {
      total_queries = increment m.total_queries;
      rate_limit_hits = increment m.rate_limit_hits;
    })

-- The answer of a limiter and its metrics agree.
abbrev Agrees : SecurityMetrics → Bool × Limiter → Type 0
unfolding limited_error
Agrees m r = Counted (limited_error r.0) m r.1.metrics

limit-Agrees :
    (cfg : SecurityConfig) (ip : String) (last now : ℕ) (c : ClientState) (l : Limiter)
    → Agrees l.metrics (limit cfg ip last now c l)
unfolding limit limited_error count_total count_hit
limit-Agrees cfg ip last now c l =
    if_both (Agrees l.metrics) (over_limit cfg last now c) _ _ (λ e. inr refl) (λ e. refl)

client_or_new-Agrees :
    (cfg : SecurityConfig) (ip : String) (now : ℕ) (found : Option ClientState) (l : Limiter)
    → Agrees l.metrics (client_or_new cfg ip now found l)
unfolding client_or_new known_client limited_error count_total count_blocked
client_or_new-Agrees cfg ip now none l = refl
client_or_new-Agrees cfg ip now (some c) l =
    if_both (Agrees l.metrics) (c.blocked && ltb now c.blocked_until) _ _ (λ e. inl refl)
      (λ e. limit-Agrees cfg ip c.last_query now (count_query now (unblock now c)) l)

abbrev AgreesOn : SecurityMetrics → Option PacketError × Limiter → Type 0
AgreesOn m r = Counted r.0 m r.1.metrics

-- Every packet adds one to the queries, and a refused packet adds one to just one of the other
-- counters: to the one of large packets, to the one of malformed packets, or, for a client over its
-- rate, to the blocked queries or to the hits of the rate limit.
pub validate_packet-Counted :
    (cfg : SecurityConfig) (size : ℕ) (ip : String) (now : ℕ) (l : Limiter)
    → Counted
        (validate_packet cfg size ip now l).0
        l.metrics
        (validate_packet cfg size ip now l).1.metrics
unfolding validate_packet count_total is_rate_limited
validate_packet-Counted cfg size ip now l =
    if_both (AgreesOn l.metrics) (ltb cfg.max_packet_size size) _ _ (λ e. refl)
      (λ e.
        if_both (AgreesOn l.metrics) (ltb size 12) _ _ (λ e. refl)
          (λ e. client_or_new-Agrees cfg ip now (lookup ip l.clients) l))
