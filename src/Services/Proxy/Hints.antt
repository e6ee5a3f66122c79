-- ===== src/Services/Proxy/Hints.antt =====
-- proxy.go, registerHint and consumeHint: the hint that is kept for a connection.
use piccolod.Common.{
  ℕ, ◌≡◌, ◌<◌, refl, ◌&&◌, inl, inr, [], ◌∷◌, Option, none, some, arith, Eq-nat, nat_eq_iff,
  Option-cases, if◌then◌else◌, ◌==◌,
}
use piccolod.Common.Map.{Map, lookup, delete, insert, lookup-insert, lookup-delete}
use piccolod.Services.Proxy.{
  ProxyManager, ConnectionHint, hints_of, put_or_drop, take_hint, register_hint, consume_hint,
}

-- The hint that is kept for a connection from `source` to the listener on `port`.
pub hint_at : ProxyManager → ℕ → ℕ → Option ConnectionHint
hint_at p port source = lookup source (hints_of p port)

pub hint_at-register_hint :
    (p : ProxyManager) (port source : ℕ) (hint : ConnectionHint) (q t : ℕ)
    → 0 < source
    → hint_at (register_hint p port source hint) q t
      ≡ (if q == port && t == source then some hint else hint_at p q t)
unfolding hint_at register_hint hints_of
hint_at-register_hint p port source hint q t h = ground (
  arith,
  lookup-insert port q (insert source hint (hints_of p port)) p.hints,
  lookup-insert source t hint (hints_of p port),
  nat_eq_iff q port,
)

lookup-put_or_drop :
    (port q t : ℕ) (m : Map ℕ ConnectionHint) (hints : Map ℕ (Map ℕ ConnectionHint))
    → let none_or =
        λ (o : Option (Map ℕ ConnectionHint)). lookup t (elim o [ none ↦ [] | some n ↦ n ]) in
      none_or (lookup q (put_or_drop port m hints))
      ≡ (if q == port then lookup t m else none_or (lookup q hints))
unfolding put_or_drop lookup
lookup-put_or_drop port q t [] hints = ground (arith, lookup-delete port q hints)
lookup-put_or_drop port q t (x ∷ m) hints = ground (arith, lookup-insert port q (x ∷ m) hints)

take_hint-once :
    (p : ProxyManager) (port source q t : ℕ) (o : Option (Map ℕ ConnectionHint))
    → lookup port p.hints ≡ o
    → ((take_hint p port source o).0 ≡ hint_at p port source)
      × (hint_at (take_hint p port source o).1 q t
          ≡ (if q == port && t == source then none else hint_at p q t))
unfolding hint_at take_hint hints_of lookup
take_hint-once p port source q t none e = (ground (arith, e), ground (arith, nat_eq_iff q port, e))
take_hint-once p port source q t (some m) e = elim (Option-cases (lookup source m)) [
  | inl f ↦ (ground (arith, e, f), ground (arith, e, f, nat_eq_iff q port, nat_eq_iff t source))
  | inr (hint, f) ↦ (
    ground (arith, e, f),
    ground (
      arith,
      e,
      f,
      nat_eq_iff q port,
      nat_eq_iff t source,
      lookup-put_or_drop port q t (delete source m) p.hints,
      lookup-delete source t m,
    ),
  )
]

-- A connection reads the hint that is kept for it, and from then on there is none for it. The hints
-- of all other connections stay.
pub consume_hint-once :
    (p : ProxyManager) (port source q t : ℕ)
    → ((consume_hint p port source).0 ≡ hint_at p port source)
      × (hint_at (consume_hint p port source).1 q t
          ≡ (if q == port && t == source then none else hint_at p q t))
unfolding hint_at consume_hint hints_of
consume_hint-once p port source q t = take_hint-once p port source q t (lookup port p.hints) refl
