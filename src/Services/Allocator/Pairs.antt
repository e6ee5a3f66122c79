-- ===== src/Services/Allocator/Pairs.antt =====
-- allocator.go: both directions at once.
use piccolod.Common.{
  ℕ, ◌≡◌, ◌⊎◌, inl, inr, arith, Result, ok, err, ltb, nat_eq, nat_eq_iff, ap, ◌∙◌, ◌≤◌, ◌≢◌, Eq-nat,
  refl, Bool-cases, true, false, ◌&&◌, sym, subst, if◌then◌else◌,
}
use piccolod.Common.Map.{contains}
use piccolod.Services.Allocator.{
  Ports, PortRange, PortAllocator, PortError, no_ports, new_port_allocator, allocate, allocate_pair,
  pair_host, pair_public, free, release, release_host, release_public, reserve, reserve_host,
  with_host, allocate_public, free_host,
}
use piccolod.Services.Allocator.Scan.{IsUsed}
use piccolod.Services.Allocator.Grants.{
  IsWellFormed, Grants, Frees, IsFull, Allocates, allocate-Allocates, free-Frees, Reserves,
  reserve-Reserves, Grants-IsWellFormed, new_ports-IsWellFormed,
}

pub record IsSound (a : PortAllocator) : Type 0 where
  pub host : IsWellFormed a.host
  pub public : IsWellFormed a.public

-- The same ports are used, though the hint may have moved.
pub record Restores (s t : Ports) : Type 0 where
  pub same_range : t.range ≡ s.range
  pub hint : s.start ≤ s.next → s.start ≤ t.next
  pub same_used : (q : ℕ) → contains q t.used ≡ contains q s.used

Restores-refl : (s t : Ports) → t ≡ s → Restores s t
Restores-refl s t e = record {
  same_range = ap (λ (p : Ports). p.range) e;
  hint = λ h. ground arith;
  same_used = λ q. ap (λ (p : Ports). contains q p.used) e;
}

pub Restores-IsWellFormed : (s t : Ports) → Restores s t → IsWellFormed s → IsWellFormed t
Restores-IsWellFormed s t r w = record {
  nonempty = ground (arith, r.same_range);
  hint_above = ground (arith, r.same_range, r.hint w.hint_above);
  inside = λ q u. ground (arith, r.same_range, r.same_used q, w.inside q);
}

abbrev pub Pairs : PortAllocator → Result PortError (ℕ × ℕ) × PortAllocator → Type 0
Pairs a (ok (hb, pp), b) = Grants a.host b.host hb × Grants a.public b.public pp
Pairs a (err no_ports, b) =
    (IsFull a.host ⊎ IsFull a.public) × Restores a.host b.host × Restores a.public b.public
Pairs a (err e, b) = ⊥

-- Taking a port and giving it back leaves the used ports as they were.
pub Grants-Frees : (s t u : Ports) (port : ℕ) → Grants s t port → Frees t u port → Restores s u
Grants-Frees s t u port g f = record {
  same_range = f.same_range ∙ g.same_range;
  hint = λ h. ground (arith, g.hint h, f.hint, g.same_range, f.same_range, g.above);
  same_used = λ q. elim (Bool-cases (nat_eq q port)) [
    | inl e ↦ ground (arith, g.marked q, f.cleared q, g.was_free, nat_eq_iff q port)
    | inr e ↦ ground (arith, g.marked q, f.cleared q)
  ];
}

pair_public-Pairs :
    (a : PortAllocator) (hb : ℕ) (host : Ports) (r : Result PortError ℕ × Ports)
    → Grants a.host host hb
    → Allocates a.public r
    → Pairs a (pair_public hb host r)
unfolding pair_public
pair_public-Pairs a hb host (ok pp, public) g h = (g, h)
pair_public-Pairs a hb host (err no_ports, public) g h = (
  inr h.0,
  Grants-Frees a.host host _ hb g (free-Frees host hb),
  Restores-refl a.public public h.1,
)
pair_public-Pairs a hb host (err _, public) g h = absurd h

pair_host-Pairs :
    (a : PortAllocator) (r : Result PortError ℕ × Ports)
    → IsWellFormed a.public
    → Allocates a.host r
    → Pairs a (pair_host a r)
unfolding pair_host
pair_host-Pairs a (ok hb, host) w h =
    pair_public-Pairs a hb host (allocate a.public) h (allocate-Allocates a.public w)
pair_host-Pairs a (err no_ports, host) w h =
    (inl h.0, Restores-refl a.host host h.1, Restores-refl a.public a.public refl)
pair_host-Pairs a (err _, host) w h = absurd h

-- AllocatePair hands out a free port of each range, or refuses and leaves both sets of used ports as
-- they were: it refuses only if one of the ranges is full.
pub allocate_pair-Pairs : (a : PortAllocator) → IsSound a → Pairs a (allocate_pair a)
unfolding allocate_pair
allocate_pair-Pairs a w =
    pair_host-Pairs a (allocate a.host) w.public (allocate-Allocates a.host w.host)

Pairs-IsSound :
    (a : PortAllocator) (r : Result PortError (ℕ × ℕ) × PortAllocator)
    → Pairs a r
    → IsSound a
    → IsSound r.1
Pairs-IsSound a (ok (hb, pp), b) h w = record {
  host = Grants-IsWellFormed a.host b.host hb h.0 w.host;
  public = Grants-IsWellFormed a.public b.public pp h.1 w.public;
}
Pairs-IsSound a (err no_ports, b) h w = record {
  host = Restores-IsWellFormed a.host b.host h.1 w.host;
  public = Restores-IsWellFormed a.public b.public h.2 w.public;
}
Pairs-IsSound a (err _, b) h w = absurd h

pub allocate_pair-IsSound : (a : PortAllocator) → IsSound a → IsSound (allocate_pair a).1
allocate_pair-IsSound a w = Pairs-IsSound a (allocate_pair a) (allocate_pair-Pairs a w) w

pub new_port_allocator-IsSound :
    (h p : PortRange) → h.start ≤ h.stop → p.start ≤ p.stop → IsSound (new_port_allocator h p)
unfolding new_port_allocator
new_port_allocator-IsSound h p u v = record {
  host = new_ports-IsWellFormed h u;
  public = new_ports-IsWellFormed p v;
}

-- Release gives a port back unless it is 0, which stands for no port.
pub record Drops (s t : Ports) (port : ℕ) : Type 0 where
  pub same_range : t.range ≡ s.range
  pub hint : s.start ≤ port → s.start ≤ s.next → t.start ≤ t.next
  pub cleared :
      (q : ℕ)
      → contains q t.used ≡ (if ltb 0 port && nat_eq q port then false else contains q s.used)

Drops-free : (s : Ports) (port : ℕ) → ltb 0 port ≡ true → Drops s (free s port) port
Drops-free s port e =
    let f = free-Frees s port in
    record { same_range = f.same_range; hint = f.hint; cleared = λ q. rw e (f.cleared q) }

Drops-zero : (s : Ports) (port : ℕ) → ltb 0 port ≡ false → Drops s s port
Drops-zero s port e = record { same_range = refl; hint = λ h k. k; cleared = λ q. rw e refl }

release_host-Drops :
    (a : PortAllocator) (h : ℕ)
    → Drops a.host (release_host a h).host h × ((release_host a h).public ≡ a.public)
unfolding release_host
release_host-Drops a h = elim (Bool-cases (ltb 0 h)) [
  | inl e ↦ rw e (Drops-free a.host h e, refl)
  | inr e ↦ rw e (Drops-zero a.host h e, refl)
]

release_public-Drops :
    (a : PortAllocator) (p : ℕ)
    → ((release_public a p).host ≡ a.host) × Drops a.public (release_public a p).public p
unfolding release_public
release_public-Drops a p = elim (Bool-cases (ltb 0 p)) [
  | inl e ↦ rw e (refl, Drops-free a.public p e)
  | inr e ↦ rw e (refl, Drops-zero a.public p e)
]

-- Release makes one port free on the host side and one on the public side, each unless it is 0, and
-- all other ports stay as they were.
pub release-Drops :
    (a : PortAllocator) (h p : ℕ)
    → Drops a.host (release a h p).host h × Drops a.public (release a h p).public p
unfolding release
release-Drops a h p =
    let (dh, eh) = release_host-Drops a h in
    let (ep, dp) = release_public-Drops (release_host a h) p in
    (
      subst (λ s. Drops a.host s h) (sym ep) dh,
      subst (λ s. Drops s (release_public (release_host a h) p).public p) eh dp,
    )

pub Drops-IsWellFormed :
    (s t : Ports) (port : ℕ) → Drops s t port → s.start ≤ port → IsWellFormed s → IsWellFormed t
Drops-IsWellFormed s t port f lo w = record {
  nonempty = ground (arith, f.same_range);
  hint_above = f.hint lo w.hint_above;
  inside = λ q u. elim (Bool-cases (ltb 0 port && nat_eq q port)) [
    | inl e ↦ ground (arith, f.cleared q, e)
    | inr e ↦ ground (arith, f.cleared q, e, w.inside q)
  ];
}

pub Drops-keeps : (s t : Ports) (port q : ℕ) → Drops s t port → IsUsed s q → q ≢ port → IsUsed t q
Drops-keeps s t port q f u ne = ground (arith, f.cleared q, nat_eq_iff q port)

-- ReserveHost takes the port and nothing else.
abbrev pub ReservesHost : PortAllocator → ℕ → Result PortError PortAllocator → Type 0
ReservesHost a port (ok b) = Grants a.host b.host port × (b.public ≡ a.public)
ReservesHost a port (err e) = Unit

with_host-ReservesHost :
    (a : PortAllocator) (port : ℕ) (r : Result PortError Ports)
    → Reserves a.host port r
    → ReservesHost a port (with_host a r)
unfolding with_host
with_host-ReservesHost a port (ok s) g = (g, refl)
with_host-ReservesHost a port (err e) g = tt

pub reserve_host-ReservesHost :
    (a : PortAllocator) (port : ℕ) → ReservesHost a port (reserve_host a port)
unfolding reserve_host
reserve_host-ReservesHost a port =
    with_host-ReservesHost a port (reserve a.host port) (reserve-Reserves a.host port)

-- AllocatePublic grants a port, or refuses and changes nothing.
abbrev pub AllocatesPublic : PortAllocator → Result PortError ℕ × PortAllocator → Type 0
AllocatesPublic a (ok pp, b) = Grants a.public b.public pp × (b.host ≡ a.host)
AllocatesPublic a (err e, b) = b ≡ a

lift_public :
    (a : PortAllocator) (r : Result PortError ℕ × Ports)
    → Allocates a.public r
    → AllocatesPublic a (r.0, record a { public = r.1 })
lift_public a (ok pp, s) g = (g, refl)
lift_public a (err no_ports, s) g = ap (λ (p : Ports). record a { public = p }) g.1
lift_public a (err _, s) g = absurd g

pub allocate_public-AllocatesPublic :
    (a : PortAllocator) → IsWellFormed a.public → AllocatesPublic a (allocate_public a)
unfolding allocate_public
allocate_public-AllocatesPublic a w =
    lift_public a (allocate a.public) (allocate-Allocates a.public w)

pub free_host-Frees :
    (a : PortAllocator) (port : ℕ)
    → Frees a.host (free_host a port).host port × ((free_host a port).public ≡ a.public)
unfolding free_host
free_host-Frees a port = (free-Frees a.host port, refl)
