-- ===== src/Services/Allocator/Grants.antt =====
-- allocator.go, one direction: what allocation, reservation and release do to the ports.
use piccolod.Common.{
  ℕ, ◌≤◌, ◌<◌, ◌≡◌, refl, ◌⊎◌, inl, inr, true, false, arith, Result, ok, err, ltb, ◌==◌, Eq-nat,
  nat_eq, nat_eq_iff, Bool-cases, ◌||◌, ◌≢◌, ap, beq_refl, if◌then◌else◌,
}
use piccolod.Common.Map.{contains, contains-insert, contains-delete}
use piccolod.Services.Allocator.{
  Ports, PortRange, PortError, no_ports, outside_range, already_reserved, Search, found, exhausted,
  spinning, next_in_range, finish, allocate, reserve, free, mark_used, new_ports,
}
use piccolod.Services.Allocator.Scan.{IsUsed, IsFree, Answers, search-Answers}

-- The range is not empty, the hint lies in it or just behind it, and so do the used ports.
pub record IsWellFormed (s : Ports) : Type 0 where
  pub nonempty : s.start ≤ s.stop
  pub hint_above : s.start ≤ s.next
  pub inside : (q : ℕ) → IsUsed s q → (s.start ≤ q) × (q ≤ s.stop)

-- `t` has the ports of `s` and one more, which was free.
pub record Grants (s t : Ports) (port : ℕ) : Type 0 where
  pub same_range : t.range ≡ s.range
  pub above : s.start ≤ port
  pub below : port ≤ s.stop
  pub was_free : IsFree s port
  pub hint : s.start ≤ s.next → t.start ≤ t.next
  pub marked : (q : ℕ) → contains q t.used ≡ (if q == port then true else contains q s.used)

-- Every port of the range is used.
abbrev pub IsFull : Ports → Type 0
IsFull s = (q : ℕ) → s.start ≤ q → q ≤ s.stop → IsUsed s q

-- The contract of an allocation: a free port of the range, or a refusal if there is none.
abbrev pub Allocates : Ports → Result PortError ℕ × Ports → Type 0
Allocates s (ok port, t) = Grants s t port
Allocates s (err no_ports, t) = IsFull s × (t ≡ s)
Allocates s (err e, t) = ⊥

mark_used-Grants :
    (s : Ports) (port : ℕ)
    → s.start ≤ port
    → port ≤ s.stop
    → IsFree s port
    → Grants s (mark_used s port) port
unfolding mark_used
mark_used-Grants s port lo hi f = record {
  same_range = refl;
  above = lo;
  below = hi;
  was_free = f;
  hint = λ h. ground arith;
  marked = λ q. contains-insert port q tt s.used;
}

finish-Allocates : (s : Ports) (r : Search) → Answers s r → Allocates s (finish s r)
unfolding finish
finish-Allocates s (found port) h = mark_used-Grants s port h.0 h.1 h.2
finish-Allocates s exhausted h = (λ q l r. h q l (omega arith), refl)
finish-Allocates s spinning h = h

-- From a well-formed state an allocation returns. It hands out a port of the range that was free and
-- marks that port and no other, or refuses with no_ports, changes nothing, and the range is full.
pub allocate-Allocates : (s : Ports) → IsWellFormed s → Allocates s (allocate s)
unfolding allocate next_in_range
allocate-Allocates s w = elim (Bool-cases (ltb s.stop s.next)) [
  | inl e ↦ rw e (finish-Allocates s _ (search-Answers s s.start (omega arith) w.nonempty))
  | inr e ↦ rw e (finish-Allocates s _ (search-Answers s s.next w.hint_above (ground arith)))
]

-- The contract of a reservation, on every branch.
abbrev pub Reserves : Ports → ℕ → Result PortError Ports → Type 0
Reserves s port (ok t) = Grants s t port
Reserves s port (err outside_range) = (port < s.start) ⊎ (s.stop < port)
Reserves s port (err already_reserved) = (s.start ≤ port) × (port ≤ s.stop) × IsUsed s port
Reserves s port (err e) = ⊥

-- A reservation takes the port if it is a free one of the range. Otherwise it names the reason:
-- the port is outside the range, or it is in the range and used.
pub reserve-Reserves : (s : Ports) (port : ℕ) → Reserves s port (reserve s port)
unfolding reserve
reserve-Reserves s port = elim (Bool-cases (ltb port s.start || ltb s.stop port)) [
  | inl e ↦ rw e (outside port s.start s.stop e)
  | inr e ↦ elim (Bool-cases (contains port s.used)) [
    | inl u ↦ rw (e, u) (ground arith, ground arith, u)
    | inr u ↦ rw (e, u) (mark_used-Grants s port (ground arith) (ground arith) u)
  ]
]
  where
    outside : (p a b : ℕ) → (ltb p a || ltb b p) ≡ true → (p < a) ⊎ (b < p)
    outside p a b h = ground arith

-- `t` has the ports of `s` without one.
pub record Frees (s t : Ports) (port : ℕ) : Type 0 where
  pub same_range : t.range ≡ s.range
  pub hint : s.start ≤ port → s.start ≤ s.next → t.start ≤ t.next
  pub cleared : (q : ℕ) → contains q t.used ≡ (if q == port then false else contains q s.used)

pub free-Frees : (s : Ports) (port : ℕ) → Frees s (free s port) port
unfolding free
free-Frees s port = record {
  same_range = refl;
  hint = λ h k. ground arith;
  cleared = λ q. contains-delete port q s.used;
}

pub Grants-IsWellFormed :
    (s t : Ports) (port : ℕ) → Grants s t port → IsWellFormed s → IsWellFormed t
Grants-IsWellFormed s t port g w = record {
  nonempty = ground (arith, g.same_range);
  hint_above = g.hint w.hint_above;
  inside = λ q u. elim (Bool-cases (nat_eq q port)) [
    | inl e ↦ ground (arith, g.marked q, nat_eq_iff q port)
    | inr e ↦ ground (arith, g.marked q, w.inside q)
  ];
}

pub Frees-IsWellFormed :
    (s t : Ports) (port : ℕ) → Frees s t port → s.start ≤ port → IsWellFormed s → IsWellFormed t
Frees-IsWellFormed s t port f lo w = record {
  nonempty = ground (arith, f.same_range);
  hint_above = f.hint lo w.hint_above;
  inside = λ q u. elim (Bool-cases (nat_eq q port)) [
    | inl e ↦ ground (arith, f.cleared q)
    | inr e ↦ ground (arith, f.cleared q, w.inside q)
  ];
}

pub new_ports-IsWellFormed : (r : PortRange) → r.start ≤ r.stop → IsWellFormed (new_ports r)
unfolding new_ports contains
new_ports-IsWellFormed r h = record { nonempty = h; hint_above = omega arith; inside = λ q u. cc }

-- A used port stays used through a grant, and the granted port is another one.
pub Grants-keeps :
    (s t : Ports) (port q : ℕ) → Grants s t port → IsUsed s q → IsUsed t q × (q ≢ port)
Grants-keeps s t port q g u = (
  ground (arith, g.marked q),
  λ e. ground (arith, g.was_free, ap (λ (p : ℕ). contains p s.used) e),
)

pub Grants-self : (s t : Ports) (port : ℕ) → Grants s t port → IsUsed t port
Grants-self s t port g = ground (arith, g.marked port, beq_refl port)

pub Frees-keeps : (s t : Ports) (port q : ℕ) → Frees s t port → IsUsed s q → q ≢ port → IsUsed t q
Frees-keeps s t port q f u ne = ground (arith, f.cleared q, nat_eq_iff q port)
