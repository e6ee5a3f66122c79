-- ===== src/Services/Allocator/Scan.antt =====
-- allocator.go, the loop of allocateHost and allocatePublic: its answers and its fuel.
use piccolod.Common.{
  ℕ, zero, suc, ◌+◌, ◌≤◌, ◌<◌, ◌≡◌, ◌≢◌, refl, inl, inr, true, false, arith, Eq-nat, dec_lt, nat_eq,
  nat_eq_iff, Bool-cases,
}
use piccolod.Common.Map.{contains}
use piccolod.Services.Allocator.{
  Ports, PortRange, Search, found, exhausted, spinning, search_from, next_in_range,
}

abbrev pub IsUsed : Ports → ℕ → Type 0
IsUsed s q = contains q s.used ≡ true

abbrev pub IsFree : Ports → ℕ → Type 0
IsFree s q = contains q s.used ≡ false

-- Every port from `a` up to but not including `b` is used.
abbrev UsedFrom : Ports → ℕ → ℕ → Type 0
UsedFrom s a b = (q : ℕ) → a ≤ q → q < b → IsUsed s q

-- What a search from a port of the range must tell.
abbrev pub Answers : Ports → Search → Type 0
Answers s (found p) = (s.start ≤ p) × (p ≤ s.stop) × IsFree s p
Answers s exhausted = UsedFrom s s.start (suc s.stop)
Answers s spinning = ⊥

UsedFrom-suc : (s : Ports) (a b c : ℕ) → c ≡ b + 1 → UsedFrom s a b → IsUsed s b → UsedFrom s a c
UsedFrom-suc s a b c same h u q l r = elim (Bool-cases (nat_eq q b)) [
  | inl e ↦ ground (arith, nat_eq_iff q b)
  | inr e ↦ ground (arith, h q)
]

UsedFrom-join : (s : Ports) (a b c : ℕ) → UsedFrom s a b → UsedFrom s b c → UsedFrom s a c
UsedFrom-join s a b c h k q l r = elim (dec_lt q b) [ yes m ↦ h q l m | no m ↦ k q (omega arith) r ]

next_in_range_inside : (p : ℕ) (r : PortRange) → p ≤ r.stop → next_in_range p r ≡ p
unfolding next_in_range
next_in_range_inside p r h = ground arith

next_in_range_outside : (p : ℕ) (r : PortRange) → r.stop < p → next_in_range p r ≡ r.start
unfolding next_in_range
next_in_range_outside p r h = ground arith

module _ (s : Ports) (fuel first port : ℕ) where
  stops_free : IsFree s port → search_from (suc fuel) s first port ≡ found port
  unfolding search_from
  stops_free e = rw (e, search_from)

  stops_around :
      IsUsed s port
      → next_in_range (port + 1) s.range ≡ first
      → search_from (suc fuel) s first port ≡ exhausted
  unfolding search_from
  stops_around e w = rw (e, (nat_eq_iff (next_in_range (port + 1) s.range) first).1 w, search_from)

  goes_on :
      IsUsed s port
      → next_in_range (port + 1) s.range ≢ first
      → search_from (suc fuel) s first port
        ≡ search_from fuel s first (next_in_range (port + 1) s.range)
  unfolding search_from
  goes_on e w = elim (Bool-cases (nat_eq (next_in_range (port + 1) s.range) first)) [
    | inl t ↦ absurd (w ((nat_eq_iff _ _).0 t))
    | inr t ↦ rw (e, t, search_from)
  ]

module _ (s : Ports) (first : ℕ) (above : s.start ≤ first) (below : first ≤ s.stop) where
  -- Past the wrap, on the ports below the first.
  search_low :
      (fuel port : ℕ)
      → s.start ≤ port
      → port < first
      → first < port + fuel + 1
      → UsedFrom s first (suc s.stop)
      → UsedFrom s s.start port
      → Answers s (search_from fuel s first port)
  search_low zero port lo hi enough top bottom = absurd (omega arith)
  search_low (suc fuel) port lo hi enough top bottom = elim (Bool-cases (contains port s.used)) [
    | inr e ↦ rw (stops_free s fuel first port e) (lo, omega arith, e)
    | inl e ↦ elim (dec_lt (port + 1) first) [
      | yes more ↦
          let step = next_in_range_inside (port + 1) s.range (omega arith) in
          rw (goes_on s fuel first port e (omega (arith, step)), step)
            (search_low fuel (port + 1) (omega arith) more (omega arith) top
              (UsedFrom-suc s s.start port (port + 1) refl bottom e))
      | no done ↦
          let step = next_in_range_inside (port + 1) s.range (omega arith) in
          rw (stops_around s fuel first port e (omega (arith, step))) (
            UsedFrom-join s s.start first (suc s.stop)
              (UsedFrom-suc s s.start port first (omega arith) bottom e) top)
    ]
  ]

  -- At the end of the range.
  search_wrap :
      (fuel port : ℕ)
      → first ≤ port
      → port ≤ s.stop
      → s.stop ≤ port
      → first < s.start + fuel + 1
      → UsedFrom s first port
      → IsUsed s port
      → Answers s (search_from (suc fuel) s first port)
  search_wrap fuel port lo hi last enough seen e =
      let step = next_in_range_outside (port + 1) s.range (omega arith) in
      let top = UsedFrom-suc s first port (suc s.stop) (omega arith) seen e in
      elim (dec_lt s.start first) [
        | yes lower ↦
            rw (goes_on s fuel first port e (omega (arith, step)), step)
              (search_low fuel s.start (omega arith) lower enough top
                (λ q l r. absurd (omega arith)))
        | no same ↦
            rw (stops_around s fuel first port e (omega (arith, step)))
              (λ q l r. top q (omega arith) r)
      ]

  -- From the first up to the end of the range.
  search_high :
      (fuel port : ℕ)
      → first ≤ port
      → port ≤ s.stop
      → s.stop + first < port + s.start + fuel
      → UsedFrom s first port
      → Answers s (search_from fuel s first port)
  search_high zero port lo hi enough seen = absurd (omega arith)
  search_high (suc fuel) port lo hi enough seen = elim (Bool-cases (contains port s.used)) [
    | inr e ↦ rw (stops_free s fuel first port e) (omega arith, hi, e)
    | inl e ↦ elim (dec_lt port s.stop) [
      | yes more ↦
          let step = next_in_range_inside (port + 1) s.range (omega arith) in
          rw (goes_on s fuel first port e (omega (arith, step)), step)
            (search_high fuel (port + 1) (omega arith) (omega arith) (omega arith)
              (UsedFrom-suc s first port (port + 1) refl seen e))
      | no done ↦ search_wrap fuel port lo hi (omega arith) (omega arith) seen e
    ]
  ]

pub search-Answers :
    (s : Ports) (first : ℕ)
    → s.start ≤ first
    → first ≤ s.stop
    → Answers s (search_from (suc s.stop) s first first)
search-Answers s first above below =
    search_high s first above below (suc s.stop) first (omega arith) below (omega arith)
      (λ q l r. absurd (omega arith))
