-- ===== src/Services/Manager/Ledger.antt =====
-- One direction of the allocator against what is registered: the owned ports are used, and a port
-- has one owner. An owner is a listener of an app, by the two names.
use piccolod.Common.{ℕ, String, ◌≡◌, ◌≤◌, ◌≢◌, ◌⊎◌, inl, inr, sym, ◌∙◌, subst}
use piccolod.Services.Allocator.{Ports}
use piccolod.Services.Allocator.Scan.{IsUsed}
use piccolod.Services.Allocator.Grants.{
  IsWellFormed, Grants, Grants-IsWellFormed, Grants-keeps, Grants-self,
}
use piccolod.Services.Allocator.Pairs.{
  Restores, Restores-IsWellFormed, Drops, Drops-IsWellFormed, Drops-keeps,
}

abbrev pub Owners : Type 1
Owners = String → String → ℕ → Type 0

pub record Ledger (s : Ports) (H : Owners) : Type 0 where
  pub well : IsWellFormed s
  pub used : (a n : String) (p : ℕ) → H a n p → IsUsed s p
  pub unique : (a n b k : String) (p : ℕ) → H a n p → H b k p → (a ≡ b) × (n ≡ k)

pub Ledger-subset :
    {s : Ports} {H K : Owners}
    → ((a n : String) (p : ℕ) → K a n p → H a n p)
    → Ledger s H
    → Ledger s K
Ledger-subset sub l = record {
  well = l.well;
  used = λ a n p h. l.used a n p (sub a n p h);
  unique = λ a n b k p h g. l.unique a n b k p (sub a n p h) (sub b k p g);
}

pub Ledger-same : {s t : Ports} {H : Owners} → t ≡ s → Ledger s H → Ledger t H
Ledger-same {s} {t} {H} e l = subst (λ p. Ledger p H) (sym e) l

pub Ledger-restore : {s t : Ports} {H : Owners} → Restores s t → Ledger s H → Ledger t H
Ledger-restore {s} {t} r l = record {
  well = Restores-IsWellFormed s t r l.well;
  used = λ a n p h. r.same_used p ∙ l.used a n p h;
  unique = l.unique;
}

pub Ledger-drop :
    {s t : Ports} {H : Owners} (port : ℕ)
    → Drops s t port
    → s.start ≤ port
    → ((a n : String) (p : ℕ) → H a n p → p ≢ port)
    → Ledger s H
    → Ledger t H
Ledger-drop {s} {t} port f lo other l = record {
  well = Drops-IsWellFormed s t port f lo l.well;
  used = λ a n p h. Drops-keeps s t port p f (l.used a n p h) (other a n p h);
  unique = l.unique;
}

-- The owner of a granted port, beside the owners there were.
abbrev pub OrNew : Owners → String → String → ℕ → Owners
OrNew H app name port a n p = H a n p ⊎ ((a ≡ app) × (n ≡ name) × (p ≡ port))

module _ {s t : Ports} {H : Owners} (app name : String) (port : ℕ) (g : Grants s t port)
    (l : Ledger s H) where
  OrNew-IsUsed : (a n : String) (p : ℕ) → OrNew H app name port a n p → IsUsed t p
  OrNew-IsUsed a n p (inl h) = (Grants-keeps s t port p g (l.used a n p h)).0
  OrNew-IsUsed a n p (inr (u, v, w)) = subst (IsUsed t) (sym w) (Grants-self s t port g)

  OrNew-unique :
      (a n b k : String) (p : ℕ)
      → OrNew H app name port a n p
      → OrNew H app name port b k p
      → (a ≡ b) × (n ≡ k)
  OrNew-unique a n b k p (inl h) (inl i) = l.unique a n b k p h i
  OrNew-unique a n b k p (inl h) (inr (u, v, w)) =
      absurd ((Grants-keeps s t port p g (l.used a n p h)).1 w)
  OrNew-unique a n b k p (inr (u, v, w)) (inl h) =
      absurd ((Grants-keeps s t port p g (l.used b k p h)).1 w)
  OrNew-unique a n b k p (inr (u, v, w)) (inr (u', v', w')) = (u ∙ sym u', v ∙ sym v')

  -- A port that was free gets an owner.
  pub Ledger-grant : Ledger t (OrNew H app name port)
  Ledger-grant = record {
    well = Grants-IsWellFormed s t port g l.well;
    used = OrNew-IsUsed;
    unique = OrNew-unique;
  }

-- A port that was free is taken, and nobody owns it.
pub Ledger-reserve :
    {s t : Ports} {H : Owners} (port : ℕ) → Grants s t port → Ledger s H → Ledger t H
Ledger-reserve {s} {t} port g l = record {
  well = Grants-IsWellFormed s t port g l.well;
  used = λ a n p h. (Grants-keeps s t port p g (l.used a n p h)).0;
  unique = l.unique;
}
