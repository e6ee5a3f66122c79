-- ===== src/Services/Manager/Consistency.antt =====
-- The invariant of the service manager: the ports of the registered listeners are used in the
-- allocator, and no two listeners share one.
pub mod Allocation
pub mod Removal
pub mod Histories
pub mod Release
use piccolod.Common.{ℕ, String, ◌≡◌, sym, subst, arith, Result, ok, err, Bool}
use piccolod.Services.Allocator.{PortAllocator, PortError, no_ports, allocate_pair}
use piccolod.Services.Allocator.Pairs.{Pairs, allocate_pair-Pairs}
use piccolod.Services.Types.{ServiceEndpoint}
use piccolod.Services.Manager.{
  ServiceManager, start_proxy, stop_proxy, notify_publish, notify_unpublish,
}
use piccolod.Services.Manager.Ledger.{
  Owners, Ledger, OrNew, Ledger-grant, Ledger-restore, Ledger-subset,
}
use piccolod.Services.Manager.Entries.{Owns, host_of, public_of}

-- Both directions of the allocator against their owners.
pub record Books (a : PortAllocator) (H P : Owners) : Type 0 where
  pub host : Ledger a.host H
  pub public : Ledger a.public P

abbrev pub IsConsistent : ServiceManager → Type 0
IsConsistent m = Books m.allocator (Owns host_of m.registry) (Owns public_of m.registry)

pub Books-subset :
    {a : PortAllocator} {H P H' P' : Owners}
    → ((a n : String) (p : ℕ) → H' a n p → H a n p)
    → ((a n : String) (p : ℕ) → P' a n p → P a n p)
    → Books a H P
    → Books a H' P'
Books-subset f g b = record { host = Ledger-subset f b.host; public = Ledger-subset g b.public }

-- What the books are after AllocatePair, with a new owner or as they were.
abbrev pub PairBooks :
    Owners → Owners → String → String → Result PortError (ℕ × ℕ) × PortAllocator → Type 0
PairBooks H P app name (ok (hb, pp), b) = Books b (OrNew H app name hb) (OrNew P app name pp)
PairBooks H P app name (err e, b) = Books b H P

pub Pairs-Books :
    {a : PortAllocator} {H P : Owners} (app name : String)
    (r : Result PortError (ℕ × ℕ) × PortAllocator)
    → Pairs a r
    → Books a H P
    → PairBooks H P app name r
Pairs-Books app name (ok (hb, pp), b) g k = record {
  host = Ledger-grant app name hb g.0 k.host;
  public = Ledger-grant app name pp g.1 k.public;
}
Pairs-Books app name (err no_ports, b) g k = record {
  host = Ledger-restore g.1 k.host;
  public = Ledger-restore g.2 k.public;
}
Pairs-Books app name (err _, b) g k = absurd g

-- Steps that leave the allocator and the registry alone.
pub record SameBooks (m m' : ServiceManager) : Type 0 where
  pub allocator : m'.allocator ≡ m.allocator
  pub registry : m'.registry ≡ m.registry

pub SameBooks-start_proxy :
    (binds : ℕ → Bool) (m : ServiceManager) (ep : ServiceEndpoint)
    → SameBooks m (start_proxy binds m ep)
unfolding start_proxy
SameBooks-start_proxy binds m ep = ground arith

pub SameBooks-stop_proxy :
    (m : ServiceManager) (ep : ServiceEndpoint) → SameBooks m (stop_proxy m ep)
unfolding stop_proxy
SameBooks-stop_proxy m ep = ground arith

pub SameBooks-notify_publish : (m : ServiceManager) (port : ℕ) → SameBooks m (notify_publish m port)
unfolding notify_publish
SameBooks-notify_publish m port = ground arith

-- AllocatePair from consistent books.
pub allocate_pair-Books :
    {a : PortAllocator} {H P : Owners} (app name : String)
    → Books a H P
    → PairBooks H P app name (allocate_pair a)
allocate_pair-Books {a} app name k =
    Pairs-Books app name (allocate_pair a)
      (allocate_pair-Pairs a (record { host = k.host.well; public = k.public.well })) k

pub SameBooks-IsConsistent :
    {m m' : ServiceManager} → SameBooks m m' → IsConsistent m → IsConsistent m'
SameBooks-IsConsistent {m} {m'} s k =
    subst (λ a. Books a (Owns host_of m'.registry) (Owns public_of m'.registry)) (sym s.allocator)
      (subst (λ r. Books m.allocator (Owns host_of r) (Owns public_of r)) (sym s.registry) k)
