-- ===== src/Services/Manager/Reconcile/Leak.antt =====
-- manager.go, Reconcile: the ports of a listener that it removes.
use piccolod.Common.{
  ℕ, String, ◌≡◌, ◌∙◌, refl, ap, inl, Bool, false, List, some, Result, ok, err, is_some, elem,
  arith, Eq-string, subst,
}
use piccolod.Common.Map.{Map, insert}
use piccolod.Api.{AppListener}
use piccolod.Services.Allocator.{Ports, PortError}
use piccolod.Services.Allocator.Scan.{IsUsed}
use piccolod.Services.Types.{ServiceEndpoint}
use piccolod.Services.Manager.{ServiceManager, Registry}
use piccolod.Services.Manager.Ledger.{Ledger}
use piccolod.Services.Manager.Entries.{Registered, OwnsWith, Owns-insert, host_of, public_of}
use piccolod.Services.Manager.Lookup.{get_app_listener, get_app_listener-Registered}
use piccolod.Services.Manager.Consistency.{IsConsistent}
use piccolod.Services.Manager.Reconcile.{
  Draft, ReconcileResult, drop_removed, close_reconcile, reconcile, start_draft,
}
use piccolod.Services.Manager.Reconcile.Keeping.{
  BooksWith, IsGood, drop_removed-IsGood, reconcile_all-IsGood, start_draft-IsGood,
}
use piccolod.Services.Manager.Reconcile.Names.{names, reconcile-names}

abbrev Outcome : Type 0
Outcome = Result PortError (Unit {0}) × Draft

-- The books after a call that succeeds still count what was registered before it.
record Ended (r : Registry) (app : String) (m' : ServiceManager) : Type 0 where
  eps : Map String ServiceEndpoint
  books : BooksWith m'.allocator r app eps
  registry : m'.registry ≡ insert app eps r

close_reconcile-Ended :
    (r : Registry) (app : String) (existing : Map String ServiceEndpoint) (o : Outcome)
    (result : ReconcileResult × Bool)
    → IsGood r app o.1
    → (close_reconcile app existing o).0 ≡ ok result
    → Ended r app (close_reconcile app existing o).1
unfolding close_reconcile
close_reconcile-Ended r app existing (err e, d) result g h = absurd (ground (arith, h))
close_reconcile-Ended r app existing (ok _, d) result g h =
    let g' = drop_removed-IsGood r app existing d g in
    record {
      eps = (drop_removed existing d).new_map;
      books = g'.books;
      registry = ap (insert app (drop_removed existing d).new_map) g'.same;
    }

reconcile-Ended :
    (binds : ℕ → Bool) (m : ServiceManager) (app : String) (ls : List AppListener)
    (result : ReconcileResult × Bool)
    → IsConsistent m
    → (reconcile binds m app ls).0 ≡ ok result
    → Ended m.registry app (reconcile binds m app ls).1
unfolding reconcile
reconcile-Ended binds m app ls result k h =
    close_reconcile-Ended m.registry app _ _ result
      (reconcile_all-IsGood m.registry binds app (start_draft m) ls (start_draft-IsGood m app k)) h

-- A listener of the registry has the port.
abbrev pub Owned : (ServiceEndpoint → ℕ) → ServiceManager → ℕ → Type 0
Owned port m p =
    (a n : String) × (e : ServiceEndpoint) × (get_app_listener m a n ≡ some e) × (port e ≡ p)

-- The port is used, and no listener of the registry has it.
abbrev pub Leaked : (ServiceEndpoint → ℕ) → Ports → ServiceManager → ℕ → Type 0
Leaked port s m p = IsUsed s p × ¬ Owned port m p

Ended-Leaked :
    (port : ServiceEndpoint → ℕ) {s : Ports} (r : Registry) (app name : String)
    (old : ServiceEndpoint) (m' : ServiceManager) (eps : Map String ServiceEndpoint)
    → Ledger s (OwnsWith port r app eps)
    → m'.registry ≡ insert app eps r
    → Registered r app name old
    → is_some (get_app_listener m' app name) ≡ false
    → Leaked port s m' (port old)
Ended-Leaked port {s} r app name old m' eps l q h gone = (
  l.used app name (port old) (inl (old, h, refl)),
  λ (a, n, e, found, same).
      let reg = subst (λ x. Registered x a n e) q (get_app_listener-Registered m' a n e found) in
      let (u, v) =
        l.unique a n app name (port old) (Owns-insert port r app eps a n (port old) (e, reg, same))
          (inl (old, h, refl)) in
      absurd (
        ground (
          arith,
          gone,
          subst (λ x. get_app_listener m' x name ≡ some e) u
              (subst (λ y. get_app_listener m' a y ≡ some e) v found),
        )),
)

-- Whenever Reconcile succeeds from a consistent registry and a listener that the app had was not
-- asked for, the host port and the public port of that listener are still used in the allocator, and
-- no registered listener has either of them: nothing is left that would ever release them.
pub reconcile-Leaked :
    (binds : ℕ → Bool) (m : ServiceManager) (app name : String) (ls : List AppListener)
    (result : ReconcileResult × Bool) (old : ServiceEndpoint)
    → IsConsistent m
    → (reconcile binds m app ls).0 ≡ ok result
    → get_app_listener m app name ≡ some old
    → elem name (names ls) ≡ false
    → let m' = (reconcile binds m app ls).1 in
      Leaked host_of m'.allocator.host m' old.host_bind
      × Leaked public_of m'.allocator.public m' old.public_port
reconcile-Leaked binds m app name ls result old k h found missing =
    let m' = (reconcile binds m app ls).1 in
    let e = reconcile-Ended binds m app ls result k h in
    let gone = reconcile-names binds m app ls result name h ∙ missing in
    let reg = get_app_listener-Registered m app name old found in
    (
      Ended-Leaked host_of m.registry app name old m' e.eps e.books.host e.registry reg gone,
      Ended-Leaked public_of m.registry app name old m' e.eps e.books.public e.registry reg gone,
    )
