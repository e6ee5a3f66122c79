-- ===== src/Services/Manager/Reconcile/Keeping.antt =====
-- manager.go, Reconcile, against the invariant of the service manager.
use piccolod.Common.{
  ℕ, String, ◌≡◌, ◌∙◌, refl, inl, inr, Bool, true, false, List, [], ◌∷◌, Option-cases, Bool-cases,
  Result, ok, err, Eq-string, arith,
}
use piccolod.Common.Map.{Map, lookup, insert, contains, lookup-Holds}
use piccolod.Api.{AppListener}
use piccolod.Services.Allocator.{PortAllocator, PortError, allocate_pair}
use piccolod.Services.Types.{ServiceEndpoint, new_endpoint}
use piccolod.Services.Proxy.{stop_port}
use piccolod.Services.Manager.{ServiceManager, Registry, listeners_of, start_proxy}
use piccolod.Services.Manager.Entries.{
  Registered, listeners_of-Registered, OwnsWith, OwnsWith-empty, OwnsWith-insert, OwnsWith-reuse,
  Owns-insert, host_of, public_of,
}
use piccolod.Services.Manager.Reconcile.{
  Draft, reconfigure, note_guest_port, restart_proxy, proxy_changed, reuse_ports, new_ports,
  reconcile_one, reconcile_rest, reconcile_all, drop_removed, close_reconcile, reconcile,
  start_draft,
}
use piccolod.Services.Manager.Consistency.{
  IsConsistent, Books, PairBooks, Books-subset, allocate_pair-Books, SameBooks,
  SameBooks-start_proxy, SameBooks-stop_proxy, SameBooks-notify_publish,
}

abbrev pub BooksWith : PortAllocator → Registry → String → Map String ServiceEndpoint → Type 0
BooksWith a r app eps = Books a (OwnsWith host_of r app eps) (OwnsWith public_of r app eps)

-- The registry is that of the start of the call, and what the loop has built counts as registered.
pub record IsGood (r : Registry) (app : String) (d : Draft) : Type 0 where
  pub same : d.manager.registry ≡ r
  pub books : BooksWith d.manager.allocator r app d.new_map

abbrev Outcome : Type 0
Outcome = Result PortError (Unit {0}) × Draft

-- Steps that touch neither the books nor the map that is being built.
record SameDraft (d d' : Draft) : Type 0 where
  manager : SameBooks d.manager d'.manager
  new_map : d'.new_map ≡ d.new_map

SameDraft-IsGood :
    (r : Registry) (app : String) (d d' : Draft) → SameDraft d d' → IsGood r app d → IsGood r app d'
SameDraft-IsGood r app d d' s g = record {
  same = s.manager.registry ∙ g.same;
  books = rw (s.manager.allocator, s.new_map) g.books;
}

note_guest_port-Same :
    (app : String) (old : ServiceEndpoint) (l : AppListener) (d : Draft)
    → SameDraft d (note_guest_port app old l d)
unfolding note_guest_port
note_guest_port-Same app old l d = ground arith

restart_proxy-Same :
    (binds : ℕ → Bool) (b : Bool) (ep : ServiceEndpoint) (d : Draft)
    → SameDraft d (restart_proxy binds b ep d)
unfolding restart_proxy
restart_proxy-Same binds false ep d = record {
  manager = record { allocator = refl; registry = refl };
  new_map = refl;
}
restart_proxy-Same binds true ep d =
    let m = record d.manager { proxies = stop_port d.manager.proxies ep.public_port } in
    let s = SameBooks-start_proxy binds m ep in
    record { manager = record { allocator = s.allocator; registry = s.registry }; new_map = refl }

reuse_ports-IsGood :
    (r : Registry) (binds : ℕ → Bool) (app : String) (d : Draft) (l : AppListener)
    (old : ServiceEndpoint)
    → Registered r app l.name old
    → IsGood r app d
    → IsGood r app (reuse_ports binds app d l old)
unfolding reuse_ports reconfigure
reuse_ports-IsGood r binds app d l old h g =
    let ep = reconfigure old l in
    let d' = note_guest_port app old l d in
    let g' = SameDraft-IsGood r app d d' (note_guest_port-Same app old l d) g in
    let d'' : Draft = record d' { new_map = insert l.name ep d'.new_map } in
    SameDraft-IsGood r app d'' (restart_proxy binds (proxy_changed old l) ep d'')
      (restart_proxy-Same binds (proxy_changed old l) ep d'')
      (record {
        same = g'.same;
        books =
            Books-subset (OwnsWith-reuse host_of r app d'.new_map l.name old ep h refl)
              (OwnsWith-reuse public_of r app d'.new_map l.name old ep h refl) g'.books;
      })

new_ports-IsGood :
    (r : Registry) (binds : ℕ → Bool) (app : String) (d : Draft) (l : AppListener)
    (o : Result PortError (ℕ × ℕ) × PortAllocator)
    → PairBooks (OwnsWith host_of r app d.new_map) (OwnsWith public_of r app d.new_map) app l.name o
    → IsGood r app d
    → IsGood r app (new_ports binds app d l o).1
unfolding new_ports new_endpoint
new_ports-IsGood r binds app d l (err e, a) k g = record { same = g.same; books = k }
new_ports-IsGood r binds app d l (ok (hb, pp), a) k g =
    let ep = new_endpoint app l hb pp in
    let m = record d.manager { allocator = a } in
    let s = SameBooks-start_proxy binds m ep in
    let t = SameBooks-notify_publish (start_proxy binds m ep) pp in
    record {
      same = t.registry ∙ s.registry ∙ g.same;
      books =
          rw (t.allocator, s.allocator)
            (Books-subset (OwnsWith-insert host_of r app d.new_map l.name ep)
              (OwnsWith-insert public_of r app d.new_map l.name ep) k);
    }

module _ (r : Registry) (binds : ℕ → Bool) (app : String) where
  abbrev pub existing : Map String ServiceEndpoint
  existing = listeners_of r app

  reconcile_one-IsGood :
      (d : Draft) (l : AppListener)
      → IsGood r app d
      → IsGood r app (reconcile_one binds app existing d l).1
  unfolding reconcile_one
  reconcile_one-IsGood d l g = elim (Option-cases (lookup l.name existing)) [
    | inl e ↦
        rw (e, reconcile_one)
          (new_ports-IsGood r binds app d l (allocate_pair d.manager.allocator)
            (allocate_pair-Books app l.name g.books) g)
    | inr (old, e) ↦
        rw (e, reconcile_one)
          (reuse_ports-IsGood r binds app d l old
            (listeners_of-Registered r app l.name old (lookup-Holds l.name old existing e)) g)
  ]

  reconcile_rest-IsGood :
      (rest : Draft → Outcome) (o : Outcome)
      → ((d : Draft) → IsGood r app d → IsGood r app (rest d).1)
      → IsGood r app o.1
      → IsGood r app (reconcile_rest rest o).1
  unfolding reconcile_rest
  reconcile_rest-IsGood rest (ok _, d) keep g = keep d g
  reconcile_rest-IsGood rest (err e, d) keep g = g

  pub reconcile_all-IsGood :
      (d : Draft) (ls : List AppListener)
      → IsGood r app d
      → IsGood r app (reconcile_all binds app existing d ls).1
  unfolding reconcile_all
  reconcile_all-IsGood d [] g = g
  reconcile_all-IsGood d (l ∷ ls) g =
      reconcile_rest-IsGood (λ d'. reconcile_all binds app existing d' ls) _
        (λ d' g'. reconcile_all-IsGood d' ls g') (reconcile_one-IsGood d l g)

pub drop_removed-IsGood :
    (r : Registry) (app : String) (eps : Map String ServiceEndpoint) (d : Draft)
    → IsGood r app d
    → IsGood r app (drop_removed eps d)
unfolding drop_removed
drop_removed-IsGood r app [] d g = g
drop_removed-IsGood r app ((n, ep) ∷ eps) d g = elim (Bool-cases (contains n d.new_map)) [
  | inl e ↦ rw e (drop_removed-IsGood r app eps d g)
  | inr e ↦
      let s = SameBooks-stop_proxy d.manager ep in
      rw e (
        drop_removed-IsGood r app eps _
          (record { same = s.registry ∙ g.same; books = rw s.allocator g.books }))
]

close_reconcile-IsConsistent :
    (r : Registry) (app : String) (existing : Map String ServiceEndpoint) (o : Outcome)
    → IsGood r app o.1
    → IsConsistent (close_reconcile app existing o).1
unfolding close_reconcile
close_reconcile-IsConsistent r app existing (err e, d) g =
    rw g.same (Books-subset (λ a n p o. inl o) (λ a n p o. inl o) g.books)
close_reconcile-IsConsistent r app existing (ok _, d) g =
    let d' = drop_removed existing d in
    let g' = drop_removed-IsGood r app existing d g in
    rw g'.same (
      Books-subset (Owns-insert host_of r app d'.new_map) (Owns-insert public_of r app d'.new_map)
        g'.books)

pub start_draft-IsGood :
    (m : ServiceManager) (app : String) → IsConsistent m → IsGood m.registry app (start_draft m)
unfolding start_draft
start_draft-IsGood m app k = record {
  same = refl;
  books =
      Books-subset (OwnsWith-empty host_of m.registry app) (OwnsWith-empty public_of m.registry app)
        k;
}

pub reconcile-IsConsistent :
    (binds : ℕ → Bool) (m : ServiceManager) (app : String) (ls : List AppListener)
    → IsConsistent m
    → IsConsistent (reconcile binds m app ls).1
unfolding reconcile
reconcile-IsConsistent binds m app ls k =
    close_reconcile-IsConsistent m.registry app _ _
      (reconcile_all-IsGood m.registry binds app (start_draft m) ls (start_draft-IsGood m app k))
