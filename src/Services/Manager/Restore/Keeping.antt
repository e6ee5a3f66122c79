-- ===== src/Services/Manager/Restore/Keeping.antt =====
-- manager.go, RestoreFromPodman, against the invariant of the service manager.
use piccolod.Common.{
  ℕ, String, ◌≡◌, ◌∙◌, subst, ap, inl, inr, Bool, List, [], ◌∷◌, Option-cases, Result, ok, err,
  Eq-string,
}
use piccolod.Common.Int.{ℤ, Eq-int}
use piccolod.Common.Map.{Map, lookup}
use piccolod.Api.{AppListener}
use piccolod.Services.Allocator.{PortAllocator, PortError, reserve_host, allocate_public, free_host}
use piccolod.Services.Allocator.Grants.{Grants, Frees}
use piccolod.Services.Allocator.Pairs.{
  Grants-Frees, ReservesHost, reserve_host-ReservesHost, AllocatesPublic,
  allocate_public-AllocatesPublic, free_host-Frees,
}
use piccolod.Services.Types.{ServiceEndpoint, new_endpoint}
use piccolod.Services.Manager.{ServiceManager, Registry, remove_app, start_proxy, notify_publish}
use piccolod.Services.Manager.Ledger.{OrNew, Ledger-grant, Ledger-restore, Ledger-same}
use piccolod.Services.Manager.Entries.{
  Owns, OwnsWith, OwnsWith-empty, OwnsWith-insert, Owns-insert, host_of, public_of,
}
use piccolod.Services.Manager.Restore.{
  Restored, add_restored, with_allocator, restore_public, restore_reserved, restore_one,
  restore_rest, restore_all, register_restored, close_restore, restore_from_podman,
}
use piccolod.Services.Manager.Consistency.{
  IsConsistent, Books, Books-subset, SameBooks, SameBooks-start_proxy, SameBooks-notify_publish,
}
use piccolod.Services.Manager.Consistency.Removal.{remove_app-IsConsistent}

-- The invariant of the loop: what it has built counts as registered.
abbrev BooksWith : PortAllocator → Registry → String → Map String ServiceEndpoint → Type 0
BooksWith a r app eps = Books a (OwnsWith host_of r app eps) (OwnsWith public_of r app eps)

abbrev IsGood : String → Restored → Type 0
IsGood app d = BooksWith d.manager.allocator d.manager.registry app d.eps

abbrev Outcome : Type 0
Outcome = Result PortError (Unit {0}) × Restored

published_twice :
    (binds : ℕ → Bool) (m : ServiceManager) (ep : ServiceEndpoint) (port : ℕ)
    → SameBooks m (notify_publish (start_proxy binds m ep) port)
published_twice binds m ep port =
    let s = SameBooks-start_proxy binds m ep in
    let t = SameBooks-notify_publish (start_proxy binds m ep) port in
    record { allocator = t.allocator ∙ s.allocator; registry = t.registry ∙ s.registry }

add_restored-IsGood :
    (binds : ℕ → Bool) (app : String) (d : Restored) (ep : ServiceEndpoint)
    → Books d.manager.allocator
        (OrNew (OwnsWith host_of d.manager.registry app d.eps) app ep.name ep.host_bind)
        (OrNew (OwnsWith public_of d.manager.registry app d.eps) app ep.name ep.public_port)
    → IsGood app (add_restored binds d ep)
unfolding add_restored
add_restored-IsGood binds app d ep k =
    let s = published_twice binds d.manager ep ep.public_port in
    rw (s.allocator, s.registry)
      (Books-subset (OwnsWith-insert host_of d.manager.registry app d.eps ep.name ep)
        (OwnsWith-insert public_of d.manager.registry app d.eps ep.name ep) k)

restore_public-IsGood :
    (binds : ℕ → Bool) (d : Restored) (app : String) (l : AppListener) (host : ℕ)
    (b : PortAllocator) (r : Result PortError ℕ × PortAllocator)
    → Grants d.manager.allocator.host b.host host
    → b.public ≡ d.manager.allocator.public
    → AllocatesPublic b r
    → IsGood app d
    → IsGood app (restore_public binds d app l host r).1
unfolding restore_public with_allocator new_endpoint
restore_public-IsGood binds d app l host b (ok pp, a) g same (gp, eh) k =
    add_restored-IsGood binds app (with_allocator d a) (new_endpoint app l host pp) (record {
      host = Ledger-same eh (Ledger-grant app l.name host g k.host);
      public = Ledger-grant app l.name pp (subst (λ s. Grants s a.public pp) same gp) k.public;
    })
restore_public-IsGood binds d app l host b (err e, a) g same q k =
    let (f, eq) = free_host-Frees a host in
    record {
      host =
          Ledger-restore
            (Grants-Frees _ _ _ host g (
              subst (λ s. Frees s (free_host a host).host host)
                (ap (λ (c : PortAllocator). c.host) q) f))
            k.host;
      public = Ledger-same (eq ∙ ap (λ (c : PortAllocator). c.public) q ∙ same) k.public;
    }

restore_reserved-IsGood :
    (binds : ℕ → Bool) (d : Restored) (app : String) (l : AppListener) (host : ℕ)
    (r : Result PortError PortAllocator)
    → ReservesHost d.manager.allocator host r
    → IsGood app d
    → IsGood app (restore_reserved binds d app l host r).1
unfolding restore_reserved
restore_reserved-IsGood binds d app l host (err e) g k = k
restore_reserved-IsGood binds d app l host (ok b) g k =
    restore_public-IsGood binds d app l host b (allocate_public b) g.0 g.1
      (allocate_public-AllocatesPublic b (rw g.1 k.public.well)) k

restore_one-IsGood :
    (binds : ℕ → Bool) (host_by_guest : Map ℤ ℕ) (d : Restored) (app : String) (l : AppListener)
    → IsGood app d
    → IsGood app (restore_one binds host_by_guest d app l).1
unfolding restore_one
restore_one-IsGood binds host_by_guest d app l k =
    elim (Option-cases (lookup l.guest_port host_by_guest)) [
      | inl e ↦ rw (e, restore_one) k
      | inr (host, e) ↦
          rw (e, restore_one)
            (restore_reserved-IsGood binds d app l host (reserve_host d.manager.allocator host)
              (reserve_host-ReservesHost d.manager.allocator host) k)
    ]

restore_rest-IsGood :
    (app : String) (rest : Restored → Outcome) (o : Outcome)
    → ((d : Restored) → IsGood app d → IsGood app (rest d).1)
    → IsGood app o.1
    → IsGood app (restore_rest rest o).1
unfolding restore_rest
restore_rest-IsGood app rest (ok _, d) keep k = keep d k
restore_rest-IsGood app rest (err e, d) keep k = k

restore_all-IsGood :
    (binds : ℕ → Bool) (host_by_guest : Map ℤ ℕ) (d : Restored) (app : String)
    (ls : List AppListener)
    → IsGood app d
    → IsGood app (restore_all binds host_by_guest d app ls).1
unfolding restore_all
restore_all-IsGood binds host_by_guest d app [] k = k
restore_all-IsGood binds host_by_guest d app (l ∷ ls) k =
    restore_rest-IsGood app (λ d'. restore_all binds host_by_guest d' app ls) _
      (λ d' k'. restore_all-IsGood binds host_by_guest d' app ls k')
      (restore_one-IsGood binds host_by_guest d app l k)

forget_draft :
    {a : PortAllocator} (r : Registry) (app : String) (eps : Map String ServiceEndpoint)
    → BooksWith a r app eps
    → Books a (Owns host_of r) (Owns public_of r)
forget_draft r app eps = Books-subset (λ a n p o. inl o) (λ a n p o. inl o)

register_restored-IsConsistent :
    (app : String) (eps : Map String ServiceEndpoint) (m : ServiceManager)
    → BooksWith m.allocator m.registry app eps
    → IsConsistent (register_restored app eps m)
unfolding register_restored
register_restored-IsConsistent app [] m k = forget_draft m.registry app [] k
register_restored-IsConsistent app (x ∷ eps) m k =
    Books-subset (Owns-insert host_of m.registry app (x ∷ eps))
      (Owns-insert public_of m.registry app (x ∷ eps)) k

close_restore-IsConsistent :
    (app : String) (o : Outcome) → IsGood app o.1 → IsConsistent (close_restore app o).2
unfolding close_restore
close_restore-IsConsistent app (ok _, d) k = register_restored-IsConsistent app d.eps d.manager k
close_restore-IsConsistent app (err e, d) k = forget_draft d.manager.registry app d.eps k

pub restore_from_podman-IsConsistent :
    (binds : ℕ → Bool) (m : ServiceManager) (app : String) (ls : List AppListener)
    (host_by_guest : Map ℤ ℕ)
    → IsConsistent m
    → IsConsistent (restore_from_podman binds m app ls host_by_guest).2
unfolding restore_from_podman
restore_from_podman-IsConsistent binds m app ls host_by_guest k =
    let start : Restored = record { manager = remove_app m app; endpoints = []; eps = [] } in
    close_restore-IsConsistent app (restore_all binds host_by_guest start app ls) (
      restore_all-IsGood binds host_by_guest start app ls (
        Books-subset (OwnsWith-empty host_of (remove_app m app).registry app)
          (OwnsWith-empty public_of (remove_app m app).registry app)
          (remove_app-IsConsistent m app k)))
