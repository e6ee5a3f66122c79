-- ===== src/Services/Manager/Consistency/Release.antt =====
-- manager.go, RemoveApp: what it does to the registry and to the ports of the app.
use piccolod.Common.{
  ℕ, String, ◌≡◌, ◌<◌, inl, inr, [], ◌∷◌, none, some, Option-cases, arith, nat_eq_iff, Eq-string,
  Eq-nat, ◌==◌, if◌then◌else◌, subst, eq_iff,
}
use piccolod.Common.Map.{Map, Holds, lookup, lookup-Holds, lookup-delete}
use piccolod.Services.Allocator.{Ports, PortAllocator}
use piccolod.Services.Allocator.Scan.{IsFree}
use piccolod.Services.Allocator.Pairs.{Drops, release-Drops}
use piccolod.Services.Types.{ServiceEndpoint}
use piccolod.Services.Manager.{ServiceManager, release_endpoint, release_endpoints, remove_app}
use piccolod.Services.Manager.Lookup.{get_app_listener}
use piccolod.Services.Manager.Consistency.Removal.{
  release_endpoint-allocator, release_endpoints-registry,
}

Drops-IsFree_self : (s t : Ports) (port : ℕ) → Drops s t port → 0 < port → IsFree t port
Drops-IsFree_self s t port d h = ground (arith, d.cleared port, nat_eq_iff port port)

Drops-IsFree_stays : (s t : Ports) (port q : ℕ) → Drops s t port → IsFree s q → IsFree t q
Drops-IsFree_stays s t port q d f = ground (arith, d.cleared q)

-- Both ports are free.
record BothFree (a : PortAllocator) (h p : ℕ) : Type 0 where
  host : IsFree a.host h
  public : IsFree a.public p

release_endpoint-stays :
    (m : ServiceManager) (ep : ServiceEndpoint) (h p : ℕ)
    → BothFree m.allocator h p
    → BothFree (release_endpoint m ep).allocator h p
release_endpoint-stays m ep h p f =
    let (dh, dp) = release-Drops m.allocator ep.host_bind ep.public_port in
    rw (release_endpoint-allocator m ep) (record {
      host = Drops-IsFree_stays m.allocator.host _ ep.host_bind h dh f.host;
      public = Drops-IsFree_stays m.allocator.public _ ep.public_port p dp f.public;
    })

release_endpoint-frees :
    (m : ServiceManager) (ep : ServiceEndpoint)
    → 0 < ep.host_bind
    → 0 < ep.public_port
    → BothFree (release_endpoint m ep).allocator ep.host_bind ep.public_port
release_endpoint-frees m ep h p =
    let (dh, dp) = release-Drops m.allocator ep.host_bind ep.public_port in
    rw (release_endpoint-allocator m ep) (record {
      host = Drops-IsFree_self m.allocator.host _ ep.host_bind dh h;
      public = Drops-IsFree_self m.allocator.public _ ep.public_port dp p;
    })

release_endpoints-stays :
    (m : ServiceManager) (eps : Map String ServiceEndpoint) (h p : ℕ)
    → BothFree m.allocator h p
    → BothFree (release_endpoints m eps).allocator h p
unfolding release_endpoints
release_endpoints-stays m [] h p f = f
release_endpoints-stays m ((n, ep) ∷ eps) h p f =
    release_endpoints-stays (release_endpoint m ep) eps h p (release_endpoint-stays m ep h p f)

release_endpoints-frees :
    (m : ServiceManager) (eps : Map String ServiceEndpoint) (n : String) (e : ServiceEndpoint)
    → Holds n e eps
    → 0 < e.host_bind
    → 0 < e.public_port
    → BothFree (release_endpoints m eps).allocator e.host_bind e.public_port
unfolding release_endpoints
release_endpoints-frees m [] n e x h p = absurd x
release_endpoints-frees m ((k, ep) ∷ eps) n e (inl (u, v)) h p =
    release_endpoints-stays (release_endpoint m ep) eps e.host_bind e.public_port (
      rw v (
        release_endpoint-frees m ep (subst (λ (x : ServiceEndpoint). 0 < x.host_bind) v h)
          (subst (λ (x : ServiceEndpoint). 0 < x.public_port) v p)))
release_endpoints-frees m ((k, ep) ∷ eps) n e (inr x) h p =
    release_endpoints-frees (release_endpoint m ep) eps n e x h p

-- RemoveApp takes all listeners of the app out of the registry and leaves those of the other apps as
-- they were.
pub remove_app-listener :
    (m : ServiceManager) (app a n : String)
    → get_app_listener (remove_app m app) a n ≡ (if a == app then none else get_app_listener m a n)
unfolding get_app_listener remove_app
remove_app-listener m app a n = elim (Option-cases (lookup app m.registry)) [
  | inl e ↦ rw (e, remove_app) (ground (arith, e, eq_iff a app))
  | inr (eps, e) ↦
      rw (e, remove_app, release_endpoints-registry m eps)
        (ground (arith, lookup-delete app a m.registry))
]

remove_app-BothFree :
    (m : ServiceManager) (app n : String) (e : ServiceEndpoint)
    → get_app_listener m app n ≡ some e
    → 0 < e.host_bind
    → 0 < e.public_port
    → BothFree (remove_app m app).allocator e.host_bind e.public_port
unfolding get_app_listener remove_app
remove_app-BothFree m app n e q h p = elim (Option-cases (lookup app m.registry)) [
  | inl x ↦ absurd (ground (arith, x))
  | inr (eps, x) ↦
      rw (x, remove_app)
        (release_endpoints-frees m eps n e (lookup-Holds n e eps (ground (arith, x))) h p)
]

-- The host and the public port of a listener of an app, where neither is 0, are free in the
-- allocator after RemoveApp.
pub remove_app-frees :
    (m : ServiceManager) (app n : String) (e : ServiceEndpoint)
    → get_app_listener m app n ≡ some e
    → 0 < e.host_bind
    → 0 < e.public_port
    → IsFree (remove_app m app).allocator.host e.host_bind
      × IsFree (remove_app m app).allocator.public e.public_port
remove_app-frees m app n e q h p =
    let free = remove_app-BothFree m app n e q h p in (free.host, free.public)
