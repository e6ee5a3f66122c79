-- ===== src/Services/Manager/Consistency/Removal.antt =====
-- manager.go, RemoveApp, against the invariant of the service manager.
use piccolod.Common.{
  ℕ, String, ◌≡◌, ◌≢◌, ◌≤◌, ◌∙◌, refl, sym, inl, inr, [], ◌∷◌, Option-cases, arith, Eq-string,
  Eq-nat,
}
use piccolod.Common.Map.{Map, Holds, lookup, delete, lookup-Holds}
use piccolod.Services.Allocator.{Ports, PortAllocator, release}
use piccolod.Services.Allocator.Pairs.{release-Drops}
use piccolod.Services.Types.{ServiceEndpoint}
use piccolod.Services.Manager.{
  ServiceManager, Registry, release_endpoint, release_endpoints, remove_app,
}
use piccolod.Services.Manager.Ledger.{Owners, Ledger, Ledger-drop}
use piccolod.Services.Manager.Entries.{Registered, Registered-delete, Owns, host_of, public_of}
use piccolod.Services.Manager.Consistency.{IsConsistent, Books, Books-subset, SameBooks-stop_proxy}

-- Nobody among the owners has the port.
abbrev Unowned : Owners → ℕ → Type 0
Unowned H port = (a n : String) (p : ℕ) → H a n p → p ≢ port

-- What RemoveApp asks of an endpoint that it releases, beside the owners that stay.
record Loose (a : PortAllocator) (H P : Owners) (ep : ServiceEndpoint) : Type 0 where
  host_range : a.host.start ≤ ep.host_bind
  public_range : a.public.start ≤ ep.public_port
  host_unowned : Unowned H ep.host_bind
  public_unowned : Unowned P ep.public_port

release-Books :
    {a : PortAllocator} {H P : Owners} (ep : ServiceEndpoint)
    → Loose a H P ep
    → Books a H P
    → Books (release a ep.host_bind ep.public_port) H P
release-Books {a} ep f k =
    let (dh, dp) = release-Drops a ep.host_bind ep.public_port in
    record {
      host = Ledger-drop ep.host_bind dh f.host_range f.host_unowned k.host;
      public = Ledger-drop ep.public_port dp f.public_range f.public_unowned k.public;
    }

Loose-release :
    {a : PortAllocator} {H P : Owners} (h p : ℕ) (ep : ServiceEndpoint)
    → Loose a H P ep
    → Loose (release a h p) H P ep
Loose-release {a} h p ep f =
    let (dh, dp) = release-Drops a h p in
    record {
      host_range = ground (arith, dh.same_range, f.host_range);
      public_range = ground (arith, dp.same_range, f.public_range);
      host_unowned = f.host_unowned;
      public_unowned = f.public_unowned;
    }

pub release_endpoint-allocator :
    (m : ServiceManager) (ep : ServiceEndpoint)
    → (release_endpoint m ep).allocator ≡ release m.allocator ep.host_bind ep.public_port
unfolding release_endpoint
release_endpoint-allocator m ep = (SameBooks-stop_proxy _ ep).allocator

release_endpoints-Books :
    {H P : Owners} (m : ServiceManager) (eps : Map String ServiceEndpoint)
    → ((n : String) (e : ServiceEndpoint) → Holds n e eps → Loose m.allocator H P e)
    → Books m.allocator H P
    → Books (release_endpoints m eps).allocator H P
unfolding release_endpoints
release_endpoints-Books m [] f k = k
release_endpoints-Books m ((n, ep) ∷ eps) f k =
    release_endpoints-Books (release_endpoint m ep) eps
      (λ j e h.
        rw (release_endpoint-allocator m ep)
          (Loose-release ep.host_bind ep.public_port e (f j e (inr h))))
      (rw (release_endpoint-allocator m ep) (release-Books ep (f n ep (inl (refl, refl))) k))

pub release_endpoints-registry :
    (m : ServiceManager) (eps : Map String ServiceEndpoint)
    → (release_endpoints m eps).registry ≡ m.registry
unfolding release_endpoints release_endpoint
release_endpoints-registry m [] = refl
release_endpoints-registry m ((n, ep) ∷ eps) =
    release_endpoints-registry (release_endpoint m ep) eps ∙ (SameBooks-stop_proxy _ ep).registry

Owns-delete :
    (port : ServiceEndpoint → ℕ) (r : Registry) (app a n : String) (p : ℕ)
    → Owns port (delete app r) a n p
    → Owns port r a n p × (a ≢ app)
Owns-delete port r app a n p (e, h, q) =
    let (h', ne) = Registered-delete r app a n e h in ((e, h', q), ne)

Owns-Unowned :
    (port : ServiceEndpoint → ℕ) {s : Ports} (r : Registry) (app n : String) (e : ServiceEndpoint)
    → Ledger s (Owns port r)
    → Registered r app n e
    → Unowned (Owns port (delete app r)) (port e)
Owns-Unowned port r app n e l h b k p o same =
    let (o', ne) = Owns-delete port r app b k p o in
    ne ((l.unique b k app n p o' (e, h, sym same)).0)

Registered-Loose :
    (m : ServiceManager) (app n : String) (e : ServiceEndpoint)
    → IsConsistent m
    → Registered m.registry app n e
    → Loose m.allocator
        (Owns host_of (delete app m.registry))
        (Owns public_of (delete app m.registry))
        e
Registered-Loose m app n e k h = record {
  host_range = (k.host.well.inside e.host_bind (k.host.used app n e.host_bind (e, h, refl))).0;
  public_range =
      (k.public.well.inside e.public_port (k.public.used app n e.public_port (e, h, refl))).0;
  host_unowned = Owns-Unowned host_of m.registry app n e k.host h;
  public_unowned = Owns-Unowned public_of m.registry app n e k.public h;
}

without_app :
    (m : ServiceManager) (app : String) {a : PortAllocator}
    → Books a (Owns host_of m.registry) (Owns public_of m.registry)
    → Books a (Owns host_of (delete app m.registry)) (Owns public_of (delete app m.registry))
without_app m app =
    Books-subset (λ a n p o. (Owns-delete host_of m.registry app a n p o).0)
      (λ a n p o. (Owns-delete public_of m.registry app a n p o).0)

pub remove_app-IsConsistent :
    (m : ServiceManager) (app : String) → IsConsistent m → IsConsistent (remove_app m app)
unfolding remove_app
remove_app-IsConsistent m app k = elim (Option-cases (lookup app m.registry)) [
  | inl e ↦ rw (e, remove_app) k
  | inr (eps, e) ↦
      rw (e, remove_app, release_endpoints-registry m eps)
        (release_endpoints-Books m eps
          (λ n ep h. Registered-Loose m app n ep k (eps, lookup-Holds app eps m.registry e, h))
          (without_app m app k))
]
