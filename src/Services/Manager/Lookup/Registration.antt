-- ===== src/Services/Manager/Lookup/Registration.antt =====
-- manager.go, AllocateForApp: which listeners are registered afterwards.
use piccolod.Common.{
  ℕ, ◌≡◌, refl, sym, ap, ◌∙◌, inl, inr, String, Bool, true, false, ◌&&◌, subst, Option, none, some,
  List, [], ◌∷◌, ◌++◌, Result, ok, err, Eq-string, ◌==◌, Eq-cases, arith, if◌then◌else◌,
}
use piccolod.Common.Map.{lookup, insert, lookup-insert}
use piccolod.Api.{AppListener}
use piccolod.Services.Allocator.{PortAllocator, PortError, allocate_pair}
use piccolod.Services.Types.{ServiceEndpoint, new_endpoint}
use piccolod.Services.Manager.{
  ServiceManager, Registry, listeners_of, put_endpoint, add_endpoint, register_next, register_all,
  start_proxy, start_proxies, start_if_ok, allocate_for_app,
}
use piccolod.Services.Manager.Consistency.{SameBooks-start_proxy}
use piccolod.Services.Manager.Lookup.{get_app_listener, get_app_listener-listeners_of}
use piccolod.Services.Manager.Asked.{
  Follows, Puts, Puts-one, Puts-cons, last_named, new_endpoint-Follows,
}

-- The endpoint of an app that has the name and the settings of a listener.
pub record Serves (app : String) (l : AppListener) (ep : ServiceEndpoint) : Type 0 where
  pub app_name : ep.app ≡ app
  pub name : ep.name ≡ l.name
  pub follows : Follows l ep

-- The listeners of `done` are registered for the app, and nothing else has changed.
abbrev pub Adds : ServiceManager → ServiceManager → String → List AppListener → Type 0
Adds m m' app done =
    (a n : String)
    → Puts (Serves app) (if a == app then last_named n done else none) (get_app_listener m a n)
        (get_app_listener m' a n)

-- One endpoint for each listener.
abbrev pub AllServe : String → List AppListener → List ServiceEndpoint → Type 0
AllServe app [] [] = Unit
AllServe app (l ∷ ls) (ep ∷ eps) = Serves app l ep × AllServe app ls eps
AllServe app _ _ = ⊥

-- All listeners are registered and their endpoints returned, in order; or one of them failed, and those
-- before it are registered.
abbrev pub Registers :
    ServiceManager
    → String
    → List AppListener
    → Result PortError (List ServiceEndpoint) × ServiceManager
    → Type 0
Registers m app ls (ok eps, m') = AllServe app ls eps × Adds m m' app ls
Registers m app ls (err e, m') =
    (done : List AppListener) × (l : AppListener) × (rest : List AppListener) × (ls
      ≡ done ++ l ∷ rest)
    × Adds m m' app done

new_endpoint-Serves :
    (app : String) (l : AppListener) (hb pp : ℕ) → Serves app l (new_endpoint app l hb pp)
unfolding new_endpoint
new_endpoint-Serves app l hb pp = record {
  app_name = refl;
  name = refl;
  follows = new_endpoint-Follows app l hb pp;
}

put_endpoint-lookup :
    (r : Registry) (app : String) (ep : ServiceEndpoint) (a n : String)
    → lookup n (listeners_of (put_endpoint r app ep) a)
      ≡ (if a == app && n == ep.name then some ep else lookup n (listeners_of r a))
unfolding put_endpoint listeners_of
put_endpoint-lookup r app ep a n =
    let inner = lookup-insert ep.name n ep (listeners_of r app) in
    let outer = lookup-insert app a (insert ep.name ep (listeners_of r app)) r in
    elim (Eq-cases a app) [
      | inl (p, q) ↦ ground (arith, p, q, inner, outer)
      | inr (p, q) ↦ ground (arith, q, outer)
    ]

added :
    (m : ServiceManager) (a' : PortAllocator) (app : String) (l : AppListener) (hb pp : ℕ)
    → let ep = new_endpoint app l hb pp in
      Adds m (record m { allocator = a'; registry = put_endpoint m.registry app ep }) app (l ∷ [])
unfolding new_endpoint
added m a' app l hb pp a n =
    let ep = new_endpoint app l hb pp in
    let m' : ServiceManager = record m {
      allocator = a';
      registry = put_endpoint m.registry app ep;
    } in
    let found : get_app_listener m' a n
        ≡ (if a == app && n == l.name then some ep else get_app_listener m a n) =
      get_app_listener-listeners_of m' a n
      ∙ put_endpoint-lookup m.registry app ep a n
      ∙ ap (λ x. if a == app && n == l.name then some ep else x)
          (sym (get_app_listener-listeners_of m a n)) in
    by_app (a == app) n l ep (get_app_listener m a n) (get_app_listener m' a n) found
      (new_endpoint-Serves app l hb pp)
  where
    by_app :
        (b : Bool) (n : String) (l : AppListener) (ep : ServiceEndpoint)
        (x y : Option ServiceEndpoint)
        → y ≡ (if b && n == l.name then some ep else x)
        → Serves app l ep
        → Puts (Serves app) (if b then last_named n (l ∷ []) else none) x y
    by_app true n l ep x y e p = Puts-one (Serves app) n l ep x y e p
    by_app false n l ep x y e p = e

Adds-cons :
    (m m1 m' : ServiceManager) (app : String) (l : AppListener) (done : List AppListener)
    → Adds m m1 app (l ∷ [])
    → Adds m1 m' app done
    → Adds m m' app (l ∷ done)
Adds-cons m m1 m' app l done f g a n =
    by_app (a == app) (get_app_listener m a n) (get_app_listener m1 a n) (get_app_listener m' a n)
      (f a n) (g a n)
  where
    by_app :
        (b : Bool) (x y z : Option ServiceEndpoint)
        → Puts (Serves app) (if b then last_named n (l ∷ []) else none) x y
        → Puts (Serves app) (if b then last_named n done else none) y z
        → Puts (Serves app) (if b then last_named n (l ∷ done) else none) x z
    by_app true x y z p q = Puts-cons (Serves app) n l done x y z p q
    by_app false x y z p q = q ∙ p

add_endpoint-Registers :
    (m m1 : ServiceManager) (app : String) (l : AppListener) (ls : List AppListener)
    (ep : ServiceEndpoint) (o : Result PortError (List ServiceEndpoint) × ServiceManager)
    → Serves app l ep
    → Adds m m1 app (l ∷ [])
    → Registers m1 app ls o
    → Registers m app (l ∷ ls) (add_endpoint ep o)
unfolding add_endpoint
add_endpoint-Registers m m1 app l ls ep (ok eps, m') serves f (all, g) =
    ((serves, all), Adds-cons m m1 m' app l ls f g)
add_endpoint-Registers m m1 app l ls ep (err e, m') serves f (done, bad, rest, same, g) =
    (l ∷ done, bad, rest, ap (◌∷◌ l) same, Adds-cons m m1 m' app l done f g)

nothing_added :
    (app : String) (b : Bool) (n : String) (x y : Option ServiceEndpoint)
    → y ≡ x
    → Puts (Serves app) (if b then last_named n [] else none) x y
nothing_added app true n x y e = e
nothing_added app false n x y e = e

same_registry :
    (m m' : ServiceManager)
    → m'.registry ≡ m.registry
    → (a n : String) → get_app_listener m' a n ≡ get_app_listener m a n
same_registry m m' same a n =
    get_app_listener-listeners_of m' a n
    ∙ (ap (λ r. lookup n (listeners_of r a)) same ∙ sym (get_app_listener-listeners_of m a n))

register_next-Registers :
    (m : ServiceManager) (app : String) (l : AppListener) (ls : List AppListener)
    (rest : ServiceManager → Result PortError (List ServiceEndpoint) × ServiceManager)
    (r : Result PortError (ℕ × ℕ) × PortAllocator)
    → ((m1 : ServiceManager) → Registers m1 app ls (rest m1))
    → Registers m app (l ∷ ls) (register_next rest m app l r)
unfolding register_next new_endpoint
register_next-Registers m app l ls rest (err e, a) ih = (
  [],
  l,
  ls,
  refl,
  λ b n. nothing_added app (b == app) n _ _ (same_registry m (record m { allocator = a }) refl b n),
)
register_next-Registers m app l ls rest (ok (hb, pp), a) ih =
    let ep = new_endpoint app l hb pp in
    let m1 : ServiceManager = record m {
      allocator = a;
      registry = put_endpoint m.registry app ep;
    } in
    add_endpoint-Registers m m1 app l ls ep (rest m1) (new_endpoint-Serves app l hb pp)
      (added m a app l hb pp) (ih m1)

register_all-Registers :
    (m : ServiceManager) (app : String) (ls : List AppListener)
    → Registers m app ls (register_all m app ls)
unfolding register_all
register_all-Registers m app [] = (tt, λ a n. nothing_added app (a == app) n _ _ refl)
register_all-Registers m app (l ∷ ls) =
    register_next-Registers m app l ls (λ m1. register_all m1 app ls) (allocate_pair m.allocator)
      (λ m1. register_all-Registers m1 app ls)

start_proxies-registry :
    (binds : ℕ → Bool) (m : ServiceManager) (eps : List ServiceEndpoint)
    → (start_proxies binds m eps).registry ≡ m.registry
unfolding start_proxies
start_proxies-registry binds m [] = refl
start_proxies-registry binds m (ep ∷ eps) =
    start_proxies-registry binds (start_proxy binds m ep) eps
    ∙ (SameBooks-start_proxy binds m ep).registry

start_if_ok-Registers :
    (binds : ℕ → Bool) (m : ServiceManager) (app : String) (ls : List AppListener)
    (o : Result PortError (List ServiceEndpoint) × ServiceManager)
    → Registers m app ls o
    → Registers m app ls (start_if_ok binds o)
unfolding start_if_ok
start_if_ok-Registers binds m app ls (ok eps, m') (same, g) = (
  same,
  λ a n.
      subst
        (Puts (Serves app) (if a == app then last_named n ls else none) (get_app_listener m a n))
        (sym
          (same_registry m' (start_proxies binds m' eps) (start_proxies-registry binds m' eps) a n))
        (g a n),
)
start_if_ok-Registers binds m app ls (err e, m') h = h

-- AllocateForApp returns one endpoint for each listener that it is given, in their order, with the name
-- and all the settings of the listener; under each of their names the app then has an endpoint with the
-- settings of the last listener of that name; and every other name, and every other app, is left with
-- exactly what it had. Or it fails at one of the listeners, and this holds of those before it.
pub allocate_for_app-Registers :
    (binds : ℕ → Bool) (m : ServiceManager) (app : String) (ls : List AppListener)
    → Registers m app ls (allocate_for_app binds m app ls)
unfolding allocate_for_app
allocate_for_app-Registers binds m app ls =
    start_if_ok-Registers binds m app ls (register_all m app ls) (register_all-Registers m app ls)
