-- ===== src/Services/Manager/Reconcile/Names.antt =====
-- manager.go, Reconcile: which listeners an app has afterwards, and with which ports.
use piccolod.Common.{
  ℕ, String, ◌≡◌, ◌∙◌, refl, subst, sym, ap, inl, inr, Bool, true, false, List, [], ◌∷◌, map, elem,
  none, some, is_some, Option-cases, Bool-cases, Result, ok, err, Eq-string, Eq-cases, arith,
  beq_refl,
}
use piccolod.Common.Map.{Map, lookup, insert, contains, lookup-insert}
use piccolod.Api.{AppListener}
use piccolod.Services.Allocator.{PortAllocator, PortError, allocate_pair}
use piccolod.Services.Types.{ServiceEndpoint, new_endpoint}
use piccolod.Services.Manager.{ServiceManager, Registry, listeners_of}
use piccolod.Services.Manager.Lookup.{get_app_listener, get_app_listener-listeners_of}
use piccolod.Services.Manager.Asked.{
  Follows, Puts, Puts-one, Puts-cons, Puts-new, asked_names, Mirrors, last_named,
  new_endpoint-Follows, reconfigure-Follows,
}
use piccolod.Services.Manager.Reconcile.{
  Draft, ReconcileResult, reconfigure, note_guest_port, restart_proxy, proxy_changed, reuse_ports,
  new_ports, reconcile_one, reconcile_rest, reconcile_all, drop_removed, close_reconcile, reconcile,
  start_draft,
}

abbrev pub names : List AppListener → List String
names ls = map (λ l. l.name) ls

abbrev Outcome : Type 0
Outcome = Result PortError (Unit {0}) × Draft

abbrev pub SamePorts : ServiceEndpoint → ServiceEndpoint → Type 0
SamePorts e old = (e.host_bind ≡ old.host_bind) × (e.public_port ≡ old.public_port)

-- An endpoint under a name that the app had has the ports that it had.
abbrev Faithful : Map String ServiceEndpoint → Map String ServiceEndpoint → Type 0
Faithful existing eps =
    (n : String) (e old : ServiceEndpoint)
    → lookup n eps ≡ some e
    → lookup n existing ≡ some old
    → SamePorts e old

-- One round puts one endpoint into the map, under the listener's name.
record Adds (existing : Map String ServiceEndpoint) (d d' : Draft) (l : AppListener) : Type 0 where
  ep : ServiceEndpoint
  new_map : d'.new_map ≡ insert l.name ep d.new_map
  same_ports : (old : ServiceEndpoint) → lookup l.name existing ≡ some old → SamePorts ep old
  follows : Follows l ep

note_guest_port-new_map :
    (app : String) (old : ServiceEndpoint) (l : AppListener) (d : Draft)
    → (note_guest_port app old l d).new_map ≡ d.new_map
unfolding note_guest_port
note_guest_port-new_map app old l d = ground arith

restart_proxy-new_map :
    (binds : ℕ → Bool) (b : Bool) (ep : ServiceEndpoint) (d : Draft)
    → (restart_proxy binds b ep d).new_map ≡ d.new_map
unfolding restart_proxy
restart_proxy-new_map binds true ep d = refl
restart_proxy-new_map binds false ep d = refl

reuse_ports-Adds :
    (binds : ℕ → Bool) (app : String) (existing : Map String ServiceEndpoint) (d : Draft)
    (l : AppListener) (old : ServiceEndpoint)
    → lookup l.name existing ≡ some old
    → Adds existing d (reuse_ports binds app d l old) l
unfolding reuse_ports reconfigure
reuse_ports-Adds binds app existing d l old e = record {
  ep = reconfigure old l;
  new_map =
      restart_proxy-new_map binds (proxy_changed old l) (reconfigure old l) _
      ∙ ap (insert l.name (reconfigure old l)) (note_guest_port-new_map app old l d);
  same_ports = λ old' e'. ground (arith, e, e');
  follows = reconfigure-Follows old l;
}

new_ports-Adds :
    (binds : ℕ → Bool) (app : String) (existing : Map String ServiceEndpoint) (d d' : Draft)
    (l : AppListener) (o : Result PortError (ℕ × ℕ) × PortAllocator)
    → lookup l.name existing ≡ none
    → new_ports binds app d l o ≡ (ok tt, d')
    → Adds existing d d' l
unfolding new_ports
new_ports-Adds binds app existing d d' l (err e, a) h q = absurd (ground (arith, q))
new_ports-Adds binds app existing d d' l (ok (hb, pp), a) h q = record {
  ep = new_endpoint app l hb pp;
  new_map = ap (λ (o : Outcome). o.1.new_map) (sym q);
  same_ports = λ old e. absurd (ground (arith, h, e));
  follows = new_endpoint-Follows app l hb pp;
}

module _ (binds : ℕ → Bool) (app : String) (existing : Map String ServiceEndpoint) where
  reconcile_one-Adds :
      (d d' : Draft) (l : AppListener)
      → reconcile_one binds app existing d l ≡ (ok tt, d')
      → Adds existing d d' l
  unfolding reconcile_one
  reconcile_one-Adds d d' l q = elim (Option-cases (lookup l.name existing)) [
    | inl e ↦
        new_ports-Adds binds app existing d d' l (allocate_pair d.manager.allocator) e
          (rw (e, reconcile_one) at q)
    | inr (old, e) ↦
        subst (λ x. Adds existing d x l) (ap (λ (o : Outcome). o.1) (rw (e, reconcile_one) at q))
          (reuse_ports-Adds binds app existing d l old e)
  ]

  Adds-Faithful :
      (d d' : Draft) (l : AppListener)
      → Adds existing d d' l
      → Faithful existing d.new_map
      → Faithful existing d'.new_map
  Adds-Faithful d d' l a f n e old h g =
      let found = ap (lookup n) a.new_map ∙ lookup-insert l.name n a.ep d.new_map in
      elim (Eq-cases n l.name) [
        | inl (p, q) ↦
            let same = a.same_ports old (subst (λ k. lookup k existing ≡ some old) p g) in
            ground (arith, found, same.0, same.1)
        | inr (p, q) ↦ f n e old (ground (arith, found)) g
      ]

  Adds-Puts :
      (d d' : Draft) (l : AppListener) (n : String)
      → Adds existing d d' l
      → Puts Follows (last_named n (l ∷ [])) (lookup n d.new_map) (lookup n d'.new_map)
  Adds-Puts d d' l n a =
      Puts-one Follows n l a.ep (lookup n d.new_map) (lookup n d'.new_map)
        (ap (lookup n) a.new_map ∙ lookup-insert l.name n a.ep d.new_map) a.follows

  -- The whole loop: the listeners are put under their names, and the ports are kept.
  record Loop (d d' : Draft) (ls : List AppListener) : Type 0 where
    faithful : Faithful existing d.new_map → Faithful existing d'.new_map
    puts : (n : String) → Puts Follows (last_named n ls) (lookup n d.new_map) (lookup n d'.new_map)

  reconcile_rest-Loop :
      (d d'' : Draft) (l : AppListener) (ls : List AppListener) (o : Outcome)
      → reconcile_one binds app existing d l ≡ o
      → reconcile_rest (λ d'. reconcile_all binds app existing d' ls) o ≡ (ok tt, d'')
      → ((d' : Draft) → reconcile_all binds app existing d' ls ≡ (ok tt, d'') → Loop d' d'' ls)
      → Loop d d'' (l ∷ ls)
  unfolding reconcile_rest
  reconcile_rest-Loop d d'' l ls (err e, d') q h ih = absurd (ground (arith, h))
  reconcile_rest-Loop d d'' l ls (ok tt, d') q h ih =
      let a = reconcile_one-Adds d d' l q in
      let r = ih d' h in
      record {
        faithful = λ f. r.faithful (Adds-Faithful d d' l a f);
        puts = λ n. Puts-cons Follows n l ls _ _ _ (Adds-Puts d d' l n a) (r.puts n);
      }

  reconcile_all-Loop :
      (d d' : Draft) (ls : List AppListener)
      → reconcile_all binds app existing d ls ≡ (ok tt, d')
      → Loop d d' ls
  unfolding reconcile_all
  reconcile_all-Loop d d' [] q =
      let same = ap (λ (o : Outcome). o.1) q in
      record {
        faithful = λ f. subst (λ (x : Draft). Faithful existing x.new_map) same f;
        puts = λ n. ap (λ (x : Draft). lookup n x.new_map) (sym same);
      }
  reconcile_all-Loop d d'' (l ∷ ls) q =
      reconcile_rest-Loop d d'' l ls (reconcile_one binds app existing d l) refl q
        (λ d' h. reconcile_all-Loop d' d'' ls h)

pub drop_removed-new_map :
    (eps : Map String ServiceEndpoint) (d : Draft) → (drop_removed eps d).new_map ≡ d.new_map
unfolding drop_removed
drop_removed-new_map [] d = refl
drop_removed-new_map ((n, ep) ∷ eps) d = elim (Bool-cases (contains n d.new_map)) [
  | inl e ↦ rw (e, drop_removed) (drop_removed-new_map eps d)
  | inr e ↦ rw (e, drop_removed) (drop_removed-new_map eps _)
]

listeners_of-insert :
    (r : Registry) (app : String) (eps : Map String ServiceEndpoint)
    → listeners_of (insert app eps r) app ≡ eps
unfolding listeners_of
listeners_of-insert r app eps = ground (arith, lookup-insert app app eps r, beq_refl app)

close_reconcile-new_map :
    (app : String) (existing : Map String ServiceEndpoint) (o : Outcome)
    (r : ReconcileResult × Bool)
    → (close_reconcile app existing o).0 ≡ ok r
    → (d : Draft) × (o ≡ (ok tt, d))
      × (listeners_of (close_reconcile app existing o).1.registry app ≡ d.new_map)
unfolding close_reconcile
close_reconcile-new_map app existing (err e, d) r h = absurd (ground (arith, h))
close_reconcile-new_map app existing (ok _, d) r h = (
  d,
  refl,
  listeners_of-insert (drop_removed existing d).manager.registry app
        (drop_removed existing d).new_map
      ∙ drop_removed-new_map existing d,
)

-- What a call that succeeds registers for the app is the map that the loop has built.
pub reconcile-new_map :
    (binds : ℕ → Bool) (m : ServiceManager) (app : String) (ls : List AppListener)
    (r : ReconcileResult × Bool)
    → (reconcile binds m app ls).0 ≡ ok r
    → (d : Draft) × (reconcile_all binds app (listeners_of m.registry app) (start_draft m) ls
        ≡ (ok tt, d))
      × (listeners_of (reconcile binds m app ls).1.registry app ≡ d.new_map)
unfolding reconcile
reconcile-new_map binds m app ls r h =
    close_reconcile-new_map app (listeners_of m.registry app) _ r h

-- After a Reconcile that succeeds, the app has a listener under a name exactly if one of that name was
-- asked for, and it has the guest port, the flow, the protocol, the middleware and the remote ports of
-- the last one that was asked for under the name (the ports of the web, if that names no remote ports).
pub reconcile-asked_for :
    (binds : ℕ → Bool) (m : ServiceManager) (app : String) (ls : List AppListener)
    (r : ReconcileResult × Bool) (name : String)
    → (reconcile binds m app ls).0 ≡ ok r
    → Mirrors (last_named name ls) (get_app_listener (reconcile binds m app ls).1 app name)
unfolding start_draft lookup
reconcile-asked_for binds m app ls r name h =
    let (d, q, same) = reconcile-new_map binds m app ls r h in
    let l = reconcile_all-Loop binds app (listeners_of m.registry app) (start_draft m) d ls q in
    let found =
      get_app_listener-listeners_of (reconcile binds m app ls).1 app name ∙ ap (lookup name) same in
    subst (Mirrors (last_named name ls)) (sym found)
      (Puts-new (last_named name ls) (lookup name d.new_map) (l.puts name))

pub reconcile-names :
    (binds : ℕ → Bool) (m : ServiceManager) (app : String) (ls : List AppListener)
    (r : ReconcileResult × Bool) (name : String)
    → (reconcile binds m app ls).0 ≡ ok r
    → is_some (get_app_listener (reconcile binds m app ls).1 app name) ≡ elem name (names ls)
reconcile-names binds m app ls r name h =
    asked_names name ls _ (reconcile-asked_for binds m app ls r name h)

-- After a Reconcile that succeeds, a listener whose name the app had before has the host port and
-- the public port that it had.
pub reconcile-keeps_ports :
    (binds : ℕ → Bool) (m : ServiceManager) (app : String) (ls : List AppListener)
    (r : ReconcileResult × Bool) (name : String) (old ep : ServiceEndpoint)
    → (reconcile binds m app ls).0 ≡ ok r
    → get_app_listener m app name ≡ some old
    → get_app_listener (reconcile binds m app ls).1 app name ≡ some ep
    → SamePorts ep old
unfolding start_draft lookup
reconcile-keeps_ports binds m app ls r name old ep h e e' =
    let (d, q, same) = reconcile-new_map binds m app ls r h in
    let l = reconcile_all-Loop binds app (listeners_of m.registry app) (start_draft m) d ls q in
    let found =
      get_app_listener-listeners_of (reconcile binds m app ls).1 app name ∙ ap (lookup name) same in
    l.faithful (λ k x y z w. absurd (ground (arith, z))) name ep old (sym found ∙ e')
      (sym (get_app_listener-listeners_of m app name) ∙ e)
