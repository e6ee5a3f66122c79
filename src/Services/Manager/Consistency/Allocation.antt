-- ===== src/Services/Manager/Consistency/Allocation.antt =====
-- manager.go, AllocateForApp, against the invariant of the service manager.
use piccolod.Common.{ℕ, String, Bool, List, [], ◌∷◌, Result, ok, err}
use piccolod.Api.{AppListener}
use piccolod.Services.Allocator.{PortAllocator, PortError, allocate_pair}
use piccolod.Services.Types.{ServiceEndpoint, new_endpoint}
use piccolod.Services.Manager.{
  ServiceManager, add_endpoint, register_next, register_all, start_proxy, start_proxies,
  start_if_ok, allocate_for_app,
}
use piccolod.Services.Manager.Entries.{Owns, Owns-put_endpoint, host_of, public_of}
use piccolod.Services.Manager.Consistency.{
  IsConsistent, PairBooks, Books-subset, allocate_pair-Books, SameBooks-IsConsistent,
  SameBooks-start_proxy,
}

abbrev Outcome : Type 0
Outcome = Result PortError (List ServiceEndpoint) × ServiceManager

add_endpoint-IsConsistent :
    (ep : ServiceEndpoint) (o : Outcome) → IsConsistent o.1 → IsConsistent (add_endpoint ep o).1
unfolding add_endpoint
add_endpoint-IsConsistent ep (ok eps, m) k = k
add_endpoint-IsConsistent ep (err e, m) k = k

register_next-IsConsistent :
    (rest : ServiceManager → Outcome) (m : ServiceManager) (app : String) (l : AppListener)
    (r : Result PortError (ℕ × ℕ) × PortAllocator)
    → ((m' : ServiceManager) → IsConsistent m' → IsConsistent (rest m').1)
    → PairBooks (Owns host_of m.registry) (Owns public_of m.registry) app l.name r
    → IsConsistent (register_next rest m app l r).1
unfolding register_next new_endpoint
register_next-IsConsistent rest m app l (err e, a) keep k = k
register_next-IsConsistent rest m app l (ok (hb, pp), a) keep k =
    let ep = new_endpoint app l hb pp in
    add_endpoint-IsConsistent ep _ (
      keep _ (
        Books-subset (Owns-put_endpoint host_of m.registry app ep)
          (Owns-put_endpoint public_of m.registry app ep) k))

register_all-IsConsistent :
    (m : ServiceManager) (app : String) (ls : List AppListener)
    → IsConsistent m
    → IsConsistent (register_all m app ls).1
unfolding register_all
register_all-IsConsistent m app [] k = k
register_all-IsConsistent m app (l ∷ ls) k =
    register_next-IsConsistent (λ m'. register_all m' app ls) m app l (allocate_pair m.allocator)
      (λ m' k'. register_all-IsConsistent m' app ls k') (allocate_pair-Books app l.name k)

start_proxies-IsConsistent :
    (binds : ℕ → Bool) (m : ServiceManager) (eps : List ServiceEndpoint)
    → IsConsistent m
    → IsConsistent (start_proxies binds m eps)
unfolding start_proxies
start_proxies-IsConsistent binds m [] k = k
start_proxies-IsConsistent binds m (ep ∷ eps) k =
    start_proxies-IsConsistent binds (start_proxy binds m ep) eps
      (SameBooks-IsConsistent (SameBooks-start_proxy binds m ep) k)

start_if_ok-IsConsistent :
    (binds : ℕ → Bool) (o : Outcome) → IsConsistent o.1 → IsConsistent (start_if_ok binds o).1
unfolding start_if_ok
start_if_ok-IsConsistent binds (ok eps, m) k = start_proxies-IsConsistent binds m eps k
start_if_ok-IsConsistent binds (err e, m) k = k

pub allocate_for_app-IsConsistent :
    (binds : ℕ → Bool) (m : ServiceManager) (app : String) (ls : List AppListener)
    → IsConsistent m
    → IsConsistent (allocate_for_app binds m app ls).1
unfolding allocate_for_app
allocate_for_app-IsConsistent binds m app ls k =
    start_if_ok-IsConsistent binds (register_all m app ls) (register_all-IsConsistent m app ls k)
