-- ===== src/Tests/Listeners.antt =====
-- The service manager of internal/services/manager.go with one app.
use piccolod.Common.{
  ℕ, String, ◌≡◌, refl, arith, Option, none, some, List, [], ◌∷◌, Bool, true, false, Result, ok,
  err, inl, is_some, elem,
}
use piccolod.Common.Int.{pos}
use piccolod.Api.{AppListener, flow_tcp, protocol_http}
use piccolod.Services.Allocator
use piccolod.Services.Allocator.Scan.{IsFree}
use piccolod.Services.Types
use piccolod.Services.Types.{ServiceEndpoint}
use piccolod.Services.Proxy
use piccolod.Services.Manager.{ServiceManager, new_service_manager, remove_app, allocate_for_app}
use piccolod.Services.Manager.Lookup.{get_app_listener, resolve_listener}
use piccolod.Services.Manager.Lookup.Registration.{Registers, allocate_for_app-Registers}
use piccolod.Services.Manager.Lookup.Resolution.{Resolves, resolve_listener-Resolves}
use piccolod.Services.Manager.Reconcile.{ReconcileResult, reconcile}
use piccolod.Services.Manager.Asked.{Mirrors, last_named}
use piccolod.Services.Manager.Reconcile.Names.{
  SamePorts, reconcile-asked_for, reconcile-keeps_ports,
}
use piccolod.Services.Manager.Reconcile.Leak.{Leaked, reconcile-Leaked}
use piccolod.Services.Manager.Entries.{host_of, public_of}
use piccolod.Services.Manager.Consistency.{IsConsistent}
use piccolod.Services.Manager.Consistency.Histories.{
  Call, allocates, step, run, run-IsConsistent, new_service_manager-IsConsistent,
  run-no_shared_ports,
}
use piccolod.Services.Manager.Consistency.Release.{remove_app-frees}

abbrev listener : String → ℕ → AppListener
listener name port = record {
  name = name;
  guest_port = pos port;
  flow = flow_tcp;
  protocol = protocol_http;
  middleware = [];
  remote_ports = [];
}

abbrev binds : ℕ → Bool
binds port = true

abbrev calls : List Call
calls = allocates binds "web" (listener "http" 80 ∷ listener "admin" 81 ∷ []) ∷ []

abbrev one_app : ServiceManager
one_app = run new_service_manager calls

run-IsConsistent_example : IsConsistent one_app
run-IsConsistent_example =
    run-IsConsistent new_service_manager calls new_service_manager-IsConsistent

abbrev http : ServiceEndpoint
http = record {
  app = "web";
  name = "http";
  guest_port = pos 80;
  host_bind = 15000;
  public_port = 35000;
  flow = flow_tcp;
  protocol = protocol_http;
  middleware = [];
  remote_ports = pos 80 ∷ pos 443 ∷ [];
}

http-found : get_app_listener one_app "web" "http" ≡ some http
unfolding run get_app_listener piccolod.Common.Map.lookup step
    piccolod.Services.Manager.allocate_for_app piccolod.Services.Manager.register_all
    Allocator.allocate_pair Allocator.allocate Allocator.search_from piccolod.Common.Map.contains
    new_service_manager Allocator.new_port_allocator Allocator.mark_used piccolod.Common.Map.insert
    Allocator.next_in_range piccolod.Services.Manager.start_proxies
    piccolod.Services.Manager.start_proxy piccolod.Services.Manager.put_endpoint
    piccolod.Common.Map.delete Allocator.finish Allocator.new_ports Allocator.pair_host
    Allocator.pair_public piccolod.Services.Manager.add_endpoint
    piccolod.Services.Manager.listeners_of piccolod.Services.Manager.notify_publish
    piccolod.Services.Manager.register_next piccolod.Services.Manager.start_if_ok
    Proxy.new_proxy_manager Proxy.start_listener Types.default_remote_ports Types.new_endpoint
    Types.or_web_ports
http-found = refl

run-no_shared_ports_example : (◌≡◌ {A = String} "web" "web") × (◌≡◌ {A = String} "http" "http")
run-no_shared_ports_example =
    run-no_shared_ports calls "web" "http" "web" "http" http http http-found http-found (inl refl)

remove_app-frees_example :
    IsFree (remove_app one_app "web").allocator.host 15000
    × IsFree (remove_app one_app "web").allocator.public 35000
remove_app-frees_example =
    remove_app-frees one_app "web" "http" http http-found (omega arith) (omega arith)

-- The listener "http" with another guest port, and a new one in place of "admin".
abbrev changed : List AppListener
changed = listener "http" 8080 ∷ listener "stats" 9090 ∷ []

reconciled : (r : ReconcileResult × Bool) × ((reconcile binds one_app "web" changed).0 ≡ ok r)
unfolding run get_app_listener piccolod.Common.Map.lookup step
    piccolod.Services.Manager.allocate_for_app piccolod.Services.Manager.register_all
    Allocator.allocate_pair Allocator.allocate Allocator.search_from piccolod.Common.Map.contains
    new_service_manager Allocator.new_port_allocator Allocator.mark_used piccolod.Common.Map.insert
    Allocator.next_in_range piccolod.Services.Manager.start_proxies
    piccolod.Services.Manager.start_proxy piccolod.Services.Manager.put_endpoint
    piccolod.Common.Map.delete Allocator.finish Allocator.new_ports Allocator.pair_host
    Allocator.pair_public piccolod.Services.Manager.add_endpoint
    piccolod.Services.Manager.listeners_of piccolod.Services.Manager.notify_publish
    piccolod.Services.Manager.register_next piccolod.Services.Manager.start_if_ok
    Proxy.new_proxy_manager Proxy.start_listener Types.default_remote_ports Types.new_endpoint
    Types.or_web_ports piccolod.Services.Manager.Reconcile.close_reconcile
    piccolod.Services.Manager.Reconcile.drop_removed
    piccolod.Services.Manager.Reconcile.middleware_equal
    piccolod.Services.Manager.Reconcile.new_ports
    piccolod.Services.Manager.Reconcile.note_guest_port
    piccolod.Services.Manager.Reconcile.proxy_changed
    piccolod.Services.Manager.Reconcile.reconcile_all
    piccolod.Services.Manager.Reconcile.reconcile_one
    piccolod.Services.Manager.Reconcile.reconcile_rest
    piccolod.Services.Manager.Reconcile.reconfigure
    piccolod.Services.Manager.Reconcile.restart_proxy
    piccolod.Services.Manager.Reconcile.reuse_ports piccolod.Services.Manager.Reconcile.start_draft
    piccolod.Services.Manager.Reconcile.values reconcile piccolod.Services.Manager.notify_unpublish
    piccolod.Services.Manager.stop_proxy Proxy.stop_port
reconciled = (_, refl)

reconcile-asked_for_example :
    Mirrors
      (last_named "http" changed)
      (get_app_listener (reconcile binds one_app "web" changed).1 "web" "http")
reconcile-asked_for_example =
    reconcile-asked_for binds one_app "web" changed reconciled.0 "http" reconciled.1

abbrev new_http : ServiceEndpoint
new_http = record http { guest_port = pos 8080 }

new_http-found :
    get_app_listener (reconcile binds one_app "web" changed).1 "web" "http" ≡ some new_http
unfolding run get_app_listener piccolod.Common.Map.lookup step
    piccolod.Services.Manager.allocate_for_app piccolod.Services.Manager.register_all
    Allocator.allocate_pair Allocator.allocate Allocator.search_from piccolod.Common.Map.contains
    new_service_manager Allocator.new_port_allocator Allocator.mark_used piccolod.Common.Map.insert
    Allocator.next_in_range piccolod.Services.Manager.start_proxies
    piccolod.Services.Manager.start_proxy piccolod.Services.Manager.put_endpoint
    piccolod.Common.Map.delete Allocator.finish Allocator.new_ports Allocator.pair_host
    Allocator.pair_public piccolod.Services.Manager.add_endpoint
    piccolod.Services.Manager.listeners_of piccolod.Services.Manager.notify_publish
    piccolod.Services.Manager.register_next piccolod.Services.Manager.start_if_ok
    Proxy.new_proxy_manager Proxy.start_listener Types.default_remote_ports Types.new_endpoint
    Types.or_web_ports piccolod.Services.Manager.Reconcile.close_reconcile
    piccolod.Services.Manager.Reconcile.drop_removed
    piccolod.Services.Manager.Reconcile.middleware_equal
    piccolod.Services.Manager.Reconcile.new_ports
    piccolod.Services.Manager.Reconcile.note_guest_port
    piccolod.Services.Manager.Reconcile.proxy_changed
    piccolod.Services.Manager.Reconcile.reconcile_all
    piccolod.Services.Manager.Reconcile.reconcile_one
    piccolod.Services.Manager.Reconcile.reconcile_rest
    piccolod.Services.Manager.Reconcile.reconfigure
    piccolod.Services.Manager.Reconcile.restart_proxy
    piccolod.Services.Manager.Reconcile.reuse_ports piccolod.Services.Manager.Reconcile.start_draft
    piccolod.Services.Manager.Reconcile.values reconcile piccolod.Services.Manager.notify_unpublish
    piccolod.Services.Manager.stop_proxy Proxy.stop_port
new_http-found = refl

reconcile-keeps_ports_example : SamePorts new_http http
reconcile-keeps_ports_example =
    reconcile-keeps_ports binds one_app "web" changed reconciled.0 "http" http new_http reconciled.1
      http-found new_http-found

abbrev admin : ServiceEndpoint
admin = record http { name = "admin"; guest_port = pos 81; host_bind = 15001; public_port = 35001 }

admin-found : get_app_listener one_app "web" "admin" ≡ some admin
unfolding run get_app_listener piccolod.Common.Map.lookup step
    piccolod.Services.Manager.allocate_for_app piccolod.Services.Manager.register_all
    Allocator.allocate_pair Allocator.allocate Allocator.search_from piccolod.Common.Map.contains
    new_service_manager Allocator.new_port_allocator Allocator.mark_used piccolod.Common.Map.insert
    Allocator.next_in_range piccolod.Services.Manager.start_proxies
    piccolod.Services.Manager.start_proxy piccolod.Services.Manager.put_endpoint
    piccolod.Common.Map.delete Allocator.finish Allocator.new_ports Allocator.pair_host
    Allocator.pair_public piccolod.Services.Manager.add_endpoint
    piccolod.Services.Manager.listeners_of piccolod.Services.Manager.notify_publish
    piccolod.Services.Manager.register_next piccolod.Services.Manager.start_if_ok
    Proxy.new_proxy_manager Proxy.start_listener Types.default_remote_ports Types.new_endpoint
    Types.or_web_ports
admin-found = refl

reconcile-Leaked_example :
    let m' = (reconcile binds one_app "web" changed).1 in
    Leaked host_of m'.allocator.host m' 15001 × Leaked public_of m'.allocator.public m' 35001
reconcile-Leaked_example =
    reconcile-Leaked binds one_app "web" "admin" changed reconciled.0 admin
      (run-IsConsistent new_service_manager calls new_service_manager-IsConsistent) reconciled.1
      admin-found refl

resolve_listener-Resolves_example :
    Resolves one_app.registry "admin" (pos 443) (resolve_listener one_app "admin" (pos 443))
resolve_listener-Resolves_example = resolve_listener-Resolves one_app "admin" (pos 443)

allocate_for_app-Registers_example :
    Registers one_app "wiki"
      (listener "http" 8080 ∷ [])
      (allocate_for_app binds one_app "wiki" (listener "http" 8080 ∷ []))
allocate_for_app-Registers_example =
    allocate_for_app-Registers binds one_app "wiki" (listener "http" 8080 ∷ [])
