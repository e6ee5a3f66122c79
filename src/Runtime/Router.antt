-- ===== src/Runtime/Router.antt =====
-- internal/router/manager.go: the routes of the kernel and of the apps. A time is a number.
use piccolod.Common.Map.{Map, lookup, insert, lookup-insert}
use piccolod.Common.{
  ℕ, ◌≡◌, String, Option, none, some, [], Eq-string, ◌==◌, if◌then◌else◌, Bool-cases, arith, ◌||◌,
  ◌&&◌, not, inl, inr,
}

pub record Route : Type 0 where
  pub mode : String
  pub leader_addr : String
  pub updated_at : ℕ

pub record Router : Type 0 where
  pub kernel_route : Route
  pub app_routes : Map String Route

local_route : ℕ → Route
local_route now = record { mode = "local"; leader_addr = ""; updated_at = now }

pub new_router : ℕ → Router
unfolding local_route
new_router now = record { kernel_route = local_route now; app_routes = [] }

normalize_mode : String → String
normalize_mode mode = if mode == "local" || mode == "tunnel" then mode else "local"

abbrev pub routed : String → String → ℕ → Route
unfolding normalize_mode
routed mode leader now = record {
  mode = normalize_mode mode;
  leader_addr = leader;
  updated_at = now;
}

pub register_kernel_route : Router → String → String → ℕ → Router
unfolding normalize_mode
register_kernel_route r mode leader now = record r { kernel_route = routed mode leader now }

pub register_app_route : Router → String → String → String → ℕ → Router
unfolding normalize_mode
register_app_route r app mode leader now =
    if app == ""
    then r
    else record r { app_routes = insert app (routed mode leader now) r.app_routes }

route_or_local : Option Route → ℕ → Route
unfolding local_route
route_or_local none now = local_route now
route_or_local (some route) now = route

pub app_route : Router → String → ℕ → Route
unfolding route_or_local
app_route r app now = route_or_local (lookup app r.app_routes) now

-- What the routes are to be after one of an app was registered.
pub record Routes (r r' : Router) (app mode leader : String) (now : ℕ) : Type 0 where
  pub routes :
      (other : String) (later : ℕ)
      → app_route r' other later ≡ (
          if not (app == "") && other == app
          then routed mode leader now
          else app_route r other later)
  pub kernel : r'.kernel_route ≡ r.kernel_route

-- A registered route is what the app's route is from then on, with any mode but "tunnel" read as
-- "local". The routes of the other apps and of the kernel stay, and a registration without a name
-- changes no route.
pub register_app_route-Routes :
    (r : Router) (app mode leader : String) (now : ℕ)
    → Routes r (register_app_route r app mode leader now) app mode leader now
unfolding register_app_route app_route route_or_local
register_app_route-Routes r app mode leader now = record {
  routes = λ other later. elim (Bool-cases (app == "")) [
    | inl e ↦ rw (e, if◌then◌else◌)
    | inr e ↦ elim (Bool-cases (other == app)) [
      | inl f ↦ rw (e, if◌then◌else◌, lookup-insert, f, if◌then◌else◌)
      | inr f ↦ rw (e, if◌then◌else◌, lookup-insert, f, if◌then◌else◌)
    ]
  ];
  kernel = ground arith;
}
