-- ===== src/Services/Manager/Lookup/Resolution.antt =====
-- manager.go, ResolveListener and ResolveByRemotePort: which listener serves a name or a port.
use piccolod.Common.{
  ◌≡◌, inl, inr, refl, sym, ◌∙◌, ap, String, true, Option, none, some, [], ◌∷◌, Bool-cases,
  Eq-string, arith, if◌then◌else◌,
}
use piccolod.Common.Int.{ℤ}
use piccolod.Common.Map.{Map, lookup, Holds}
use piccolod.Services.Types.{ServiceEndpoint}
use piccolod.Services.Manager.{ServiceManager, Registry}
use piccolod.Services.Manager.Lookup.{
  matches_remote_port, accept_listener, find_listener, or_else, resolve_listener,
}

-- An app has a listener of the name, and the listener serves the port.
abbrev pub Offers : Registry → String → ℤ → ServiceEndpoint → Type 0
Offers r name port ep =
    (app : String) × (eps : Map String ServiceEndpoint) × Holds app eps r
    × (lookup name eps ≡ some ep)
    × (matches_remote_port ep port ≡ true)

-- The answer is an offer, or there is none.
abbrev pub Resolves : Registry → String → ℤ → Option ServiceEndpoint → Type 0
Resolves r name port (some ep) = Offers r name port ep
Resolves r name port none = ¬ ((ep : ServiceEndpoint) × Offers r name port ep)

-- What the listener of one app adds to the answer.
Accepts : Map String ServiceEndpoint → String → ℤ → Option ServiceEndpoint → Type 0
Accepts eps name port (some ep) = (lookup name eps ≡ some ep) × (matches_remote_port ep port ≡ true)
Accepts eps name port none =
    ¬ ((ep : ServiceEndpoint) × (lookup name eps ≡ some ep) × (matches_remote_port ep port ≡ true))

accepted :
    (eps : Map String ServiceEndpoint) (name : String) (port : ℤ) (found : Option ServiceEndpoint)
    → lookup name eps ≡ found
    → Accepts eps name port (accept_listener port found)
unfolding accept_listener Accepts
accepted eps name port none e = λ (ep, f, t). ground (arith, e, f)
accepted eps name port (some ep) e = elim (Bool-cases (matches_remote_port ep port)) [
  | inl t ↦ rw (t, if◌then◌else◌) (e, t)
  | inr t ↦ rw (t, if◌then◌else◌) (λ (other, f, u). ground (arith, e, f, t, u))
]

or_else-Resolves :
    (app : String) (eps : Map String ServiceEndpoint) (r : Registry) (name : String) (port : ℤ)
    (first rest : Option ServiceEndpoint)
    → Accepts eps name port first
    → Resolves r name port rest
    → Resolves ((app, eps) ∷ r) name port (or_else first rest)
unfolding or_else Accepts
or_else-Resolves app eps r name port (some ep) rest (e, t) h = (app, eps, inl (refl, refl), e, t)
or_else-Resolves app eps r name port none (some ep) a (other, eps', held, e, t) =
    (other, eps', inr held, e, t)
or_else-Resolves app eps r name port none none a h = λ (ep, (other, eps', held, e, t)). elim held [
  | inl (p, q) ↦ a (ep, ap (lookup name) (sym q) ∙ e, t)
  | inr held' ↦ h (ep, (other, eps', held', e, t))
]

find_listener-Resolves :
    (name : String) (port : ℤ) (r : Registry) → Resolves r name port (find_listener name port r)
unfolding find_listener
find_listener-Resolves name port [] = λ (ep, (app, eps, held, e, t)). held
find_listener-Resolves name port ((app, eps) ∷ r) =
    or_else-Resolves app eps r name port (accept_listener port (lookup name eps))
      (find_listener name port r) (accepted eps name port (lookup name eps) refl)
      (find_listener-Resolves name port r)

-- ResolveListener finds a listener of the name that serves the port, in any app that has one, and
-- finds nothing only if no app has.
pub resolve_listener-Resolves :
    (m : ServiceManager) (name : String) (port : ℤ)
    → Resolves m.registry name port (resolve_listener m name port)
unfolding resolve_listener
resolve_listener-Resolves m name port = find_listener-Resolves name port m.registry
