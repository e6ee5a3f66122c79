-- ===== src/Services/Manager/Asked.antt =====
-- manager.go: which listener of a list is the one of a name, and when an endpoint is set up as it says.
use piccolod.Common.{
  ℕ, String, ◌≡◌, refl, sym, ◌∙◌, Option, none, some, is_some, List, [], ◌∷◌, map, elem, subst,
  Eq-string, ◌==◌, if◌then◌else◌, arith, Eq-cases, inl, inr, if_true, if_false,
}
use piccolod.Common.Int.{ℤ, pos}
use piccolod.Api.{AppListener}
use piccolod.Services.Types.{ServiceEndpoint, new_endpoint, default_remote_ports, or_web_ports}
use piccolod.Services.Manager.Reconcile.{reconfigure}

-- The last listener of a name.
abbrev pub last_named : String → List AppListener → Option AppListener
last_named name [] = none
last_named name (l ∷ ls) = elim (last_named name ls) [
  | some later ↦ some later
  | none ↦ if name == l.name then some l else none
]

-- The remote ports that a listener is served on: those of the web, if it names none.
abbrev pub served : List ℤ → List ℤ
served [] = pos 80 ∷ pos 443 ∷ []
served (p ∷ ps) = p ∷ ps

-- The endpoint has all the settings of the listener.
pub record Follows (l : AppListener) (ep : ServiceEndpoint) : Type 0 where
  pub guest_port : ep.guest_port ≡ l.guest_port
  pub flow : ep.flow ≡ l.flow
  pub protocol : ep.protocol ≡ l.protocol
  pub middleware : ep.middleware ≡ l.middleware
  pub remote_ports : ep.remote_ports ≡ served l.remote_ports

served_lem : (ports : List ℤ) → or_web_ports ports ≡ served ports
unfolding or_web_ports
served_lem [] = refl
served_lem (p ∷ ps) = refl

pub new_endpoint-Follows :
    (app : String) (l : AppListener) (hb pp : ℕ) → Follows l (new_endpoint app l hb pp)
unfolding new_endpoint default_remote_ports
new_endpoint-Follows app l hb pp = record {
  guest_port = refl;
  flow = refl;
  protocol = refl;
  middleware = refl;
  remote_ports = served_lem l.remote_ports;
}

pub reconfigure-Follows : (old : ServiceEndpoint) (l : AppListener) → Follows l (reconfigure old l)
unfolding reconfigure default_remote_ports
reconfigure-Follows old l = record {
  guest_port = refl;
  flow = refl;
  protocol = refl;
  middleware = refl;
  remote_ports = served_lem l.remote_ports;
}

module _ (P : AppListener → ServiceEndpoint → Type 0) where
  -- What is found under a name before and after the listener was put there, if there is one.
  abbrev pub Puts : Option AppListener → Option ServiceEndpoint → Option ServiceEndpoint → Type 0
  Puts none before after = after ≡ before
  Puts (some l) before none = ⊥
  Puts (some l) before (some ep) = P l ep

  Puts-over :
      (l : AppListener) (x y z : Option ServiceEndpoint) → Puts (some l) y z → Puts (some l) x z
  Puts-over l x y none p = p
  Puts-over l x y (some ep) p = p

  Puts-join :
      (first later : Option AppListener) (x y z : Option ServiceEndpoint)
      → Puts first x y
      → Puts later y z
      → Puts (elim later [ some l ↦ some l | none ↦ first ]) x z
  Puts-join first none x y z p q = subst (Puts first x) (sym q) p
  Puts-join first (some l) x y z p q = Puts-over l x y z q

  -- One listener after another.
  pub Puts-cons :
      (name : String) (l : AppListener) (ls : List AppListener) (x y z : Option ServiceEndpoint)
      → Puts (last_named name (l ∷ [])) x y
      → Puts (last_named name ls) y z
      → Puts (last_named name (l ∷ ls)) x z
  Puts-cons name l ls x y z p q =
      Puts-join (last_named name (l ∷ [])) (last_named name ls) x y z p q

  -- One endpoint is put under the name of a listener.
  pub Puts-one :
      (name : String) (l : AppListener) (ep : ServiceEndpoint) (x y : Option ServiceEndpoint)
      → y ≡ (if name == l.name then some ep else x)
      → P l ep
      → Puts (last_named name (l ∷ [])) x y
  Puts-one name l ep x y e p = elim (Eq-cases name l.name) [
    | inl (_, b) ↦
        subst (λ (o : Option AppListener). Puts o x y)
          (sym (if_true (name == l.name) (some l) none b))
          (subst (Puts (some l) x) (sym (e ∙ if_true (name == l.name) (some ep) x b)) p)
    | inr (_, b) ↦
        subst (λ (o : Option AppListener). Puts o x y)
          (sym (if_false (name == l.name) (some l) none b))
          (e ∙ if_false (name == l.name) (some ep) x b)
  ]

-- What is found under a name, by the listener that was asked for under it.
abbrev pub Mirrors : Option AppListener → Option ServiceEndpoint → Type 0
Mirrors none none = Unit
Mirrors (some l) (some ep) = Follows l ep
Mirrors _ _ = ⊥

pub Puts-new :
    (l : Option AppListener) (after : Option ServiceEndpoint)
    → Puts Follows l none after
    → Mirrors l after
Puts-new none none p = tt
Puts-new none (some ep) p = cc p
Puts-new (some l) none p = p
Puts-new (some l) (some ep) p = p

Mirrors-is_some :
    (l : Option AppListener) (found : Option ServiceEndpoint)
    → Mirrors l found
    → is_some found ≡ is_some l
Mirrors-is_some none none p = refl
Mirrors-is_some none (some ep) p = absurd p
Mirrors-is_some (some l) none p = absurd p
Mirrors-is_some (some l) (some ep) p = refl

last_named-elem :
    (name : String) (ls : List AppListener)
    → is_some (last_named name ls) ≡ elem name (map (λ l. l.name) ls)
last_named-elem name [] = refl
last_named-elem name (l ∷ ls) = ground (arith, last_named-elem name ls)

pub asked_names :
    (name : String) (ls : List AppListener) (found : Option ServiceEndpoint)
    → Mirrors (last_named name ls) found
    → is_some found ≡ elem name (map (λ l. l.name) ls)
asked_names name ls found p = Mirrors-is_some (last_named name ls) found p ∙ last_named-elem name ls
