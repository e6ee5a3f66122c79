-- ===== src/Services/Manager/Entries.antt =====
-- What is registered, as a relation between an app, a listener's name and its endpoint.
use piccolod.Common.{
  ℕ, String, ◌≡◌, ◌≢◌, ◌⊎◌, inl, inr, refl, sym, ap, subst, ◌∙◌, Option, none, some, [], Eq-string,
}
use piccolod.Common.Map.{
  Map, Holds, lookup, insert, delete, lookup-Holds, Holds-insert, Holds-delete,
}
use piccolod.Services.Types.{ServiceEndpoint}
use piccolod.Services.Manager.{Registry, listeners_of, put_endpoint}
use piccolod.Services.Manager.Ledger.{Owners, OrNew}

abbrev pub Registered : Registry → String → String → ServiceEndpoint → Type 0
Registered r app name ep = (eps : Map String ServiceEndpoint) × Holds app eps r × Holds name ep eps

pub Registered-insert :
    (r : Registry) (app : String) (eps : Map String ServiceEndpoint) (a n : String)
    (e : ServiceEndpoint)
    → Registered (insert app eps r) a n e
    → ((a ≡ app) × Holds n e eps) ⊎ Registered r a n e
Registered-insert r app eps a n e (m, h, k) = elim (Holds-insert app a eps m r h) [
  | inl (p, q) ↦ inl (p, subst (Holds n e) q k)
  | inr (p, q) ↦ inr (m, p, k)
]

pub Registered-delete :
    (r : Registry) (app a n : String) (e : ServiceEndpoint)
    → Registered (delete app r) a n e
    → Registered r a n e × (a ≢ app)
Registered-delete r app a n e (m, h, k) = let (p, q) = Holds-delete app a m r h in ((m, p, k), q)

listeners_of-Holds :
    (r : Registry) (app n : String) (e : ServiceEndpoint) (o : Option (Map String ServiceEndpoint))
    → lookup app r ≡ o
    → Holds n e (listeners_of r app)
    → Registered r app n e
unfolding listeners_of
listeners_of-Holds r app n e none q h =
    absurd (subst (λ o. Holds n e (elim o [ none ↦ [] | some m ↦ m ])) q h)
listeners_of-Holds r app n e (some m) q h =
    (m, lookup-Holds app m r q, subst (λ o. Holds n e (elim o [ none ↦ [] | some m ↦ m ])) q h)

pub listeners_of-Registered :
    (r : Registry) (app n : String) (e : ServiceEndpoint)
    → Holds n e (listeners_of r app)
    → Registered r app n e
listeners_of-Registered r app n e h = listeners_of-Holds r app n e (lookup app r) refl h

pub Registered-put_endpoint :
    (r : Registry) (app : String) (ep : ServiceEndpoint) (a n : String) (e : ServiceEndpoint)
    → Registered (put_endpoint r app ep) a n e
    → ((a ≡ app) × (n ≡ ep.name) × (e ≡ ep)) ⊎ Registered r a n e
unfolding put_endpoint
Registered-put_endpoint r app ep a n e h = elim (Registered-insert r app _ a n e h) [
  | inr k ↦ inr k
  | inl (p, k) ↦ elim (Holds-insert ep.name n ep e (listeners_of r app) k) [
    | inl (u, v) ↦ inl (p, u, v)
    | inr (u, v) ↦
        inr (subst (λ b. Registered r b n e) (sym p) (listeners_of-Registered r app n e u))
  ]
]

-- Who owns the host ports, or the public ports, by what is registered.
abbrev pub Owns : (ServiceEndpoint → ℕ) → Registry → Owners
Owns port r a n p = (e : ServiceEndpoint) × Registered r a n e × (port e ≡ p)

-- The same with the listeners of a map that is to be registered for an app.
abbrev pub OwnsWith :
    (ServiceEndpoint → ℕ) → Registry → String → Map String ServiceEndpoint → Owners
OwnsWith port r app eps a n p =
    Owns port r a n p ⊎ ((a ≡ app) × ((e : ServiceEndpoint) × Holds n e eps × (port e ≡ p)))

abbrev pub host_of : ServiceEndpoint → ℕ
host_of e = e.host_bind

abbrev pub public_of : ServiceEndpoint → ℕ
public_of e = e.public_port

module _ (port : ServiceEndpoint → ℕ) (r : Registry) (app : String) where
  pub OwnsWith-empty : (a n : String) (p : ℕ) → OwnsWith port r app [] a n p → Owns port r a n p
  OwnsWith-empty a n p (inl h) = h
  OwnsWith-empty a n p (inr (e, (x, h, q))) = absurd h

  pub OwnsWith-insert :
      (eps : Map String ServiceEndpoint) (key : String) (ep : ServiceEndpoint) (a n : String)
      (p : ℕ)
      → OwnsWith port r app (insert key ep eps) a n p
      → OrNew (OwnsWith port r app eps) app key (port ep) a n p
  OwnsWith-insert eps key ep a n p (inl h) = inl (inl h)
  OwnsWith-insert eps key ep a n p (inr (u, (e, h, q))) = elim (Holds-insert key n ep e eps h) [
    | inl (v, w) ↦ inr (u, v, sym q ∙ ap port w)
    | inr (v, w) ↦ inl (inr (u, (e, v, q)))
  ]

  -- An endpoint that takes over the ports of a registered one of its name adds no owner.
  pub OwnsWith-reuse :
      (eps : Map String ServiceEndpoint) (key : String) (old ep : ServiceEndpoint)
      → Registered r app key old
      → port ep ≡ port old
      → (a n : String) (p : ℕ) → OwnsWith port r app (insert key ep eps) a n p
      → OwnsWith port r app eps a n p
  OwnsWith-reuse eps key old ep h q a n p o = elim (OwnsWith-insert eps key ep a n p o) [
    | inl k ↦ k
    | inr (u, v, w) ↦ inl (
      old,
      subst (λ b. Registered r b n old) (sym u) (subst (λ k. Registered r app k old) (sym v) h),
      sym q ∙ sym w,
    )
  ]

  pub Owns-insert :
      (eps : Map String ServiceEndpoint) (a n : String) (p : ℕ)
      → Owns port (insert app eps r) a n p
      → OwnsWith port r app eps a n p
  Owns-insert eps a n p (e, h, q) = elim (Registered-insert r app eps a n e h) [
    | inl (u, v) ↦ inr (u, (e, v, q))
    | inr v ↦ inl (e, v, q)
  ]

  pub Owns-put_endpoint :
      (ep : ServiceEndpoint) (a n : String) (p : ℕ)
      → Owns port (put_endpoint r app ep) a n p
      → OrNew (Owns port r) app ep.name (port ep) a n p
  Owns-put_endpoint ep a n p (e, h, q) = elim (Registered-put_endpoint r app ep a n e h) [
    | inl (u, v, w) ↦ inr (u, v, sym q ∙ ap port w)
    | inr v ↦ inl (e, v, q)
  ]
