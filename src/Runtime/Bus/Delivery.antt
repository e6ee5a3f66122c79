-- ===== src/Runtime/Bus/Delivery.antt =====
-- bus.go: histories of a bus.
use piccolod.Common.{
  ℕ, suc, ◌<◌, ◌≡◌, ◌≢◌, inl, inr, refl, sym, ap, ◌∙◌, String, Bool, true, false, Option, none,
  some, List, [], ◌∷◌, ◌++◌, All, nat_eq_iff, Eq-string, if◌then◌else◌, arith, Bool-cases,
}
use piccolod.Runtime.Bus.{
  Event, Channel, Bus, update, new_bus, subscribe, publish, close_channel, close_each, close_with,
  close, receive, open_channel,
}
use piccolod.Runtime.Bus.Sending.{
  Absent, Once, AllOpen, IsLive, AllOpen-update, AllOpen-same, publish-Published,
}

module _ (P : Type 0) where
  Runs : (Bus P → Option (Bus P)) → Bus P → Type 0
  Runs f b = (b' : Bus P) × (f b ≡ some b') × IsLive P b'

  publish-Runs : (e : Event P) (b : Bus P) → IsLive P b → Runs (λ b. publish P b e) b
  unfolding publish Runs
  publish-Runs e b live = elim (Bool-cases b.closed) [
    | inl closed ↦ (b, ground (arith, closed), live)
    | inr not_closed ↦
        let (b', run, p) = publish-Published P b e live not_closed in (b', run, p.live)
  ]

  close_each-some :
      (subs : List (String × ℕ)) (channels : ℕ → Channel P)
      → Once subs
      → AllOpen P channels subs
      → (after : ℕ → Channel P) × (close_each P subs channels ≡ some after)
  unfolding close_each close_channel
  close_each-some [] channels o a = (channels, refl)
  close_each-some ((t, id) ∷ subs) channels o a =
      let c = record (channels id) { is_closed = true } in
      let (after, run) =
        close_each-some subs (update P channels id c) o.1
          (AllOpen-update P channels id c subs o.0 a.1) in
      (after, ground (arith, a.0, run))

  close-Runs : (b : Bus P) → IsLive P b → Runs (close P) b
  unfolding close close_with Runs
  close-Runs b live = elim (Bool-cases b.closed) [
    | inl closed ↦ (b, ground (arith, closed), live)
    | inr not_closed ↦
        let (after, run) = close_each-some b.subs b.channels live.once live.open_channels in
        (
          record b { channels = after; closed = true; subs = [] },
          ground (arith, not_closed, run),
          record { once = tt; made = tt; open_channels = tt },
        )
  ]

  Absent-made :
      (made : ℕ) (subs : List (String × ℕ)) → All (λ s. s.1 < made) subs → Absent made subs
  Absent-made made [] a = tt
  Absent-made made ((t, id) ∷ subs) a = (omega (arith, a.0), Absent-made made subs a.1)

  below-suc :
      (made : ℕ) (subs : List (String × ℕ))
      → All (λ s. s.1 < made) subs
      → All (λ s. s.1 < suc made) subs
  below-suc made [] a = tt
  below-suc made ((t, id) ∷ subs) a = (omega (arith, a.0), below-suc made subs a.1)

  All-snoc {ℓ κ} :
      {A : Type ℓ} → (Q : A → Type κ) (xs : List A) (x : A) → All Q xs → Q x → All Q (xs ++ x ∷ [])
  All-snoc Q [] x a q = (q, tt)
  All-snoc Q (y ∷ xs) x a q = (a.0, All-snoc Q xs x a.1 q)

  Once-snoc :
      (subs : List (String × ℕ)) (topic : String) (id : ℕ)
      → Absent id subs
      → Once subs
      → Once (subs ++ (topic, id) ∷ [])
  Once-snoc [] topic id a o = (tt, tt)
  Once-snoc ((t, j) ∷ subs) topic id a o = (
    All-snoc (λ s. s.1 ≢ j) subs (topic, id) o.0 (λ q. a.0 (sym q)),
    Once-snoc subs topic id a.1 o.1,
  )

  Live : List (String × ℕ) → ℕ → (ℕ → Channel P) → Type 0
  Live subs made channels = Once subs × All (λ s. s.1 < made) subs × AllOpen P channels subs

  opened-Live :
      (topic : String) (buffer : ℕ) (closed : Bool) (subs : List (String × ℕ)) (made : ℕ)
      → (channels : ℕ → Channel P) → Live subs made channels
      → Live
          (if closed then subs else subs ++ (topic, made) ∷ [])
          (suc made)
          (update P channels made (open_channel P buffer closed))
  unfolding Live open_channel
  opened-Live topic buffer true subs made channels (o, m, a) =
      (o, below-suc made subs m, AllOpen-update P channels made _ subs (Absent-made made subs m) a)
  opened-Live topic buffer false subs made channels (o, m, a) =
      let absent = Absent-made made subs m in
      (
        Once-snoc subs topic made absent o,
        All-snoc (λ s. s.1 < suc made) subs (topic, made) (below-suc made subs m) (omega arith),
        All-snoc (λ s. (update P channels made (open_channel P buffer false) s.1).is_closed ≡ false)
            subs (topic, made) (AllOpen-update P channels made _ subs absent a)
            (ground (arith, nat_eq_iff made made)),
      )

  subscribe-IsLive :
      (topic : String) (buffer : ℕ) (b : Bus P)
      → IsLive P b
      → IsLive P (subscribe P b topic buffer).0
  unfolding subscribe Live
  subscribe-IsLive topic buffer b live =
      let (o, m, a) =
        opened-Live topic buffer b.closed b.subs b.made b.channels
          (live.once, live.made, live.open_channels) in
      record { once = o; made = m; open_channels = a }

  receive-IsLive : (id : ℕ) (b : Bus P) → IsLive P b → IsLive P (receive P b id)
  unfolding receive
  receive-IsLive id b live = record {
    once = live.once;
    made = live.made;
    open_channels =
        AllOpen-same P b.channels (receive P b id).channels b.subs
          (λ j. ground (arith, nat_eq_iff j id)) live.open_channels;
  }

  -- What the users of a bus do to it.
  pub data Act : Type 0 where
    subscribing : String → ℕ → Act
    publishing : Event P → Act
    closing : Act
    receiving : ℕ → Act

  pub act : Bus P → Act → Option (Bus P)
  act b (subscribing topic buffer) = some (subscribe P b topic buffer).0
  act b (publishing e) = publish P b e
  act b closing = close P b
  act b (receiving id) = some (receive P b id)

  pub act_all : Option (Bus P) → List Act → Option (Bus P)
  act_all none acts = none
  act_all (some b) [] = some b
  act_all (some b) (a ∷ acts) = act_all (act b a) acts

  act-Runs : (a : Act) (b : Bus P) → IsLive P b → Runs (λ b. act b a) b
  unfolding act Runs
  act-Runs (subscribing topic buffer) b live = (_, refl, subscribe-IsLive topic buffer b live)
  act-Runs (publishing e) b live = publish-Runs e b live
  act-Runs closing b live = close-Runs b live
  act-Runs (receiving id) b live = (_, refl, receive-IsLive id b live)

  act_all-IsLive :
      (acts : List Act) (b : Bus P)
      → IsLive P b
      → (b' : Bus P) × (act_all (some b) acts ≡ some b') × IsLive P b'
  unfolding act_all Runs
  act_all-IsLive [] b live = (b, refl, live)
  act_all-IsLive (a ∷ acts) b live =
      let (b1, run1, live1) = act-Runs a b live in
      let (b2, run2, live2) = act_all-IsLive acts b1 live1 in
      (b2, ap (λ r. act_all r acts) run1 ∙ run2, live2)

  -- In no history of subscriptions, publications, receptions and closings from a new bus does a
  -- send meet a closed channel or a channel get closed twice: the history ends in a bus, whose
  -- subscribed channels are all open and all different.
  pub act_all-no_panic :
      (acts : List Act) → (b : Bus P) × (act_all (some (new_bus P)) acts ≡ some b) × IsLive P b
  unfolding new_bus
  act_all-no_panic acts =
      act_all-IsLive acts (new_bus P) (record { once = tt; made = tt; open_channels = tt })
