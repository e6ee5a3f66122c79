-- ===== src/Runtime/Bus/Sending.antt =====
-- bus.go: what a publication does to each channel.
use piccolod.Common.{
  ℕ, ◌<◌, ◌≡◌, ◌≢◌, inl, inr, refl, ◌∙◌, String, Bool, true, false, ◌&&◌, ◌||◌, some, List, [], ◌∷◌,
  ◌++◌, length, All, ltb, nat_eq, nat_eq_iff, Eq-string, ◌==◌, if◌then◌else◌, arith, Bool-cases,
  subst,
}
use piccolod.Runtime.Bus.{Event, Channel, Bus, update, send, send_each, with_channels, publish}

-- The channel is subscribed to the topic.
abbrev pub subscribed : String → ℕ → List (String × ℕ) → Bool
subscribed topic id [] = false
subscribed topic id ((t, j) ∷ subs) = (t == topic && nat_eq j id) || subscribed topic id subs

-- The channel is not among the subscriptions.
abbrev pub Absent : ℕ → List (String × ℕ) → Type 0
Absent id = All (λ s. s.1 ≢ id)

-- Every channel is subscribed once.
abbrev pub Once : List (String × ℕ) → Type 0
Once [] = Unit {0}
Once ((t, id) ∷ subs) = Absent id subs × Once subs

module _ (P : Type 0) where
  abbrev pub AllOpen : (ℕ → Channel P) → List (String × ℕ) → Type 0
  AllOpen channels = All (λ s. (channels s.1).is_closed ≡ false)

  pub record IsLive (b : Bus P) : Type 0 where
    pub once : Once b.subs
    pub made : All (λ s. s.1 < b.made) b.subs
    pub open_channels : AllOpen b.channels b.subs

  pub AllOpen-update :
      (channels : ℕ → Channel P) (id : ℕ) (c : Channel P) (subs : List (String × ℕ))
      → Absent id subs
      → AllOpen channels subs
      → AllOpen (update P channels id c) subs
  AllOpen-update channels id c [] a o = tt
  AllOpen-update channels id c ((t, j) ∷ subs) a o =
      (ground (arith, a.0, o.0, nat_eq_iff j id), AllOpen-update channels id c subs a.1 o.1)

  -- What a channel holds after an event was offered to it.
  abbrev pub offered : Channel P → Event P → List (Event P)
  offered c e = if ltb (length c.queue) c.capacity then c.queue ++ e ∷ [] else c.queue

  pub record Sent (subs : List (String × ℕ)) (e : Event P) (before after : ℕ → Channel P)
      : Type 0 where
    queue :
        (id : ℕ)
        → (after id).queue
          ≡ (if subscribed e.topic id subs then offered (before id) e else (before id).queue)
    same_closed : (id : ℕ) → (after id).is_closed ≡ (before id).is_closed

  pub Absent-not_subscribed :
      (topic : String) (id : ℕ) (subs : List (String × ℕ))
      → Absent id subs
      → subscribed topic id subs ≡ false
  Absent-not_subscribed topic id [] a = refl
  Absent-not_subscribed topic id ((t, j) ∷ subs) a =
      ground (arith, a.0, nat_eq_iff j id, Absent-not_subscribed topic id subs a.1)

  -- The channel after a send that does not panic.
  pub after_send : Channel P → Event P → Channel P
  after_send c e = record c { queue = offered c e }

  pub send-open :
      (c : Channel P) (e : Event P) → c.is_closed ≡ false → send P c e ≡ some (after_send c e)
  unfolding send after_send
  send-open c e h = ground (arith, h)

  pub Sent-cons :
      (t : String) (id : ℕ) (subs : List (String × ℕ)) (e : Event P) (before after : ℕ → Channel P)
      → Absent id subs
      → (t == e.topic) ≡ true
      → Sent subs e (update P before id (after_send (before id) e)) after
      → Sent ((t, id) ∷ subs) e before after
  unfolding after_send
  Sent-cons t id subs e before after a same s = record {
    queue = λ j. elim (Bool-cases (nat_eq id j)) [
      | inl q ↦ ground (
        arith,
        same,
        q,
        nat_eq_iff id j,
        nat_eq_iff j id,
        s.queue j,
        Absent-not_subscribed e.topic j subs,
        subst (λ k. Absent k subs) ((nat_eq_iff id j).0 q) a,
      )
      | inr q ↦ ground (arith, same, q, nat_eq_iff id j, nat_eq_iff j id, s.queue j)
    ];
    same_closed = λ j. ground (arith, s.same_closed j, nat_eq_iff j id);
  }

  pub send_each-Sent :
      (subs : List (String × ℕ)) (e : Event P) (channels : ℕ → Channel P)
      → Once subs
      → AllOpen channels subs
      → (after : ℕ → Channel P) × (send_each P subs e channels ≡ some after)
        × Sent subs e channels after
  unfolding send_each
  send_each-Sent [] e channels o a =
      (channels, refl, record { queue = λ j. refl; same_closed = λ j. refl })
  send_each-Sent ((t, id) ∷ subs) e channels o a = elim (Bool-cases (t == e.topic)) [
    | inr q ↦
        let (after, run, s) = send_each-Sent subs e channels o.1 a.1 in
        (
          after,
          ground (arith, q, run),
          record { queue = λ j. ground (arith, q, s.queue j); same_closed = s.same_closed },
        )
    | inl q ↦
        let c = after_send (channels id) e in
        let (after, run, s) =
          send_each-Sent subs e (update P channels id c) o.1
            (AllOpen-update channels id c subs o.0 a.1) in
        (
          after,
          ground (arith, q, send-open (channels id) e a.0, run),
          Sent-cons t id subs e channels after o.0 q s,
        )
  ]

  -- What a publication is to do to the bus.
  pub record Published (b b' : Bus P) (e : Event P) : Type 0 where
    pub queue :
        (id : ℕ)
        → (b'.channels id).queue ≡ (
            if subscribed e.topic id b.subs
            then offered (b.channels id) e
            else (b.channels id).queue)
    pub live : IsLive b'

  pub AllOpen-same :
      (before after : ℕ → Channel P) (subs : List (String × ℕ))
      → ((id : ℕ) → (after id).is_closed ≡ (before id).is_closed)
      → AllOpen before subs
      → AllOpen after subs
  AllOpen-same before after [] same o = tt
  AllOpen-same before after ((t, id) ∷ subs) same o =
      (same id ∙ o.0, AllOpen-same before after subs same o.1)

  -- A publication on an open bus whose subscribed channels are open does not panic: every channel
  -- subscribed to the topic of the event has it as its newest, unless the channel is full, and the
  -- queues of all other channels are as before. The subscribed channels stay open.
  pub publish-Published :
      (b : Bus P) (e : Event P)
      → IsLive b
      → b.closed ≡ false
      → (b' : Bus P) × (publish P b e ≡ some b') × Published b b' e
  unfolding publish with_channels
  publish-Published b e live not_closed =
      let (after, run, s) = send_each-Sent b.subs e b.channels live.once live.open_channels in
      (
        record b { channels = after },
        ground (arith, not_closed, run),
        record {
          queue = s.queue;
          live = record {
            once = live.once;
            made = live.made;
            open_channels = AllOpen-same b.channels after b.subs s.same_closed live.open_channels;
          };
        },
      )
