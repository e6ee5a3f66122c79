-- ===== src/Runtime/Bus.antt =====
-- internal/events/bus.go. The channels are a store, by the order of their making; `subs` lists the
-- subscriptions of all topics in the order of subscription, so a topic's channels are those of its
-- entries. A send on a closed channel and a second close are panics, for which nothing stands.
-- A receiver that is already waiting on a channel without a buffer is not modelled.
pub mod Sending
pub mod Delivery
use piccolod.Common.{
  ℕ, suc, ◌+◌, String, Bool, true, false, Option, none, some, List, [], ◌∷◌, ◌++◌, length, ltb,
  nat_eq, Eq-string, ◌==◌, if◌then◌else◌,
}

-- The type of payloads.
module _ (P : Type 0) where
  pub record Event : Type 0 where
    pub topic : String
    pub payload : P

  pub record Channel : Type 0 where
    pub capacity : ℕ
    pub queue : List Event
    pub is_closed : Bool

  pub record Bus : Type 0 where
    pub subs : List (String × ℕ)
    pub closed : Bool
    pub channels : ℕ → Channel
    pub made : ℕ

  abbrev pub update : (ℕ → Channel) → ℕ → Channel → ℕ → Channel
  update channels id c j = if nat_eq j id then c else channels j

  no_channel : Channel
  no_channel = record { capacity = 0; queue = []; is_closed = true }

  pub new_bus : Bus
  unfolding no_channel
  new_bus = record { subs = []; closed = false; channels = λ _. no_channel; made = 0 }

  open_channel : ℕ → Bool → Channel
  open_channel capacity closed = record { capacity = capacity; queue = []; is_closed = closed }

  -- The new bus, and the identity of the channel.
  pub subscribe : Bus → String → ℕ → Bus × ℕ
  unfolding open_channel
  subscribe b topic buffer = (
    record b {
      subs = if b.closed then b.subs else b.subs ++ (topic, b.made) ∷ [];
      channels = update b.channels b.made (open_channel buffer b.closed);
      made = suc b.made;
    },
    b.made,
  )

  -- A full channel drops the event.
  pub send : Channel → Event → Option Channel
  send c e =
      if c.is_closed
      then none
      else if ltb (length c.queue) c.capacity
      then some (record c { queue = c.queue ++ e ∷ [] })
      else some c

  send_on : (ℕ → Channel) → ℕ → Option Channel → Option (ℕ → Channel)
  send_on channels id none = none
  send_on channels id (some c) = some (update channels id c)

  send_rest : ((ℕ → Channel) → Option (ℕ → Channel)) → Option (ℕ → Channel) → Option (ℕ → Channel)
  send_rest rest none = none
  send_rest rest (some channels) = rest channels

  pub send_each : List (String × ℕ) → Event → (ℕ → Channel) → Option (ℕ → Channel)
  unfolding send_on send_rest
  send_each [] e channels = some channels
  send_each ((topic, id) ∷ subs) e channels =
      send_rest (send_each subs e)
        (if topic == e.topic then send_on channels id (send (channels id) e) else some channels)

  with_channels : Bus → Option (ℕ → Channel) → Option Bus
  with_channels b none = none
  with_channels b (some channels) = some (record b { channels = channels })

  pub publish : Bus → Event → Option Bus
  unfolding with_channels
  publish b e = if b.closed then some b else with_channels b (send_each b.subs e b.channels)

  close_channel : Channel → Option Channel
  close_channel c = if c.is_closed then none else some (record c { is_closed = true })

  pub close_each : List (String × ℕ) → (ℕ → Channel) → Option (ℕ → Channel)
  unfolding close_channel send_on send_rest
  close_each [] channels = some channels
  close_each ((topic, id) ∷ subs) channels =
      send_rest (close_each subs) (send_on channels id (close_channel (channels id)))

  close_with : Bus → Option (ℕ → Channel) → Option Bus
  close_with b none = none
  close_with b (some channels) = some (record b { channels = channels; closed = true; subs = [] })

  pub close : Bus → Option Bus
  unfolding close_with
  close b = if b.closed then some b else close_with b (close_each b.subs b.channels)

  tail_of : List Event → List Event
  tail_of [] = []
  tail_of (e ∷ es) = es

  -- A receiver takes the oldest event of its channel.
  pub receive : Bus → ℕ → Bus
  unfolding tail_of
  receive b id = record b {
    channels =
        update b.channels id (record (b.channels id) { queue = tail_of (b.channels id).queue });
  }
