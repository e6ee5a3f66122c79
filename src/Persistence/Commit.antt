-- ===== src/Persistence/Commit.antt =====
-- internal/persistence/service.go: the revisions of the control store that are recorded and announced.
use piccolod.Common.{ℕ, String, Option, none, some, leb, Result, ok, err, if◌then◌else◌}
use piccolod.Persistence.Leadership.{Role, leader, follower, kernel, current}
use piccolod.Persistence.Service.{Deps, Module, Event, control_store_commit, publish}

-- What is done under commitMu: a revision above the last one is recorded, and is to be announced.
unfoldable pub record_commit : Role → ℕ → String → Module → Option Event × Module
record_commit role rev checksum m =
    if leb rev m.last_commit_revision
    then (none, m)
    else (some (control_store_commit rev checksum role), record m { last_commit_revision = rev })

unfoldable pub announce : Option Event → Module → Module
unfolding publish
announce none m = m
announce (some event) m = publish event m

-- The event is published after the mutex was released. This is the call alone: what other goroutines do
-- in between is a step of Interleaving.
unfoldable pub publish_control_commit : Role → ℕ → String → Module → Module
unfolding record_commit announce
publish_control_commit role rev checksum m =
    let (event, m') = record_commit role rev checksum m in announce event m'

module _ (d : Deps) where
  open d use {W, E}

  -- An error in reading the revision is logged or dropped.
  unfoldable pub commit_read : Role → Result E (ℕ × String) → Module → Module
  unfolding publish_control_commit
  commit_read role (err e) m = m
  commit_read role (ok (rev, checksum)) m = publish_control_commit role rev checksum m

  unfoldable pub commit_from : Role → Option (W → Result E (ℕ × String)) → W → Module → Module
  unfolding commit_read
  commit_from role none w m = m
  commit_from role (some read) w m = commit_read role (read w) m

  unfoldable pub on_control_commit : W → Module → Module
  unfolding commit_from
  on_control_commit w m = commit_from leader d.revision w m

  poll_as : Role → W → Module → Module
  unfolding commit_from
  poll_as leader w m = m
  poll_as role w m = commit_from follower d.revision w m

  -- The leader announces its own commits and does not poll.
  poll_revision : W → Module → Module
  unfolding poll_as
  poll_revision w m = poll_as (current kernel m.roles) w m
