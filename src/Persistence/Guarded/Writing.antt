-- ===== src/Persistence/Guarded/Writing.antt =====
-- internal/persistence/guarded_control.go: who writes, and what is announced.
use piccolod.Common.{ℕ, ◌≤◌, ◌<◌, ◌≡◌, String, Option, none, some, ok, err, Result, ◌∷◌, ◌⊎◌}
use piccolod.Persistence.Leadership.{Role, leader, follower}
use piccolod.Persistence.Service.{Deps, Module, control_store_commit}
use piccolod.Persistence.Guarded.{
  Repos, GuardError, inner, not_leader, set_initialized, save_password_hash, update_staleness,
  save_config, upsert_app,
}

-- A write of the control store.
pub data Mutation (d : Deps) (r : Repos d) : Type 0 where
  initializing : Mutation d r
  hashing : String → Mutation d r
  aging : r.StalenessUpdate → Mutation d r
  configuring : r.RemoteConfig → Mutation d r
  upserting : r.AppRecord → Mutation d r

module _ (d : Deps) (r : Repos d) where
  open d use {W, E}

  pub mutate : Mutation d r → Module → W → Option (GuardError E) × Module × W
  mutate initializing m w = set_initialized d r m w
  mutate (hashing hash) m w = save_password_hash d r hash m w
  mutate (aging update) m w = update_staleness d r update m w
  mutate (configuring config) m w = save_config d r config m w
  mutate (upserting app) m w = upsert_app d r app m w

  -- The write of the store inside.
  pub inner_write : Mutation d r → W → Option E × W
  inner_write initializing w = r.set_initialized w
  inner_write (hashing hash) w = r.save_password_hash hash w
  inner_write (aging update) w = r.update_staleness update w
  inner_write (configuring config) w = r.save_config config w
  inner_write (upserting app) w = r.upsert_app app w

  -- What is announced of the revision that is read after a write: nothing, if there is none to read, it
  -- cannot be read, or it is not above the last one; else it is recorded as the last one and announced
  -- as the leader's, and nothing else changes.
  abbrev pub Announced : Option (Result E (ℕ × String)) → Module → Module → Type 0
  Announced none m m' = m' ≡ m
  Announced (some (err e)) m m' = m' ≡ m
  Announced (some (ok (rev, checksum))) m m' =
      ((rev ≤ m.last_commit_revision) × (m' ≡ m))
      ⊎ ((m.last_commit_revision < rev)
          × (m' ≡ record m {
            last_commit_revision = rev;
            published = control_store_commit rev checksum leader ∷ m.published;
          }))

  abbrev pub readable : Option (W → Result E (ℕ × String)) → W → Option (Result E (ℕ × String))
  readable none w = none
  readable (some read) w = some (read w)

  -- What a write is to do, by the role of the node and the outcome of the write inside.
  abbrev pub Written :
      Role → Option E × W → Module → W → Option (GuardError E) × Module × W → Type 0
  Written follower o m w x = x ≡ (some not_leader, m, w)
  Written role (some e, w') m w x = x ≡ (some (inner e), m, w')
  Written role (none, w') m w x =
      (x.0 ≡ none) × (x.2 ≡ w') × Announced (readable d.revision w') m x.1
