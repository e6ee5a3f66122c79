-- ===== src/Persistence/Volumes/State.antt =====
-- internal/persistence/file_volume_manager.go: the recorded state of a volume.
pub mod Keeping
pub mod Replacing
pub mod Recording
use piccolod.Common.{
  ℕ, ◌+◌, append, String, Bool, true, false, not, ◌&&◌, ◌||◌, Option, none, some, List, [], ◌∷◌,
  Result, ok, err, is_some, Eq-string, ◌==◌, if◌then◌else◌,
}
use piccolod.Crypt.Platform.{Platform}
use piccolod.Persistence.Leadership.{Role, unknown, leader, follower}
use piccolod.Persistence.Volumes.{
  VolumeState, VolumeEvent, VolumeError, system, Host, Store, M, ◌>>=◌, ◌>>◌, pure, fail, of_result,
  attempt, get, effect, reading,
}

abbrev pub mounted : String
mounted = "mounted"

abbrev pub unmounted : String
unmounted = "unmounted"

abbrev pub pending : String
pending = "pending"

abbrev pub errored : String
errored = "error"

role_text : Role → String
role_text unknown = "unknown"
role_text leader = "leader"
role_text follower = "follower"

unfoldable pub parse_volume_role : String → Role
parse_volume_role role =
    if role == "leader" then leader else if role == "follower" then follower else unknown

abbrev pub zero_state : VolumeState
zero_state = record {
  desired = "";
  observed = "";
  role = "";
  last_error = "";
  updated_at = 0;
  generation = 0;
  needs_repair = false;
}

-- The text of an error, if there is one.
abbrev pub cause_text : Option String → String
cause_text none = ""
cause_text (some text) = text

-- The state that follows `prev`.
pub next_state : VolumeState → String → String → Role → Option String → ℕ → VolumeState
unfolding role_text
next_state prev desired observed role cause now = record {
  desired = desired;
  observed = observed;
  role = role_text role;
  last_error = cause_text cause;
  updated_at = now;
  generation = prev.generation + 1;
  needs_repair =
      if (observed == mounted || observed == unmounted)
        && not (is_some cause)
        && observed == desired
      then false
      else if observed == errored || is_some cause
      then true
      else prev.needs_repair;
}

module _ (l : Platform) (h : Host l) where
  abbrev pub state_root : String
  state_root = append h.root "/volumes"

  unfoldable pub state_dir : String → String
  state_dir id = append (append state_root "/") id

  unfoldable pub state_path : String → String
  unfolding state_dir
  state_path id = append (state_dir id) "/state.json"

  -- What is done after an error; its outcome is ignored.
  pub after_error : {A : Type 0} → M l h (Unit {0}) → Result (VolumeError l.E) A → M l h A
  after_error clean (ok a) = pure a
  after_error clean (err e) = do _ ← attempt clean; fail e

  pub on_error : {A : Type 0} → M l h (Unit {0}) → M l h A → M l h A
  unfolding after_error
  on_error clean m = do r ← attempt m; after_error clean r

  pub remove_temp : String → M l h (Unit {0})
  remove_temp tmp = effect system (h.remove tmp)

  pub close_and_remove : String → M l h (Unit {0})
  unfolding remove_temp
  close_and_remove tmp = do _ ← attempt (effect system (h.close tmp)); remove_temp tmp

  -- The state is written to a temporary file that takes the place of the old one.
  pub write_volume_state : String → VolumeState → M l h (Unit {0})
  unfolding on_error remove_temp close_and_remove state_dir state_path
  write_volume_state id state = do
    effect system (h.mkdir_all (state_dir id))
    tmp ← reading (h.create_temp (state_dir id))
    on_error (close_and_remove tmp) (effect system (h.encode_to tmp state))
    on_error (close_and_remove tmp) (effect system (h.sync tmp))
    on_error (remove_temp tmp) (effect system (h.close tmp))
    on_error (remove_temp tmp) (effect system (h.rename tmp (state_path id)))
    effect system (h.sync_dir (state_dir id))
    effect system (h.sync_dir state_root)

  unfoldable pub parsed : Result l.E h.File → Result (VolumeError l.E) VolumeState
  parsed (err e) = err (system e)
  parsed (ok file) = lifted_state (h.unmarshal_state file)
    where
      lifted_state : Result l.E VolumeState → Result (VolumeError l.E) VolumeState
      lifted_state (ok state) = ok state
      lifted_state (err e) = err (system e)

  unfoldable pub read_volume_state : String → h.W → Result (VolumeError l.E) VolumeState
  unfolding parsed state_path
  read_volume_state id w = parsed (h.read_file (state_path id) w)

  -- A state that is not there is the empty one.
  unfoldable pub or_zero :
      Result (VolumeError l.E) VolumeState → Result (VolumeError l.E) VolumeState
  or_zero (ok state) = ok state
  or_zero (err (system e)) = if h.is_not_exist e then ok zero_state else err (system e)
  or_zero (err e) = err e

  pub publish_volume_event : String → VolumeState → M l h (Unit {0})
  publish_volume_event id state s =
      (ok tt, record s { published = record { id = id; state = state } ∷ s.published })

  record_state : String → VolumeState → M l h (Unit {0})
  unfolding write_volume_state publish_volume_event
  record_state id state = do write_volume_state id state; publish_volume_event id state

  record_named : String → String → String → Role → Option String → M l h (Unit {0})
  unfolding read_volume_state or_zero next_state record_state
  record_named id desired observed role cause = do
    s ← get
    prev ← of_result (or_zero (read_volume_state id s.disk))
    record_state id (next_state prev desired observed role cause (h.now s.disk))

  pub record_volume_state : String → String → String → Role → Option String → M l h (Unit {0})
  unfolding record_named
  record_volume_state id desired observed role cause =
      if id == "" then pure tt else record_named id desired observed role cause
