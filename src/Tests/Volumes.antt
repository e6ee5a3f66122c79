-- ===== src/Tests/Volumes.antt =====
-- internal/persistence/file_volume_manager.go with a disk that is a function from names to files, and
-- on which nothing fails.
use piccolod.Common.{
  ℕ, ok_injective, ◌≡◌, ◌≢◌, refl, sym, ap, ◌∙◌, String, true, false, Option, none, some, List, [],
  ◌∷◌, Result, ok, err, arith, Eq-string, ◌==◌, if◌then◌else◌, if_true, if_false, inl, inr, append,
  length, beq_refl, Eq-cases, zero, suc,
}
use Prim.Native.Char.{code}
use text.Mathlib.TextLemmas.{cons-append}
use piccolod.Crypt.Platform.{read_supported, checked, checked_bytes, password_key}
use piccolod.Crypt.Manager.{unlock_key, with_sdek, is_locked}
use piccolod.Crypt.History.{Calls, here, next, rewrapping, Keeps}
use piccolod.Persistence.Leadership.{leader, follower}
use piccolod.Persistence.Volumes.{VolumeMetadata, VolumeState, Host, Store}
use piccolod.Persistence.Volumes.State.{
  mounted, zero_state, next_state, state_path, state_dir, parsed, read_volume_state, or_zero,
  record_volume_state,
}
use piccolod.Persistence.Volumes.State.Keeping.{IsQuiet, IsTemp}
use piccolod.Persistence.Volumes.State.Recording.{Records, record_volume_state-Records}
use piccolod.Persistence.Volumes.Keys.{is_empty, seal_volume_key, unwrap_volume_key}
use piccolod.Persistence.Volumes.Keys.Wrapping.{IsFaithful, seal-unwrap}
use piccolod.Persistence.Service.{Module}
use piccolod.Persistence.Startup.{new_module}
use piccolod.Persistence.Lock.{handle_record_lock_state}
use piccolod.Persistence.Composed.{ControlStore, volume_deps}
use piccolod.Persistence.Composed.Unlocking.{Refused, handle_record_lock_state-Refused}
use piccolod.Tests.Keys.{
  closed, toy, toy-IsLawful, key, salt, nonce, unlocked, keyset, after, rewrapped,
}

data File : Type 0 where
  state_file : VolumeState → File
  metadata_file : VolumeMetadata → File
  text_file : String → File

abbrev Disk : Type 0
Disk = String → Option File

abbrev found : Option File → Result ℕ File
found none = err 2
found (some file) = ok file

abbrev write : String → Option File → Disk → Disk
write name file disk f = if f == name then file else disk f

abbrev as_state : File → Result ℕ VolumeState
as_state (state_file st) = ok st
as_state file = err 7

abbrev as_metadata : File → Option VolumeMetadata
as_metadata (metadata_file meta) = some meta
as_metadata file = none

abbrev zeros : ℕ → List ℕ
zeros zero = []
zeros (suc n) = 0 ∷ zeros n

-- Only the role of a follower is granted.
abbrev host : Host toy
host = record {
  W = Disk;
  File = File;
  Process = ℕ;
  root = "";
  bypass_mount = false;
  role_checker = λ id role. elim role [ follower ↦ true | _ ↦ false ];
  now = λ w. 0;
  random = λ n w. (ok (zeros n), w);
  mkdir_all = λ dir w. (none, w);
  read_file = λ f w. found (w f);
  write_file = λ f file w. (none, write f (some file) w);
  stat = λ f w. none;
  read_dir = λ dir w. ok [];
  create_temp = λ dir w. (ok "temp", write "temp" (some (text_file "")) w);
  encode_to = λ f st w. (none, write f (some (state_file st)) w);
  sync = λ f w. (none, w);
  close = λ f w. (none, w);
  rename = λ f g w. (none, write g (w f) w);
  remove = λ f w. (none, write f none w);
  sync_dir = λ dir w. (none, w);
  is_not_exist = λ e. elim e [ suc (suc zero) ↦ true | _ ↦ false ];
  error_text = λ e. "failed";
  mountinfo = λ w. ok [];
  text_file = text_file;
  marshal_metadata = metadata_file;
  unmarshal_metadata = as_metadata;
  unmarshal_state = as_state;
  encode = λ b. b;
  decode = λ b. some b;
  init_gocryptfs = λ dir pass w. (none, w);
  launch = λ ro dir mount pass w. (ok 1, w);
  wait_mount = λ dir w. (none, w);
  stop = λ p w. w;
  await_exit = λ p w. w;
  fusermount = λ dir w. (none, w);
}

write-ne :
    (f name : String) (file : Option File) (disk : Disk)
    → f ≢ name
    → write name file disk f ≡ disk f
write-ne f name file disk ne = elim (Eq-cases f name) [
  | inl (p, q) ↦ absurd (ne p)
  | inr (p, q) ↦ if_false (f == name) file (disk f) q
]

write_self : (f : String) (file : Option File) (disk : Disk) → write f file disk f ≡ file
write_self f file disk = if_true (f == f) file (disk f) (beq_refl f)

head_code : String → ℕ
head_code String.[] = 0
head_code (String.◌∷◌ c s) = code c

path-head : (id : String) → head_code (state_path toy host id) ≡ 47
unfolding state_path state_dir head_code
path-head id = ap head_code (
    ap (λ (x : String). append x "/state.json") (cons-append "/" "volumes/" id)
    ∙ cons-append "/" (append "volumes/" id) "/state.json")

path-temp : (id : String) → state_path toy host id ≢ "temp"
unfolding head_code
path-temp id p = ground (arith, path-head id, ap head_code p)

temp-ne : (id tmp : String) → IsTemp toy host id tmp → state_path toy host id ≢ tmp
temp-ne id tmp (w, e) p = path-temp id (p ∙ sym (ok_injective e))

host-IsQuiet : IsQuiet toy host
unfolding parsed
host-IsQuiet = record {
  mkdir = λ id w. refl;
  create = λ id w.
      ap found (write-ne (state_path toy host id) "temp" (some (text_file "")) w (path-temp id));
  encode = λ id tmp st w t.
      ap found (write-ne (state_path toy host id) tmp (some (state_file st)) w (temp-ne id tmp t));
  encoded = λ id tmp st w made e.
      ap (λ x. parsed toy host (found x))
        (write_self tmp (some (state_file st)) (write "temp" (some (text_file "")) w));
  sync = λ f g w. refl;
  close = λ f g w. refl;
  remove = λ id tmp w t. ap found (write-ne (state_path toy host id) tmp none w (temp-ne id tmp t));
  sync_dir = λ f dir w. refl;
  renamed = λ id tmp w t e. ap found (write_self (state_path toy host id) (w tmp) w);
  not_renamed = λ id tmp w t e. cc e;
}

length-zeros : (n : ℕ) → length (zeros n) ≡ n
length-zeros zero = refl
length-zeros (suc n) = ground (arith, length-zeros n)

host-IsFaithful : IsFaithful toy host
unfolding is_empty
host-IsFaithful = record {
  base64 = λ b. refl;
  random = λ n w e. ap length (sym (ok_injective e)) ∙ length-zeros n;
  sealed = λ a nonce pt. refl;
}

abbrev store : Store toy host
store = record { volumes = []; published = []; crypto = unlocked; disk = λ f. none }

no_state : or_zero toy host (read_volume_state toy host "control" store.disk) ≡ ok zero_state
unfolding or_zero read_volume_state
no_state = refl

record_volume_state-Records_example :
    Records toy host "control"
      (next_state zero_state mounted mounted leader none 0)
      store
      (record_volume_state toy host "control" mounted mounted leader none store)
record_volume_state-Records_example =
    record_volume_state-Records toy host host-IsQuiet "control" mounted mounted leader none
      zero_state store refl no_state

abbrev wrapped : VolumeMetadata
wrapped = record { version = 1; wrapped_key = 5 ∷ 80 ∷ 81 ∷ []; nonce = zeros 12 }

sealed : seal_volume_key toy host (80 ∷ 81 ∷ []) store ≡ (ok wrapped, store)
unfolding seal_volume_key with_sdek
sealed = refl

first_opens : unlock_key toy "first" (some (keyset "first")) ≡ ok key
unfolding unlock_key read_supported checked password_key checked_bytes
first_opens = refl

keeps : Keeps toy key (after unlocked "first")
keeps = record { by_password = first_opens; by_words = λ words p. cc p; in_memory = inr refl }

changed : Calls toy (after unlocked "first") (after unlocked "second")
changed = next here (
    rewrapping (after unlocked "first") (ok salt) (ok nonce) "second" (some (keyset "second")) refl
      rewrapped)

seal-unwrap_example : unwrap_volume_key toy host wrapped store ≡ (ok (80 ∷ 81 ∷ []), store)
seal-unwrap_example =
    seal-unwrap toy host toy-IsLawful host-IsFaithful (80 ∷ 81 ∷ []) key store store store wrapped
      (after unlocked "first") (after unlocked "second") keeps refl (refl, refl) sealed changed refl
      (refl, refl)

abbrev control_store : ControlStore toy host
control_store = record {
  lockable = true;
  lock = λ s. s;
  unlock = λ s. (none, s);
  revision = none;
  close = λ s. (none, s);
}

abbrev ensured_module : Module
ensured_module = record (new_module []) {
  control_handle = record { id = "control"; mount_dir = "/mounts/control" };
}

abbrev closed_store : Store toy host
closed_store = record store { crypto = closed }

closed_locked : is_locked closed ≡ true
unfolding is_locked
closed_locked = refl

handle_record_lock_state-Refused_example : Refused toy host control_store ensured_module (
    handle_record_lock_state
      (volume_deps toy host control_store)
      (some false)
      ensured_module
      closed_store)
handle_record_lock_state-Refused_example =
    handle_record_lock_state-Refused toy host control_store ensured_module closed_store refl
      closed_locked
