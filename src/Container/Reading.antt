-- ===== src/Container/Reading.antt =====
-- internal/container/podman.go: a reading back of the arguments that buildRunArgs writes. It is a device of
-- the proofs, made to undo buildRunArgs, and no model of podman or of what podman accepts.
pub mod Values
pub mod Faithful
use piccolod.Common.{
  ℕ, ◌+◌, ◌≡◌, refl, Bool, true, false, not, ◌&&◌, Option, none, some, List, [], ◌∷◌, ◌++◌, nat_eq,
  codes, text_eq, if◌then◌else◌,
}
use piccolod.Common.Int.{ℤ, pos}
use piccolod.Auth.Password.{split, cut}
use piccolod.Container.Checks.{
  Text, PortMapping, VolumeMapping, ResourceLimits, ContainerCreateSpec,
}
use piccolod.Container.Decimal.{number}

pub data Flag : Type 0 where
  name publish volume memory cpus env network restart : Flag

pub data Word : Type 0 where
  valued : Flag → Word
  replace unknown : Word
  plain : Text → Word

pub flag_of : Text → Word
flag_of w =
    if text_eq w (codes "--name")
    then valued name
    else if text_eq w (codes "--replace")
    then replace
    else if text_eq w (codes "--publish")
    then valued publish
    else if text_eq w (codes "--volume")
    then valued volume
    else if text_eq w (codes "--memory")
    then valued memory
    else if text_eq w (codes "--cpus")
    then valued cpus
    else if text_eq w (codes "--env")
    then valued env
    else if text_eq w (codes "--network")
    then valued network
    else if text_eq w (codes "--restart")
    then valued restart
    else unknown

unfoldable pub word_of : Text → Word
unfolding flag_of
word_of [] = unknown
word_of (c ∷ w) = if nat_eq c b'-' then flag_of (c ∷ w) else plain (c ∷ w)

abbrev pub blank : ContainerCreateSpec
blank = record {
  name = [];
  image = [];
  ports = [];
  volumes = [];
  environment = [];
  resources = record { memory = []; cpu = [] };
  network_mode = [];
  restart_policy = [];
}

pub both : Option ℕ → Option ℕ → Option PortMapping
both (some a) (some b) = some (record { host = pos a; container = pos b })
both _ _ = none

pub port_of : List Text → Option PortMapping
unfolding both
port_of (address ∷ host ∷ container ∷ []) =
    if text_eq address (codes "127.0.0.1") then both (number host) (number container) else none
port_of _ = none

pub container_of : Text → Text → Option (Text × Text) → VolumeMapping
container_of host rest none = record { host = host; container = rest; options = [] }
container_of host rest (some (container, options)) = record {
  host = host;
  container = container;
  options = options;
}

pub host_of : Option (Text × Text) → Option VolumeMapping
unfolding container_of
host_of none = none
host_of (some (host, rest)) = some (container_of host rest (cut b':' rest))

pub volume_of : Text → Option VolumeMapping
unfolding host_of
volume_of value = host_of (cut b':' value)

pub with_port : Option PortMapping → ContainerCreateSpec → Option ContainerCreateSpec
with_port none s = none
with_port (some port) s = some (record s { ports = port ∷ s.ports })

pub with_volume : Option VolumeMapping → ContainerCreateSpec → Option ContainerCreateSpec
with_volume none s = none
with_volume (some v) s = some (record s { volumes = v ∷ s.volumes })

pub with_env : Option (Text × Text) → ContainerCreateSpec → Option ContainerCreateSpec
with_env none s = none
with_env (some entry) s = some (record s { environment = entry ∷ s.environment })

pub set_flag : Flag → Text → ContainerCreateSpec → Option ContainerCreateSpec
unfolding with_port with_volume with_env port_of volume_of
set_flag name v s = some (record s { name = v })
set_flag publish v s = with_port (port_of (split b':' v)) s
set_flag volume v s = with_volume (volume_of v) s
set_flag memory v s = some (record s { resources = record { memory = v; cpu = s.resources.cpu } })
set_flag cpus v s = some (record s { resources = record { memory = s.resources.memory; cpu = v } })
set_flag env v s = with_env (cut b'=' v) s
set_flag network v s = some (record s { network_mode = v })
set_flag restart v s = some (record s { restart_policy = v })

pub set_from : Flag → Text → Option ContainerCreateSpec → Option ContainerCreateSpec
set_from f v none = none
set_from f v (some s) = set_flag f v s

-- The arguments after a word.
pub after_word :
    Word
    → List Text
    → Option ContainerCreateSpec
    → (Flag → Option ContainerCreateSpec)
    → Option ContainerCreateSpec
after_word (valued f) ws rest value = value f
after_word replace ws rest value = rest
after_word (plain w) [] rest value = some (record blank { image = w })
after_word (plain w) (x ∷ ws) rest value = none
after_word unknown ws rest value = none

-- The arguments, with the flag whose value comes next, if there is one.
pub read_args : Option Flag → List Text → Option ContainerCreateSpec
unfolding after_word word_of set_from set_flag
read_args none [] = some blank
read_args (some f) [] = none
read_args none (w ∷ ws) = after_word (word_of w) ws (read_args none ws) (λ f. read_args (some f) ws)
read_args (some f) (v ∷ ws) = set_from f v (read_args none ws)

pub read_run : List Text → Option ContainerCreateSpec
unfolding read_args
read_run (run ∷ detach ∷ args) =
    if text_eq run (codes "run") && text_eq detach (codes "-d") then read_args none args else none
read_run _ = none
