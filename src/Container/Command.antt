-- ===== src/Container/Command.antt =====
-- internal/container/podman.go: the arguments that podman is run with. A command that is refused before
-- that gives the error.
use piccolod.Common.{
  ℕ, Bool, false, ◌&&◌, ◌||◌, Option, none, some, List, [], ◌∷◌, ◌++◌, ltb, codes, byte_len,
  is_space, all, Result, ok, err, ◌>>◌, ◌>>=◌, if◌then◌else◌,
}
use piccolod.Common.Int.{ℤ, pos, int_leb}
use piccolod.Auth.Password.{split}
use piccolod.Container.Checks.{
  Text, no_text, between, is_decimal, PortMapping, VolumeMapping, ContainerCreateSpec, CheckError,
  invalid, validate_port, validate_container_name,
}
use piccolod.Container.Decimal.{int_text}

-- A flag with its value, if that is set.
unfoldable pub flag_args : Text → Text → List Text
flag_args flag [] = []
flag_args flag (c ∷ value) = flag ∷ (c ∷ value) ∷ []

unfoldable pub name_args : Text → List Text
name_args [] = []
name_args (c ∷ name) = codes "--name" ∷ (c ∷ name) ∷ codes "--replace" ∷ []

-- "127.0.0.1:%d:%d"
unfoldable pub mapping : PortMapping → Text
unfolding int_text
mapping port = codes "127.0.0.1" ++ b':' ∷ (int_text port.host ++ b':' ∷ int_text port.container)

unfoldable pub port_args : List PortMapping → List Text
unfolding mapping
port_args [] = []
port_args (port ∷ ports) = codes "--publish" ∷ mapping port ∷ port_args ports

unfoldable pub with_options : Text → Text
with_options [] = []
with_options (c ∷ options) = b':' ∷ c ∷ options

unfoldable pub volume_arg : VolumeMapping → Text
unfolding with_options
volume_arg volume = volume.host ++ b':' ∷ (volume.container ++ with_options volume.options)

unfoldable pub volume_args : List VolumeMapping → List Text
unfolding volume_arg
volume_args [] = []
volume_args (volume ∷ volumes) = codes "--volume" ∷ volume_arg volume ∷ volume_args volumes

unfoldable pub env_args : List (Text × Text) → List Text
env_args [] = []
env_args ((key, value) ∷ rest) = codes "--env" ∷ (key ++ b'=' ∷ value) ∷ env_args rest

unfoldable pub image_args : Text → List Text
image_args [] = []
image_args (c ∷ image) = (c ∷ image) ∷ []

unfoldable pub build_run_args : ContainerCreateSpec → List Text
unfolding name_args port_args volume_args flag_args env_args image_args
build_run_args spec =
    codes "run"
    ∷ codes "-d"
    ∷ (name_args spec.name
        ++ (port_args spec.ports
            ++ (volume_args spec.volumes
                ++ (flag_args (codes "--memory") spec.resources.memory
                    ++ (flag_args (codes "--cpus") spec.resources.cpu
                        ++ (env_args spec.environment
                            ++ (flag_args (codes "--network") spec.network_mode
                                ++ (flag_args (codes "--restart") spec.restart_policy
                                    ++ image_args spec.image))))))))

unfoldable pub is_hex : ℕ → Bool
is_hex c = is_decimal c || between b'a' b'f' c || between b'A' b'F' c

unfoldable pub is_valid_container_id : Text → Bool
unfolding is_hex
is_valid_container_id id =
    if ltb (byte_len id) 12 || ltb 64 (byte_len id) then false else all is_hex id

-- strings.TrimSpace: the spaces at the end and those at the front.
trim_end : Text → Text
trim_end [] = []
trim_end (c ∷ s) = let rest = trim_end s in if is_space c && no_text rest then [] else c ∷ rest

trim_front : Text → Text
trim_front [] = []
trim_front (c ∷ s) = let rest = trim_front s in if is_space c then rest else c ∷ s

unfoldable pub trim : Text → Text
unfolding trim_end trim_front
trim s = trim_front (trim_end s)

unfoldable pub first_id : List Text → Option Text
unfolding is_valid_container_id
first_id [] = none
first_id (line ∷ lines) =
    let rest = first_id lines in if is_valid_container_id line then some line else rest

pub trimmed : List Text → List Text
trimmed [] = []
trimmed (line ∷ lines) = trim line ∷ trimmed lines

-- The identity that CreateContainer finds in the output of podman.
unfoldable pub container_id : Text → Option Text
unfolding first_id trimmed
container_id output = first_id (trimmed (split 10 output))

-- The arguments of a command on a container.
unfoldable pub with_id : Text → List Text → Result CheckError (List Text)
with_id id args = if is_valid_container_id id then ok args else err (invalid id)

unfoldable pub start_container : Text → Result CheckError (List Text)
unfolding with_id
start_container id = with_id id (codes "start" ∷ id ∷ [])

unfoldable pub stop_container : Text → Result CheckError (List Text)
unfolding with_id
stop_container id = with_id id (codes "stop" ∷ id ∷ [])

unfoldable pub remove_container : Text → Result CheckError (List Text)
unfolding with_id
remove_container id = with_id id (codes "rm" ∷ id ∷ [])

pull_image : Text → Result CheckError (List Text)
pull_image image = do validate_container_name image; ok (codes "pull" ∷ image ∷ [])

pub logs : Text → ℤ → Result CheckError (List Text)
unfolding with_id int_text
logs id lines = with_id id (
    codes "logs" ∷ codes "--tail" ∷ int_text (if int_leb lines 0 then pos 200 else lines) ∷ id ∷ [])

unfoldable pub update_publish : Text → Text → PortMapping → Result CheckError (List Text)
unfolding with_id mapping
update_publish flag id port = do
  _ ← with_id id []
  validate_port port.host
  validate_port port.container
  ok (codes "container" ∷ codes "update" ∷ flag ∷ mapping port ∷ id ∷ [])

unfoldable pub update_publish_add : Text → PortMapping → Result CheckError (List Text)
unfolding update_publish
update_publish_add id port = update_publish (codes "--publish-add") id port

pub update_publish_remove : Text → PortMapping → Result CheckError (List Text)
unfolding update_publish
update_publish_remove id port = update_publish (codes "--publish-rm") id port
