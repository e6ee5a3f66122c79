-- ===== src/Tests/Containers.antt =====
-- internal/container/podman.go: a container with hostile values, and the output of a run.
use piccolod.Common.{◌≡◌, refl, some, [], ◌∷◌, codes, ok, err}
use piccolod.Common.Int.{pos, negsuc}
use piccolod.Auth.Password.{split}
use piccolod.Container.Checks.{
  Text, ContainerCreateSpec, bad_host_port, port_range, validate_container_spec,
}
use piccolod.Container.Command.{container_id, trim}
use piccolod.Container.Reading.Faithful.{build_run_args_injective}
use piccolod.Container.Identities.{Accepted, container_id-Accepted}

-- The values of the environment, the options and the network look like flags.
abbrev spec : ContainerCreateSpec
spec = record {
  name = codes "blog-1";
  image = codes "docker.io/library/nginx:1.25";
  ports = record { host = pos 15001; container = pos 80 } ∷ [];
  volumes =
      record { host = codes "/data"; container = codes "/var/www"; options = codes "ro:z" }
      ∷ record { host = codes "/etc/app"; container = codes "/app"; options = [] }
      ∷ [];
  environment = (codes "MODE", codes "--privileged=1") ∷ [];
  resources = record { memory = codes "512m"; cpu = [] };
  network_mode = codes "--privileged";
  restart_policy = codes "always";
}

spec_passes : validate_container_spec spec ≡ ok tt
unfolding validate_container_spec
spec_passes = refl

port_refused :
    validate_container_spec
      (record spec { ports = record { host = negsuc 0; container = pos 80 } ∷ [] })
    ≡ err (bad_host_port 0 (port_range (negsuc 0)))
unfolding validate_container_spec
port_refused = refl

-- The same container, put together anew.
abbrev respecified : ContainerCreateSpec
respecified = record spec { name = b'b' ∷ codes "log-1"; restart_policy = codes "always" }

build_run_args_injective_example : spec ≡ respecified
build_run_args_injective_example =
    build_run_args_injective spec respecified spec_passes spec_passes refl

abbrev identity : Text
identity = codes "0123456789abcdef"

found_identity : container_id (codes "pulled\n 0123456789abcdef \n") ≡ some identity
unfolding container_id split trim
found_identity = refl

container_id-Accepted_example : Accepted identity
container_id-Accepted_example =
    container_id-Accepted (codes "pulled\n 0123456789abcdef \n") identity found_identity
