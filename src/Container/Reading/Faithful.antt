-- ===== src/Container/Reading/Faithful.antt =====
-- internal/container/podman.go: the arguments that buildRunArgs writes determine the container.
use piccolod.Common.{
  ℕ, suc, ◌≡◌, refl, sym, ap, ◌∙◌, none, some, List, [], ◌∷◌, ◌++◌, codes, text_eq, Result, ok, err,
  ◌>>◌,
}
use piccolod.Container.Checks.{
  Text, PortMapping, VolumeMapping, ContainerCreateSpec, SpecError, validate_ports,
  validate_volumes, validate_environment, validate_container_name, validate_port, validate_path,
  validate_env_key, validate_env_value, validate_container_spec, bad_host_port, bad_container_port,
  bad_host_path, bad_container_path, bad_key, bad_value, bad_name, bad_image,
}
use piccolod.Container.Command.{
  build_run_args, name_args, port_args, volume_args, flag_args, env_args, image_args, mapping,
  volume_arg,
}
use piccolod.Container.Reading.{
  Flag, name, publish, volume, memory, cpus, env, network, restart, valued, flag_of, word_of, blank,
  with_port, with_volume, with_env, set_flag, set_from, after_word, read_args, read_run,
}
use piccolod.Container.Reading.Values.{
  image-plain, passed, port-reads, volume-reads, key-lacks, cut-append,
}

value-reads :
    (f : Flag) (w v : Text) (ws : List Text) (s t : ContainerCreateSpec)
    → word_of w ≡ valued f
    → read_args none ws ≡ some s
    → set_flag f v s ≡ some t
    → read_args none (w ∷ v ∷ ws) ≡ some t
unfolding read_args after_word set_from
value-reads f w v ws s t e p q =
    ap (λ x. after_word x (v ∷ ws) (read_args none (v ∷ ws)) (λ g. read_args (some g) (v ∷ ws))) e
    ∙ ap (set_from f v) p
    ∙ q

-- A flag that is not set is not written.
flag-reads :
    (f : Flag) (w v : Text) (ws : List Text) (s t : ContainerCreateSpec)
    → word_of w ≡ valued f
    → read_args none ws ≡ some s
    → (v ≡ [] → s ≡ t)
    → set_flag f v s ≡ some t
    → read_args none (flag_args w v ++ ws) ≡ some t
unfolding flag_args
flag-reads f w [] ws s t e p k q = p ∙ ap some (k refl)
flag-reads f w (c ∷ v) ws s t e p k q = value-reads f w (c ∷ v) ws s t e p q

name-reads :
    (v : Text) (ws : List Text) (s : ContainerCreateSpec)
    → read_args none ws ≡ some (record s { name = [] })
    → read_args none (name_args v ++ ws) ≡ some (record s { name = v })
unfolding name_args read_args after_word word_of flag_of set_flag text_eq
name-reads [] ws s p = p
name-reads (c ∷ v) ws s p =
    value-reads name (codes "--name") (c ∷ v) (codes "--replace" ∷ ws) (record s { name = [] })
      (record s { name = c ∷ v }) refl p refl

ports-read :
    (i : ℕ) (ports : List PortMapping) (ws : List Text) (s : ContainerCreateSpec)
    → validate_ports i ports ≡ ok tt
    → read_args none ws ≡ some (record s { ports = [] })
    → read_args none (port_args ports ++ ws) ≡ some (record s { ports = ports })
unfolding validate_ports port_args set_flag word_of flag_of text_eq
ports-read i [] ws s h p = p
ports-read i (port ∷ ports) ws s h p =
    let (a, h1) = passed (bad_host_port i) (validate_port port.host) h in
    let (b, h2) = passed (bad_container_port i) (validate_port port.container) h1 in
    value-reads publish (codes "--publish") (mapping port) (port_args ports ++ ws)
      (record s { ports = ports }) (record s { ports = port ∷ ports }) refl
      (ports-read (suc i) ports ws s h2 p)
      (ap (λ o. with_port o (record s { ports = ports })) (port-reads port a b))

volumes-read :
    (i : ℕ) (volumes : List VolumeMapping) (ws : List Text) (s : ContainerCreateSpec)
    → validate_volumes i volumes ≡ ok tt
    → read_args none ws ≡ some (record s { volumes = [] })
    → read_args none (volume_args volumes ++ ws) ≡ some (record s { volumes = volumes })
unfolding validate_volumes volume_args set_flag word_of flag_of text_eq
volumes-read i [] ws s h p = p
volumes-read i (v ∷ volumes) ws s h p =
    let (a, h1) = passed (bad_host_path i) (validate_path v.host) h in
    let (b, h2) = passed (bad_container_path i) (validate_path v.container) h1 in
    value-reads volume (codes "--volume") (volume_arg v) (volume_args volumes ++ ws)
      (record s { volumes = volumes }) (record s { volumes = v ∷ volumes }) refl
      (volumes-read (suc i) volumes ws s h2 p)
      (ap (λ o. with_volume o (record s { volumes = volumes })) (volume-reads v a b))

environment-reads :
    (entries : List (Text × Text)) (ws : List Text) (s : ContainerCreateSpec)
    → validate_environment entries ≡ ok tt
    → read_args none ws ≡ some (record s { environment = [] })
    → read_args none (env_args entries ++ ws) ≡ some (record s { environment = entries })
unfolding validate_environment env_args set_flag word_of flag_of text_eq
environment-reads [] ws s h p = p
environment-reads ((key, value) ∷ rest) ws s h p =
    let (a, h1) = passed (bad_key key) (validate_env_key key) h in
    let (b, h2) = passed (bad_value key) (validate_env_value value) h1 in
    value-reads env (codes "--env") (key ++ b'=' ∷ value) (env_args rest ++ ws)
      (record s { environment = rest }) (record s { environment = (key, value) ∷ rest }) refl
      (environment-reads rest ws s h2 p)
      (ap (λ o. with_env o (record s { environment = rest }))
        (cut-append b'=' key value (key-lacks key a)))

image-reads :
    (image : Text)
    → validate_container_name image ≡ ok tt
    → read_args none (image_args image) ≡ some (record blank { image = image })
unfolding read_args after_word
image-reads image h =
    let (p, q) = image-plain image h in
    ap (read_args none) q ∙ ap (λ x. after_word x [] (some blank) (λ f. none)) p

passed_all : (m k : Result SpecError (Unit {0})) → (m >> k) ≡ ok tt → (m ≡ ok tt) × (k ≡ ok tt)
passed_all (ok u) k h = (refl, h)
passed_all (err e) k h = cc h

-- The reading back undoes buildRunArgs on what passed the checks.
build_run_args-reads :
    (spec : ContainerCreateSpec)
    → validate_container_spec spec ≡ ok tt
    → read_run (build_run_args spec) ≡ some spec
unfolding validate_container_spec read_run build_run_args set_flag word_of flag_of text_eq
build_run_args-reads spec h =
    let (_, h1) = passed bad_name (validate_container_name spec.name) h in
    let (named, h2) = passed bad_image (validate_container_name spec.image) h1 in
    let (ported, h3) = passed_all (validate_ports 0 spec.ports) _ h2 in
    let (mounted, h4) = passed_all (validate_volumes 0 spec.volumes) _ h3 in
    let (environed, _) = passed_all (validate_environment spec.environment) _ h4 in
    let s0 : ContainerCreateSpec = record blank { image = spec.image } in
    let s1 : ContainerCreateSpec = record s0 { restart_policy = spec.restart_policy } in
    let s2 : ContainerCreateSpec = record s1 { network_mode = spec.network_mode } in
    let s3 : ContainerCreateSpec = record s2 { environment = spec.environment } in
    let s4 : ContainerCreateSpec = record s3 {
      resources = record { memory = []; cpu = spec.resources.cpu };
    } in
    let s5 : ContainerCreateSpec = record s4 { resources = spec.resources } in
    let s6 : ContainerCreateSpec = record s5 { volumes = spec.volumes } in
    let s7 : ContainerCreateSpec = record s6 { ports = spec.ports } in
    name-reads spec.name _ s7 (
      ports-read 0 spec.ports _ s6 ported (
        volumes-read 0 spec.volumes _ s5 mounted (
          flag-reads memory (codes "--memory") spec.resources.memory _ s4 s5 refl
            (flag-reads cpus (codes "--cpus") spec.resources.cpu _ s3 s4 refl
              (environment-reads spec.environment _ s2 environed (
                flag-reads network (codes "--network") spec.network_mode _ s1 s2 refl
                  (flag-reads restart (codes "--restart") spec.restart_policy _ s0 s1 refl
                    (image-reads spec.image named)
                    (λ e. ap (λ x. record s0 { restart_policy = x }) (sym e)) refl)
                  (λ e. ap (λ x. record s1 { network_mode = x }) (sym e)) refl))
              (λ e. ap (λ x. record s3 { resources = record { memory = []; cpu = x } }) (sym e))
              refl)
            (λ e.
              ap (λ x. record s4 { resources = record { memory = x; cpu = spec.resources.cpu } })
                (sym e))
            refl)))

some_injective : {A : Type 0} → (x y : A) → some x ≡ some y → x ≡ y
some_injective x y h = cc h

-- Two containers that pass ValidateContainerSpec and are run with the same arguments are the same
-- container: the name, the image, every port, volume and entry of the environment, in the order written, and the
-- limits, the network and the restart policy can all be told from the arguments, whatever the options of
-- the volumes, the values of the environment, the network and the restart policy are.
pub build_run_args_injective :
    (s t : ContainerCreateSpec)
    → validate_container_spec s ≡ ok tt
    → validate_container_spec t ≡ ok tt
    → build_run_args s ≡ build_run_args t
    → s ≡ t
build_run_args_injective s t h k e =
    some_injective s t (sym (build_run_args-reads s h) ∙ ap read_run e ∙ build_run_args-reads t k)
