-- ===== src/Container/Checks.antt =====
-- internal/container/podman.go: what a new container is to be, and ValidateContainerSpec with the checks
-- of its parts. The environment is listed in the order in which range meets it.
use piccolod.Common.{
  ℕ, suc, Bool, true, false, not, ◌&&◌, ◌||◌, List, [], ◌∷◌, leb, ltb, nat_eq, byte_len, any,
  Result, ok, err, ◌>>◌, if◌then◌else◌,
}
use piccolod.Common.Int.{ℤ, int_leb, int_gtb}
use piccolod.App.Regex.{Regex, one, many, maybe, seq, alt, full_match}

abbrev pub Text : Type 0
Text = List ℕ

pub record PortMapping : Type 0 where
  pub host : ℤ
  pub container : ℤ

pub record VolumeMapping : Type 0 where
  pub host : Text
  pub container : Text
  pub options : Text

pub record ResourceLimits : Type 0 where
  pub memory : Text
  pub cpu : Text

-- An empty text is a part that is not set.
pub record ContainerCreateSpec : Type 0 where
  pub name : Text
  pub image : Text
  pub ports : List PortMapping
  pub volumes : List VolumeMapping
  pub environment : List (Text × Text)
  pub resources : ResourceLimits
  pub network_mode : Text
  pub restart_policy : Text

pub data CheckError : Type 0 where
  empty too_long control_characters : CheckError
  not_absolute traversal invalid : Text → CheckError
  port_range : ℤ → CheckError

-- The part that an error is about; a number is the index in its list.
pub data SpecError : Type 0 where
  bad_name bad_image bad_memory bad_cpu : CheckError → SpecError
  bad_host_port bad_container_port bad_host_path bad_container_path : ℕ → CheckError → SpecError
  bad_key bad_value : Text → CheckError → SpecError

abbrev pub Check : Type 0
Check = Result CheckError (Unit {0})

abbrev pub no_text : Text → Bool
no_text [] = true
no_text (c ∷ s) = false

abbrev pub between : ℕ → ℕ → ℕ → Bool
between low high c = leb low c && leb c high

abbrev pub is_decimal : ℕ → Bool
is_decimal c = between b'0' b'9' c

abbrev pub is_small : ℕ → Bool
is_small c = between b'a' b'z' c || is_decimal c

abbrev pub is_name : ℕ → Bool
is_name c =
    is_small c || nat_eq c b'.' || nat_eq c b'_' || nat_eq c b':' || nat_eq c b'/' || nat_eq c b'-'

abbrev pub is_letter : ℕ → Bool
is_letter c = between b'a' b'z' c || between b'A' b'Z' c

abbrev pub is_path : ℕ → Bool
is_path c =
    is_letter c || is_decimal c || nat_eq c b'.' || nat_eq c b'_' || nat_eq c b'/' || nat_eq c b'-'

-- ^[a-z0-9][a-z0-9._:/-]*[a-z0-9]$|^[a-z0-9]$
unfoldable pub name_pattern : Regex
name_pattern = alt (seq (one is_small) (seq (many is_name) (one is_small))) (one is_small)

-- ^/[a-zA-Z0-9._/-]*$
unfoldable pub path_pattern : Regex
path_pattern = seq (one (λ c. nat_eq c b'/')) (many is_path)

abbrev pub is_key_start : ℕ → Bool
is_key_start c = is_letter c || nat_eq c b'_'

-- ^[a-zA-Z_][a-zA-Z0-9_]*$
unfoldable pub env_key_pattern : Regex
env_key_pattern = seq (one is_key_start) (many (λ c. is_key_start c || is_decimal c))

is_unit : ℕ → Bool
is_unit c =
    nat_eq c b'k'
    || nat_eq c b'm'
    || nat_eq c b'g'
    || nat_eq c b't'
    || nat_eq c b'K'
    || nat_eq c b'M'
    || nat_eq c b'G'
    || nat_eq c b'T'

is_byte : ℕ → Bool
is_byte c = nat_eq c b'b' || nat_eq c b'B'

-- [0-9]+
decimals : Regex
decimals = seq (one is_decimal) (many is_decimal)

-- ^[0-9]+(\.[0-9]+)?[kmgtKMGT]?[bB]?$
resource_pattern : Regex
unfolding is_unit is_byte decimals
resource_pattern = seq decimals (
    seq (maybe (seq (one (λ c. nat_eq c b'.')) decimals))
      (seq (maybe (one is_unit)) (maybe (one is_byte))))

unfoldable pub validate_container_name : Text → Check
unfolding name_pattern full_match
validate_container_name name =
    if no_text name
    then err empty
    else if ltb 255 (byte_len name)
    then err too_long
    else if full_match name_pattern name
    then ok tt
    else err (invalid name)

unfoldable pub validate_port : ℤ → Check
validate_port port = if int_leb port 0 || int_gtb port 65535 then err (port_range port) else ok tt

-- strings.HasPrefix(s, "/")
is_rooted : Text → Bool
is_rooted [] = false
is_rooted (c ∷ s) = nat_eq c b'/'

-- strings.Contains(s, "..")
has_dots : Text → Bool
has_dots (c ∷ d ∷ s) = (nat_eq c b'.' && nat_eq d b'.') || has_dots (d ∷ s)
has_dots _ = false

unfoldable pub validate_path : Text → Check
unfolding is_rooted has_dots path_pattern full_match
validate_path path =
    if no_text path
    then err empty
    else if not (is_rooted path)
    then err (not_absolute path)
    else if not (full_match path_pattern path)
    then err (invalid path)
    else if has_dots path
    then err (traversal path)
    else ok tt

validate_resource : Text → Check
unfolding resource_pattern full_match
validate_resource resource =
    if no_text resource
    then err empty
    else if full_match resource_pattern resource
    then ok tt
    else err (invalid resource)

unfoldable pub validate_env_key : Text → Check
unfolding env_key_pattern full_match
validate_env_key key =
    if no_text key
    then err empty
    else if ltb 255 (byte_len key)
    then err too_long
    else if full_match env_key_pattern key
    then ok tt
    else err (invalid key)

-- Tabs and line breaks are no control characters here.
is_control : ℕ → Bool
is_control c = leb c 8 || nat_eq c 11 || nat_eq c 12 || between 14 31 c || nat_eq c 127

pub validate_env_value : Text → Check
unfolding is_control
validate_env_value value =
    if any is_control value
    then err control_characters
    else if ltb 4096 (byte_len value)
    then err too_long
    else ok tt

-- The error of a check, with the part that it is about.
unfoldable pub about : (CheckError → SpecError) → Check → Result SpecError (Unit {0})
about wrap (ok u) = ok tt
about wrap (err e) = err (wrap e)

unfoldable pub validate_ports : ℕ → List PortMapping → Result SpecError (Unit {0})
unfolding about validate_port
validate_ports i [] = ok tt
validate_ports i (port ∷ ports) = do
  about (bad_host_port i) (validate_port port.host)
  about (bad_container_port i) (validate_port port.container)
  validate_ports (suc i) ports

unfoldable pub validate_volumes : ℕ → List VolumeMapping → Result SpecError (Unit {0})
unfolding about validate_path
validate_volumes i [] = ok tt
validate_volumes i (volume ∷ volumes) = do
  about (bad_host_path i) (validate_path volume.host)
  about (bad_container_path i) (validate_path volume.container)
  validate_volumes (suc i) volumes

unfoldable pub validate_environment : List (Text × Text) → Result SpecError (Unit {0})
unfolding about validate_env_key validate_env_value
validate_environment [] = ok tt
validate_environment ((key, value) ∷ rest) = do
  about (bad_key key) (validate_env_key key)
  about (bad_value key) (validate_env_value value)
  validate_environment rest

unless_empty : (CheckError → SpecError) → Text → Result SpecError (Unit {0})
unfolding about validate_resource
unless_empty wrap text = if no_text text then ok tt else about wrap (validate_resource text)

unfoldable pub validate_container_spec : ContainerCreateSpec → Result SpecError (Unit {0})
unfolding about validate_container_name validate_ports validate_volumes validate_environment
    unless_empty
validate_container_spec spec = do
  about bad_name (validate_container_name spec.name)
  about bad_image (validate_container_name spec.image)
  validate_ports 0 spec.ports
  validate_volumes 0 spec.volumes
  validate_environment spec.environment
  unless_empty bad_memory spec.resources.memory
  unless_empty bad_cpu spec.resources.cpu
