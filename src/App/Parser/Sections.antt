-- ===== src/App/Parser/Sections.antt =====
-- parser.go: the optional sections of an app definition: storage, resources and permissions. The
-- comparisons of a float64 with 0 and 64 are the arguments `below_zero` and `above_64`.
use piccolod.Common.{
  ℕ, String, Bool, true, false, not, Option, none, some, List, [], ◌∷◌, elem, nat_eq, Result, ok,
  err, ◌>>◌, codes, Eq-string, ◌==◌, if◌then◌else◌,
}
use piccolod.Common.Int.{ℤ, pos, negsuc}
use piccolod.Common.Map.{Map}
use piccolod.Api.App.{
  AppVolume, AppStorage, AppNetworkPermissions, AppResourcePermissions, AppPermissions,
  AppResourceLimits, AppResources,
}
use piccolod.App.Parser.{
  AppError, SizeError, Check, guard, volume_unnamed, no_container_path, relative_container_path,
  volume_size, memory_size, storage_size, cpu_negative, cpu_too_large, bad_network_value,
  negative_processes, negative_open_files,
}
use piccolod.App.Parser.Sizes.{validate_size_limit}

is_absolute : List ℕ → Bool
is_absolute [] = false
is_absolute (c ∷ s) = nat_eq c b'/'

or_fail : (SizeError → AppError) → Result SizeError (Unit {0}) → Check
or_fail f (ok _) = ok tt
or_fail f (err e) = err (f e)

is_negative : ℤ → Bool
is_negative (pos n) = false
is_negative (negsuc n) = true

allowed_value : String → String → Check
allowed_value field value =
    if value == ""
    then ok tt
    else guard (elem value ("allow" ∷ "deny" ∷ "" ∷ [])) (bad_network_value field value)

pub validate_network_permissions : AppNetworkPermissions → Check
unfolding allowed_value
validate_network_permissions n = do
  allowed_value "internet" n.internet
  allowed_value "local_network" n.local_network
  allowed_value "dns" n.dns

pub validate_resource_permissions : AppResourcePermissions → Check
unfolding is_negative
validate_resource_permissions r = do
  guard (not (is_negative r.max_processes)) negative_processes
  guard (not (is_negative r.max_open_files)) negative_open_files

-- A check of what a pointer points at, if at anything.
optional : {A : Type 0} → (A → Check) → Option A → Check
optional check none = ok tt
optional check (some a) = check a

validate_granted : AppPermissions → Check
unfolding optional
validate_granted p = do
  optional validate_network_permissions p.network
  optional validate_resource_permissions p.resources

unfoldable pub validate_permissions : Option AppPermissions → Check
unfolding optional validate_granted
validate_permissions p = optional validate_granted p

module _ (upper : ℕ → ℕ) where
  validate_volume : String → AppVolume → Check
  unfolding is_absolute or_fail
  validate_volume name v = do
    guard (not (name == "")) volume_unnamed
    guard (not (v.container == "")) (no_container_path name)
    guard (is_absolute (codes v.container)) (relative_container_path name)
    if v.size_limit == ""
        then ok tt
        else or_fail (volume_size name) (validate_size_limit upper v.size_limit)

  pub validate_storage_volumes : Map String AppVolume → Check
  unfolding validate_volume
  validate_storage_volumes [] = ok tt
  validate_storage_volumes ((name, v) ∷ vs) = validate_volume name v >> validate_storage_volumes vs

  validate_both : AppStorage → Check
  validate_both s = do validate_storage_volumes s.persistent; validate_storage_volumes s.temporary

  unfoldable pub validate_storage : Option AppStorage → Check
  unfolding optional validate_both
  validate_storage s = optional validate_both s

  module _ {F : Type 0} (below_zero above_64 : F → Bool) where
    validate_limits : AppResourceLimits F → Check
    unfolding or_fail
    validate_limits l = do
      if l.memory == "" then ok tt else or_fail memory_size (validate_size_limit upper l.memory)
      guard (not (below_zero l.cpu)) cpu_negative
      guard (not (above_64 l.cpu)) cpu_too_large
      if l.storage == "" then ok tt else or_fail storage_size (validate_size_limit upper l.storage)

    limits_of : AppResources F → Check
    unfolding optional validate_limits
    limits_of r = optional validate_limits r.limits

    unfoldable pub validate_resources : Option (AppResources F) → Check
    unfolding optional limits_of
    validate_resources r = optional limits_of r
