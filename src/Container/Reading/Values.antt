-- ===== src/Container/Reading/Values.antt =====
-- internal/container/podman.go: the values of flags that passed the checks are read as they were meant.
use piccolod.Common.{
  ℕ, ◌≡◌, refl, sym, ap, ◌∙◌, subst, Bool, true, false, ◌||◌, none, some, [], ◌∷◌, ◌++◌, nat_eq,
  codes, text_eq, Result, ok, err, ◌>>◌, arith, append-nil,
}
use piccolod.Common.Int.{ℤ, pos, negsuc}
use piccolod.Auth.Password.{split, cut}
use piccolod.Auth.Password.Encoding.{lacks, split-append, split-last}
use piccolod.App.Regex.{accepts_many, full_match, accepts, is_end}
use piccolod.Container.Checks.{
  Text, PortMapping, VolumeMapping, SpecError, CheckError, Check, is_path, is_key_start, is_decimal,
  path_pattern, env_key_pattern, name_pattern, validate_path, validate_env_key, validate_port,
  validate_container_name, about,
}
use piccolod.Container.Decimal.{number-digits, lacks-digits, int_text, digits}
use piccolod.Container.Command.{image_args, mapping, volume_arg, with_options}
use piccolod.Container.Reading.{plain, word_of, both, port_of, container_of, host_of, volume_of}

pub cut-append : (sep : ℕ) (s t : Text) → lacks sep s ≡ true → cut sep (s ++ sep ∷ t) ≡ some (s, t)
unfolding cut
cut-append sep [] t l = ground arith
cut-append sep (c ∷ s) t l = ground (arith, l, cut-append sep s t)

cut-lacks : (sep : ℕ) (s : Text) → lacks sep s ≡ true → cut sep s ≡ none
unfolding cut
cut-lacks sep [] l = refl
cut-lacks sep (c ∷ s) l = ground (arith, l, cut-lacks sep s)

many-lacks :
    (q : ℕ → Bool) (sep : ℕ)
    → ((c : ℕ) → q c ≡ true → nat_eq c sep ≡ false)
    → (s : Text) → accepts_many q s is_end ≡ true
    → lacks sep s ≡ true
unfolding accepts_many
many-lacks q sep h [] a = refl
many-lacks q sep h (c ∷ s) a = ground (arith, a, h c, many-lacks q sep h s)

path-lacks : (path : Text) → validate_path path ≡ ok tt → lacks b':' path ≡ true
unfolding validate_path path_pattern full_match accepts
path-lacks [] h = refl
path-lacks (c ∷ s) h = ground (arith, h, many-lacks is_path b':' (λ d e. ground (arith, e)) s)

pub key-lacks : (key : Text) → validate_env_key key ≡ ok tt → lacks b'=' key ≡ true
unfolding validate_env_key env_key_pattern full_match accepts
key-lacks [] h = refl
key-lacks (c ∷ s) h =
    ground
      (arith, h, many-lacks (λ d. is_key_start d || is_decimal d) b'=' (λ d e. ground (arith, e)) s)

-- A name that passes begins with no dash.
pub image-plain :
    (image : Text)
    → validate_container_name image ≡ ok tt
    → (word_of image ≡ plain image) × (image_args image ≡ image ∷ [])
unfolding validate_container_name name_pattern full_match accepts word_of image_args
image-plain [] h = cc h
image-plain (c ∷ s) h = (ground (arith, h), refl)

pub passed :
    {k : Result SpecError (Unit {0})} (wrap : CheckError → SpecError) (c : Check)
    → (about wrap c >> k) ≡ ok tt
    → (c ≡ ok tt) × (k ≡ ok tt)
unfolding about
passed wrap (ok u) h = (refl, h)
passed wrap (err e) h = cc h

valid_port : (port : ℤ) → validate_port port ≡ ok tt → (n : ℕ) × (port ≡ pos n)
unfolding validate_port
valid_port (pos n) h = (n, refl)
valid_port (negsuc n) h = cc h

mapping-reads :
    (a b : ℕ)
    → port_of (split b':' (mapping (record { host = pos a; container = pos b })))
      ≡ some (record { host = pos a; container = pos b })
unfolding port_of mapping int_text both text_eq
mapping-reads a b =
    ap port_of (
      split-append b':' (codes "127.0.0.1") (digits a ++ b':' ∷ digits b) refl
      ∙ ap (◌∷◌ (codes "127.0.0.1")) (
          split-append b':' (digits a) (digits b) (lacks-digits a)
          ∙ ap (◌∷◌ (digits a)) (split-last b':' (digits b) (lacks-digits b))))
    ∙ rw (number-digits a, number-digits b) refl

pub port-reads :
    (port : PortMapping)
    → validate_port port.host ≡ ok tt
    → validate_port port.container ≡ ok tt
    → port_of (split b':' (mapping port)) ≡ some port
port-reads port h g =
    let (a, p) = valid_port port.host h in
    let (b, q) = valid_port port.container g in
    let same : port ≡ record { host = pos a; container = pos b } =
      ap (λ x. record { host = x; container = port.container }) p
      ∙ ap (λ x. record { host = pos a; container = x }) q in
    subst (λ x. port_of (split b':' (mapping x)) ≡ some x) (sym same) (mapping-reads a b)

container-reads :
    (host container options : Text)
    → lacks b':' container ≡ true
    → container_of host
        (container ++ with_options options)
        (cut b':' (container ++ with_options options))
      ≡ record { host = host; container = container; options = options }
unfolding container_of with_options
container-reads host container [] h = rw (append-nil container, cut-lacks b':' container h) refl
container-reads host container (c ∷ options) h = rw (cut-append b':' container (c ∷ options) h) refl

pub volume-reads :
    (v : VolumeMapping)
    → validate_path v.host ≡ ok tt
    → validate_path v.container ≡ ok tt
    → volume_of (volume_arg v) ≡ some v
unfolding volume_of volume_arg host_of
volume-reads v h g =
    ap host_of
      (cut-append b':' v.host (v.container ++ with_options v.options) (path-lacks v.host h))
    ∙ ap some (container-reads v.host v.container v.options (path-lacks v.container g))
