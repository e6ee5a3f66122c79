-- ===== src/Container/Identities.antt =====
-- internal/container/podman.go: the identity that CreateContainer returns, in the other commands.
use piccolod.Common.{
  ◌≡◌, refl, sym, ◌∙◌, true, Option, some, List, [], ◌∷◌, codes, ok, if_true, if_false, Bool-cases,
  inl, inr, arith,
}
use piccolod.Auth.Password.{split}
use piccolod.Container.Checks.{Text, PortMapping, validate_port}
use piccolod.Container.Command.{
  is_valid_container_id, is_hex, first_id, trimmed, container_id, with_id, mapping, start_container,
  stop_container, remove_container, update_publish, update_publish_add,
}
use piccolod.Container.Reading.{plain, word_of}

first_id-valid :
    (lines : List Text) (id : Text) → first_id lines ≡ some id → is_valid_container_id id ≡ true
unfolding first_id
first_id-valid [] id h = cc h
first_id-valid (line ∷ lines) id h = elim (Bool-cases (is_valid_container_id line)) [
  | inl e ↦
      same line id (sym (if_true (is_valid_container_id line) (some line) (first_id lines) e) ∙ h) e
  | inr e ↦
      first_id-valid lines id
        (sym (if_false (is_valid_container_id line) (some line) (first_id lines) e) ∙ h)
]
  where
    same :
        (line id : Text)
        → ◌≡◌ {A = Option Text} (some line) (some id)
        → is_valid_container_id line ≡ true
        → is_valid_container_id id ≡ true
    same line id p e = cc (p, e)

-- An identity is no flag.
valid-plain : (id : Text) → is_valid_container_id id ≡ true → word_of id ≡ plain id
unfolding is_valid_container_id is_hex word_of
valid-plain [] h = cc h
valid-plain (c ∷ id) h = ground (arith, h)

accepts_id :
    (id : Text) (args : List Text) → is_valid_container_id id ≡ true → with_id id args ≡ ok args
unfolding with_id
accepts_id id args h = if_true _ _ _ h

-- What the commands on a container run podman with, and that its identity is no flag.
pub record Accepted (id : Text) : Type 0 where
  pub start : start_container id ≡ ok (codes "start" ∷ id ∷ [])
  pub stop : stop_container id ≡ ok (codes "stop" ∷ id ∷ [])
  pub remove : remove_container id ≡ ok (codes "rm" ∷ id ∷ [])
  pub add :
      (port : PortMapping)
      → validate_port port.host ≡ ok tt
      → validate_port port.container ≡ ok tt
      → update_publish_add id port
        ≡ ok (codes "container" ∷ codes "update" ∷ codes "--publish-add" ∷ mapping port ∷ id ∷ [])
  pub no_flag : word_of id ≡ plain id

update-accepted :
    (flag id : Text) (port : PortMapping)
    → is_valid_container_id id ≡ true
    → validate_port port.host ≡ ok tt
    → validate_port port.container ≡ ok tt
    → update_publish flag id port
      ≡ ok (codes "container" ∷ codes "update" ∷ flag ∷ mapping port ∷ id ∷ [])
unfolding update_publish
update-accepted flag id port h p q = rw (accepts_id id [] h, p, q) refl

-- The identity that CreateContainer finds in the output of podman is no flag, and starting, stopping and
-- removing the container, and publishing a port of it that is in range, are not refused.
pub container_id-Accepted : (output id : Text) → container_id output ≡ some id → Accepted id
unfolding container_id start_container stop_container remove_container update_publish_add
container_id-Accepted output id h =
    let valid = first_id-valid (trimmed (split 10 output)) id h in
    record {
      start = accepts_id id _ valid;
      stop = accepts_id id _ valid;
      remove = accepts_id id _ valid;
      add = λ port p q. update-accepted (codes "--publish-add") id port valid p q;
      no_flag = valid-plain id valid;
    }
