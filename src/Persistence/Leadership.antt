-- ===== src/Persistence/Leadership.antt =====
-- internal/cluster/leadership.go: the role of this node for each resource.
use piccolod.Common.{String, Option, none, some, Eq-string}
use piccolod.Common.Map.{Map, lookup, insert}

pub data Role : Type 0 where
  unknown leader follower : Role

abbrev pub Registry : Type 0
Registry = Map String Role

-- ResourceKernel
abbrev pub kernel : String
kernel = "control-plane"

role_or_unknown : Option Role → Role
role_or_unknown none = unknown
role_or_unknown (some role) = role

pub set : String → Role → Registry → Registry
set id role r = insert id role r

pub current : String → Registry → Role
unfolding role_or_unknown
current id r = role_or_unknown (lookup id r)
