-- ===== src/Api/App.antt =====
-- internal/api/types.go: the definition of an app. A pointer is an Option, a map a list of entries.
-- The type `F` of CPU shares stands for float64. Fields that the parser neither defaults nor checks
-- (the environment, health checks, dependencies and extensions) are left out.
use piccolod.Common.{String, Bool, Option, List}
use piccolod.Common.Int.{ℤ}
use piccolod.Common.Map.{Map}
use piccolod.Api.{AppListener}

pub record AppBuild : Type 0 where
  pub containerfile : String
  pub git : String

pub record AppVolume : Type 0 where
  pub container : String
  pub host : String
  pub size_limit : String

pub record AppStorage : Type 0 where
  pub persistent : Map String AppVolume
  pub temporary : Map String AppVolume

pub record AppNetworkPermissions : Type 0 where
  pub internet : String
  pub local_network : String
  pub dns : String

pub record AppResourcePermissions : Type 0 where
  pub max_processes : ℤ
  pub max_open_files : ℤ
  pub privileged : Bool

pub record AppPermissions : Type 0 where
  pub network : Option AppNetworkPermissions
  pub resources : Option AppResourcePermissions

pub record AppResourceLimits (F : Type 0) : Type 0 where
  pub memory : String
  pub cpu : F
  pub storage : String

pub record AppResources (F : Type 0) : Type 0 where
  pub limits : Option (AppResourceLimits F)

pub record AppDefinition (F : Type 0) : Type 0 where
  pub name : String
  pub image : String
  pub build : Option AppBuild
  pub app_type : String
  pub listeners : List AppListener
  pub storage : Option AppStorage
  pub permissions : Option AppPermissions
  pub resources : Option (AppResources F)
