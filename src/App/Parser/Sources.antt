-- ===== src/App/Parser/Sources.antt =====
-- parser.go, validateImageOrBuild: where the container of an app comes from.
use piccolod.Common.{
  ◌≡◌, ◌≢◌, ◌⊎◌, inl, inr, true, false, Option, none, some, ok, Eq-string, Eq-cases, arith,
}
use piccolod.Api.App.{AppBuild, AppDefinition}
use piccolod.App.Parser.{validate_image_or_build, build_of, names_build, has_build}

-- A containerfile or a git address, and not both.
abbrev pub HasOneBuild : AppBuild → Type 0
HasOneBuild b = ((b.containerfile ≢ "") × (b.git ≡ "")) ⊎ ((b.containerfile ≡ "") × (b.git ≢ ""))

-- No build, or one that names nothing.
abbrev pub HasNoBuild : Option AppBuild → Type 0
HasNoBuild none = Unit {0}
HasNoBuild (some b) = (b.containerfile ≡ "") × (b.git ≡ "")

abbrev pub SomeBuild : Option AppBuild → Type 0
SomeBuild none = ⊥
SomeBuild (some b) = HasOneBuild b

abbrev pub HasOneSource : {F : Type 0} → AppDefinition F → Type 0
HasOneSource app =
    ((app.image ≢ "") × HasNoBuild app.build) ⊎ ((app.image ≡ "") × SomeBuild app.build)

no_build : (o : Option AppBuild) → names_build o ≡ false → HasNoBuild o
unfolding names_build has_build
no_build none h = tt
no_build (some b) h = elim (Eq-cases b.containerfile "") [
  | inr (p, q) ↦ absurd (ground (arith, h, q))
  | inl (p, q) ↦ elim (Eq-cases b.git "") [
    | inr (r, s) ↦ absurd (ground (arith, h, s))
    | inl (r, s) ↦ (p, r)
  ]
]

one_build : (o : Option AppBuild) → names_build o ≡ true → build_of o ≡ ok tt → SomeBuild o
unfolding names_build build_of has_build
one_build none h k = absurd (ground (arith, h))
one_build (some b) h k = elim (Eq-cases b.containerfile "") [
  | inr (p, q) ↦ elim (Eq-cases b.git "") [
    | inr (r, s) ↦ absurd (ground (arith, k, q, s))
    | inl (r, s) ↦ inl (p, r)
  ]
  | inl (p, q) ↦ elim (Eq-cases b.git "") [
    | inr (r, s) ↦ inr (p, r)
    | inl (r, s) ↦ absurd (ground (arith, h, q, s))
  ]
]

pub accepted_source :
    {F : Type 0} (app : AppDefinition F) → validate_image_or_build app ≡ ok tt → HasOneSource app
unfolding validate_image_or_build
accepted_source app h = elim (Eq-cases app.image "") [
  | inl (p, q) ↦ inr (p, one_build app.build (ground (arith, h, q)) (ground (arith, h, q)))
  | inr (p, q) ↦ inl (p, no_build app.build (ground (arith, h, q)))
]
