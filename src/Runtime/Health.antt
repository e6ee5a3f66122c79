-- ===== src/Runtime/Health.antt =====
-- internal/health/tracker.go: the health of the components. The details of a status and its time
-- of update are not modelled.
use piccolod.Common.Map.{Map, lookup, insert}
use piccolod.Common.{
  ℕ, ◌≤◌, ◌≡◌, inl, inr, ◌↔◌, refl, String, Bool, true, false, Option, none, some, List, [], ◌∷◌,
  Eq-string, if◌then◌else◌, ltb, All, false≢true, sym, ◌∙◌, Option-cases, Bool-cases, arith,
}

-- A level is its number: 0 is ok, 1 a warning, 2 an error.
pub record Status : Type 0 where
  pub level : ℕ
  pub message : String

-- The names of the tracked components with their statuses.
abbrev pub Tracker : Type 0
Tracker = Map String Status

pub set : Tracker → String → Status → Tracker
set t name status = insert name status t

worse : Tracker → ℕ → ℕ
worse [] worst = worst
worse ((name, st) ∷ rest) worst = worse rest (if ltb worst st.level then st.level else worst)

pub overall : Tracker → ℕ
unfolding worse
overall t = worse t 0

level_is_bad : Option Status → Bool
level_is_bad none = true
level_is_bad (some st) = ltb 0 st.level

ready_from : Tracker → List String → Bool → Bool
unfolding level_is_bad
ready_from t [] ok = ok
ready_from t (name ∷ required) ok =
    ready_from t required (if level_is_bad (lookup name t) then false else ok)

-- The map of statuses that the source also returns is the tracker.
pub ready : Tracker → List String → Bool
unfolding ready_from
ready t required = ready_from t required true

worse-least :
    (t : Tracker) (worst bound : ℕ)
    → (worse t worst ≤ bound) ↔ ((worst ≤ bound) × All (λ c. c.1.level ≤ bound) t)
unfolding worse
worse-least [] worst bound = ground arith
worse-least ((name, st) ∷ t) worst bound =
    ground (arith, worse-least t (if ltb worst st.level then st.level else worst) bound)

-- The overall level is the least one that no component's level exceeds.
pub overall-least : (t : Tracker) (bound : ℕ) → (overall t ≤ bound) ↔ All (λ c. c.1.level ≤ bound) t
unfolding overall
overall-least t bound = ground (arith, worse-least t 0 bound)

-- The component is tracked and its level is ok.
abbrev pub IsHealthy : Tracker → String → Type 0
IsHealthy t name = (st : Status) × (lookup name t ≡ some st) × (st.level ≡ 0)

healthy : (t : Tracker) (name : String) → (level_is_bad (lookup name t) ≡ false) ↔ IsHealthy t name
unfolding level_is_bad
healthy t name = elim (Option-cases (lookup name t)) [
  | inl e ↦ ground (arith, e)
  | inr (st, e) ↦ (λ h. (st, e, ground (arith, e, h)), λ (st', e', z). ground (arith, e, e', z))
]

ready_from_iff :
    (t : Tracker) (required : List String) (ok : Bool)
    → (ready_from t required ok ≡ true) ↔ ((ok ≡ true) × All (IsHealthy t) required)
unfolding ready_from
ready_from_iff t [] ok = (λ h. (h, tt), λ h. h.0)
ready_from_iff t (name ∷ required) ok = elim (Bool-cases (level_is_bad (lookup name t))) [
  | inl bad ↦ (
    λ h. absurd (false≢true ((ready_from_iff t required false).0 (rw (bad, if◌then◌else◌) at h)).0),
    λ (o, (ih, rest)). absurd (false≢true (sym ((healthy t name).1 ih) ∙ bad)),
  )
  | inr good ↦ (
    λ h.
        let (o, rest) = (ready_from_iff t required ok).0 (rw (good, if◌then◌else◌) at h) in
        (o, ((healthy t name).0 good, rest)),
    λ (o, (ih, rest)). rw (good, if◌then◌else◌, (ready_from_iff t required ok).1 (o, rest)),
  )
]

-- A tracker is ready for a list of components just when each of them is tracked with the level ok.
pub ready_iff :
    (t : Tracker) (required : List String) → (ready t required ≡ true) ↔ All (IsHealthy t) required
unfolding ready
ready_iff t required =
    let (f, g) = ready_from_iff t required true in (λ h. (f h).1, λ h. g (refl, h))
