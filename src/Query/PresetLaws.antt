-- ===== src/Query/PresetLaws.antt =====
-- The presets of filters that can be defined.
use fluvius_py.Common.{
  ◌≡◌, refl, sym, ◌∙◌, ap, subst, String, Bool, true, false, inl, inr, Bool-cases, Option, none,
  some, List, [], ◌∷◌, ◌++◌, append-nil, str_eq, is_some, if◌then◌else◌,
}
use fluvius_py.Common.Dict.{get, put, get-put_eq, get-put_ne}
use fluvius_py.Exec.{Failure, ok, raised, and_then, and_then_ok, require_ok, ok_inj}
use fluvius_py.Query.Resources.{
  Template, Preset, Presets, collect_filters, define_preset, get_preset,
}
use fluvius_py.Query.Built.{AreFull, as_list}
use fluvius_py.Query.Guard.{some_inj}

-- the operators of the filters that are marked as the default
abbrev pub defaults : List (String × Template) → List String
defaults [] = []
defaults ((operator, t) ∷ ts) =
    let rest = defaults ts in if t.default then operator ∷ rest else rest

-- Every preset has exactly one default filter, and its operator is the default of the preset.
abbrev pub AreSound : Presets → Type 0
AreSound presets =
    (name : String) (p : Preset)
    → get_preset name presets ≡ ok p
    → defaults p.filters ≡ p.default ∷ []

collect_filters-defaults :
    (ts : List (String × Template)) (old new : Option String)
    → collect_filters ts old ≡ ok new
    → as_list new ≡ as_list old ++ defaults ts
unfolding collect_filters
collect_filters-defaults [] old new h = ap as_list (sym (ok_inj h)) ∙ sym (append-nil (as_list old))
collect_filters-defaults ((operator, t) ∷ ts) old new h = elim (Bool-cases t.default) [
  | inr other ↦ rw other (collect_filters-defaults ts old new (rw other at h))
  | inl default ↦
      rw default (by_old old (collect_filters-defaults ts (some operator) new) (rw default at h))
]
  where
    by_old :
        (o : Option String)
        → (collect_filters ts (some operator) ≡ ok new → as_list new ≡ operator ∷ defaults ts)
        → (if is_some o
            then raised (Failure.bad_request "Q00.602")
            else collect_filters ts (some operator))
          ≡ ok new
        → as_list new ≡ as_list o ++ operator ∷ defaults ts
    by_old none ih h = ih h
    by_old (some x) ih h = absurd (cc h)

get_preset_ok :
    (name : String) (presets : Presets) {p : Preset}
    → get_preset name presets ≡ ok p
    → get name presets ≡ some p
unfolding get_preset
get_preset_ok name presets h = require_ok (Failure.bad_request "Q00.604") (get name presets) h

get_preset_found :
    (name : String) (presets : Presets) {p : Preset}
    → get name presets ≡ some p
    → get_preset name presets ≡ ok p
unfolding get_preset
get_preset_found name presets h = rw (get_preset, h) refl

-- Defining a preset keeps that every preset has exactly one default filter, whose operator is its
-- default.
pub define_preset-AreSound :
    (name : String) (ts : List (String × Template)) (presets new : Presets)
    → AreSound presets
    → define_preset name ts presets ≡ ok new
    → AreSound new
unfolding define_preset
define_preset-AreSound name ts presets new sound h = by_name (is_some (get name presets)) h
  where
    added :
        (default : String)
        → defaults ts ≡ default ∷ []
        → AreSound (put name (record { filters = ts; default = default }) presets)
    added default one key p e = elim (Bool-cases (str_eq name key)) [
      | inl same ↦
          subst (λ (x : Preset). defaults x.filters ≡ x.default ∷ [])
            (some_inj (
              sym (get-put_eq name key (record { filters = ts; default = default }) presets same)
              ∙ get_preset_ok key _ e))
            one
      | inr other ↦ sound key p (
          get_preset_found key presets (
            sym (get-put_ne name key (record { filters = ts; default = default }) presets other)
            ∙ get_preset_ok key _ e))
    ]

    by_default :
        (o : Option String)
        → collect_filters ts none ≡ ok o
        → (elim o [
          | none ↦ raised (Failure.bad_request "Q00.603")
          | some default ↦ ok (put name (record { filters = ts; default = default }) presets)
        ])
          ≡ ok new
        → AreSound new
    by_default none found e = absurd (cc e)
    by_default (some default) found e =
        subst AreSound (ok_inj e)
          (added default (sym (collect_filters-defaults ts none (some default) found)))

    by_name :
        (x : Bool)
        → (if x
            then raised (Failure.bad_request "Q00.601")
            else and_then (collect_filters ts none) λ has_default. elim has_default [
              | none ↦ raised (Failure.bad_request "Q00.603")
              | some default ↦ ok (put name (record { filters = ts; default = default }) presets)
            ])
          ≡ ok new
        → AreSound new
    by_name true e = absurd (cc e)
    by_name false e =
        let (o, found, rest) = and_then_ok (collect_filters ts none) _ e in by_default o found rest

-- Presets that are sound have filters.
pub AreSound-AreFull : (presets : Presets) → AreSound presets → AreFull presets
AreSound-AreFull presets sound name p e empty = cc (sym (sound name p e) ∙ ap defaults empty)
