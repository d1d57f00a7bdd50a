-- ===== src/Query/Select.antt =====
-- query/resource.py: the fields that a query selects, and how it sorts.
use Prim.Native.String.{[] as empty, ◌∷◌ as char_then}
use fluvius_py.Common.{String, List, [], ◌∷◌, ◌++◌, str_eq, any, filter, or_default, if◌then◌else◌}
use fluvius_py.Common.Dict.{Dict, get}
use fluvius_py.Exec.{Failure, Result, ok, raised, and_then}
use fluvius_py.Query.Resources.{QueryResource}

abbrev pub maps : Dict String → List String → List String
maps fieldmap [] = []
maps fieldmap (f ∷ fs) = or_default (get f fieldmap) f ∷ maps fieldmap fs

-- `set(include) & set(included)`: `arrange` is the order in which Python gives the items of the set.
abbrev pub restrict : (List String → List String) → List String → List String → List String
restrict arrange include included = arrange (filter (λ f. any (str_eq f) included) include)

abbrev pub selected : (List String → List String) → QueryResource → List String → List String
selected arrange r [] = if r.meta.include_all then [] else r.included_fields
selected arrange r (f ∷ fs) =
    if r.meta.include_all then f ∷ fs else restrict arrange (f ∷ fs) r.included_fields

-- `if include and cls._idfield not in include`
abbrev pub with_idfield : String → List String → List String
with_idfield idfield [] = []
with_idfield idfield (f ∷ fs) =
    if any (str_eq idfield) (f ∷ fs) then f ∷ fs else (f ∷ fs) ++ idfield ∷ []

unfoldable pub process_select :
    (List String → List String)
    → QueryResource
    → List String
    → List String
    → List String × List String
process_select arrange r include exclude = (
  maps r.fieldmap (with_idfield r.idfield (selected arrange r include)),
  maps r.fieldmap (exclude ++ r.excluded_fields),
)

-- `sort.split('.')`, the first part and the others
unfoldable pub split_dots : String → String × List String
split_dots empty = (empty, [])
split_dots (char_then c s) =
    let (part, parts) = split_dots s in
    if str_eq (char_then c empty) "." then (empty, part ∷ parts) else (char_then c part, parts)

unfoldable pub sort_parts : String × List String → Result (String × String)
sort_parts (fn, []) = ok (fn, "asc")
sort_parts (fn, dr ∷ []) = ok (fn, dr)
sort_parts (fn, p ∷ q ∷ parts) = raised (Failure.value_error "unpack")

unfoldable pub sort_each : Dict String → List String → Result (List (String × String))
sort_each fieldmap [] = ok []
sort_each fieldmap (s ∷ sorts) = and_then (sort_parts (split_dots s)) λ (fn, dr).
    and_then (sort_each fieldmap sorts) λ rest. ok ((or_default (get fn fieldmap) fn, dr) ∷ rest)

abbrev pub sorts_or : List String → List String → List String
sorts_or [] order = order
sorts_or (s ∷ sorts) order = s ∷ sorts

unfoldable pub process_sort : QueryResource → List String → Result (List (String × String))
process_sort r sorts = sort_each r.fieldmap (sorts_or sorts r.order)
