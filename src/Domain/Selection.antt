-- ===== src/Domain/Selection.antt =====
-- The processors that are found for a command.
use fluvius_py.Common.{
  ◌≡◌, refl, ◌∙◌, ap, String, Bool, true, false, ◌&&◌, Option, none, some, List, [], ◌∷◌, ◌++◌,
  append_assoc, filter, filter-filter, inl, inr, Bool-cases, str_eq, eq_iff, or_default, arith,
}
use fluvius_py.Common.Int.{ℤ, le_int, le_int_trans, le_int_total}
use fluvius_py.Common.Sorting.{sort, InOrder, sort-InOrder, filter-sort, filter-InOrder}
use fluvius_py.Common.Dict.{get, put, get-put_eq, get-put_ne}
use fluvius_py.Exec.{Failure, Result, ok, raised, require}
use fluvius_py.Domain.Entities.{Processor}
use fluvius_py.Domain.Handlers.{Entry, before, HandlerMap, fill_map, build_handler_map, select}

abbrev pub named : String → Entry → Bool
named key e = str_eq e.command key

abbrev pub of_priority : ℤ → Entry → Bool
of_priority p e = le_int p e.priority && le_int e.priority p

abbrev pub processors : List Entry → List Processor
processors [] = []
processors (e ∷ es) = e.processor ∷ processors es

-- a row of processors, and the error for none
abbrev pub found : List Processor → Result (List Processor)
found [] = raised (Failure.internal_error "D00.104")
found (p ∷ ps) = ok (p ∷ ps)

abbrev extend : Option (List Processor) → List Processor → Option (List Processor)
extend o [] = o
extend o (p ∷ ps) = some (or_default o [] ++ p ∷ ps)

extend_cons :
    (o : Option (List Processor)) (p : Processor) (ps : List Processor)
    → extend (some (or_default o [] ++ p ∷ [])) ps ≡ extend o (p ∷ ps)
extend_cons o p [] = refl
extend_cons o p (q ∷ qs) = ap some (append_assoc (or_default o []) (p ∷ []) (q ∷ qs))

get-fill_map :
    (key : String) (es : List Entry) (h : HandlerMap)
    → get key (fill_map es h) ≡ extend (get key h) (processors (filter (named key) es))
unfolding fill_map
get-fill_map key [] h = refl
get-fill_map key (e ∷ es) h =
    let grown = or_default (get e.command h) [] ++ e.processor ∷ [] in
    elim (Bool-cases (str_eq e.command key)) [
      | inl eq ↦
          let same = (eq_iff e.command key).0 eq in
          rw eq (
            get-fill_map key es (put e.command grown h)
            ∙ ap (λ o. extend o (processors (filter (named key) es)))
                (get-put_eq e.command key grown h eq)
            ∙ ap
                (λ k.
                  extend (some (or_default (get k h) [] ++ e.processor ∷ []))
                    (processors (filter (named key) es)))
                same
            ∙ extend_cons (get key h) e.processor (processors (filter (named key) es)))
      | inr ne ↦ rw ne (
          get-fill_map key es (put e.command grown h)
          ∙ ap (λ o. extend o (processors (filter (named key) es)))
              (get-put_ne e.command key grown h ne))
    ]

pub select-found :
    (key : String) (es : List Entry)
    → select (build_handler_map es) key ≡ found (processors (filter (named key) (sort before es)))
unfolding select build_handler_map get
select-found key es =
    rw (select, get-fill_map key (sort before es) [])
      (by_row (processors (filter (named key) (sort before es))))
  where
    by_row :
        (ps : List Processor)
        → require (Failure.internal_error "D00.104") (extend none ps) ≡ found ps
    by_row [] = refl
    by_row (p ∷ ps) = refl

together :
    (p : ℤ) (e x : Entry) → before e x ≡ false → of_priority p e ≡ true → of_priority p x ≡ false
together p e x h k = ground (arith, le_int_trans x.priority p e.priority)

-- The processors of a command are those of the entries with its key, each once, by falling priority
-- and, among entries of one priority, in the order in which they were registered. A command
-- without an entry raises D00.104.
pub select-order :
    (key : String) (es : List Entry)
    → (ranked : List Entry) × (select (build_handler_map es) key ≡ found (processors ranked))
      × InOrder before ranked
      × ((p : ℤ) → filter (of_priority p) ranked ≡ filter (of_priority p) (filter (named key) es))
select-order key es =
    let sorted = sort before es in
    (
      filter (named key) sorted,
      select-found key es,
      filter-InOrder before (named key) sorted (
          sort-InOrder before (λ a b c h k. le_int_trans c.priority b.priority a.priority k h)
            (λ a b. le_int_total b.priority a.priority) es),
      λ p.
          filter-filter (of_priority p) (named key) sorted
          ∙ ap (filter (named key)) (filter-sort before (of_priority p) (together p) es)
          ∙ filter-filter (named key) (of_priority p) es,
    )
