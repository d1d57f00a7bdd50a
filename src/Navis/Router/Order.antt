-- ===== src/Navis/Router/Order.antt =====
-- The order in which the handlers of an event come.
use fluvius_py.Common.{
  ◌≡◌, ◌∙◌, ap, String, Bool, true, false, ◌&&◌, List, [], ◌∷◌, ◌++◌, filter, filter-append, str_eq,
  or_default, arith,
}
use fluvius_py.Common.Int.{ℤ, le_int, le_int_trans, le_int_total}
use fluvius_py.Common.Sorting.{sort, InOrder, sort-InOrder, filter-sort}
use fluvius_py.Common.Dict.{get, get-put_self, get-put_ne}
use fluvius_py.Navis.Router.Defs.{WorkflowRoutingEntry, before, Table, connect}

-- the entries of one priority
abbrev pub of_priority : ℤ → WorkflowRoutingEntry → Bool
of_priority p x = le_int p x.priority && le_int x.priority p

abbrev pub entries_of : String → Table → List WorkflowRoutingEntry
entries_of name table = or_default (get name table) []

together :
    (p : ℤ) (e x : WorkflowRoutingEntry)
    → before e x ≡ false
    → of_priority p e ≡ true
    → of_priority p x ≡ false
together p e x h k = ground (arith, le_int_trans e.priority p x.priority)

-- Connecting a handler leaves the handlers of its event in the order of their priorities and, among
-- those of one priority, in the order in which they were connected, the new one last; the handlers
-- of other events stay as they are.
pub connect-order :
    (name : String) (e : WorkflowRoutingEntry) (table : Table)
    → InOrder before (entries_of name (connect name e table))
      × ((p : ℤ)
          → filter (of_priority p) (entries_of name (connect name e table))
            ≡ filter (of_priority p) (entries_of name table) ++ filter (of_priority p) (e ∷ []))
      × ((other : String)
          → str_eq name other ≡ false
          → entries_of other (connect name e table) ≡ entries_of other table)
unfolding connect
connect-order name e table =
    let old = entries_of name table ++ e ∷ [] in
    let new = get-put_self name (sort before old) table in
    (
      rw new (
          sort-InOrder before (λ a b c. le_int_trans a.priority b.priority c.priority)
            (λ a b. le_int_total a.priority b.priority) old),
      λ p. rw new (
          filter-sort before (of_priority p) (together p) old
          ∙ filter-append (of_priority p) (entries_of name table) (e ∷ [])),
      λ other ne. ap (λ o. or_default o []) (get-put_ne name other _ table ne),
    )
