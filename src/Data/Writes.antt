-- ===== src/Data/Writes.antt =====
-- The data manager's writes of one record.
use fluvius_py.Common.Dict.{Dict}
use fluvius_py.Exec.{Exec}
use fluvius_py.Query.Statements.{Value, Members}
use fluvius_py.Data.Truth.{Truth}
use fluvius_py.Data.Driver.{Driver}
use fluvius_py.Data.Manager.{Manager}

-- what an invalidation sets, next to the time and the etag
abbrev pub deletion : Value → Members
deletion ts = Members.member "_deleted" ts Members.no_members
