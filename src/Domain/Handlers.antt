-- ===== src/Domain/Handlers.antt =====
-- Which processors a command has, and in which order.
use fluvius_py.Common.{ℕ, zero, suc, ◌+◌, String, Bool, List, [], ◌∷◌, ◌++◌, or_default}
use fluvius_py.Common.Int.{ℤ, pos, negsuc, le_int, scale}
use fluvius_py.Common.Sorting.{sort}
use fluvius_py.Common.Dict.{Dict, get, put}
use fluvius_py.Exec.{Failure, Result, require}
use fluvius_py.Domain.Entities.{Processor}

-- an entry of `_cmd_processors`
pub record Entry : Type 0 where
  pub priority : ℤ
  pub command : String
  pub processor : Processor

-- `OrderCounter.priotize`: the class's counter, or a given priority above all counters
abbrev pub priotize : ℕ → ℤ → ℤ × ℕ
priotize counter (pos zero) = (pos (counter + 1), counter + 1)
priotize counter (pos (suc n)) = (scale (pos (suc n)) 32768, counter)
priotize counter (negsuc n) = (scale (negsuc n) 32768, counter)

pub record Registered : Type 0 where
  pub counter : ℕ
  pub cmd_processors : List Entry

-- the loop over the classes of `command_processor`
unfoldable pub register_all : ℤ → Processor → List String → List Entry → List Entry
register_all priority p [] found = found
register_all priority p (key ∷ keys) found =
    register_all priority p keys
      (found ++ record { priority = priority; command = key; processor = p } ∷ [])

unfoldable pub command_processor : ℤ → Processor → List String → Registered → Registered
command_processor priority p keys r =
    let (given, counter) = priotize r.counter priority in
    record { counter = counter; cmd_processors = register_all given p keys r.cmd_processors }

-- `sorted(.., reverse=True)` by the priority, which keeps the order of equal priorities
abbrev pub before : Entry → Entry → Bool
before a b = le_int b.priority a.priority

abbrev pub HandlerMap : Type 0
HandlerMap = Dict (List Processor)

unfoldable pub fill_map : List Entry → HandlerMap → HandlerMap
fill_map [] hmap = hmap
fill_map (e ∷ entries) hmap =
    fill_map entries (put e.command (or_default (get e.command hmap) [] ++ e.processor ∷ []) hmap)

unfoldable pub build_handler_map : List Entry → HandlerMap
build_handler_map entries = fill_map (sort before entries) []

-- `_select`
unfoldable pub select : HandlerMap → String → Result (List Processor)
select hmap command = require (Failure.internal_error "D00.104") (get command hmap)
