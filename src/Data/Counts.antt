-- ===== src/Data/Counts.antt =====
-- The pages that the metadata of a query counts.
use Prim.Native.Nat.{◌/◌, ◌%◌}
use native.Mathlib.Nat.{div-add-mod, mod-lt}
use fluvius_py.Common.{◌≡◌, refl, ℕ, suc, ◌+◌, ◌*◌, ◌≤◌, ◌<◌, arith}
use fluvius_py.Common.Int.{pos}
use fluvius_py.Exec.{ok}
use fluvius_py.Query.Manager.{BackendQuery}
use fluvius_py.Data.Driver.{QueryMeta, query_meta}

low : (n m : ℕ) → m * (n / m) ≤ n
low n m = omega (arith, div-add-mod n m)

high : (n l : ℕ) → n < suc l * (n / suc l) + suc l
high n l =
    let small : n % suc l < suc l = mod-lt n {m = suc l} (omega arith) in
    omega (arith, div-add-mod n (suc l), small)

-- The metadata of a query with a positive limit and an offset from 0 on, for a number of rows. The pages
-- before the last one that it counts hold no more than all the rows, and with the last page there is
-- room for one row more than there are. The query's offset is within its page.
pub query_meta-pages :
    (q : BackendQuery) (total l o : ℕ)
    → q.limit ≡ pos (suc l)
    → q.offset ≡ pos o
    → (meta : QueryMeta) × (k : ℕ) × (p : ℕ) × (query_meta q total ≡ ok meta)
      × (meta.pages ≡ pos (suc k))
      × (suc l * k ≤ total)
      × (total < suc l * k + suc l)
      × (meta.page ≡ pos (suc p))
      × (suc l * p ≤ o)
      × (o < suc l * p + suc l)
unfolding query_meta
query_meta-pages q total l o limit offset = (
  record {
    limit = q.limit;
    offset = q.offset;
    page = pos (suc (o / suc l));
    total = total;
    pages = pos (suc (total / suc l));
  },
  total / suc l,
  o / suc l,
  rw (limit, offset) refl,
  refl,
  low total (suc l),
  high total l,
  refl,
  low o (suc l),
  high o l,
)
