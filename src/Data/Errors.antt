-- ===== src/Data/Errors.antt =====
-- data/data_driver/sqla/driver.py: the exceptions of SQLAlchemy as those of the data layer.
use Prim.Native.String.{◌++◌ as str_append}
use fluvius_py.Common.{String, str_eq, if◌then◌else◌}
use fluvius_py.Exec.{Failure, DriverError, Result, ok, raised, Exec, lift, attempt}

-- `sqla_error_handler`
abbrev pub translated : String → DriverError → Failure
translated prefix e =
    if e.is_integrity
    then (if e.is_unique_violation
        then Failure.unprocessable (str_append prefix "-01")
        else Failure.unprocessable (str_append prefix "-02"))
    else if e.is_operational
    then Failure.unprocessable (str_append prefix "-03")
    else if e.is_programming
    then (if str_eq e.pgcode "42883"
        then Failure.bad_request (str_append prefix "-41")
        else Failure.unprocessable (str_append prefix "-04"))
    else if e.is_dbapi
    then (if str_eq e.pgcode "2201X"
        then Failure.bad_request (str_append prefix "-51")
        else Failure.unprocessable (str_append prefix "-05"))
    else if e.is_no_result
    then Failure.not_found (str_append prefix "-06")
    else if e.is_sqlalchemy
    then Failure.unprocessable (str_append prefix "-07")
    else Failure.driver_error e

abbrev pub standard_failure : String → Failure → Failure
standard_failure prefix (Failure.driver_error e) = translated prefix e
standard_failure prefix e = e

abbrev pub standard : {A : Type 0} → String → Result A → Result A
standard prefix (raised e) = raised (standard_failure prefix e)
standard prefix (ok a) = ok a

abbrev pub sqla_error_handler : {S A : Type 0} → String → Exec S A → Exec S A
sqla_error_handler prefix m = attempt m λ r. lift (standard prefix r)
