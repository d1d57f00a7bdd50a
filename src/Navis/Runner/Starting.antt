-- ===== src/Navis/Runner/Starting.antt =====
-- What `start` does.
use fluvius_py.Common.{◌≡◌, true, some, is_some}
use fluvius_py.Navis.Status.{WorkflowStatus}
use fluvius_py.Navis.Data.{Time}
use fluvius_py.Exec.{◌>>◌}
use fluvius_py.Navis.Runner.Script.{Engine}
use fluvius_py.Navis.Runner.State.{Runner}
use fluvius_py.Navis.Runner.Started.{Started}

abbrev Anything : Runner → Type 0
Anything _ = Unit {0}

-- what holds while the action runs, before its body and after it
abbrev Begun : Engine → Time → Runner → Type 0
Begun E now t =
    (is_some t.transaction_id ≡ true)
    × (t.workflow.status ≡ some WorkflowStatus.new)
    × (E.timestamp t.reads ≡ now)

abbrev Goes : Time → Runner → Type 0
Goes now t = (is_some t.transaction_id ≡ true) × Started now t

-- at NEW, with the time that the clock gave
abbrev Read : Time → Time → Runner → Type 0
Read now time t =
    (time ≡ now) × (is_some t.transaction_id ≡ true) × (t.workflow.status ≡ some WorkflowStatus.new)
