-- ===== src/Store/Session.antt =====
-- `create_session`, `bind_session` and `release_session` of cic_eth/db/models/base.py.
use cic_stack_v.Prelude.{true, false, if◌then◌else◌}
use cic_stack_v.Store.{Action, ⊤, ok, rollback}

-- The `session` argument of a model's method: a session of the caller's, or `None`.
pub data Session : Type 0 where
  given fresh : Session

-- A new session sees what is committed.
abbrev pub create_session : Action ⊤
create_session w = (ok tt, record w { work = w.committed; registered = false })

abbrev pub bind_session : Session → Action ⊤
bind_session given w = (ok tt, w)
bind_session fresh w = (ok tt, record w { work = w.committed; registered = true })

-- A registered session is committed, closed and taken from the registry; any other is left alone.
abbrev pub release_session : Action ⊤
release_session w =
    (ok tt, if w.registered then record w { committed = w.work; registered = false } else w)

abbrev pub close : Action ⊤
close = rollback
