-- ===== src/Server/Held.antt =====
-- What a connection handler of src/agent/sync_server.c holds while it acts.
use sync_agent.Base.{Bool, false, ◌&&◌, Option, none, some, List, [], ◌∷◌, if◌then◌else◌}
use sync_agent.Base.Int.{ℤ, eq_ℤ}
use sync_agent.Server.{Action, receive, send, close, free_buffer, free_connection}

-- What a handler holds: whether the descriptor `fd` is open, the buffer, the connection of `fd`.
pub record Held : Type 0 where
  pub fd : ℤ
  pub descriptor : Bool
  pub buffer : Bool
  pub connection : Bool

-- An action needs what it uses, and what it releases is gone: `none` is a use after the release, or of a
-- descriptor or a connection that is not the handler's.
unfoldable pub act : Action → Held → Option Held
act (receive fd) h =
    if eq_ℤ fd h.fd && h.descriptor && h.buffer && h.connection then some h else none
act (send fd bytes) h = if eq_ℤ fd h.fd && h.descriptor && h.connection then some h else none
act (close fd) h =
    if eq_ℤ fd h.fd && h.descriptor && h.connection
    then some (record h { descriptor = false })
    else none
act free_buffer h = if h.buffer then some (record h { buffer = false }) else none
act (free_connection fd) h =
    if eq_ℤ fd h.fd && h.connection then some (record h { connection = false }) else none

unfoldable pub act_all : List Action → Held → Option Held
act_all [] h = some h
act_all (a ∷ actions) h = elim (act a h) [ none ↦ none | some h' ↦ act_all actions h' ]

abbrev pub held : ℤ → Bool → Bool → Bool → Held
held fd d b c = record { fd = fd; descriptor = d; buffer = b; connection = c }
