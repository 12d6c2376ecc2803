-- ===== src/Effect.antt =====
-- The output of the program: what it does to descriptors, in order.
use sync_agent.Base.{Bytes}
use sync_agent.Base.Int.{ℤ}

pub data Effect : Type 0 where
  -- `close(fd)`
  close : ℤ → Effect
  -- `write(fd, bytes, size)`; the code ignores its result.
  write : ℤ → Bytes → Effect
  -- `sendto(fd, bytes, size, …)` to the address of the syslog server.
  send : ℤ → Bytes → Effect
