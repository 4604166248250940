-- ===== src/Vfs/Connect.antt =====
-- `vfs_connect` of virtualFileSystem/vfs.c. hiredis' `redisConnectWithTimeout` is a parameter.
use redis_virtual_file_syste.Common.{ℕ, Bytes, codes}

-- What `redisConnectWithTimeout` returns: NULL, a context with an error, or one without.
pub data Connection (Context : Type 0) : Type 0 where
  no_context : Connection Context
  failed : Bytes → Connection Context
  connected : Context → Connection Context

-- A program that goes on with a context, or that has called `exit`.
pub data Startup (Context : Type 0) : Type 0 where
  started : Context → Startup Context
  exited : ℕ → Startup Context

module _ {Context : Type 0} where
  abbrev pub or_exit : Connection Context → Startup Context
  or_exit no_context = exited 1
  or_exit (failed errstr) = exited 1
  or_exit (connected c) = started c

  -- The host, the port, and the timeout's seconds and microseconds.
  unfoldable pub vfs_connect : (Bytes → ℕ → ℕ → ℕ → Connection Context) → Startup Context
  vfs_connect redis_connect_with_timeout =
      or_exit (redis_connect_with_timeout (codes "127.0.0.1") 6379 1 500000)
