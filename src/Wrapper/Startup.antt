-- ===== src/Wrapper/Startup.antt =====
-- `getInitialContext` of virtualFileSystemWrapper.cc from the connection on. hiredis'
-- `redisConnectWithTimeout` is a parameter, and a connection stands for the dataset behind it.
use redis_virtual_file_syste.Common.{ℕ, Bytes, codes}
use redis_virtual_file_syste.Redis.{Redis}
use redis_virtual_file_syste.Vfs.Connect.{Connection, Startup, started, exited, or_exit}
use redis_virtual_file_syste.Wrapper.Commands.{get_initial_context}

module _ (r : Redis) where
  open r use {Db}

  abbrev with_context : Startup Db → Startup (Bytes × Db)
  with_context (started d) = started (get_initial_context r d)
  with_context (exited status) = exited status

  unfoldable pub connect_initial_context :
      (Bytes → ℕ → ℕ → ℕ → Connection Db) → Startup (Bytes × Db)
  connect_initial_context redis_connect_with_timeout =
      with_context (or_exit (redis_connect_with_timeout (codes "127.0.0.1") 6379 1 500000))
