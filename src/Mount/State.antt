-- ===== src/Mount/State.antt =====
-- The state of the program of fuse/main.c: `ExampleFS::_instance` and the host's state.
use redis_virtual_file_syste.Common.{Option, some, Outcome, ok, ◌>>=◌}
use redis_virtual_file_syste.Posix.{Answer}
use redis_virtual_file_syste.ExampleFs.{ExampleFs, instance_of}

-- `none` is NULL.
pub record Program (World : Type 0) : Type 0 where
  pub the_instance : Option ExampleFs
  pub world : World

module _ {World : Type 0} where
  -- The end of each wrapper: the object and the host are as the callback left them.
  abbrev pub after : {A : Type 0} → ExampleFs → Answer World A → Answer (Program World) A
  after fs a = record {
    value = a.value;
    out = a.out;
    world = record { the_instance = some fs; world = a.world };
  }

  -- `ExampleFS::Instance()->` a callback.
  abbrev pub through :
      {A : Type 0}
      → (ExampleFs → World → Outcome (Answer World A))
      → Program World
      → Outcome (Answer (Program World) A)
  through callback s = do
    a ← callback (instance_of s.the_instance) s.world
    ok (after (instance_of s.the_instance) a)
