-- ===== src/Threads/Pool.antt =====
-- The pool of the I/O threads all the life of PP.
use sisop_2012_2c.Doubles.{Doubles}
use sisop_2012_2c.System.{System}
use sisop_2012_2c.Config.{Config}
