-- ===== src/Cli/Halt.antt =====
-- How a command of crates/cli ends early: with the text of an error, or with a panic.
use open_zk.Common.{Text}
use open_zk.Common.Outcome.{Outcome, returned, panicked, out_of_fuel, ok, err}
use open_zk.Common.Io.{Io}

pub data Halt : Type 0 where
  error : Text → Halt
  panic : Halt

abbrev pub settled : {W A : Type 0} → Outcome A → Io W Halt A
settled (returned a) w = (ok a, w)
settled panicked w = (err panic, w)
settled out_of_fuel w = (err panic, w)
