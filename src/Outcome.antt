-- ===== src/Outcome.antt =====
-- How a call of the library ends. The exceptions are all std::runtime_error; here they are told
-- apart, with the numbers that their messages show.
use rvnsyncpoint.Base.{ℕ}

pub data Error : Type 0 where
  bad_magic bad_data_magic bad_hardware_magic bad_io_magic : ℕ → Error
  unhandled_version : ℕ → Error
  duplicated_interrupt context_mismatch exit_without_enter : ℕ → Error
  immediate_interrupt cr2_change late_fault : Error

-- `crash` is a failed assertion, a division by zero, or an array that does not fit on the stack;
-- other undefined behaviour is not tracked. `stuck` is a loop that has used up the rounds that the
-- model was given.
pub data Outcome (A : Type 0) : Type 0 where
  ok : A → Outcome A
  throws : Error → Outcome A
  crash : Outcome A
  stuck : Outcome A
