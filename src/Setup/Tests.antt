-- ===== src/Setup/Tests.antt =====
-- The set-up with two threads.
use netter.Common.{ℕ, ◌+◌, ◌*◌, Returns}
use netter.Setup.Handles.{set_up, Serves, set_up-Serves}

-- The work is noted as a number.
abbrev note : ℕ → ℕ → ℕ → ℕ
note callback user_data s = s + callback * 10 + user_data

set_up-Serves_example : Returns (set_up 50 2) (Serves note 50 2 7)
set_up-Serves_example = set_up-Serves note 50 2 7
