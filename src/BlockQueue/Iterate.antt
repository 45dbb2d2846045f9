-- ===== src/BlockQueue/Iterate.antt =====
-- The operations that visit the active jobs.
use dr_evt.Base.{List}
