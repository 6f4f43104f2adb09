-- ===== src/FailedJobSave/Tests.antt =====
-- A decision of src/lib/failed-job-save.ts at a concrete input.
use setup_soldr.Base.{nat_eq, list_eq, option_eq}
