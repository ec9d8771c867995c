-- ===== src/Reorder/Output.antt =====
-- What reorder_hardware writes.
use rvnsyncpoint.Outfile
