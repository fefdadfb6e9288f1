-- ===== src/Json/Matches/Refines.antt =====
-- lancedb_json_matches against what it is to compute: the flags of all rows, or the first failure.
use lancedb_c.External.{External}
use lancedb_c.Memory.Returns
use lancedb_c.Memory.Returns.{Returns}
