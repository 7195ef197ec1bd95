-- ===== src/Value/Transitive.antt =====
-- The order of values is transitive.
use dimdb.CharString
use dimdb.Float
use dimdb.Value.{Value}
