-- ===== src/MemPool/Text.antt =====
-- src/dimserver/common/mem/mem_pool.h: `MemPoolSimple::to_string`, with the pool's name as an argument.
use dimdb.Prelude.{ℕ, List, ◌++◌, length, if◌then◌else◌}
use dimdb.Text.{codes, decimal}
use dimdb.MemPool.{MemPool}

-- A stream writes a `bool` as 1 or 0.
unfoldable pub pool_text : {T : Type 0} → List ℕ → MemPool T → List ℕ
pool_text name p =
    codes "name:"
    ++ name
    ++ codes ",dynamic:"
    ++ (if p.dynamic then codes "1" else codes "0")
    ++ codes ",size:"
    ++ decimal p.size
    ++ codes ",pool_size:"
    ++ decimal (length p.pools)
    ++ codes ",used_size:"
    ++ decimal (length p.used)
    ++ codes ",free_size:"
    ++ decimal (length p.frees)
