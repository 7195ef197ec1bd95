-- ===== src/ItemPool/Text.antt =====
-- src/dimserver/common/mem/mem_pool.h: `MemPoolItem::to_string`, with the pool's name as an argument.
use dimdb.Prelude.{ℕ, List, ◌++◌, length, if◌then◌else◌}
use dimdb.Text.{codes, decimal}
use dimdb.ItemPool.{MemPoolItem}

unfoldable pub pool_text : List ℕ → MemPoolItem → List ℕ
pool_text name p =
    codes "name:"
    ++ name
    ++ codes ",dynamic:"
    ++ (if p.dynamic then codes "true" else codes "false")
    ++ codes ",size:"
    ++ decimal p.size
    ++ codes ",pool_size:"
    ++ decimal (length p.pools)
    ++ codes ",used_size:"
    ++ decimal (length p.used)
    ++ codes ",free_size:"
    ++ decimal (length p.frees)
