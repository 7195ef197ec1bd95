-- ===== src/Lib.antt =====
-- dimdb: a lightweight relational database in C++ (src/dimserver). The development covers the buffer
-- pool below the SQL layer, the double write buffer, the write-ahead log, the values of fields, the
-- logger, and the data of the SQL syntax tree: the code in common/ and storage/, and
-- sql/parser/sql_node.h.
--
-- The parts and how they interact. `FrameManager` (storage/buffer/buffer_pool.cpp) keeps pages in
-- memory. It takes `Frame` objects (frame.h, frame.cpp) from a `MemPoolSimple` (common/mem/mem_pool.h)
-- and finds them again through an `LruCache` (lru_cache.h) by `FrameId`. A frame holds a `Page`
-- (page.h) with a checksum; `crc32` (common/math/crc.cpp) is the checksum that the double write
-- buffer uses. `Bitmap` (common/bitmap) is the map of allocated pages. `LogBuffer`
-- (storage/clog/log_buffer.cpp) numbers `LogEntry` records (log_entry.cpp) and hands them to a
-- `LogFileWriter` (log_file.cpp) in batches, which writes them with `writen` (common/io/io.cpp);
-- `LogFileReader` reads them back with `readn`, and `LogFileManager` keeps the files of the log.
-- `DiskDoubleWriteBuffer` (storage/buffer/double_write_buffer.cpp) keeps copies of pages in a file and
-- checks them with `crc32` when it loads them. `Value` (common/value.cpp) is a field's value with its
-- order and its bytes; the nodes of sql_node.h hold such values. `Logger` (common/log/log.cpp) hands
-- events to its appenders. `MemPoolItem` (common/mem/mem_pool.cpp) is a pool of blocks of memory.
--
-- The files:
--   Prelude     Boolean tests on numbers, lists measured by native numbers, 32-bit integers
--   Bits        laws of `|` and `^` of numbers, tables over small ranges
--   Outcome     how a call ends: a result, a deadlock, undefined behaviour, an assertion, an
--               exception
--   Rc          common/rc.h and rc.cpp: `RC`; here as elsewhere a child Names or Text has the texts
--   Bitmap      common/bitmap/bitmap.h and bitmap.cpp: `Bitmap`
--   LruCache    storage/buffer/lru_cache.h: `LruCache`; Index and Erase have the lemmas on its two
--               containers, Refines, Evict and Visit the theorems on its operations
--   MemPool     common/mem/mem_pool.h: `MemPoolSimple`
--   Page        storage/buffer/page.h: `PageHeader`, `Page`
--   Crc         common/math/crc.cpp: `crc_table`, `crc32`
--   Frame       storage/buffer/frame.h and frame.cpp: `FrameId`, `Frame`
--   FrameManager  storage/buffer/buffer_pool.h and buffer_pool.cpp: `FrameManager`; Shared has the
--               lemmas on the cache and the pool together, Alloc, Pages, Pool and Purge the theorems,
--               Ids how a caller of `alloc` sets a frame's id
--   LogEntry    storage/clog/log_module.h, log_entry.h and log_entry.cpp
--   LogFile     storage/clog/log_file.h and log_file.cpp: `LogFileReader`, `LogFileWriter`; Manager
--               has `LogFileManager`, and the other children the theorems
--   Io          common/io/io.h and io.cpp: `readn`, `writen`
--   Utils       common/utils/utils.h and utils.cpp: `starts_with`, `ends_with`
--   LogBuffer   storage/clog/log_buffer.h and log_buffer.cpp: `LogBuffer`; Recovery joins it to LogFile,
--               History has its operations as steps
--   CharString  common/value.h: `CharString`
--   Float       the comparisons of `float` numbers by their bits
--   Value       common/value.h and value.cpp: `Value`; Compare has its operators, Serial its bytes,
--               Text its text, Date its constructor from a date and its date texts; Payload,
--               RoundTrip, Trichotomy, Transitive and Typed the theorems
--   Sql         sql/parser/sql_node.h: Flags, Terms and Statements have the nodes, Sql the parsed
--               statement and `ParsedSqlResult`
--   DoubleWrite  storage/buffer/double_write_buffer.h and double_write_buffer.cpp:
--               `DiskDoubleWriteBuffer`; Load has `load_pages` and `open_file`, Flush, Add, Limit and
--               Verified the theorems
--   Text        the texts of integers
--   Regex       `std::regex_replace`, as the formatter uses it
--   LogEvent    common/log/log.h and log.cpp: levels, events and `LogFormatter`
--   Logger      common/log/log.h and log.cpp: appenders; Loggers has `Logger`, Manager `LogManager` and
--               `InitLogger`, Macros the macros, Trace `stacktrace`; Filter, Message, Rotate and Shared the theorems
--   ItemPool    common/mem/mem_pool.h and mem_pool.cpp: `MemPoolItem`
--   LogHandler  storage/clog/log_handler.h, log_replayer.h and vacuous_log_handler.h: the interfaces
--               `LogHandler` and `LogReplayer`, and `VacuousLogHandler`
--   BufferPool  storage/buffer/buffer_pool.h: `BPFileHeader`
--   BufferPoolLog  storage/buffer/buffer_pool_log.h: `BufferPoolOperation`, `BufferPoolLogEntry`
--
-- Functions keep the C++ names; a record stands for a class, its fields for the members. A C++
-- reference argument that a call writes is a further result. An address is a number, and the memory
-- is a function from addresses to objects, so that a frame shared by the cache, the pool and a
-- caller is one frame. Integers are native numbers with their wrap-around written out, signed ones a
-- sign and a number. Loops are structural: over the list that they walk through, over the number of
-- rounds that the code computes beforehand, or, in `readn` and `writen`, over the answers of the
-- operating system. The loops of `go_to` and `iterate` run on fuel, one more than the bytes of the
-- file, which is enough because each round but the last reads the 16 bytes of a header. A run that
-- ends with its fuel or its answers is `running`. The search of `createNewFile` for a free index runs
-- on as many rounds as there are files, behind which the index is free.
--
-- Parameters that stand for code outside the repository, and for arithmetic that has no numbers
-- here: the comparison of `float` numbers in `should_flush`, the time that a loop took, the memory
-- of a page before it is initialised, the page writer `purger` and the log's `callback` that a
-- caller passes, what the file system answers, `stol` on file names, the texts of `float` and
-- `double` numbers, the call stack that `backtrace` and `backtrace_symbols` find, `strptime`,
-- `mktime` and local time, the order in which an `unordered_map` keeps its entries, and the writes
-- of the double write buffer (`write_page`, `write_page_internal`), which are declared and not
-- defined.
--
-- Not modelled: the log lines of the other parts, the numbers of threads and processes, the SQL
-- grammar that Bison and Flex turn into code, the classes and
-- functions that the repository declares and does not define (`BufferPool`, `BufferPoolManager`,
-- `BufferPoolLogHandler`, `BufferPoolLogReplayer`, `append` and `create` of `LogHandler`, and
-- `read_page`, `clear_pages` and `recover` of the double write buffer), and the unit tests.
pub mod Prelude
pub mod Rc
pub mod Bitmap
pub mod LruCache
pub mod Outcome
pub mod MemPool
pub mod Bits
pub mod Page
pub mod Crc
pub mod Frame
pub mod FrameManager
pub mod Io
pub mod CharString
pub mod Float
pub mod Value
pub mod Sql
pub mod DoubleWrite
pub mod Logger
pub mod ItemPool
pub mod Utils
pub mod Text
pub mod Regex
pub mod LogEvent
pub mod LogEntry
pub mod LogFile
pub mod LogBuffer
pub mod LogHandler
pub mod BufferPool
pub mod BufferPoolLog
