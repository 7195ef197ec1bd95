-- ===== src/BufferPoolLog.antt =====
-- src/dimserver/storage/buffer/buffer_pool_log.h: the operations that the log of a buffer pool names.
--
-- A `Type` is an enumeration over `int32_t`, so that it is any number, of which two have names.
-- The handler and the replayer of this log have no bodies.
use dimdb.Prelude.{ℕ, List, [], ◌∷◌, ◌++◌, if◌then◌else◌}
use dimdb.Prelude.Int.{ℤ, pos}
use dimdb.Frame.{eq_ℤ}
use dimdb.Text.{decimal_ℤ}

-- `BufferPoolOperation::Type`
pub data OperationType : Type 0 where
  allocate deallocate : OperationType

-- `BufferPoolOperation`, with `type_` as its number.
pub record BufferPoolOperation : Type 0 where
  pub type_ : ℤ

-- `static_cast<int32_t>(type_)`
abbrev pub type_code : OperationType → ℤ
type_code allocate = pos 0
type_code deallocate = pos 1

abbrev pub of_type : OperationType → BufferPoolOperation
of_type type = record { type_ = type_code type }

abbrev pub of_id : ℤ → BufferPoolOperation
of_id type = record { type_ = type }

abbrev pub type_id : BufferPoolOperation → ℤ
type_id operation = operation.type_

-- "ALLOCATE"
abbrev allocate_text : List ℕ
allocate_text = 65 ∷ 76 ∷ 76 ∷ 79 ∷ 67 ∷ 65 ∷ 84 ∷ 69 ∷ []

-- "UNKNOWN"
abbrev unknown_text : List ℕ
unknown_text = 85 ∷ 78 ∷ 75 ∷ 78 ∷ 79 ∷ 87 ∷ 78 ∷ []

-- 58 is a colon, and 68 and 69 the letters of "DE".
unfoldable pub to_string : BufferPoolOperation → List ℕ
to_string operation =
    let ret = decimal_ℤ (type_id operation) ++ 58 ∷ [] in
    if eq_ℤ operation.type_ (type_code allocate)
    then ret ++ allocate_text
    else if eq_ℤ operation.type_ (type_code deallocate)
    then ret ++ 68 ∷ 69 ∷ allocate_text
    else ret ++ unknown_text

pub record BufferPoolLogEntry : Type 0 where
  pub buffer_pool_id : ℤ
  pub operation_type : ℤ
  pub page_num : ℤ
