-- ===== src/Domain/Geometry.antt =====
-- crates/document-domain/src/geometry.rs: the size and the number of the parts of an upload.
pub mod Bounds
use delphi.Base.{
  ℕ, ◌+◌, ◌*◌, ◌/◌, ◌%◌, ◌^◌, max, min, Bool, ◌&&◌, not, Result, ok, err, leb, ltb, ◌==◌,
  if◌then◌else◌,
}

abbrev pub max_object_bytes : ℕ
max_object_bytes = 5 * 1024 * 1024 * 1024 * 1024

abbrev pub min_part_bytes : ℕ
min_part_bytes = 5 * 1024 * 1024

abbrev pub max_parts : ℕ
max_parts = 10000

abbrev pub max_part_bytes : ℕ
max_part_bytes = 5 * 1024 * 1024 * 1024

pub data GeometryError : Type 0 where
  empty : GeometryError
  invalid_part_size : ℕ → GeometryError
  too_large : ℕ → GeometryError
  zero_part_size : GeometryError
  -- `size`, `part_size` and `parts`
  too_many_parts : ℕ → ℕ → ℕ → GeometryError

-- `u64::div_ceil`, which does not overflow
unfoldable pub div_ceil : ℕ → ℕ → ℕ
div_ceil a b = if a % b == 0 then a / b else a / b + 1

unfoldable pub part_size_bytes : ℕ → ℕ → Result GeometryError ℕ
part_size_bytes file_size target =
    if not (leb min_part_bytes target && leb target max_part_bytes)
    then err (invalid_part_size target)
    else if file_size == 0
    then err empty
    else if ltb max_object_bytes file_size
    then err (too_large file_size)
    else ok (max target (div_ceil file_size max_parts))

abbrev pub u64_max : ℕ
u64_max = 18446744073709551615

-- `target.saturating_mul(MAX_PARTS)`
unfoldable pub largest_size_honouring : ℕ → ℕ
largest_size_honouring target = min (target * max_parts) u64_max

-- `u16::try_from(parts)`, with the error of its `map_err`
abbrev pub to_u16 : ℕ → ℕ → ℕ → Result GeometryError ℕ
to_u16 file_size part_size parts =
    if ltb parts 65536 then ok parts else err (too_many_parts file_size part_size parts)

unfoldable pub part_count : ℕ → ℕ → Result GeometryError ℕ
part_count file_size part_size =
    if file_size == 0
    then err empty
    else if part_size == 0
    then err zero_part_size
    else let parts = div_ceil file_size part_size in
      if ltb max_parts parts
      then err (too_many_parts file_size part_size parts)
      else to_u16 file_size part_size parts
