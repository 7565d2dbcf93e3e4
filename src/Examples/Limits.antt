-- ===== src/Examples/Limits.antt =====
-- The geometry of an upload and the validation of a patch, on sample numbers.
use delphi.Base.{ℕ, ◌*◌, ◌≡◌, refl, ◌↔◌, ok, trim, is_control}
use delphi.Domain.Geometry.{div_ceil, part_size_bytes}
use delphi.Domain.Geometry.Bounds.{IsGeometry, part_size-IsGeometry}
use delphi.Domain.Validation.{validate_metadata_patch}
use delphi.Domain.Validation.Limits.{WithinLimits, validate_iff}
use delphi.Examples.Demo.{tagged}

-- A file of 400 MiB in parts of 16 MiB.
abbrev film : ℕ
film = 400 * 1048576

abbrev target : ℕ
target = 16 * 1048576

film_parts : part_size_bytes film target ≡ ok target
unfolding part_size_bytes div_ceil
film_parts = refl

part_size-IsGeometry_example : (count : ℕ) × IsGeometry film target target count
part_size-IsGeometry_example = part_size-IsGeometry film target film_parts

validate_iff_example : (validate_metadata_patch tagged ≡ ok tt) ↔ WithinLimits tagged
validate_iff_example = validate_iff tagged

tagged_passes : validate_metadata_patch tagged ≡ ok tt
unfolding validate_metadata_patch trim is_control
tagged_passes = refl
