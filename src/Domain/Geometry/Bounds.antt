-- ===== src/Domain/Geometry/Bounds.antt =====
-- Preflight's part size and part count: the limits of the object store, and the exact covering of
-- the file by its parts.
use delphi.Base.{ℕ, zero, suc, ◌*◌, ◌-◌, ◌≤◌, ◌<◌, ◌≡◌, max, ok, arith, ap, ◌∙◌}
use native.Mathlib.Decide.{dec_lt}
use native.Mathlib.Nat.{mul-le-mul_right}
use delphi.Domain.Geometry.{
  div_ceil, part_size_bytes, part_count, largest_size_honouring, max_object_bytes, min_part_bytes,
  max_parts, max_part_bytes,
}

-- The rounded quotient is the least number of parts of size `b` that hold `a` bytes.
pub div_ceil_covers : (a b : ℕ) → 0 < b → a ≤ div_ceil a b * b
unfolding div_ceil
div_ceil_covers a b h = grind arith

pub div_ceil_tight : (a b : ℕ) → 0 < b → 0 < a → (div_ceil a b - 1) * b < a
unfolding div_ceil
div_ceil_tight a b h k = grind arith

div_ceil_pos : (a b : ℕ) → 0 < b → 0 < div_ceil a b → 0 < a
unfolding div_ceil
div_ceil_pos zero b h k = grind arith
div_ceil_pos (suc a) b h k = omega arith

pub div_ceil-le : (a b n : ℕ) → 0 < b → a ≤ n * b → div_ceil a b ≤ n
div_ceil-le a b n h k = elim (dec_lt n (div_ceil a b)) [
  | yes p ↦ absurd (
      omega (
        arith,
        div_ceil_tight a b h (div_ceil_pos a b h (omega arith)),
        mul-le-mul_right {m = n} {n = div_ceil a b - 1} b (omega arith),
      ))
  | no p ↦ omega arith
]

pub div_ceil-pos : (a b : ℕ) → 0 < b → 0 < a → 0 < div_ceil a b
div_ceil-pos a b h k = elim (dec_lt 0 (div_ceil a b)) [
  | yes p ↦ p
  | no p ↦ absurd (
      omega
        (arith, div_ceil_covers a b h, mul-le-mul_right {m = div_ceil a b} {n = 0} b (omega arith)))
]

-- What preflight hands out: a part size within the store's limits and at least the configured one,
-- and a part count within the store's cap.
pub record IsGeometry (size target part count : ℕ) : Type 0 where
  pub counted : part_count size part ≡ ok count
  pub at_least : target ≤ part
  pub part_floor : min_part_bytes ≤ part
  pub part_cap : part ≤ max_part_bytes
  pub some_part : 1 ≤ count
  pub count_cap : count ≤ max_parts
  pub covers : size ≤ count * part
  pub no_spare : (count - 1) * part < size

part_size_bounds :
    (size target : ℕ) {part : ℕ}
    → part_size_bytes size target ≡ ok part
    → (part ≡ max target (div_ceil size max_parts))
      × (min_part_bytes ≤ target)
      × (target ≤ max_part_bytes)
      × (0 < size)
      × (size ≤ max_object_bytes)
unfolding part_size_bytes
part_size_bounds size target h = ground arith

part_count_lem :
    (size part : ℕ)
    → 0 < size
    → 0 < part
    → div_ceil size part ≤ max_parts
    → part_count size part ≡ ok (div_ceil size part)
unfolding part_count
part_count_lem size part h k l = ground arith

-- A part size that preflight computes is at least the configured one and within the store's limits,
-- and the part count for it exists, is at most 10000, and is the least number of parts that hold
-- the file.
pub part_size-IsGeometry :
    (size target : ℕ) {part : ℕ}
    → part_size_bytes size target ≡ ok part
    → (count : ℕ) × IsGeometry size target part count
part_size-IsGeometry size target {part} h =
    let (q, lo, hi, pos, top) = part_size_bounds size target h in
    let big : div_ceil size max_parts ≤ part = omega arith in
    let some_part : 0 < part = omega arith in
    let fits : size ≤ max_parts * part =
      omega (arith, div_ceil_covers size max_parts (omega arith)) in
    let capped : div_ceil size part ≤ max_parts = div_ceil-le size part max_parts some_part fits in
    let cap : div_ceil size max_parts ≤ max_part_bytes =
      div_ceil-le size max_parts max_part_bytes (omega arith) (omega arith) in
    (
      div_ceil size part,
      record {
        counted = part_count_lem size part pos some_part capped;
        at_least = omega arith;
        part_floor = omega arith;
        part_cap = omega arith;
        some_part = div_ceil-pos size part some_part pos;
        count_cap = capped;
        covers = div_ceil_covers size part some_part;
        no_spare = div_ceil_tight size part some_part pos;
      },
    )

pinned_count :
    (size part : ℕ)
    → max_parts ≤ part
    → (part - 1) * max_parts < size
    → div_ceil size part ≤ max_parts
    → div_ceil size part ≡ max_parts
pinned_count size part floor tight capped = elim (dec_lt (div_ceil size part) max_parts) [
  | yes p ↦ absurd (
      omega (
        arith,
        div_ceil_covers size part (omega arith),
        mul-le-mul_right {m = div_ceil size part} {n = max_parts - 1} part (omega arith),
      ))
  | no p ↦ omega arith
]

-- A part that is rounded up from a 10000th of the file needs all 10000 parts.
pinned :
    (size part : ℕ)
    → 0 < size
    → max_parts ≤ part
    → (part - 1) * max_parts < size
    → size ≤ part * max_parts
    → part_count size part ≡ ok max_parts
pinned size part pos floor tight fits =
    let some_part : 0 < part = omega arith in
    let capped : div_ceil size part ≤ max_parts =
      div_ceil-le size part max_parts some_part (omega arith) in
    let full : div_ceil size part ≡ max_parts = pinned_count size part floor tight capped in
    part_count_lem size part pos some_part capped ∙ ap ok full

-- What decides the split: up to the honoured size the configured part size is used as it is, and
-- beyond it the part grows and the count stays at the cap of 10000.
pub part_count_before_size :
    (size target : ℕ) {part : ℕ}
    → part_size_bytes size target ≡ ok part
    → (size ≤ largest_size_honouring target → part ≡ target)
      × (largest_size_honouring target < size
          → (target < part) × (part_count size part ≡ ok max_parts))
unfolding largest_size_honouring
part_count_before_size size target {part} h =
    let (q, lo, hi, pos, top) = part_size_bounds size target h in
    (
      λ small. omega (arith, div_ceil-le size max_parts target (omega arith) (omega arith)),
      λ large.
          let covers : size ≤ div_ceil size max_parts * max_parts =
            div_ceil_covers size max_parts (omega arith) in
          let grown : target < div_ceil size max_parts = omega arith in
          let part_eq : part ≡ div_ceil size max_parts = omega arith in
          (
            omega arith,
            pinned size part pos (omega arith)
                (omega (arith, div_ceil_tight size max_parts (omega arith) pos)) (omega arith),
          ),
    )
