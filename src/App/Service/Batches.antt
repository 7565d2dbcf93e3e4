-- ===== src/App/Service/Batches.antt =====
-- The part numbers of a batch that a renewal names.
use delphi.Base.{
  ℕ, zero, suc, ◌+◌, ◌-◌, min, max, length, ◌⊎◌, ◌≤◌, ◌≡◌, refl, Option, none, some, List, arith,
  ap,
}
use delphi.App.Service.{range, range_to, last_of_batch}

-- The numbers of a batch from a part on: all the parts from there, or as many as were asked for, at
-- least one, if there are so many; 65535 is the greatest number that a part can have.
abbrev pub IsBatch : Option ℕ → ℕ → ℕ → List ℕ → Type 0
IsBatch none from total ns = ns ≡ range_to from total
IsBatch (some count) from total ns =
    (last : ℕ) × (ns ≡ range_to from last)
    × (last ≤ total)
    × (length ns ≤ max count 1)
    × ((last ≡ total) ⊎ (length ns ≡ max count 1) ⊎ (last ≡ 65535))

length-range : (first n : ℕ) → length (range first n) ≡ n
unfolding range
length-range first zero = refl
length-range first (suc n) = ap suc (length-range (first + 1) n)

batch_end :
    (count from total last len : ℕ)
    → last ≡ min (min (from + (max count 1 - 1)) 65535) total
    → len ≡ last + 1 - from
    → (last ≤ total) × (len ≤ max count 1) × ((last ≡ total) ⊎ (len ≡ max count 1) ⊎ (last ≡ 65535))
batch_end count from total last len e l = ground (arith)

pub last_of_batch-IsBatch :
    (count : Option ℕ) (from total : ℕ)
    → IsBatch count from total (range_to from (last_of_batch count from total))
unfolding last_of_batch
last_of_batch-IsBatch none from total = refl
last_of_batch-IsBatch (some count) from total =
    let last = min (min (from + (max count 1 - 1)) 65535) total in
    let (within, short, full) =
      batch_end count from total last _ refl (length-range from (last + 1 - from)) in
    (last, refl, within, short, full)
