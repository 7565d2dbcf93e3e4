-- ===== src/App/Service/Renewal.antt =====
-- Which parts a renewal signs: the window of part numbers and the parts that storage has.
use delphi.Base.{
  ℕ, zero, suc, ◌+◌, sym, ◌≤◌, ◌≡◌, refl, inl, inr, not, Option, none, some, List, [], ◌∷◌, map,
  Text, ok, arith, keep, find, Bool-cases, attempt, attempt_ok, pure, ◌∙◌, ap, codes,
}
use mathlib.Core.Path.{subst}
use delphi.Platform.{Platform}
use delphi.App.Uploads.{UploadState}
use delphi.App.Ports.{PresignedPart, UploadedPart, Duration}
use delphi.App.Service.Batches.{IsBatch, last_of_batch-IsBatch}
use delphi.App.Service.{
  DocumentService, RenewRequest, RenewResponse, contains, range, range_to, or_number, first_missing,
  last_of_batch, presign_each, presign_window, window, stored_parts, load_context, renew_parts,
  sign_from, renew, blob_failed,
}

abbrev pub numbers : {x : Platform} → List (PresignedPart x) → List ℕ
numbers = map (λ p. p.part_number)

abbrev pub stored_numbers : List UploadedPart → List ℕ
stored_numbers = map (λ p. p.part_number)

-- The numbers that are not in the list.
abbrev pub missing_in : List ℕ → List ℕ → List ℕ
missing_in already = keep (λ n. not (contains n already))

shift : (first k : ℕ) → first + suc k ≡ first + 1 + k
shift first k = omega arith

-- Starting at the first missing number loses nothing.
size_of_range : (first k : ℕ) → range_to first (first + k) ≡ range first (suc k)
size_of_range first k = ap (range first) (omega arith)

skip_stored :
    (already : List ℕ) (k first : ℕ)
    → missing_in already (
        range_to
          (or_number (find (λ n. not (contains n already)) (range first (suc k))) (first + k))
          (first + k))
      ≡ missing_in already (range first (suc k))
unfolding range
skip_stored already zero first = elim (Bool-cases (contains first already)) [
  | inl q ↦
      let at_end : range_to (first + 0) (first + 0) ≡ range first 1 =
        ap (λ n. range_to n (first + 0)) (omega arith) ∙ size_of_range first 0 in
      rw q (ap (missing_in already) at_end ∙ ground arith)
  | inr q ↦ rw q (ap (missing_in already) (size_of_range first 0) ∙ ground arith)
]
skip_stored already (suc k) first = elim (Bool-cases (contains first already)) [
  | inl q ↦ rw (q, shift first k) (skip_stored already k (first + 1))
  | inr q ↦ rw q (ap (missing_in already) (size_of_range first (suc k)) ∙ ground arith)
]

missing_in_nothing : (ns : List ℕ) → missing_in [] ns ≡ ns
missing_in_nothing [] = refl
missing_in_nothing (n ∷ ns) = ap (λ rest. n ∷ rest) (missing_in_nothing ns)

from_one : (k : ℕ) → range_to 1 (suc k) ≡ range 1 (suc k)
from_one k = ap (range 1) (omega arith)

one_more : (k : ℕ) → 1 + k ≡ suc k
one_more k = omega arith

-- From the first missing part to the last part, the missing ones are all the missing ones.
first_missing_all :
    (total : ℕ) (already : List ℕ)
    → 1 ≤ total
    → missing_in already (
        range_to
          (first_missing total already)
          (last_of_batch none (first_missing total already) total))
      ≡ missing_in already (range_to 1 total)
unfolding first_missing last_of_batch
first_missing_all zero already h = absurd (omega arith)
first_missing_all (suc k) already h = rw (from_one k) (rw (one_more k) at (skip_stored already k 1))

signed_all :
    (plan : ℕ × List ℕ) (count : Option ℕ) (total : ℕ) (already : List ℕ)
    → count ≡ none
    → plan.0 ≡ first_missing total already
    → plan.1 ≡ already
    → 1 ≤ total
    → missing_in plan.1 (range_to plan.0 (last_of_batch count plan.0 total))
      ≡ missing_in already (range_to 1 total)
signed_all plan count total already all first skip h =
    rw (all, first, skip) (first_missing_all total already h)

module _ {x : Platform} {W : Type 0} (s : DocumentService x W)
    (signs : (k u : Text) (n : ℕ) (ttl : Duration) (w : W) (p : PresignedPart x)
      → (s.blobs.presign_part k u n ttl w).0 ≡ ok p
      → p.part_number ≡ n) where
  numbers-presign_each :
      (context : UploadState x) (skip ns : List ℕ) (w : W) {parts : List (PresignedPart x)}
      → (presign_each s context skip ns w).0 ≡ ok parts
      → numbers parts ≡ missing_in skip ns
  unfolding presign_each
  numbers-presign_each context skip [] w h = ground arith
  numbers-presign_each context skip (n ∷ ns) w {parts} h = elim (Bool-cases (contains n skip)) [
    | inl q ↦ rw q (numbers-presign_each context skip ns w (rw (q, presign_each) at h))
    | inr q ↦
        let (part, made, rest) =
          attempt_ok
            (s.blobs.presign_part context.storage_key context.multipart_upload_id n
              s.policy.part_url_ttl)
            (blob_failed (codes "presign part"))
            (λ part.
              attempt (presign_each s context skip ns) (λ e. e) λ later. pure (ok (part ∷ later)))
            w (rw (q, presign_each) at h) in
        let (later, made_later, last) =
          attempt_ok (presign_each s context skip ns) (λ e. e) (λ later. pure (ok (part ∷ later))) _
            rest in
        rw q (
          ground (arith, signs _ _ _ _ _ _ made, numbers-presign_each context skip ns _ made_later))
  ]

  numbers-sign_from :
      (request : RenewRequest) (context : UploadState x) (plan : ℕ × List ℕ) (w : W)
      {response : RenewResponse x}
      → (sign_from s request context plan w).0 ≡ ok response
      → numbers response.parts
        ≡ missing_in plan.1
            (range_to plan.0 (last_of_batch request.count plan.0 context.part_count))
  unfolding sign_from presign_window
  numbers-sign_from request context (first, skip) w h =
      let (parts, made, done) =
        attempt_ok
          (presign_window s context first (last_of_batch request.count first context.part_count)
            skip)
          (λ e. e) (λ parts. pure (ok (record { parts = parts }))) w h in
      ground (arith, numbers-presign_each context skip _ w made)

  window_named :
      (context : UploadState x) (from : ℕ) (w : W) {plan : ℕ × List ℕ}
      → (window s context (some from) w).0 ≡ ok plan
      → (1 ≤ from) × (from ≤ context.part_count) × (plan.0 ≡ from) × (plan.1 ≡ [])
  unfolding window
  window_named context from w h = ground arith

  window_open :
      (context : UploadState x) (w : W) {plan : ℕ × List ℕ}
      → (window s context none w).0 ≡ ok plan
      → (uploaded : List UploadedPart) × ((stored_parts s context w).0 ≡ ok uploaded)
        × (plan.0 ≡ first_missing context.part_count (stored_numbers uploaded))
        × (plan.1 ≡ stored_numbers uploaded)
  unfolding window
  window_open context w h =
      let (uploaded, found, done) =
        attempt_ok (stored_parts s context) (λ e. e)
          (λ uploaded. pure (
            ok (
              first_missing context.part_count (stored_numbers uploaded),
              stored_numbers uploaded,
            )))
          w h in
      (uploaded, found, ground arith, ground arith)

  -- What a renewal signs, when storage signs the part that it is asked for. Asked from a part on, it
  -- signs, whether stored or not, the parts from that one up to the last of the upload, or up to the
  -- requested number of them if that is fewer, one part if none were requested, and only for a part
  -- of the upload; asked for nothing, and for an upload with parts, it signs exactly the parts of the
  -- upload that storage does not have.
  pub renew-numbers :
      (tenant user upload : Text) (request : RenewRequest) (w : W) {response : RenewResponse x}
      → (renew s tenant user upload request w).0 ≡ ok response
      → (context : UploadState x) × ((load_context s tenant user upload w).0 ≡ ok context)
        × ((from : ℕ)
            → request.from_part ≡ some from
            → (1 ≤ from)
              × (from ≤ context.part_count)
              × IsBatch request.count from context.part_count (numbers response.parts))
        × (request.from_part ≡ none
            → request.count ≡ none
            → 1 ≤ context.part_count
            → (uploaded : List UploadedPart) × ((stored_parts s context
                  (load_context s tenant user upload w).1).0
                ≡ ok uploaded)
              × (numbers response.parts
                  ≡ missing_in (stored_numbers uploaded) (range_to 1 context.part_count)))
  unfolding renew
  renew-numbers tenant user upload request w h =
      let (context, loaded, k) =
        attempt_ok (load_context s tenant user upload) (λ e. e) (renew_parts s request) w h in
      let (plan, planned, signed) =
        attempt_ok (window s context request.from_part) (λ e. e) (sign_from s request context)
          (load_context s tenant user upload w).1 k in
      let made = numbers-sign_from request context plan _ signed in
      (
        context,
        loaded,
        λ from q.
            let (lo, hi, first, skip) = window_named context from _ (rw q at planned) in
            (
              lo,
              hi,
              subst (IsBatch request.count from context.part_count)
                  (sym (made ∙ rw (first, skip) (missing_in_nothing _)))
                  (last_of_batch-IsBatch request.count from context.part_count),
            ),
        λ q all some_part.
            let (uploaded, found, first, skip) = window_open context _ (rw q at planned) in
            (
              uploaded,
              found,
              made
                  ∙ signed_all plan request.count context.part_count (stored_numbers uploaded) all
                      first skip some_part,
            ),
      )
