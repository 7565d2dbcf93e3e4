-- ===== src/App/Service/Sizes.antt =====
-- The geometry that `preflight` hands out, and the sizes that the parts of an upload must have.
use delphi.Base.{
  ℕ, zero, suc, ◌+◌, ◌-◌, ◌*◌, ◌≤◌, ◌<◌, ◌≡◌, inl, inr, false, Option, none, some, List, [], ◌∷◌,
  Text, Result, ok, err, arith, is_empty, Result-cases, go_on_ok, attempt_ok, attempt, codes,
}
use delphi.Platform.{Platform}
use delphi.Domain.Geometry.{part_size_bytes, part_count, max_object_bytes}
use delphi.Domain.Geometry.Bounds.{IsGeometry, part_size-IsGeometry}
use delphi.App.Errors.{ContextError}
use delphi.App.Keys.{object_key}
use delphi.App.Uploads.{UploadState, UploadMode}
use delphi.App.Service.{
  UploadPolicy, PreflightRequest, PreflightResponse, DocumentService, plan_upload, preflight,
  open_upload, record_upload, after_record, response_of, new_state, blob_failed,
  resolved_content_type, target, expected_part_size, range, range_to,
}

part_count_unique :
    (size part : ℕ) {a b : ℕ} → part_count size part ≡ ok a → part_count size part ≡ ok b → a ≡ b
part_count_unique size part h k = cc

-- What a plan of an upload promises.
pub record IsPlan (policy : UploadPolicy) (request : PreflightRequest) (plan : Text × ℕ × ℕ)
    : Type 0 where
  pub named : is_empty plan.0 ≡ false
  pub allowed : request.size ≤ policy.max_upload_bytes
  pub geometry : IsGeometry request.size policy.part_size_bytes plan.1 plan.2

pub plan_upload-IsPlan :
    (policy : UploadPolicy) (request : PreflightRequest) {plan : Text × ℕ × ℕ}
    → plan_upload policy request ≡ ok plan
    → IsPlan policy request plan
unfolding plan_upload
plan_upload-IsPlan policy request {plan} h =
    elim (Result-cases (part_size_bytes request.size policy.part_size_bytes)) [
      | inr (e, q) ↦ absurd (ground arith)
      | inl (part, q) ↦
          let (count, g) = part_size-IsGeometry request.size policy.part_size_bytes q in
          let fits : (plan.1 ≡ part) × (plan.2 ≡ count) = ground (arith, g.counted) in
          record {
            named = ground (arith, g.counted);
            allowed = ground (arith, g.counted);
            geometry = rw (fits.0, fits.1) g;
          }
    ]

declared_cap :
    (size target : ℕ) {part : ℕ} → part_size_bytes size target ≡ ok part → size ≤ max_object_bytes
unfolding part_size_bytes
declared_cap size target h = ground arith

module _ {x : Platform} where
  -- The sizes of the parts with the given numbers, added up.
  abbrev pub total_size : UploadState x → List ℕ → Option ℕ
  total_size context [] = some 0
  total_size context (n ∷ ns) = add (expected_part_size context n) (total_size context ns)
    where
      add : Option ℕ → Option ℕ → Option ℕ
      add (some a) (some b) = some (a + b)
      add _ _ = none

  full_parts :
      (context : UploadState x) (k first : ℕ)
      → 1 ≤ first
      → first + k ≡ context.part_count
      → (context.part_count - 1) * context.part_size_bytes ≤ context.declared_size
      → context.declared_size ≤ max_object_bytes
      → total_size context (range first (suc k))
        ≡ some (
            k * context.part_size_bytes
            + (context.declared_size - (context.part_count - 1) * context.part_size_bytes))
  unfolding range expected_part_size
  full_parts context zero first lo q fits cap = ground arith
  full_parts context (suc k) first lo q fits cap =
      ground (arith, full_parts context k (first + 1) (omega arith) (omega arith) fits cap)

  -- The parts of an upload make up its object: for the geometry that preflight gave it, the sizes
  -- that its parts are expected to have, the last one's remainder included, add up to the declared
  -- size.
  pub total_size-declared :
      (context : UploadState x) (goal : ℕ)
      → part_size_bytes context.declared_size goal ≡ ok context.part_size_bytes
      → part_count context.declared_size context.part_size_bytes ≡ ok context.part_count
      → total_size context (range_to 1 context.part_count) ≡ some context.declared_size
  total_size-declared context goal h k =
      let (count, g) = part_size-IsGeometry context.declared_size goal h in
      let same_count : count ≡ context.part_count = part_count_unique _ _ g.counted k in
      let spare : (context.part_count - 1) * context.part_size_bytes < context.declared_size =
        rw (← same_count) (g.no_spare) in
      let some_part : 1 ≤ context.part_count = rw (← same_count) (g.some_part) in
      let numbers : context.part_count + 1 - 1 ≡ suc (context.part_count - 1) = omega arith in
      let sum : total_size context (range 1 (suc (context.part_count - 1)))
          ≡ some (
              (context.part_count - 1) * context.part_size_bytes
              + (context.declared_size - (context.part_count - 1) * context.part_size_bytes)) =
        full_parts context (context.part_count - 1) 1 (omega arith) (omega arith) (omega arith)
          (declared_cap context.declared_size goal h) in
      rw (numbers, sum) (ground arith)

module _ {x : Platform} {W : Type 0} (s : DocumentService x W) (tenant user : Text)
    (request : PreflightRequest) where
  after_record_answer :
      (state : UploadState x) (r : Result ContextError (Unit {0})) (w : W)
      {response : PreflightResponse}
      → (after_record s state r w).0 ≡ ok response
      → response ≡ response_of state
  unfolding after_record
  after_record_answer state (ok done) w h = ground arith
  after_record_answer state (err e) w h = absurd (cc)

  record_upload_answer :
      (plan : Text × ℕ × ℕ) (chosen : Text × UploadMode) (upload multipart : Text) (w : W)
      {response : PreflightResponse}
      → (record_upload s tenant user request plan chosen upload multipart w).0 ≡ ok response
      → (response.part_size_bytes ≡ plan.1) × (response.part_count ≡ plan.2)
  unfolding record_upload
  record_upload_answer plan chosen upload multipart w h =
      let state : UploadState x =
        new_state tenant user request plan chosen upload multipart (s.clock w).0 in
      let answer = after_record_answer state (s.uploads.create state (s.clock w).1).0 _ h in
      (ground (arith, answer), ground (arith, answer))

  open_upload_answer :
      (plan : Text × ℕ × ℕ) (chosen : Text × UploadMode) (w : W) {response : PreflightResponse}
      → (open_upload s tenant user request plan chosen w).0 ≡ ok response
      → (response.part_size_bytes ≡ plan.1) × (response.part_count ≡ plan.2)
  unfolding open_upload
  open_upload_answer plan chosen w h =
      let upload : Text = (s.ids w).0 in
      let (multipart, q, k) =
        attempt_ok
          (s.blobs.begin_multipart (object_key tenant upload)
            (resolved_content_type request.content_type))
          (blob_failed (codes "begin multipart"))
          (record_upload s tenant user request plan chosen upload) (s.ids w).1 h in
      record_upload_answer plan chosen upload multipart _ k

  -- An upload that `preflight` opens has a geometry: its declared size is within the policy, the part
  -- size is within the store's limits and at least the configured one, and the parts are at most
  -- 10000 and the least number that holds the file.
  pub preflight-IsGeometry :
      (w : W) {response : PreflightResponse}
      → (preflight s tenant user request w).0 ≡ ok response
      → (request.size ≤ s.policy.max_upload_bytes)
        × IsGeometry request.size s.policy.part_size_bytes response.part_size_bytes
            response.part_count
  unfolding preflight
  preflight-IsGeometry w {response} h =
      let (plan, q, k) =
        go_on_ok (λ e. e)
          (λ plan.
            attempt (target s tenant request.document_id) (λ e. e)
              (open_upload s tenant user request plan))
          (plan_upload s.policy request) w h in
      let (chosen, r, l) =
        attempt_ok (target s tenant request.document_id) (λ e. e)
          (open_upload s tenant user request plan) w k in
      let (part, count) =
        open_upload_answer plan chosen (target s tenant request.document_id w).1 l in
      let planned = plan_upload-IsPlan s.policy request q in
      (planned.allowed, rw (part, count) (planned.geometry))
