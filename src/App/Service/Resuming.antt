-- ===== src/App/Service/Resuming.antt =====
-- The parts that a client may skip.
use delphi.Base.{
  inl, inr, Bool, Bool-cases, keep, ◌+◌, ◌-◌, ◌*◌, ◌^◌, true, ◌≤◌, ◌<◌, ◌≡◌, refl, ◌↔◌, List, [],
  ◌∷◌, Text, ok, arith, attempt, attempt_ok, pure, ok_inj,
}
use mathlib.Core.Path.{subst}
use mathlib.Core.List.{Memᴰ}
use mathlib.Core.List.Memᴰ
use delphi.Platform.{Platform}
use delphi.App.Uploads.{UploadState}
use delphi.App.Ports.{UploadedPart}
use delphi.App.Service.{
  DocumentService, UploadedPartsResponse, uploaded_parts, load_context, stored_parts, parts_of,
  expected_part_size, is_resumable,
}

-- The part is one of the upload's, and as large as the geometry calls for: a part before the last has
-- the part size, and the parts with the last one make up the declared size.
abbrev pub IsSized : {x : Platform} → UploadState x → UploadedPart → Type 0
IsSized context part =
    (1 ≤ part.part_number)
    × (part.part_number ≤ context.part_count)
    × (part.part_number < context.part_count → part.size ≡ context.part_size_bytes)
    × (part.part_number ≡ context.part_count
        → ((context.part_count - 1) * context.part_size_bytes < 2 ^ 64)
          × ((context.part_count - 1) * context.part_size_bytes + part.size
              ≡ context.declared_size))

is_resumable→IsSized :
    {x : Platform} (context : UploadState x) (part : UploadedPart)
    → is_resumable context part ≡ true
    → IsSized context part
unfolding expected_part_size
is_resumable→IsSized context part h = ground arith

IsSized→is_resumable :
    {x : Platform} (context : UploadState x) (part : UploadedPart)
    → IsSized context part
    → is_resumable context part ≡ true
unfolding expected_part_size
IsSized→is_resumable context part (lo, hi, inner, last) = ground arith

kept_member :
    {A : Type 0} (test : A → Bool) (xs : List A) (a : A)
    → Memᴰ a (keep test xs) ↔ (Memᴰ a xs × (test a ≡ true))
kept_member test xs a = (kept test xs a, λ m. keeps test xs a m.0 m.1)
  where
    kept :
        {A : Type 0} (test : A → Bool) (xs : List A) (a : A)
        → Memᴰ a (keep test xs)
        → Memᴰ a xs × (test a ≡ true)
    kept test [] a m = absurd (Memᴰ.not-nil m)
    kept test (x ∷ xs) a m = elim (Bool-cases (test x)) [
      | inr q ↦ let (there, holds) = kept test xs a (rw q at m) in (Memᴰ.tail there, holds)
      | inl q ↦ elim (Memᴰ.cases_cons (rw q at m)) [
        | inl e ↦ (Memᴰ.head e, rw (← e) at q)
        | inr later ↦ let (there, holds) = kept test xs a later in (Memᴰ.tail there, holds)
      ]
    ]

    keeps :
        {A : Type 0} (test : A → Bool) (xs : List A) (a : A)
        → Memᴰ a xs
        → test a ≡ true
        → Memᴰ a (keep test xs)
    keeps test [] a m q = absurd (Memᴰ.not-nil m)
    keeps test (x ∷ xs) a (Memᴰ.head e) q =
        let holds : test x ≡ true = rw e at q in rw holds (Memᴰ.head e)
    keeps test (x ∷ xs) a (Memᴰ.tail m) q = elim (Bool-cases (test x)) [
      | inl p ↦ rw p (Memᴰ.tail (keeps test xs a m q))
      | inr p ↦ rw p (keeps test xs a m q)
    ]

-- The parts of the answer are those that are stored and have the right size.
abbrev pub IsAnswer :
    {x : Platform} → UploadState x → List UploadedPart → UploadedPartsResponse → Type 0
IsAnswer context uploaded response =
    (response.part_count ≡ context.part_count)
    × (response.part_size_bytes ≡ context.part_size_bytes)
    × ((part : UploadedPart)
        → Memᴰ part response.parts ↔ (Memᴰ part uploaded × IsSized context part))

parts_of-IsAnswer :
    {x : Platform} (context : UploadState x) (uploaded : List UploadedPart)
    → IsAnswer context uploaded (parts_of context uploaded)
parts_of-IsAnswer context uploaded = (
  refl,
  refl,
  λ part.
      let (kept, keeps) = kept_member (is_resumable context) uploaded part in
      (
        λ m. let (there, right) = kept m in (there, is_resumable→IsSized context part right),
        λ m. keeps (m.0, IsSized→is_resumable context part m.1),
      ),
)

module _ {x : Platform} {W : Type 0} (s : DocumentService x W) where
  -- The parts that `uploaded_parts` lets the client skip: a part is among them exactly when storage has
  -- it and its size is the one that the geometry of the upload calls for.
  pub uploaded_parts-IsAnswer :
      (tenant user upload : Text) (w : W) {response : UploadedPartsResponse}
      → (uploaded_parts s tenant user upload w).0 ≡ ok response
      → (context : UploadState x) × ((load_context s tenant user upload w).0 ≡ ok context)
        × (uploaded : List UploadedPart) × ((stored_parts s context
              (load_context s tenant user upload w).1).0
            ≡ ok uploaded)
        × IsAnswer context uploaded response
  unfolding uploaded_parts
  uploaded_parts-IsAnswer tenant user upload w h =
      let (context, loaded, k) =
        attempt_ok (load_context s tenant user upload) (λ e. e)
          (λ context.
            attempt (stored_parts s context) (λ e. e)
              (λ uploaded. pure (ok (parts_of context uploaded))))
          w h in
      let (uploaded, found, made) =
        attempt_ok (stored_parts s context) (λ e. e)
          (λ uploaded. pure (ok (parts_of context uploaded))) _ k in
      (
        context,
        loaded,
        uploaded,
        found,
        subst (IsAnswer context uploaded) (ok_inj made) (parts_of-IsAnswer context uploaded),
      )
