-- ===== src/Domain/Validation/Limits.antt =====
-- The limits of a metadata patch, as a predicate, against the checks of `validate_metadata_patch`.
use delphi.Base.{
  ℕ, ◌≤◌, ◌≡◌, refl, ◌↔◌, inl, inr, true, false, Option, none, some, List, [], ◌∷◌, Text, Result,
  ok, err, and_then, trim, is_control, any, All, length, arith, Option-cases,
}
use delphi.Platform.{Platform}
use delphi.Domain.Events.{MetadataPatch}
use delphi.Domain.Validation.{
  max_title_chars, max_tags, max_tag_chars, max_description_chars, max_metadata_bytes, check_title,
  check_tag, check_each_tag, check_tags, check_description, check_metadata, ValidationError,
  validate_metadata_patch,
}

-- An optional field satisfies `P` if it is present.
abbrev pub IfPresent {ℓ} : {A : Type ℓ} → (A → Type 0) → Option A → Type 0
IfPresent P none = Unit
IfPresent P (some a) = P a

abbrev pub IsTag : Text → Type 0
IsTag t =
    (1 ≤ length (trim t)) × (length (trim t) ≤ max_tag_chars) × (any is_control (trim t) ≡ false)

abbrev pub IsBounded : (x : Platform) → x.Json → Type 0
IsBounded x m =
    (x.is_object m ≡ true) × (n : ℕ) × (x.serialized_len m ≡ some n) × (n ≤ max_metadata_bytes)

-- The limits of the specification of the document lifecycle.
pub record WithinLimits {x : Platform} (p : MetadataPatch x) : Type 0 where
  pub title : IfPresent (λ t. (1 ≤ length (trim t)) × (length (trim t) ≤ max_title_chars)) p.title
  pub tags : IfPresent (λ ts. (length ts ≤ max_tags) × All IsTag ts) p.tags
  pub description : IfPresent (λ d. length d ≤ max_description_chars) p.description
  pub metadata : IfPresent (IsBounded x) p.metadata

check_title_iff :
    (t : Option Text)
    → (check_title t ≡ ok tt)
      ↔ IfPresent (λ s. (1 ≤ length (trim s)) × (length (trim s) ≤ max_title_chars)) t
unfolding check_title
check_title_iff none = (λ _. tt, λ _. refl)
check_title_iff (some t) = (λ h. ground arith, λ h. ground arith)

check_tag_iff : (t : Text) → (check_tag t ≡ ok tt) ↔ IsTag t
unfolding check_tag
check_tag_iff t = (λ h. ground arith, λ h. ground arith)

check_each_tag_iff : (ts : List Text) → (check_each_tag ts ≡ ok tt) ↔ All IsTag ts
unfolding check_each_tag
check_each_tag_iff [] = (λ _. tt, λ _. refl)
check_each_tag_iff (t ∷ ts) = (
  λ h. ground (arith, check_tag_iff t, check_each_tag_iff ts),
  λ h. ground (arith, check_tag_iff t, check_each_tag_iff ts),
)

check_tags_iff :
    (ts : Option (List Text))
    → (check_tags ts ≡ ok tt) ↔ IfPresent (λ l. (length l ≤ max_tags) × All IsTag l) ts
unfolding check_tags
check_tags_iff none = (λ _. tt, λ _. refl)
check_tags_iff (some ts) =
    (λ h. ground (arith, check_each_tag_iff ts), λ h. ground (arith, check_each_tag_iff ts))

check_description_iff :
    (d : Option Text)
    → (check_description d ≡ ok tt) ↔ IfPresent (λ s. length s ≤ max_description_chars) d
unfolding check_description
check_description_iff none = (λ _. tt, λ _. refl)
check_description_iff (some d) = (λ h. ground arith, λ h. ground arith)

-- Two checks in a row pass exactly when both do.
passes-and_then :
    (r s : Result ValidationError (Unit {0}))
    → (and_then r (λ _. s) ≡ ok tt) ↔ ((r ≡ ok tt) × (s ≡ ok tt))
passes-and_then (ok a) s = (λ h. (refl, h), λ h. h.1)
passes-and_then (err e) s = (λ h. absurd (cc), λ h. absurd (cc))

module _ (x : Platform) where
  check_metadata_iff :
      (m : Option (x.Json)) → (check_metadata x m ≡ ok tt) ↔ IfPresent (IsBounded x) m
  unfolding check_metadata
  check_metadata_iff none = (λ _. tt, λ _. refl)
  check_metadata_iff (some m) = (
    λ h. elim (Option-cases (x.serialized_len m)) [
      | inl q ↦ absurd (ground arith)
      | inr (n, q) ↦ (ground arith, n, q, ground arith)
    ],
    λ h. ground arith,
  )

module _ {x : Platform} where
  -- A patch is accepted exactly when its title, tags, description and metadata, those that are
  -- present, are within the limits of the specification.
  pub validate_iff : (p : MetadataPatch x) → (validate_metadata_patch p ≡ ok tt) ↔ WithinLimits p
  unfolding validate_metadata_patch
  validate_iff p = (
    λ h.
        let (t, rest) = (passes-and_then (check_title p.title) _).0 h in
        let (g, rest') = (passes-and_then (check_tags p.tags) _).0 rest in
        let (d, m) = (passes-and_then (check_description p.description) _).0 rest' in
        record {
          title = (check_title_iff p.title).0 t;
          tags = (check_tags_iff p.tags).0 g;
          description = (check_description_iff p.description).0 d;
          metadata = (check_metadata_iff x p.metadata).0 m;
        },
    λ h. (passes-and_then (check_title p.title) _).1 (
      (check_title_iff p.title).1 h.title,
      (passes-and_then (check_tags p.tags) _).1 (
        (check_tags_iff p.tags).1 h.tags,
        (passes-and_then (check_description p.description) _).1 (
          (check_description_iff p.description).1 h.description,
          (check_metadata_iff x p.metadata).1 h.metadata,
        ),
      ),
    ),
  )
