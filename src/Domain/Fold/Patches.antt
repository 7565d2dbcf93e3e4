-- ===== src/Domain/Fold/Patches.antt =====
-- Metadata patches as an action on states (`merge_patch`), and the index beside the versions.
use delphi.Base.{refl, Option, none, ℕ, ◌≡◌, ◌≤◌, ◌↔◌, some, ok, arith}
use delphi.Platform.{Platform}
use delphi.Domain.Events.{MetadataPatch, DocumentEvent, DocumentIndexed, document_indexed}
use delphi.Domain.Fold.{
  DocumentState, merge_patch, apply, fold_payload, fold_update, patched, patched_some, current,
}
use delphi.Domain.Fold.Laws.{apply-eq-fold_payload}
use delphi.Domain.Fold.History.{stamp}

-- The field after a patch that may have a value for it.
abbrev pub IsPatched : {A : Type 0} → Option A → A → A → Type 0
IsPatched none old new = new ≡ old
IsPatched (some value) old new = new ≡ value

abbrev pub IsPatchedSome : {A : Type 0} → Option A → Option A → Option A → Type 0
IsPatchedSome none old new = new ≡ old
IsPatchedSome (some value) old new = new ≡ some value

written : {A : Type 0} (value : Option A) (old : A) → IsPatched value old (patched value old)
written none old = refl
written (some value) old = refl

written_some :
    {A : Type 0} (value old : Option A) → IsPatchedSome value old (patched_some value old)
written_some none old = refl
written_some (some value) old = refl

module _ {x : Platform} where
  -- The patch that writes the fields of `p`, and then those of `q`.
  pub overlay : MetadataPatch x → MetadataPatch x → MetadataPatch x
  overlay p q = record {
    title = patched_some q.title p.title;
    tags = patched_some q.tags p.tags;
    description = patched_some q.description p.description;
    metadata = patched_some q.metadata p.metadata;
  }

  -- A patch writes each of the four fields that it has a value for, keeps those that it has none for,
  -- and touches no other field of the state. Two patches in a row are one patch, the later one
  -- winning field by field.
  pub merge_patch_action :
      (s : DocumentState x) (p q : MetadataPatch x)
      → IsPatchedSome p.title s.title (merge_patch s p).title
        × IsPatched p.tags s.tags (merge_patch s p).tags
        × IsPatchedSome p.description s.description (merge_patch s p).description
        × IsPatched p.metadata s.metadata (merge_patch s p).metadata
        × (record (merge_patch s p) {
          title = s.title;
          tags = s.tags;
          description = s.description;
          metadata = s.metadata;
        }
            ≡ s)
        × (merge_patch (merge_patch s p) q ≡ merge_patch s (overlay p q))
  unfolding merge_patch overlay
  merge_patch_action s p q = (
    written_some p.title s.title,
    written p.tags s.tags,
    written_some p.description s.description,
    written p.metadata s.metadata,
    refl,
    ground arith,
  )

  -- The result of an indexing run marks the index current exactly when it was made for this
  -- version or a later one, and records the version that it was made for.
  indexed_current_iff :
      (s : DocumentState x) (e : DocumentEvent x) (i : DocumentIndexed) (seq : ℕ)
      → s.document_id ≡ e.document_id
      → e.payload ≡ document_indexed i
      → (t : DocumentState x) × (apply (some s) e seq ≡ ok t)
        × (t.index_version ≡ some i.for_version)
        × ((t.index_state ≡ current) ↔ (e.version ≤ i.for_version))
  unfolding fold_payload fold_update
  indexed_current_iff s e i seq d q = (
    fold_update (document_indexed i) (stamp s e seq),
    ground (arith, apply-eq-fold_payload (some s) e seq d),
    ground arith,
    ground arith,
  )
