-- ===== src/Examples/Documents.antt =====
-- The fold of a document, on the sample log.
use delphi.Base.{◌≡◌, refl, ◌↔◌, none, some, [], ◌∷◌, codes, ok, err, same}
use delphi.Domain.Events.{DocumentIndexed}
use delphi.Domain.Fold.{
  DocumentState, apply, fold_from, merge_patch, no_prior_state, active, deleted, pending,
}
use delphi.Domain.Fold.Laws.{Refused, apply-eq-err_iff}
use delphi.Domain.Fold.History.{IsTail, StartsFrom, fold_from_history}
use delphi.Domain.Fold.Blobs.{served_blob, newest_blob, current_blob-eq-newest}
use delphi.Domain.Fold.Patches.{overlay, IsPatched, IsPatchedSome, merge_patch_action}
use delphi.Examples.Demo.{
  demo, titled, tagged, creation, created, indexed, retitled, removed, updates, at_two,
}

abbrev gone : DocumentState demo
gone = record at_two { state = deleted }

apply-eq-err_iff_example :
    (apply none removed 4 ≡ err (no_prior_state (codes "d1") (codes "document_deleted")))
    ↔ Refused none removed (no_prior_state (codes "d1") (codes "document_deleted"))
apply-eq-err_iff_example =
    apply-eq-err_iff none removed 4 (no_prior_state (codes "d1") (codes "document_deleted"))

apply-indexed : apply (some at_two) indexed 3 ≡ ok at_two
unfolding apply same
apply-indexed = refl

abbrev begun : DocumentState demo
begun = record {
  tenant_id = codes "t1";
  document_id = codes "d1";
  owner_user_id = codes "u1";
  version = 1;
  stream_seq = 1;
  state = active;
  index_state = pending;
  index_version = none;
  current_blob = some (codes "b1");
  filename = some (codes "a.pdf");
  content_type = some (codes "application/pdf");
  byte_size = some 10;
  checksum = some (codes "sha256:00");
  title = some (codes "Lease");
  tags = [];
  description = none;
  metadata = 2;
  created_at = 1001;
  updated_at = 1001;
}

apply_created : apply none created 1 ≡ ok begun
unfolding apply same
apply_created = refl

-- The log folds to a document at version 3 whose index is still that of version 2.
abbrev at_three : DocumentState demo
at_three = record at_two { version = 3; stream_seq = 4; updated_at = 1003 }

fold_updates : fold_from (some begun) updates ≡ ok (some at_three)
unfolding apply fold_from same
fold_updates = refl

updates-IsTail : IsTail (codes "d1") updates
updates-IsTail = ((refl, λ h. h), ((refl, λ h. h), ((refl, λ h. h), tt)))

fold_from_history_example :
    (t : DocumentState demo) × (fold_from none ((1, created) ∷ updates) ≡ ok (some t))
    × StartsFrom created t
fold_from_history_example =
    fold_from_history (codes "d1") 1 created updates
      (refl, creation, refl, codes "u1", refl, updates-IsTail)

abbrev gone_later : DocumentState demo
gone_later = record gone { version = 3; stream_seq = 4; updated_at = 1003 }

fold_gone : fold_from (some gone) ((4, retitled) ∷ []) ≡ ok (some gone_later)
unfolding fold_from apply same
fold_gone = refl

current_blob-eq-newest_example :
    served_blob (some at_three) ≡ newest_blob (served_blob (some begun)) updates
current_blob-eq-newest_example = current_blob-eq-newest (some begun) updates fold_updates

merge_patch_action_example :
    IsPatchedSome titled.title at_two.title (merge_patch at_two titled).title
    × IsPatched titled.tags at_two.tags (merge_patch at_two titled).tags
    × IsPatchedSome titled.description at_two.description (merge_patch at_two titled).description
    × IsPatched titled.metadata at_two.metadata (merge_patch at_two titled).metadata
    × (record (merge_patch at_two titled) {
      title = at_two.title;
      tags = at_two.tags;
      description = at_two.description;
      metadata = at_two.metadata;
    }
        ≡ at_two)
    × (merge_patch (merge_patch at_two titled) tagged ≡ merge_patch at_two (overlay titled tagged))
merge_patch_action_example = merge_patch_action at_two titled tagged

abbrev run_of_two : DocumentIndexed
run_of_two = record { for_version = 2; vector_count = 3; embedding_model = codes "m" }
