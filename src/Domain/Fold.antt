-- ===== src/Domain/Fold.antt =====
-- crates/document-domain/src/fold.rs: the fold of one event into the state of a document.
pub mod Laws
pub mod History
pub mod Blobs
pub mod Patches
use delphi.Base.{
  ℕ, Bool, true, false, Option, none, some, List, [], Text, codes, Result, ok, err, same, leb, ◌∷◌,
  if◌then◌else◌,
}
use delphi.Platform.{Platform}
use delphi.Domain.Events.{
  Actor, user, system, MetadataPatch, DocumentCreated, DocumentEventPayload, DocumentEvent,
  document_created, document_blob_validated, document_metadata_changed, document_text_extracted,
  document_indexed, document_stage_failed, document_reverted, document_deleted,
  document_blob_pruned, type_name, index_stage,
}

pub data DocState : Type 0 where
  active deleted : DocState

-- `DocState::as_str` and `DocState::parse`
unfoldable pub doc_state_str : DocState → Text
doc_state_str active = codes "active"
doc_state_str deleted = codes "deleted"

unfoldable pub parse_doc_state : Text → Option DocState
parse_doc_state s =
    if same s (codes "active")
    then some active
    else if same s (codes "deleted")
    then some deleted
    else none

pub data IndexState : Type 0 where
  pending current failed : IndexState

-- `IndexState::as_str` and `IndexState::parse`
unfoldable pub index_state_str : IndexState → Text
index_state_str pending = codes "pending"
index_state_str current = codes "current"
index_state_str failed = codes "failed"

unfoldable pub parse_index_state : Text → Option IndexState
parse_index_state s =
    if same s (codes "pending")
    then some pending
    else if same s (codes "current")
    then some current
    else if same s (codes "failed")
    then some failed
    else none

pub record DocumentState (x : Platform) : Type 0 where
  pub tenant_id : Text
  pub document_id : Text
  pub owner_user_id : Text
  pub version : ℕ
  pub stream_seq : ℕ
  pub state : DocState
  pub index_state : IndexState
  pub index_version : Option ℕ
  pub current_blob : Option Text
  pub filename : Option Text
  pub content_type : Option Text
  pub byte_size : Option ℕ
  pub checksum : Option Text
  pub title : Option Text
  pub tags : List Text
  pub description : Option Text
  pub metadata : x.Json
  pub created_at : x.Time
  pub updated_at : x.Time

-- The events of one document with their stream sequences, oldest first.
abbrev pub Log : Platform → Type 0
Log x = List (ℕ × DocumentEvent x)

pub data FoldError : Type 0 where
  -- `document_id` and `event_type`
  no_prior_state : Text → Text → FoldError
  system_actor_create : Text → FoldError
  -- `expected` and `actual`
  document_mismatch : Text → Text → FoldError

-- `if let Some(value) = patched { field = value }`
abbrev pub patched {ℓ} : {A : Type ℓ} → Option A → A → A
patched none old = old
patched (some a) old = a

abbrev pub patched_some {ℓ} : {A : Type ℓ} → Option A → Option A → Option A
patched_some none old = old
patched_some (some a) old = some a

module _ {x : Platform} where
  unfoldable pub merge_patch : DocumentState x → MetadataPatch x → DocumentState x
  merge_patch s p = record s {
    title = patched_some p.title s.title;
    tags = patched p.tags s.tags;
    description = patched_some p.description s.description;
    metadata = patched p.metadata s.metadata;
  }

  -- `state.as_ref().map(|s| s.created_at).unwrap_or(event.ts)`
  abbrev pub created_at_of : Option (DocumentState x) → DocumentEvent x → x.Time
  created_at_of none e = e.ts
  created_at_of (some s) e = s.created_at

  pub seeded :
      Option (DocumentState x) → DocumentEvent x → DocumentCreated x → Text → ℕ → DocumentState x
  seeded state e c owner seq = record {
    tenant_id = e.tenant_id;
    document_id = e.document_id;
    owner_user_id = owner;
    version = e.version;
    stream_seq = seq;
    state = active;
    index_state = pending;
    index_version = none;
    current_blob = some c.blob_ref;
    filename = some c.filename;
    content_type = some c.content_type;
    byte_size = some c.byte_size;
    checksum = some c.checksum;
    title = none;
    tags = [];
    description = none;
    metadata = x.empty_object;
    created_at = created_at_of state e;
    updated_at = e.ts;
  }

  -- The arm of `DocumentCreated`: `let Actor::User { user_id } = … else`.
  pub fold_created :
      Actor
      → Option (DocumentState x)
      → DocumentEvent x
      → DocumentCreated x
      → ℕ
      → Result FoldError (DocumentState x)
  unfolding seeded merge_patch
  fold_created (user owner) state e c seq = ok (merge_patch (seeded state e c owner seq) c.patch)
  fold_created (system component) state e c seq = err (system_actor_create e.document_id)

  -- The inner `match payload`, on the state whose version, sequence and time are set already.
  pub fold_update : DocumentEventPayload x → DocumentState x → DocumentState x
  unfolding merge_patch
  fold_update (document_created c) s = s
  fold_update (document_blob_validated b) s =
      merge_patch
        (record s {
          current_blob = some b.blob_ref;
          filename = some b.filename;
          content_type = some b.content_type;
          byte_size = some b.byte_size;
          checksum = some b.checksum;
          index_state = pending;
        })
        b.patch
  fold_update (document_metadata_changed p) s = merge_patch s p
  fold_update (document_reverted n p) s = merge_patch s p
  fold_update (document_deleted r) s = record s { state = deleted }
  fold_update (document_indexed i) s = record s {
    index_version = some i.for_version;
    index_state = if leb s.version i.for_version then current else pending;
  }
  fold_update (document_stage_failed f) s =
      if same f.stage index_stage then record s { index_state = failed } else s
  fold_update (document_text_extracted t) s = s
  fold_update (document_blob_pruned b r) s = s

  -- The arm of every other payload: `state.ok_or_else(…)?`, then the update.
  pub fold_known :
      Option (DocumentState x) → DocumentEvent x → ℕ → Result FoldError (DocumentState x)
  unfolding fold_update type_name
  fold_known none e seq = err (no_prior_state e.document_id (type_name e.payload))
  fold_known (some s) e seq = ok (
      fold_update e.payload (record s { version = e.version; stream_seq = seq; updated_at = e.ts }))

  pub fold_payload :
      DocumentEventPayload x
      → Option (DocumentState x)
      → DocumentEvent x
      → ℕ
      → Result FoldError (DocumentState x)
  unfolding fold_created fold_known
  fold_payload (document_created c) state e seq = fold_created e.actor state e c seq
  fold_payload p state e seq = fold_known state e seq

  -- `if existing.document_id != event.document_id`
  abbrev pub mismatched : Option (DocumentState x) → DocumentEvent x → Option FoldError
  mismatched none e = none
  mismatched (some s) e =
      if same s.document_id e.document_id
      then none
      else some (document_mismatch s.document_id e.document_id)

  unfoldable pub apply :
      Option (DocumentState x) → DocumentEvent x → ℕ → Result FoldError (DocumentState x)
  unfolding fold_payload
  apply state e seq = elim (mismatched state e) [
    | some error ↦ err error
    | none ↦ fold_payload e.payload state e seq
  ]

  -- The loop `for (seq, event) in history { state = Some(apply(state, event, *seq)?) }` of
  -- crates/document-app/src/worker.rs, from any state.
  unfoldable pub fold_from :
      Option (DocumentState x) → Log x → Result FoldError (Option (DocumentState x))
  fold_from state [] = ok state
  fold_from state ((seq, e) ∷ rest) = elim (apply state e seq) [
    | err error ↦ err error
    | ok s ↦ fold_from (some s) rest
  ]
