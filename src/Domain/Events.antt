-- ===== src/Domain/Events.antt =====
-- crates/document-domain/src/events.rs: the event envelope and its payloads.
use delphi.Base.{ℕ, Bool, true, false, Option, none, some, List, Text, codes, ◌&&◌}
use delphi.Platform.{Platform}

abbrev pub document_contract_version : ℕ
document_contract_version = 1

pub data Actor : Type 0 where
  user : Text → Actor
  system : Text → Actor

-- `Actor::user_id`
abbrev pub user_id : Actor → Option Text
user_id (user u) = some u
user_id (system c) = none

pub record MetadataPatch (x : Platform) : Type 0 where
  pub title : Option Text
  pub tags : Option (List Text)
  pub description : Option Text
  pub metadata : Option (x.Json)

-- `MetadataPatch::default()`
abbrev pub empty_patch : {x : Platform} → MetadataPatch x
empty_patch = record { title = none; tags = none; description = none; metadata = none }

abbrev pub is_none {ℓ} : {A : Type ℓ} → Option A → Bool
is_none none = true
is_none (some a) = false

unfoldable is_empty_patch : {x : Platform} → MetadataPatch x → Bool
is_empty_patch p = is_none p.title && is_none p.tags && is_none p.description && is_none p.metadata

pub record DocumentCreated (x : Platform) : Type 0 where
  pub blob_ref : Text
  pub filename : Text
  pub content_type : Text
  pub byte_size : ℕ
  pub checksum : Text
  pub patch : MetadataPatch x

pub record DocumentBlobValidated (x : Platform) : Type 0 where
  pub blob_ref : Text
  pub filename : Text
  pub content_type : Text
  pub byte_size : ℕ
  pub checksum : Text
  pub patch : MetadataPatch x
  pub based_on_version : Option ℕ

pub record DocumentTextExtracted : Type 0 where
  pub for_version : ℕ
  pub extractor_version : Text
  pub char_count : ℕ
  pub checksum : Text

pub record DocumentIndexed : Type 0 where
  pub for_version : ℕ
  pub vector_count : ℕ
  pub embedding_model : Text

pub record DocumentStageFailed : Type 0 where
  pub for_version : ℕ
  pub stage : Text
  pub reason : Text
  pub attempts : ℕ

abbrev pub index_stage : Text
index_stage = codes "index"

pub data DocumentEventPayload (x : Platform) : Type 0 where
  document_created : DocumentCreated x → DocumentEventPayload x
  document_blob_validated : DocumentBlobValidated x → DocumentEventPayload x
  document_metadata_changed : MetadataPatch x → DocumentEventPayload x
  document_text_extracted : DocumentTextExtracted → DocumentEventPayload x
  document_indexed : DocumentIndexed → DocumentEventPayload x
  document_stage_failed : DocumentStageFailed → DocumentEventPayload x
  -- `reverted_to` and `patch`
  document_reverted : ℕ → MetadataPatch x → DocumentEventPayload x
  -- `reason`
  document_deleted : Text → DocumentEventPayload x
  -- `blob_ref` and `reason`
  document_blob_pruned : Text → Text → DocumentEventPayload x

pub record DocumentEvent (x : Platform) : Type 0 where
  pub v : ℕ
  pub event_id : Text
  pub tenant_id : Text
  pub document_id : Text
  pub actor : Actor
  pub version : ℕ
  pub ts : x.Time
  pub payload : DocumentEventPayload x

module _ {x : Platform} where
  -- `DocumentEventPayload::advances_version`
  unfoldable pub advances_version : DocumentEventPayload x → Bool
  advances_version (document_created c) = true
  advances_version (document_blob_validated b) = true
  advances_version (document_metadata_changed p) = true
  advances_version (document_reverted n p) = true
  advances_version (document_deleted r) = true
  advances_version (document_text_extracted t) = false
  advances_version (document_indexed i) = false
  advances_version (document_stage_failed f) = false
  advances_version (document_blob_pruned b r) = false

  -- `DocumentEventPayload::blob_ref`
  unfoldable pub blob_ref : DocumentEventPayload x → Option Text
  blob_ref (document_created c) = some c.blob_ref
  blob_ref (document_blob_validated b) = some b.blob_ref
  blob_ref (document_blob_pruned b r) = none
  blob_ref (document_metadata_changed p) = none
  blob_ref (document_text_extracted t) = none
  blob_ref (document_indexed i) = none
  blob_ref (document_stage_failed f) = none
  blob_ref (document_reverted n p) = none
  blob_ref (document_deleted r) = none

  -- `DocumentEventPayload::type_name`
  unfoldable pub type_name : DocumentEventPayload x → Text
  type_name (document_created c) = codes "document_created"
  type_name (document_blob_validated b) = codes "document_blob_validated"
  type_name (document_metadata_changed p) = codes "document_metadata_changed"
  type_name (document_text_extracted t) = codes "document_text_extracted"
  type_name (document_indexed i) = codes "document_indexed"
  type_name (document_stage_failed f) = codes "document_stage_failed"
  type_name (document_reverted n p) = codes "document_reverted"
  type_name (document_deleted r) = codes "document_deleted"
  type_name (document_blob_pruned b r) = codes "document_blob_pruned"
