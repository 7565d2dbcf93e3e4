-- ===== src/App/MemoryUploads.antt =====
-- crates/document-app/src/testing.rs: the in-memory store of upload records, the reference
-- implementation of the `UploadStateStore` port. Every entry of the source's map stands under the
-- key of its own record, so that the map is the list of the records.
pub mod Swaps
use delphi.Base.{
  ℕ, Bool, true, false, Option, none, some, List, [], ◌∷◌, Text, Result, ok, err, Action, same,
  keep, not, ◌==◌, find, if◌then◌else◌,
}
use delphi.Platform.{Platform}
use delphi.App.Errors.{ContextError, conflict, expired, already_exists}
use delphi.App.Uploads.{UploadState, UploadStatus, StoredUpload, key, own_key}
use delphi.App.Append.{next_version}
use delphi.App.Ports.{UploadStateStore}

pub record UploadStateInner (x : Platform) : Type 0 where
  pub entries : List (StoredUpload x)
  -- A concurrent writer that wins the next swap with this status.
  pub conflict_once : Option UploadStatus

module _ {x : Platform} where
  abbrev pub is_at : Text → StoredUpload x → Bool
  is_at k stored = same (own_key stored.state) k

  -- `entries.get(&key)`
  unfoldable pub entry : Text → List (StoredUpload x) → Option (StoredUpload x)
  entry k = find (is_at k)

  -- A write through `get_mut`.
  unfoldable pub put_entry : StoredUpload x → List (StoredUpload x) → List (StoredUpload x)
  put_entry new [] = []
  put_entry new (old ∷ rest) =
      let others = put_entry new rest in
      if is_at (own_key new.state) old then new ∷ rest else old ∷ others

  abbrev pub state_with : UploadStatus → StoredUpload x → StoredUpload x
  state_with winner stored = record {
    state = record stored.state { status = winner };
    revision = next_version stored.revision;
  }

  unfoldable pub create_record :
      UploadState x → Action (UploadStateInner x) (Result ContextError (Unit {0}))
  unfolding entry
  create_record state inner = elim (entry (own_key state) inner.entries) [
    | some old ↦ (err already_exists, inner)
    | none ↦
        (ok tt, record inner { entries = record { state = state; revision = 1 } ∷ inner.entries })
  ]

  unfoldable pub get_record :
      Text
      → Text
      → Text
      → Action (UploadStateInner x) (Result ContextError (Option (StoredUpload x)))
  unfolding entry
  get_record tenant user upload inner = (ok (entry (key tenant user upload) inner.entries), inner)

  -- The writer that wins instead: its status, and a new revision, on the record if there is one.
  unfoldable pub let_win :
      UploadStatus → Option (StoredUpload x) → List (StoredUpload x) → List (StoredUpload x)
  unfolding put_entry
  let_win winner none entries = entries
  let_win winner (some stored) entries = put_entry (state_with winner stored) entries

  unfoldable pub swap :
      UploadState x
      → ℕ
      → Option (StoredUpload x)
      → Action (UploadStateInner x) (Result ContextError ℕ)
  unfolding put_entry
  swap state revision none inner = (err expired, inner)
  swap state revision (some stored) inner =
      if not (stored.revision == revision) then (err conflict, inner) else (
        ok (next_version stored.revision),
        record inner {
          entries =
              put_entry (record { state = state; revision = next_version stored.revision })
                inner.entries;
        },
      )

  unfoldable pub update_or_lose :
      Option UploadStatus → UploadState x → ℕ → Action (UploadStateInner x) (Result ContextError ℕ)
  unfolding let_win swap entry
  update_or_lose (some winner) state revision inner = (
    err conflict,
    record {
      entries = let_win winner (entry (own_key state) inner.entries) inner.entries;
      conflict_once = none;
    },
  )
  update_or_lose none state revision inner =
      swap state revision (entry (own_key state) inner.entries) inner

  unfoldable pub update_record :
      UploadState x → ℕ → Action (UploadStateInner x) (Result ContextError ℕ)
  unfolding update_or_lose
  update_record state revision inner = update_or_lose inner.conflict_once state revision inner

  unfoldable pub delete_record :
      Text → Text → Text → Action (UploadStateInner x) (Result ContextError (Unit {0}))
  delete_record tenant user upload inner = (
    ok tt,
    record inner {
      entries = keep (λ stored. not (is_at (key tenant user upload) stored)) inner.entries;
    },
  )

  abbrev pub memory_upload_store : UploadStateStore x (UploadStateInner x)
  memory_upload_store = record {
    create = create_record;
    get = get_record;
    update = update_record;
    delete = delete_record;
  }
