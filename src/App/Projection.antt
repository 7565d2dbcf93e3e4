-- ===== src/App/Projection.antt =====
-- crates/document-app/src/projection.rs: what the projection makes of one payload of the log.
pub mod Outcomes
use delphi.Base.{ℕ, Bool, true, false, Option, none, some, List, Text, codes, ◌++◌, Result, ok, err}
use delphi.Platform.{Platform}
use delphi.Domain.Events.{DocumentEvent}
use delphi.Domain.Fold.{
  DocumentState, FoldError, no_prior_state, system_actor_create, document_mismatch, apply,
}

pub data DecodedEvent (x : Platform) : Type 0 where
  event : DocumentEvent x → DecodedEvent x
  -- `raw` and `error`
  unknown : x.Json → Text → DecodedEvent x
  malformed : Text → DecodedEvent x

pub data ProjectionOutcome (x : Platform) : Type 0 where
  upsert : DocumentState x → ProjectionOutcome x
  -- `payload`, `error` and `domain_violation`
  failure : x.Json → Text → Bool → ProjectionOutcome x

-- `FoldError`, as it is displayed
unfoldable pub fold_error_str : FoldError → Text
fold_error_str (no_prior_state document_id event_type) =
    codes "event "
    ++ (event_type
        ++ (codes " for document " ++ (document_id ++ codes " arrived with no prior state")))
fold_error_str (system_actor_create document_id) =
    codes "document "
    ++ (document_id ++ codes " was created by a system actor; a create must name a user")
fold_error_str (document_mismatch expected actual) =
    codes "event for document " ++ (actual ++ (codes " folded into state for " ++ expected))

-- What `serde_json` does: `from_slice` into a value, `from_value` into an event, `to_value`.
pub record Codec (x : Platform) : Type 0 where
  pub from_slice : List ℕ → Result Text (x.Json)
  pub from_value : x.Json → Result Text (DocumentEvent x)
  pub to_value : DocumentEvent x → Option (x.Json)

module _ {x : Platform} (serde : Codec x) where
  abbrev pub decode_value : x.Json → Result Text (DocumentEvent x) → DecodedEvent x
  decode_value raw (ok e) = event e
  decode_value raw (err error) = unknown raw error

  abbrev pub decode_slice : Result Text (x.Json) → DecodedEvent x
  decode_slice (ok raw) = decode_value raw (serde.from_value raw)
  decode_slice (err error) = malformed error

  unfoldable pub decode_event : List ℕ → DecodedEvent x
  decode_event payload = decode_slice (serde.from_slice payload)

  -- `.unwrap_or(Value::Null)`
  abbrev pub or_null : Option (x.Json) → x.Json
  or_null none = x.null
  or_null (some json) = json

  abbrev pub project_fold :
      DocumentEvent x → Result FoldError (DocumentState x) → ProjectionOutcome x
  project_fold e (ok state) = upsert state
  project_fold e (err error) = failure (or_null (serde.to_value e)) (fold_error_str error) true

  abbrev pub project_decoded : Option (DocumentState x) → ℕ → DecodedEvent x → ProjectionOutcome x
  project_decoded prior stream_seq (event e) = project_fold e (apply prior e stream_seq)
  project_decoded prior stream_seq (unknown raw error) = failure raw error false
  project_decoded prior stream_seq (malformed error) = failure (x.null) error false

  unfoldable pub project_event : Option (DocumentState x) → List ℕ → ℕ → ProjectionOutcome x
  unfolding decode_event
  project_event prior payload stream_seq = project_decoded prior stream_seq (decode_event payload)
