-- ===== src/Platform.antt =====
-- What the document crates take from third-party code (`chrono`, `serde_json`, `sha2`, `hex`): a
-- record of types and functions that every model is generic over. It holds no laws; a theorem that
-- relies on documented behaviour of this code names it as a hypothesis.
use delphi.Base.{ℕ, Bool, Option, List, Text}

pub record Platform : Type 1 where
  -- `chrono::DateTime<Utc>`
  pub Time : Type 0
  -- `DateTime::timestamp_micros`, an `i64`, as sign (true for below zero) and magnitude.
  pub timestamp_micros : Time → Bool × ℕ
  -- `DateTime::from_timestamp_micros`
  pub from_timestamp_micros : Bool × ℕ → Option Time
  -- `<=` on times, and a time so many seconds later.
  pub at_or_before : Time → Time → Bool
  pub plus_seconds : Time → ℕ → Time
  -- `serde_json::Value`
  pub Json : Type 0
  -- `Value::Object(Map::new())`
  pub empty_object : Json
  -- `Value::Null`
  pub null : Json
  pub is_object : Json → Bool
  -- The length of `serde_json::to_vec`, or nothing where that fails.
  pub serialized_len : Json → Option ℕ
  -- `tokio::io::AsyncRead`, the stream of an object's bytes
  pub Reader : Type 0
  -- `Sha256` over bytes, and `hex::encode`, `hex::decode`.
  pub sha256 : List ℕ → List ℕ
  pub hex_encode : List ℕ → Text
  pub hex_decode : Text → Option (List ℕ)
  -- The bytes of a text, and `String::from_utf8`.
  pub utf8 : Text → List ℕ
  pub from_utf8 : List ℕ → Option Text
