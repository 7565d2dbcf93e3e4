-- ===== src/App/Cursor.antt =====
-- crates/document-app/src/cursor.rs: the text of a listing cursor.
pub mod RoundTrip
use delphi.Base.{
  ℕ, Bool, true, false, Option, none, some, [], ◌∷◌, ◌++◌, Text, decimal, some_digits, split_once,
  is_empty, leb, ltb, and_some, ◌==◌, if◌then◌else◌, ◌^◌,
}
use delphi.Platform.{Platform}
use delphi.App.Ports.{DocumentCursor}

-- `i64` as it is displayed, from its sign and magnitude.
unfoldable pub signed : Bool × ℕ → Text
signed (true, n) = b'-' ∷ decimal n
signed (false, n) = decimal n

-- A number up to 2^63 below zero, or below 2^63 from zero on; there is one zero.
abbrev pub below_zero : Option ℕ → Option (Bool × ℕ)
below_zero none = none
below_zero (some n) = if leb n (2 ^ 63) then some (ltb 0 n, n) else none

abbrev pub from_zero : Option ℕ → Option (Bool × ℕ)
from_zero none = none
from_zero (some n) = if ltb n (2 ^ 63) then some (false, n) else none

-- `parse::<i64>()`: an optional sign, then digits.
unfoldable pub parse_signed : Text → Option (Bool × ℕ)
parse_signed [] = none
parse_signed (c ∷ s) =
    if c == b'-'
    then below_zero (some_digits s)
    else if c == b'+'
    then from_zero (some_digits s)
    else from_zero (some_digits (c ∷ s))

module _ {x : Platform} where
  unfoldable pub encode : DocumentCursor x → Text
  unfolding signed
  encode c =
      x.hex_encode (x.utf8 (signed (x.timestamp_micros c.updated_at) ++ (b':' ∷ c.document_id)))

  abbrev pub cursor_at : Text → x.Time → DocumentCursor x
  cursor_at document_id updated_at = record { updated_at = updated_at; document_id = document_id }

  -- `decode`, from the two texts around the first colon.
  unfoldable pub decode_pair : Text × Text → Option (DocumentCursor x)
  unfolding parse_signed
  decode_pair (micros, document_id) =
      if is_empty document_id
      then none
      else and_some (parse_signed micros) λ value.
        and_some (x.from_timestamp_micros value) λ time. some (cursor_at document_id time)

  unfoldable pub decode : Text → Option (DocumentCursor x)
  unfolding decode_pair
  decode value =
      and_some (x.hex_decode value)
        λ bytes. and_some (x.from_utf8 bytes) λ text. and_some (split_once b':' text) decode_pair
