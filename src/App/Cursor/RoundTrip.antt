-- ===== src/App/Cursor/RoundTrip.antt =====
-- A listing cursor that was handed out is read back as the same place in the listing.
use delphi.Base.{
  ℕ, ◌^◌, ◌≤◌, ◌<◌, ◌≡◌, ◌≢◌, refl, ap, ◌∙◌, Bool, ◌&&◌, true, false, some, List, [], ◌∷◌, ◌++◌,
  Text, decimal, split_once, all, is_empty, arith, is_digit, some_digits, some_digits-decimal,
  IsDigits-decimal, lt→ltb, le→leb,
}
use delphi.Platform.{Platform}
use delphi.App.Ports.{DocumentCursor}
use delphi.App.Cursor.{cursor_at, signed, from_zero, parse_signed, encode, decode, decode_pair}

-- A sign and a magnitude that an `i64` has.
abbrev pub IsI64 : Bool × ℕ → Type 0
IsI64 (true, n) = (1 ≤ n) × (n ≤ 2 ^ 63)
IsI64 (false, n) = n < 2 ^ 63

and_left : {a : Bool} (b : Bool) → (a && b) ≡ true → a ≡ true
and_left b h = ground arith

parse_signed_digit :
    (c : ℕ) (s : Text) → is_digit c ≡ true → parse_signed (c ∷ s) ≡ from_zero (some_digits (c ∷ s))
unfolding parse_signed
parse_signed_digit c s h = ground arith

parse_signed-digits :
    (c : ℕ) (r s : Text)
    → s ≡ c ∷ r
    → all is_digit s ≡ true
    → parse_signed s ≡ from_zero (some_digits s)
parse_signed-digits c r s e d =
    rw e (parse_signed_digit c r (and_left (all is_digit r) (rw e at d)))

parse_signed-signed : (v : Bool × ℕ) → IsI64 v → parse_signed (signed v) ≡ some v
unfolding parse_signed signed
parse_signed-signed (true, n) (lo, hi) =
    rw (some_digits-decimal n, le→leb n (2 ^ 63) hi, lt→ltb 0 n lo)
parse_signed-signed (false, n) h =
    let (c, r, e, d) = IsDigits-decimal n in
    parse_signed-digits c r (decimal n) e d ∙ rw (some_digits-decimal n, lt→ltb n (2 ^ 63) h)

split_once-all :
    (a b : Text) → all is_digit a ≡ true → split_once b':' (a ++ (b':' ∷ b)) ≡ some (a, b)
unfolding split_once
split_once-all [] b h = refl
split_once-all (c ∷ a) b h = ground (arith, split_once-all a b)

split_once-signed :
    (v : Bool × ℕ) (b : Text) → split_once b':' (signed v ++ (b':' ∷ b)) ≡ some (signed v, b)
unfolding split_once signed
split_once-signed (true, n) b = rw (split_once-all (decimal n) b (IsDigits-decimal n).3)
split_once-signed (false, n) b = split_once-all (decimal n) b (IsDigits-decimal n).3

is_empty_not : (s : Text) → s ≢ [] → is_empty s ≡ false
is_empty_not [] ne = absurd (ne refl)
is_empty_not (c ∷ s) ne = refl

-- What a cursor is for a listing: its document, and its time in microseconds.
abbrev pub IsSamePlace : {x : Platform} → DocumentCursor x → DocumentCursor x → Type 0
IsSamePlace {x} c d =
    (d.document_id ≡ c.document_id)
    × (x.timestamp_micros d.updated_at ≡ x.timestamp_micros c.updated_at)

decode_pair-signed :
    {x : Platform} (c : DocumentCursor x) (v : Bool × ℕ) (time : x.Time)
    → IsI64 v
    → x.from_timestamp_micros v ≡ some time
    → c.document_id ≢ []
    → decode_pair (signed v, c.document_id) ≡ some (cursor_at {x = x} c.document_id time)
unfolding decode_pair
decode_pair-signed {x} c v time i t ne =
    rw (is_empty_not c.document_id ne, parse_signed-signed v i, t) refl

-- A cursor with a document id is read back from its own text as a cursor with the same document id
-- and with a time of the same microseconds, and so with the same text. The conditions: `hex::decode`
-- undoes `hex::encode`, `String::from_utf8` undoes the bytes of a text, the microseconds of a time
-- are those of a time with the same microseconds, and those of the cursor are an `i64`.
pub decode-encode :
    {x : Platform} (c : DocumentCursor x)
    → ((bytes : List ℕ) → x.hex_decode (x.hex_encode bytes) ≡ some bytes)
    → ((text : Text) → x.from_utf8 (x.utf8 text) ≡ some text)
    → ((time : x.Time)
        → (whole : x.Time) × (x.from_timestamp_micros (x.timestamp_micros time) ≡ some whole)
          × (x.timestamp_micros whole ≡ x.timestamp_micros time))
    → IsI64 (x.timestamp_micros c.updated_at)
    → c.document_id ≢ []
    → (d : DocumentCursor x) × (decode (encode c) ≡ some d)
      × IsSamePlace c d
      × (encode d ≡ encode c)
unfolding decode encode
decode-encode {x} c hex text time i ne =
    let (whole, found, kept) = time c.updated_at in
    (
      cursor_at {x = x} c.document_id whole,
      rw (hex _, text _, split_once-signed (x.timestamp_micros c.updated_at) c.document_id)
          (decode_pair-signed c (x.timestamp_micros c.updated_at) whole i found ne),
      (refl, kept),
      ap (λ micros. x.hex_encode (x.utf8 (signed micros ++ (b':' ∷ c.document_id)))) kept,
    )
