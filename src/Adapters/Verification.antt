-- ===== src/Adapters/Verification.antt =====
-- crates/document-adapters/src/verification.rs: the placeholder scanner and content validator.
pub mod Streaming
use delphi.Base.{
  ℕ, ◌+◌, ◌-◌, ◌^◌, ◌%◌, Bool, true, false, ◌&&◌, ◌||◌, not, Option, none, some, List, [], ◌∷◌,
  ◌++◌, map, Text, Result, ok, err, Action, codes, same, trim, decimal, length, find, any, take,
  drop, is_empty, leb, ltb, ◌==◌, if◌then◌else◌,
}
use delphi.Platform.{Platform}
use delphi.App.Errors.{ScanError, ValidateError}
use delphi.App.Ports.{
  ScanVerdict, ScanOutcome, BlobHead, DeclaredContent, ContentVerdict, clean, infected, fine,
  rejected, BlobScanner, ContentValidator,
}

abbrev pub eicar : List ℕ
eicar = codes "X5O!P%@AP[4\\PZX54(P^)7CC)7}$EICAR-STANDARD-ANTIVIRUS-TEST-FILE!$H+H*"

-- `[T]::windows`: the stretches of that length, from each place that has one.
unfoldable pub windows : ℕ → List ℕ → List (List ℕ)
windows n [] = []
windows n (b ∷ bs) =
    let rest = windows n bs in if leb n (length (b ∷ bs)) then take n (b ∷ bs) ∷ rest else []

unfoldable pub contains : List ℕ → List ℕ → Bool
unfolding windows
contains haystack needle = any (same needle) (windows (length needle) haystack)

-- What the loop of `scan` keeps. A hasher is the bytes that it was fed.
pub record Scan : Type 0 where
  pub hasher : List ℕ
  pub byte_count : ℕ
  pub window : List ℕ
  pub infected : Bool

abbrev pub start : Scan
start = record { hasher = []; byte_count = 0; window = []; infected = false }

-- `window.drain(..keep)`, where the window is longer than the signature.
unfoldable pub slide : List ℕ → List ℕ
slide window =
    if ltb (length eicar) (length window)
    then drop (length window - (length eicar - 1)) window
    else window

-- The search in the window with the chunk at its end.
unfoldable pub search_chunk : List ℕ → Scan → Scan
unfolding contains slide
search_chunk chunk s = if s.infected then s else record s {
  window = slide (s.window ++ chunk);
  infected = contains (s.window ++ chunk) eicar;
}

-- One round of the loop.
unfoldable pub feed : List ℕ → Scan → Scan
unfolding search_chunk
feed chunk s =
    search_chunk chunk
      (record s { hasher = s.hasher ++ chunk; byte_count = (s.byte_count + length chunk) % 2 ^ 64 })

-- The loop, over what the reads answer: bytes, none of them at the end, or an error.
unfoldable pub scan_from : List (Result Text (List ℕ)) → Scan → Result ScanError Scan
unfolding feed
scan_from [] s = ok s
scan_from (err error ∷ reads) s = err (ScanError.read error)
scan_from (ok [] ∷ reads) s = ok s
scan_from (ok (b ∷ bs) ∷ reads) s = scan_from reads (feed (b ∷ bs) s)

abbrev pub verdict_of : Bool → ScanVerdict
verdict_of flagged = if flagged then infected (codes "Eicar-Test-Signature") else clean

module _ (x : Platform) where
  abbrev pub outcome : Result ScanError Scan → Result ScanError ScanOutcome
  outcome (err error) = err error
  outcome (ok s) = ok (record {
    verdict = verdict_of s.infected;
    sha256_hex = x.hex_encode (x.sha256 s.hasher);
    byte_count = s.byte_count;
  })

  unfoldable pub scan_reads : List (Result Text (List ℕ)) → Result ScanError ScanOutcome
  unfolding scan_from
  scan_reads reads = outcome (scan_from reads start)

  -- `PermissiveScanner`; `reads` is what reading a stream to its end answers.
  abbrev pub permissive_scanner :
      {W : Type 0} → (x.Reader → List (Result Text (List ℕ))) → BlobScanner x W
  permissive_scanner reads blob w = (scan_reads (reads blob), w)

-- The magic numbers and what they stand for.
abbrev pub signatures : List (List ℕ × Text)
signatures =
    (codes "%PDF-", codes "application/pdf")
    ∷ (0x89 ∷ (codes "PNG" ++ 13 ∷ 10 ∷ 0x1a ∷ 10 ∷ []), codes "image/png")
    ∷ (0xff ∷ 0xd8 ∷ 0xff ∷ [], codes "image/jpeg")
    ∷ (codes "GIF87a", codes "image/gif")
    ∷ (codes "GIF89a", codes "image/gif")
    ∷ (codes "PK" ++ 3 ∷ 4 ∷ [], codes "application/zip")
    ∷ (0x1f ∷ 0x8b ∷ [], codes "application/gzip")
    ∷ (codes "%!PS", codes "application/postscript")
    ∷ []

-- `starts_with`, on bytes and on texts.
unfoldable pub starts_with : List ℕ → List ℕ → Bool
starts_with [] bs = true
starts_with (m ∷ ms) [] = false
starts_with (m ∷ ms) (b ∷ bs) = m == b && starts_with ms bs

abbrev pub mime_of : Option (List ℕ × Text) → Option Text
mime_of none = none
mime_of (some (magic, mime)) = some mime

unfoldable pub sniff : List ℕ → Option Text
unfolding starts_with
sniff prefix = mime_of (find (λ signature. starts_with signature.0 prefix) signatures)

-- `split(sep).next()`
unfoldable pub before : ℕ → Text → Text
before sep [] = []
before sep (c ∷ s) = if c == sep then [] else c ∷ before sep s

abbrev pub ascii_lower : ℕ → ℕ
ascii_lower c = if leb b'A' c && leb c b'Z' then c + 32 else c

unfoldable pub normal_type : Text → Text
unfolding before trim
normal_type declared = map ascii_lower (trim (before b';' declared))

unfoldable pub content_type_matches : Text → Text → Bool
unfolding starts_with normal_type
content_type_matches sniffed content_type =
    let declared = normal_type content_type in
    is_empty declared
    || same declared (codes "application/octet-stream")
    || same declared sniffed
    || (same sniffed (codes "application/zip")
        && (starts_with (codes "application/vnd.openxmlformats-officedocument.") declared
            || starts_with (codes "application/vnd.oasis.opendocument.") declared
            || same declared (codes "application/epub+zip")
            || same declared (codes "application/java-archive")))

abbrev pub check_sniffed : Option Text → Text → ContentVerdict
check_sniffed none declared = fine
check_sniffed (some sniffed) declared =
    if content_type_matches sniffed declared
    then fine
    else rejected
        (codes "content looks like " ++ (sniffed ++ (codes " but was declared as " ++ declared)))

abbrev pub size_mismatch : ℕ → ℕ → Text
size_mismatch declared actual =
    codes "declared " ++ (decimal declared ++ (codes " bytes but the object is " ++ decimal actual))

module _ {x : Platform} where
  unfoldable pub validate_content : BlobHead x → List ℕ → DeclaredContent → ContentVerdict
  unfolding sniff content_type_matches
  validate_content head prefix declared =
      if not (head.byte_size == declared.byte_size)
      then rejected (size_mismatch declared.byte_size head.byte_size)
      else check_sniffed (sniff prefix) declared.content_type

  -- `BasicContentValidator`
  abbrev pub basic_content_validator : {W : Type 0} → ContentValidator x W
  basic_content_validator head prefix declared w = (ok (validate_content head prefix declared), w)
