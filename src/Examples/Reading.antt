-- ===== src/Examples/Reading.antt =====
-- A cursor and a scan, on sample data.
use delphi.Base.{
  ℕ, ◌≡◌, ◌↔◌, refl, true, some, List, [], ◌∷◌, ◌++◌, map, Text, Result, ok, err, arith, codes,
  same, decimal, concat, take, drop, length,
}
use delphi.App.Errors.{ScanError}
use delphi.App.Ports.{DocumentCursor}
use delphi.App.Cursor.{encode, decode}
use delphi.App.Cursor.RoundTrip.{IsSamePlace, decode-encode}
use delphi.Adapters.Verification.{eicar, contains, scan_reads}
use delphi.Adapters.Verification.Streaming.{Occurs, whole, scan_reads-chunks}
use delphi.Examples.Demo.{demo}

abbrev place : DocumentCursor demo
place = record { updated_at = 1755000000123456; document_id = codes "weird:id" }

-- The codes of the demo platform are plain, so the text of the cursor can be read.
place_text : encode place ≡ codes "1755000000123456:weird:id"
unfolding encode decimal
place_text = refl

decode-encode_example :
    (d : DocumentCursor demo) × (decode (encode place) ≡ some d)
    × IsSamePlace place d
    × (encode d ≡ encode place)
decode-encode_example =
    decode-encode place (λ bytes. refl) (λ text. refl) (λ time. (time, refl, refl)) (omega arith)
      (cc)

-- The signature, cut in two, between other bytes.
abbrev pieces : List (List ℕ)
pieces = (7 ∷ take 30 eicar) ∷ (drop 30 eicar ++ 8 ∷ []) ∷ (9 ∷ []) ∷ []

scan_reads-chunks_example :
    (scan_reads demo (map ok pieces) ≡ ok (whole demo (concat pieces)))
    × ((contains (concat pieces) eicar ≡ true) ↔ Occurs eicar (concat pieces))
    × ((error : Text) (later : List (Result Text (List ℕ)))
        → scan_reads demo (map ok pieces ++ (err error ∷ later)) ≡ err (ScanError.read error))
scan_reads-chunks_example = scan_reads-chunks demo pieces (λ h. cc, (λ h. cc, (λ h. cc, tt)))

signature_length : length eicar ≡ 68
signature_length = refl

pieces_flagged : contains (concat pieces) eicar ≡ true
unfolding contains same
pieces_flagged = refl
