-- ===== src/Adapters/Verification/Streaming.antt =====
-- The result of a scan does not depend on how the stream is cut into reads.
use delphi.Base.{
  ℕ, suc, ◌+◌, ◌-◌, ◌^◌, ◌%◌, ◌≤◌, ◌≡◌, ◌≢◌, ◌↔◌, refl, sym, ap, ◌∙◌, inl, inr, Bool, true, false,
  ◌&&◌, ◌||◌, List, [], ◌∷◌, ◌++◌, map, Text, Result, ok, err, same, same_iff, same_refl, length,
  any, take, drop, concat, take-append, take-length, take-drop, length-drop, length-append, All,
  leb, ltb, arith, Bool-cases, ltb→lt, ◌⊎◌,
}
use mathlib.Core.List.{append_assoc, append-nil}
use delphi.Platform.{Platform}
use delphi.App.Errors.{ScanError}
use delphi.App.Ports.{ScanOutcome}
use delphi.Adapters.Verification.{
  eicar, windows, contains, Scan, start, slide, search_chunk, feed, scan_from, scan_reads, outcome,
  verdict_of, slide,
}

any-windows-cons :
    (p : List ℕ → Bool) (n b : ℕ) (bs : List ℕ)
    → any p (windows n (b ∷ bs))
      ≡ (leb n (suc (length bs)) && (p (take n (b ∷ bs)) || any p (windows n bs)))
unfolding windows
any-windows-cons p n b bs = ground arith

any-windows-append :
    (p : List ℕ → Bool) (n : ℕ) (w c : List ℕ)
    → any p (windows n w) ≡ true
    → any p (windows n (w ++ c)) ≡ true
unfolding windows
any-windows-append p n [] c h = absurd (cc)
any-windows-append p n (b ∷ w) c h = ground (
  arith,
  any-windows-cons p n b w,
  any-windows-cons p n b (w ++ c),
  take-append n (b ∷ w) c,
  length-append w c,
  any-windows-append p n w c,
)

-- The stretches that begin before the last `n - 1` bytes do not see what follows.
any-windows-long :
    (p : List ℕ → Bool) (n : ℕ) (a w c : List ℕ)
    → n ≤ length w + 1
    → any p (windows n ((a ++ w) ++ c)) ≡ (any p (windows n (a ++ w)) || any p (windows n (w ++ c)))
any-windows-long p n [] w c h = ground (arith, any-windows-append p n w c)
any-windows-long p n (b ∷ a) w c h = ground (
  arith,
  any-windows-cons p n b (a ++ w),
  any-windows-cons p n b ((a ++ w) ++ c),
  take-append n (b ∷ (a ++ w)) c,
  length-append (a ++ w) c,
  length-append a w,
  any-windows-long p n a w c,
)

contains-long :
    (needle a w c : List ℕ)
    → length needle ≤ length w + 1
    → contains (a ++ w) needle ≡ false
    → contains ((a ++ w) ++ c) needle ≡ contains (w ++ c) needle
unfolding contains
contains-long needle a w c h e = any-windows-long (same needle) (length needle) a w c h ∙ rw e refl

contains-append : (needle w c : List ℕ) → contains w needle ≡ true → contains (w ++ c) needle ≡ true
unfolding contains
contains-append needle w c h = any-windows-append (same needle) (length needle) w c h

-- The window is the end of what was read, and all of it or one byte less than the signature.
abbrev pub Trails : List ℕ → List ℕ → Type 0
Trails seen window =
    (a : List ℕ) × (seen ≡ a ++ window) × ((a ≡ []) ⊎ (length eicar ≤ length window + 1))

pub record IsScanOf (seen : List ℕ) (s : Scan) : Type 0 where
  pub hashed : s.hasher ≡ seen
  pub counted : s.byte_count ≡ length seen % 2 ^ 64
  pub flagged : s.infected ≡ contains seen eicar
  pub trails : s.infected ≡ false → Trails seen s.window

Trails-slide : (seen w : List ℕ) → Trails seen w → Trails seen (slide w)
unfolding slide
Trails-slide seen w (a, e, h) = elim (Bool-cases (ltb (length eicar) (length w))) [
  | inr q ↦ rw q (a, e, h)
  | inl q ↦ rw q (
    a ++ take (length w - (length eicar - 1)) w,
    e
        ∙ ap (λ r. a ++ r) (take-drop (length w - (length eicar - 1)) w)
        ∙ sym (
            append_assoc a (take (length w - (length eicar - 1)) w)
              (drop (length w - (length eicar - 1)) w)),
    inr (omega (arith, length-drop (length w - (length eicar - 1)) w, ltb→lt _ _ q)),
  )
]

Trails-contains :
    (seen w c : List ℕ)
    → Trails seen w
    → contains seen eicar ≡ false
    → contains (w ++ c) eicar ≡ contains (seen ++ c) eicar
Trails-contains seen w c (a, e, h) miss = elim h [
  | inl q ↦ rw (e, q) refl
  | inr k ↦ rw e (sym (contains-long eicar a w c k (rw e at miss)))
]

Trails-append : (seen w c : List ℕ) → Trails seen w → Trails (seen ++ c) (w ++ c)
Trails-append seen w c (a, e, h) = (
  a,
  rw e (append_assoc a w c),
  elim h [ inl q ↦ inl q | inr k ↦ inr (omega (arith, length-append w c)) ],
)

feed-IsScanOf :
    (seen chunk : List ℕ) (s : Scan) → IsScanOf seen s → IsScanOf (seen ++ chunk) (feed chunk s)
unfolding feed search_chunk
feed-IsScanOf seen chunk s v = elim (Bool-cases s.infected) [
  | inl q ↦ rw q (record {
    hashed = rw v.hashed refl;
    counted = omega (arith, v.counted, length-append seen chunk);
    flagged = sym (contains-append eicar seen chunk (sym v.flagged ∙ q));
    trails = λ h. absurd (cc);
  })
  | inr q ↦ rw q (record {
    hashed = rw v.hashed refl;
    counted = omega (arith, v.counted, length-append seen chunk);
    flagged = Trails-contains seen s.window chunk (v.trails q) (sym v.flagged ∙ q);
    trails = λ h.
        Trails-slide (seen ++ chunk) (s.window ++ chunk)
          (Trails-append seen s.window chunk (v.trails q));
  })
]

-- The bytes stand somewhere in the content.
abbrev pub Occurs : List ℕ → List ℕ → Type 0
Occurs needle content = (pre : List ℕ) × (post : List ℕ) × (content ≡ pre ++ (needle ++ post))

contains-Occurs : (needle content : List ℕ) → contains content needle ≡ true → Occurs needle content
unfolding contains windows
contains-Occurs needle [] h = absurd (cc)
contains-Occurs needle (b ∷ bs) h =
    elim (Bool-cases (same needle (take (length needle) (b ∷ bs)))) [
      | inl q ↦ (
        [],
        drop (length needle) (b ∷ bs),
        take-drop (length needle) (b ∷ bs)
            ∙ ap (λ r. r ++ drop (length needle) (b ∷ bs))
                (sym ((same_iff needle (take (length needle) (b ∷ bs))).0 q)),
      )
      | inr q ↦
          let (pre, post, e) =
            contains-Occurs needle bs
              (ground (arith, any-windows-cons (same needle) (length needle) b bs)) in
          (b ∷ pre, post, ap (λ r. b ∷ r) e)
    ]

Occurs-contains :
    (m : ℕ) (ms pre post : List ℕ) → contains (pre ++ ((m ∷ ms) ++ post)) (m ∷ ms) ≡ true
unfolding contains
Occurs-contains m ms [] post = ground (
  arith,
  any-windows-cons (same (m ∷ ms)) (length (m ∷ ms)) m (ms ++ post),
  take-append (length (m ∷ ms)) (m ∷ ms) post,
  take-length (m ∷ ms),
  length-append ms post,
  same_refl (m ∷ ms),
)
Occurs-contains m ms (b ∷ pre) post = ground (
  arith,
  any-windows-cons (same (m ∷ ms)) (length (m ∷ ms)) b (pre ++ ((m ∷ ms) ++ post)),
  length-append pre ((m ∷ ms) ++ post),
  length-append (m ∷ ms) post,
  Occurs-contains m ms pre post,
)

start-IsScanOf : IsScanOf [] start
unfolding contains windows
start-IsScanOf = record {
  hashed = refl;
  counted = refl;
  flagged = refl;
  trails = λ h. ([], refl, inl refl);
}

scan_from-chunks :
    (chunks : List (List ℕ)) (rest : List (Result Text (List ℕ))) (seen : List ℕ) (s : Scan)
    → All (λ chunk. chunk ≢ []) chunks
    → IsScanOf seen s
    → (s' : Scan) × (scan_from (map ok chunks ++ rest) s ≡ scan_from rest s')
      × IsScanOf (seen ++ concat chunks) s'
unfolding scan_from
scan_from-chunks [] rest seen s h v = (s, refl, rw (append-nil seen) v)
scan_from-chunks ([] ∷ chunks) rest seen s h v = absurd (h.0 refl)
scan_from-chunks ((b ∷ bs) ∷ chunks) rest seen s h v =
    let (s', e, w) =
      scan_from-chunks chunks rest (seen ++ (b ∷ bs)) (feed (b ∷ bs) s) h.1
        (feed-IsScanOf seen (b ∷ bs) s v) in
    (s', e, rw (← append_assoc seen (b ∷ bs) (concat chunks)) w)

contains_iff : (content : List ℕ) → (contains content eicar ≡ true) ↔ Occurs eicar content
contains_iff content =
    (contains-Occurs eicar content, λ (pre, post, e). rw e (Occurs-contains _ _ pre post))

-- The answer for a content that is read as a whole.
abbrev pub whole : (x : Platform) → List ℕ → ScanOutcome
whole x content = record {
  verdict = verdict_of (contains content eicar);
  sha256_hex = x.hex_encode (x.sha256 content);
  byte_count = length content % 2 ^ 64;
}

outcome_whole :
    (x : Platform) (content : List ℕ) (s : Scan)
    → IsScanOf content s
    → outcome x (ok s) ≡ ok (whole x content)
outcome_whole x content s v = rw (v.hashed, v.counted, v.flagged) refl

-- However a content is cut into reads that are not empty, the scan answers as for the content in
-- one piece: infected exactly if the signature stands somewhere in it, also across reads, the digest
-- of all of it, and the number of its bytes as a `u64`. A read that fails anywhere fails the scan
-- with its error.
pub scan_reads-chunks :
    (x : Platform) (chunks : List (List ℕ))
    → All (λ chunk. chunk ≢ []) chunks
    → (scan_reads x (map ok chunks) ≡ ok (whole x (concat chunks)))
      × ((contains (concat chunks) eicar ≡ true) ↔ Occurs eicar (concat chunks))
      × ((error : Text) (later : List (Result Text (List ℕ)))
          → scan_reads x (map ok chunks ++ (err error ∷ later)) ≡ err (ScanError.read error))
unfolding scan_reads scan_from
scan_reads-chunks x chunks h =
    let (s, e, v) = scan_from-chunks chunks [] [] start h start-IsScanOf in
    (
      ap (λ reads. outcome x (scan_from reads start)) (sym (append-nil (map ok chunks)))
          ∙ ap (outcome x) e
          ∙ outcome_whole x (concat chunks) s v,
      contains_iff (concat chunks),
      λ error later.
          let (s', e', v') =
            scan_from-chunks chunks (err error ∷ later) [] start h start-IsScanOf in
          rw e' refl,
    )
