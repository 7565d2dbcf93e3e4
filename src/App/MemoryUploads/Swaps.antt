-- ===== src/App/MemoryUploads/Swaps.antt =====
-- Compare-and-swap in the in-memory store of upload records, the port that `set_status` relies on.
use delphi.Base.{
  ℕ, ◌≡◌, ◌≢◌, ◌⊎◌, ◌+◌, ◌%◌, ◌^◌, ◌==◌, sym, ap, ◌∙◌, false, true, same, none, refl, inl, inr,
  Option, some, List, [], ◌∷◌, Text, ok, arith, same→eq, same_iff, same_refl, Bool-cases,
  Option-cases,
}
use mathlib.Core.Path.{subst}
use delphi.Platform.{Platform}
use delphi.App.Uploads.{UploadState, UploadStatus, StoredUpload, own_key}
use delphi.App.Append.{next_version}
use delphi.App.Transition.Finality.{IsCas}
use delphi.App.MemoryUploads.{
  UploadStateInner, entry, put_entry, update_record, get_record, memory_upload_store, is_at,
  let_win, swap, state_with, update_or_lose,
}

not_same : {a b : Text} → same a b ≡ false → a ≢ b
not_same {a} {b} h e = let yes : same a b ≡ true = (same_iff a b).1 e in absurd (cc)

module _ {x : Platform} where
  abbrev pub record_at : UploadStateInner x → Text → Option (StoredUpload x)
  record_at inner k = entry k inner.entries

  abbrev pub put_record : UploadStateInner x → StoredUpload x → UploadStateInner x
  put_record inner new = record inner { entries = put_entry new inner.entries }

  entry-keyed :
      (k : Text) (entries : List (StoredUpload x)) {a : StoredUpload x}
      → entry k entries ≡ some a
      → own_key a.state ≡ k
  unfolding entry
  entry-keyed k [] h = absurd (cc)
  entry-keyed k (old ∷ rest) {a} h = elim (Bool-cases (is_at k old)) [
    | inl q ↦ ground (arith, same→eq _ _ q)
    | inr q ↦ entry-keyed k rest {a = a} (ground arith)
  ]

  entry-put_hit :
      (new : StoredUpload x) (entries : List (StoredUpload x)) (old : StoredUpload x)
      → entry (own_key new.state) entries ≡ some old
      → entry (own_key new.state) (put_entry new entries) ≡ some new
  unfolding entry put_entry
  entry-put_hit new [] old h = absurd (cc)
  entry-put_hit new (first ∷ rest) old h = elim (Bool-cases (is_at (own_key new.state) first)) [
    | inl q ↦ ground (arith, same_refl (own_key new.state))
    | inr q ↦ ground (arith, entry-put_hit new rest old (ground arith))
  ]

  entry-put_miss :
      (new : StoredUpload x) (entries : List (StoredUpload x)) (k : Text)
      → ¬ (own_key new.state ≡ k)
      → entry k (put_entry new entries) ≡ entry k entries
  unfolding entry put_entry
  entry-put_miss new [] k ne = refl
  entry-put_miss new (first ∷ rest) k ne = ground (
    arith,
    entry-put_miss new rest k ne,
    same_iff (own_key first.state) (own_key new.state),
    same_iff (own_key new.state) k,
    same_iff (own_key first.state) k,
  )

  -- What an update may do to the records: a record stays as it is or gets the next revision, which
  -- wraps around like the `u64` that it is.
  abbrev pub Advances : UploadStateInner x → UploadStateInner x → Type 0
  Advances w w' =
      (k : Text) (a b : StoredUpload x)
      → record_at w k ≡ some a
      → record_at w' k ≡ some b
      → (a ≡ b) ⊎ (b.revision ≡ (a.revision + 1) % 2 ^ 64)

  Advances-refl : (w : UploadStateInner x) → Advances w w
  Advances-refl w k a b p q = inl (cc)

  update_record_swaps :
      (s : UploadState x) (r : ℕ) (w : UploadStateInner x) {new : ℕ}
      → (update_record s r w).0 ≡ ok new
      → (w' : UploadStateInner x) × (old : StoredUpload x) × Advances w w'
        × (record_at w' (own_key s) ≡ some old)
        × (old.revision ≡ r)
        × ((update_record s r w).1 ≡ put_record w' (record { state = s; revision = new }))
  unfolding update_record
  update_record_swaps s r w h = elim (Option-cases w.conflict_once) [
    | inr (winner, q) ↦ absurd (ground arith)
    | inl calm ↦ elim (Option-cases (record_at w (own_key s))) [
      | inl q ↦ absurd (ground arith)
      | inr (old, q) ↦ (w, old, Advances-refl w, q, ground arith, ground arith)
    ]
  ]

  put_entry-Advances :
      (new old : StoredUpload x) (w : UploadStateInner x) (flag : Option UploadStatus)
      → record_at w (own_key new.state) ≡ some old
      → new.revision ≡ (old.revision + 1) % 2 ^ 64
      → Advances w (record { entries = put_entry new w.entries; conflict_once = flag })
  put_entry-Advances new old w flag found next k a b p q =
      elim (Bool-cases (same (own_key new.state) k)) [
        | inl e ↦
            let here : own_key new.state ≡ k = same→eq _ _ e in
            let hit : entry k (put_entry new w.entries) ≡ some new =
              subst (λ k. entry k (put_entry new w.entries) ≡ some new) here
                (entry-put_hit new w.entries old found) in
            let was : entry k w.entries ≡ some old =
              subst (λ k. entry k w.entries ≡ some old) here found in
            let a_old : a ≡ old = cc in
            let b_new : b ≡ new = cc in
            inr
              (ap (λ r. r.revision) b_new ∙ next ∙ ap (λ r. (r.revision + 1) % 2 ^ 64) (sym a_old))
        | inr e ↦
            let miss : entry k (put_entry new w.entries) ≡ entry k w.entries =
              entry-put_miss new w.entries k (λ here. absurd (not_same e here)) in
            inl (cc)
      ]

  let_win-Advances :
      (winner : UploadStatus) (s : UploadState x) (w : UploadStateInner x)
      (flag : Option UploadStatus)
      → Advances w (record {
        entries = let_win winner (record_at w (own_key s)) w.entries;
        conflict_once = flag;
      })
  unfolding let_win
  let_win-Advances winner s w flag = elim (Option-cases (record_at w (own_key s))) [
    | inl q ↦ rw q (Advances-refl w)
    | inr (old, q) ↦
        let own : own_key old.state ≡ own_key s = entry-keyed (own_key s) w.entries q in
        rw q (put_entry-Advances (state_with winner old) old w flag (rw (← own) at q) refl)
  ]

  swap-Advances :
      (s : UploadState x) (r : ℕ) (w : UploadStateInner x)
      → Advances w (swap s r (record_at w (own_key s)) w).1
  unfolding swap
  swap-Advances s r w = elim (Option-cases (record_at w (own_key s))) [
    | inl q ↦ rw q (Advances-refl w)
    | inr (old, q) ↦ elim (Bool-cases (old.revision == r)) [
      | inl same_revision ↦
          rw (q, same_revision)
            (put_entry-Advances (record { state = s; revision = next_version old.revision }) old w
              w.conflict_once q refl)
      | inr other ↦ rw (q, other) (Advances-refl w)
    ]
  ]

  update_or_lose-Advances :
      (winner : Option UploadStatus) (s : UploadState x) (r : ℕ) (w : UploadStateInner x)
      → Advances w (update_or_lose winner s r w).1
  unfolding update_or_lose
  update_or_lose-Advances none s r w = swap-Advances s r w
  update_or_lose-Advances (some winner) s r w = let_win-Advances winner s w none

  update_record-Advances :
      (s : UploadState x) (r : ℕ) (w : UploadStateInner x) → Advances w (update_record s r w).1
  unfolding update_record
  update_record-Advances s r w = update_or_lose-Advances w.conflict_once s r w

  -- The in-memory store does compare-and-swap. A read answers what is there; a write succeeds only at
  -- the revision that it names and is the one change; a record stands under its own key; no revision
  -- is written twice. And what an update does to the records, whether it is made, refused, or lost to
  -- the concurrent writer, is of that kind: a record is left as it is or gets the next revision.
  pub memory-IsCas :
      IsCas {x = x} memory_upload_store record_at put_record Advances
      × ((s : UploadState x) (r : ℕ) (w : UploadStateInner x) → Advances w (update_record s r w).1)
  unfolding get_record
  memory-IsCas = (
    record {
      get_sound = λ t u i w h. ground arith;
      update_swaps = update_record_swaps;
      revisions = λ w w' k {a} {b} later p q r. elim (later k a b p q) [
        | inl e ↦ e
        | inr next ↦ absurd (omega arith)
      ];
      keyed = λ w k h. entry-keyed k w.entries h;
    },
    update_record-Advances,
  )

  -- What a write changes: its own key, if there was a record, has the written record, and every
  -- other key has the record that it had.
  entry-put_entry :
      (new : StoredUpload x) (entries : List (StoredUpload x))
      → ((old : StoredUpload x)
          → entry (own_key new.state) entries ≡ some old
          → entry (own_key new.state) (put_entry new entries) ≡ some new)
        × ((k : Text)
            → ¬ (own_key new.state ≡ k)
            → entry k (put_entry new entries) ≡ entry k entries)
  entry-put_entry new entries = (entry-put_hit new entries, entry-put_miss new entries)
