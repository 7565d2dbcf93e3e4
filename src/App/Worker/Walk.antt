-- ===== src/App/Worker/Walk.antt =====
-- One walk through `UploadFinisher::run`, for any fact `Q` of the world and any claim `R` on the
-- outcome: the rules say what the ends of the pipeline give, and the walk that `run` gives it.
use delphi.Base.{
  ℕ, ◌≡◌, refl, ==_iff, ◌==◌, Option, none, some, List, [], ◌∷◌, map, Text, Result, ok, err, Triple,
  ◌>>=◌, Option-cases, Bool-cases, inl, inr,
}
use delphi.Platform.{Platform}
use delphi.Domain.Fold.{DocumentState, FoldError, Log}
use delphi.App.Errors.{
  BlobError, BlobErrorKind, no_such_upload, transient, EventStoreError, ScanError, ValidateError,
  DocumentError,
}
use delphi.App.Uploads.{
  UploadCompleted, UploadState, UploadMode, create, replace, multipart_lost, invalid_parts,
  is_terminal,
}
use delphi.App.Ports.{
  BlobHead, UploadedPart, ScanVerdict, ScanOutcome, clean, infected, ContentVerdict, fine,
}
use delphi.App.Transition.{load}
use delphi.App.Worker.{
  UploadFinisher, FinishOutcome, Assembled, ready, terminal, reject_assembly, head_decides,
  complete_failed, after_complete, after_list, assemble, is_conflict, after_fold, after_history,
  append_replaced, append_event, judge_scan, after_scan, after_open, after_validate, after_prefix,
  check_size, after_head, after_assemble, pipeline, after_applied, discard_expired, after_state,
  run, applied_event, fold_history, superseded_flag, sort_parts, completed_part, prefix_bytes,
  version_of, declared_content,
}
use delphi.App.Worker.Frames.{Frame, load_state-Keeps}
use delphi.App.Worker.Rules.{Rules, Checked, Validated}

module _ {x : Platform} {W : Type 0} (f : UploadFinisher x W) (c : UploadCompleted x)
    {Q : W → Type 0} {R : FinishOutcome → W → Type 0} (frame : Frame f Q)
    (rules : Rules f c Q R) where
  -- After the assembly: `Q` if the pipeline goes on, and `R` if it is over.
  abbrev AfterAssembly : Assembled x → W → Type 0
  AfterAssembly (ready head) w = Q w
  AfterAssembly (terminal outcome) w = R outcome w

  reject_assembly_walk : (reason : Text) → Triple Q (reject_assembly f c reason) AfterAssembly
  unfolding reject_assembly
  reject_assembly_walk reason w q = rules.rejects reason w q

  head_decides_walk :
      (r : Result BlobError (Option (BlobHead x))) → Triple Q (head_decides f c r) AfterAssembly
  unfolding head_decides
  head_decides_walk (ok (some head)) w q = q
  head_decides_walk (ok none) w q = reject_assembly_walk multipart_lost w q
  head_decides_walk (err error) w q = rules.retries _ w q

  head_walk : Triple Q (f.blobs.head c.storage_key >>= head_decides f c) AfterAssembly
  head_walk w q =
      head_decides_walk (f.blobs.head c.storage_key w).0 (f.blobs.head c.storage_key w).1
        (frame.head c.storage_key w q)

  complete_failed_walk :
      (k : BlobErrorKind) (e : BlobError) → Triple Q (complete_failed f c k e) AfterAssembly
  unfolding complete_failed
  complete_failed_walk no_such_upload e w q = head_walk w q
  complete_failed_walk transient e w q = rules.retries _ w q
  complete_failed_walk _ e w q = reject_assembly_walk invalid_parts w q

  after_complete_walk :
      (r : Result BlobError (Unit {0})) → Triple Q (after_complete f c r) AfterAssembly
  unfolding after_complete
  after_complete_walk (ok done) w q = q
  after_complete_walk (err e) w q = complete_failed_walk e.kind e w q

  after_list_walk :
      (r : Result BlobError (Option (List UploadedPart)))
      → Triple Q (after_list f c r) AfterAssembly
  unfolding after_list
  after_list_walk (err e) w q = rules.retries _ w q
  after_list_walk (ok none) w q = head_walk w q
  after_list_walk (ok (some [])) w q = reject_assembly_walk invalid_parts w q
  after_list_walk (ok (some (p ∷ ps))) w q =
      let sorted = sort_parts (map completed_part (p ∷ ps)) in
      let step = f.blobs.complete_multipart c.storage_key c.multipart_upload_id sorted w in
      after_complete_walk step.0 step.1
        (frame.complete_multipart c.storage_key c.multipart_upload_id sorted w q)

  assemble_walk : Triple Q (assemble f c) AfterAssembly
  unfolding assemble
  assemble_walk w q =
      let step = f.blobs.list_parts c.storage_key c.multipart_upload_id w in
      after_list_walk step.0 step.1 (frame.list_parts c.storage_key c.multipart_upload_id w q)

  after_fold_walk :
      (sha : Text) (k : Checked f c sha) (r : Result FoldError (Option (DocumentState x)))
      → Triple Q (after_fold f c sha r) R
  unfolding after_fold
  after_fold_walk sha k (ok (some s)) w q =
      elim (Bool-cases (is_conflict f c c.if_match s.version)) [
        | inl b ↦ rw b (rules.rejects _ w q)
        | inr b ↦ rw b (rules.updates sha k w q)
      ]
  after_fold_walk sha k (ok none) w q = rules.rejects _ w q
  after_fold_walk sha k (err e) w q = rules.rejects _ w q

  after_history_walk :
      (sha : Text) (k : Checked f c sha) (r : Result EventStoreError (Log x))
      → Triple Q (after_history f c sha r) R
  unfolding after_history
  after_history_walk sha k (err e) w q = rules.retries _ w q
  after_history_walk sha k (ok h) w q = elim (Option-cases (applied_event c.upload_id h)) [
    | inl n ↦ rw (n, after_history) (after_fold_walk sha k (fold_history h) w q)
    | inr ((seq, e), n) ↦ rw (n, after_history) (rules.accepts e.version (superseded_flag e) w q)
  ]

  append_event_walk :
      (m : UploadMode) (sha : Text) (k : Checked f c sha) → Triple Q (append_event f c m sha) R
  unfolding append_event append_replaced
  append_event_walk create sha k w q = rules.creates sha k w q
  append_event_walk replace sha k w q =
      let step = f.events.read_stream c.tenant_id c.document_id w in
      after_history_walk sha k step.0 step.1 (frame.read_stream c.tenant_id c.document_id w q)

  judge_scan_walk :
      (v : ScanVerdict) (o : ScanOutcome) (content : Validated f c) (reader : x.Reader) (at : W)
      → (f.scanner reader at).0 ≡ ok o
      → o.verdict ≡ v
      → Triple Q (judge_scan f c v o) R
  unfolding judge_scan
  judge_scan_walk (infected s) o content reader at e v w q = rules.rejects _ w q
  judge_scan_walk clean o content reader at e v w q =
      elim (Bool-cases (o.byte_count == c.declared_size)) [
        | inl b ↦
            let k : Checked f c o.sha256_hex = record {
              content = content;
              reader = reader;
              world = at;
              outcome = o;
              scanned = e;
              is_clean = v;
              counted = (==_iff _ _).0 b;
              digest = refl;
            } in
            rw b (append_event_walk c.mode o.sha256_hex k w q)
        | inr b ↦ rw b (rules.rejects _ w q)
      ]

  after_scan_walk :
      (r : Result ScanError ScanOutcome) (content : Validated f c) (reader : x.Reader) (at : W)
      → (f.scanner reader at).0 ≡ r
      → Triple Q (after_scan f c r) R
  unfolding after_scan
  after_scan_walk (ok o) content reader at e w q =
      judge_scan_walk o.verdict o content reader at e refl w q
  after_scan_walk (err error) content reader at e w q = rules.retries _ w q

  after_open_walk :
      (r : Result BlobError (x.Reader)) (content : Validated f c) → Triple Q (after_open f c r) R
  unfolding after_open
  after_open_walk (ok reader) content w q =
      after_scan_walk (f.scanner reader w).0 content reader w refl (f.scanner reader w).1
        (frame.scan reader w q)
  after_open_walk (err e) content w q = rules.retries _ w q

  after_validate_walk :
      (r : Result ValidateError ContentVerdict) (h : BlobHead x) (prefix : List ℕ) (at : W)
      → h.byte_size ≡ c.declared_size
      → (f.validator h prefix (declared_content c) at).0 ≡ r
      → Triple Q (after_validate f c r) R
  unfolding after_validate
  after_validate_walk (ok fine) h prefix at size e w q =
      let step = f.blobs.open_read c.storage_key w in
      let content : Validated f c = record {
        head = h;
        prefix = prefix;
        world = at;
        size = size;
        passed = e;
      } in
      after_open_walk step.0 content step.1 (frame.open_read c.storage_key w q)
  after_validate_walk (ok (ContentVerdict.rejected reason)) h prefix at size e w q =
      rules.rejects _ w q
  after_validate_walk (err error) h prefix at size e w q = rules.retries _ w q

  after_prefix_walk :
      (h : BlobHead x) (r : Result BlobError (List ℕ))
      → h.byte_size ≡ c.declared_size
      → Triple Q (after_prefix f c h r) R
  unfolding after_prefix
  after_prefix_walk h (ok prefix) size w q =
      let step = f.validator h prefix (declared_content c) w in
      after_validate_walk step.0 h prefix w size refl step.1
        (frame.validate h prefix (declared_content c) w q)
  after_prefix_walk h (err e) size w q = rules.retries _ w q

  check_size_walk : (h : BlobHead x) → Triple Q (check_size f c h) R
  unfolding check_size
  check_size_walk h w q = elim (Bool-cases (h.byte_size == c.declared_size)) [
    | inl b ↦
        let step = f.blobs.read_prefix c.storage_key prefix_bytes w in
        rw b (
          after_prefix_walk h step.0 ((==_iff _ _).0 b) step.1
            (frame.read_prefix c.storage_key prefix_bytes w q))
    | inr b ↦ rw b (rules.rejects _ w q)
  ]

  after_head_walk : (r : Result BlobError (Option (BlobHead x))) → Triple Q (after_head f c r) R
  unfolding after_head
  after_head_walk (ok (some h)) w q = check_size_walk h w q
  after_head_walk (ok none) w q = rules.rejects _ w q
  after_head_walk (err e) w q = rules.retries _ w q

  after_assemble_walk :
      (a : Assembled x) (w : W)
      → AfterAssembly a w
      → R (after_assemble f c a w).0 (after_assemble f c a w).1
  unfolding after_assemble
  after_assemble_walk (terminal outcome) w q = q
  after_assemble_walk (ready (some h)) w q = check_size_walk h w q
  after_assemble_walk (ready none) w q =
      let step = f.blobs.head c.storage_key w in
      after_head_walk step.0 step.1 (frame.head c.storage_key w q)

  pub pipeline_walk : Triple Q (pipeline f c) R
  unfolding pipeline
  pipeline_walk w q = after_assemble_walk (assemble f c w).0 (assemble f c w).1 (assemble_walk w q)

  after_applied_walk : (r : Result EventStoreError (Log x)) → Triple Q (after_applied f c r) R
  unfolding after_applied
  after_applied_walk (err e) w q = rules.retries _ w q
  after_applied_walk (ok h) w q = elim (Option-cases (version_of (applied_event c.upload_id h))) [
    | inl n ↦ rw (n, after_applied) (rules.discards w q)
    | inr (v, n) ↦ rw (n, after_applied) (rules.keeps_blob v w q)
  ]

  discard_expired_walk : Triple Q (discard_expired f c) R
  unfolding discard_expired
  discard_expired_walk w q =
      let step = f.events.read_stream c.tenant_id c.document_id w in
      after_applied_walk step.0 step.1 (frame.read_stream c.tenant_id c.document_id w q)

  after_state_walk :
      (r : Result DocumentError (Option (UploadState x))) → Triple Q (after_state f c r) R
  unfolding after_state
  after_state_walk (err e) w q = rules.retries _ w q
  after_state_walk (ok none) w q = discard_expired_walk w q
  after_state_walk (ok (some s)) w q = elim (Bool-cases (is_terminal s.status)) [
    | inl b ↦ rw b (rules.replays s.status w q)
    | inr b ↦ rw b (pipeline_walk w q)
  ]

  -- Where every way out gives the claim, the run gives it.
  pub run_walk : Triple Q (run f c) R
  unfolding run
  run_walk w q =
      let step = load f.uploads c.tenant_id c.owner_user_id c.upload_id w in
      after_state_walk step.0 step.1 (load_state-Keeps f c frame w q)
