-- ===== src/App/Worker/Rules.antt =====
-- What the worker has checked before it appends, and the claims that a walk through
-- `UploadFinisher::run` needs of the ways out of the pipeline.
use delphi.Base.{ℕ, ◌≡◌, Bool, false, List, Text, ok, Triple, pure, ◌>>◌}
use delphi.Platform.{Platform}
use delphi.App.Uploads.{UploadCompleted, UploadStatus, upload_expired}
use delphi.App.Ports.{BlobHead, ScanOutcome, clean, fine}
use delphi.App.Worker.{
  UploadFinisher, FinishOutcome, accepted, rejected, retry, accept, reject, reclaim, append_created,
  append_validated, replay, declared_content,
}

module _ {x : Platform} {W : Type 0} where
  -- What the worker has seen of an object before it appends: a size and a head that the validator
  -- passed, and a scan of all the declared bytes that found nothing and gave the digest.
  pub record Validated (f : UploadFinisher x W) (c : UploadCompleted x) : Type 0 where
    pub head : BlobHead x
    pub prefix : List ℕ
    pub world : W
    pub size : head.byte_size ≡ c.declared_size
    pub passed : (f.validator head prefix (declared_content c) world).0 ≡ ok fine

  pub record Checked (f : UploadFinisher x W) (c : UploadCompleted x) (sha : Text) : Type 0 where
    pub content : Validated f c
    pub reader : x.Reader
    pub world : W
    pub outcome : ScanOutcome
    pub scanned : (f.scanner reader world).0 ≡ ok outcome
    pub is_clean : outcome.verdict ≡ clean
    pub counted : outcome.byte_count ≡ c.declared_size
    pub digest : outcome.sha256_hex ≡ sha

  -- What each way out of the pipeline gives from a world with `Q`.
  pub record Rules (f : UploadFinisher x W) (c : UploadCompleted x) (Q : W → Type 0)
      (R : FinishOutcome → W → Type 0) : Type 0 where
    pub retries : (error : Text) (w : W) → Q w → R (retry error) w
    pub replays : (status : UploadStatus) (w : W) → Q w → R (replay c status) w
    pub keeps_blob : (v : ℕ) (w : W) → Q w → R (accepted c.document_id v false) w
    pub rejects : (reason : Text) → Triple Q (reject f c reason) R
    pub discards : Triple Q (reclaim f c >> pure (rejected upload_expired)) R
    pub accepts : (v : ℕ) (s : Bool) → Triple Q (accept f c v s) R
    pub creates : (sha : Text) → Checked f c sha → Triple Q (append_created f c sha) R
    pub updates : (sha : Text) → Checked f c sha → Triple Q (append_validated f c sha) R
