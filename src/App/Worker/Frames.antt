-- ===== src/App/Worker/Frames.antt =====
-- What the ports of the worker may do to a fact of the world: every call but those of
-- `EventStore::append` and `BlobStore::delete` leaves it true.
use delphi.Base.{ℕ, Text, List, Keeps}
use delphi.Platform.{Platform}
use delphi.App.Uploads.{UploadState, UploadStatus, UploadCompleted}
use delphi.App.Ports.{CompletedPart, BlobHead, DeclaredContent}
use delphi.App.Transition.Frames.{set_status-Keeps, load-Keeps}
use delphi.App.Transition.{load}
use delphi.App.Worker.{UploadFinisher, record_status}

module _ {x : Platform} {W : Type 0} where
  pub record Frame (f : UploadFinisher x W) (Q : W → Type 0) : Type 0 where
    pub list_parts : (k u : Text) → Keeps Q (f.blobs.list_parts k u)
    pub complete_multipart :
        (k u : Text) (ps : List CompletedPart) → Keeps Q (f.blobs.complete_multipart k u ps)
    pub abort_multipart : (k u : Text) → Keeps Q (f.blobs.abort_multipart k u)
    pub head : (k : Text) → Keeps Q (f.blobs.head k)
    pub open_read : (k : Text) → Keeps Q (f.blobs.open_read k)
    pub read_prefix : (k : Text) (n : ℕ) → Keeps Q (f.blobs.read_prefix k n)
    pub scan : (r : x.Reader) → Keeps Q (f.scanner r)
    pub validate : (h : BlobHead x) (p : List ℕ) (d : DeclaredContent) → Keeps Q (f.validator h p d)
    pub last : (t d : Text) → Keeps Q (f.events.last t d)
    pub read_stream : (t d : Text) → Keeps Q (f.events.read_stream t d)
    pub get : (t u i : Text) → Keeps Q (f.uploads.get t u i)
    pub update : (s : UploadState x) (r : ℕ) → Keeps Q (f.uploads.update s r)
    pub now : Keeps Q f.clock

  module _ (f : UploadFinisher x W) (c : UploadCompleted x) {Q : W → Type 0}
      (frame : Frame f Q) where
    pub record_status-Keeps : (status : UploadStatus) → Keeps Q (record_status f c status)
    unfolding record_status
    record_status-Keeps status w q =
        set_status-Keeps f.uploads Q frame.get frame.update c.tenant_id c.owner_user_id c.upload_id
          status (f.clock w).0 (f.clock w).1 (frame.now w q)

    pub load_state-Keeps : Keeps Q (load f.uploads c.tenant_id c.owner_user_id c.upload_id)
    load_state-Keeps = load-Keeps f.uploads Q frame.get c.tenant_id c.owner_user_id c.upload_id
