-- ===== src/App/Append/Frames.antt =====
-- The append paths touch the world through `append` and `last` alone.
use delphi.Base.{ℕ, zero, suc, Option, none, some, Text, Result, ok, err, Action, Keeps, arith}
use delphi.Platform.{Platform}
use delphi.Domain.Events.{DocumentEvent}
use delphi.App.Errors.{EventStoreError, AppendError}
use delphi.App.Ports.{EventStore, Appended, Expect, exactly, create_only}
use delphi.App.Append.{
  append_create, append_update, append_update_rounds, after_create, after_append, after_last,
  resolve_duplicate, next_version,
}

module _ {x : Platform} {W : Type 0} (store : EventStore x W) (Q : W → Type 0)
    (append_keeps : (e : DocumentEvent x) (expect : Expect) → Keeps Q (store.append e expect))
    (last_keeps : (t d : Text) → Keeps Q (store.last t d)) where
  resolve_duplicate-Keeps : (t d : Text) (a : Appended) → Keeps Q (resolve_duplicate store t d a)
  unfolding resolve_duplicate
  resolve_duplicate-Keeps t d a w q = ground (arith, last_keeps t d w q)

  after_create-Keeps :
      (t d : Text) (answer : Result EventStoreError Appended)
      → Keeps Q (after_create store t d answer)
  unfolding after_create
  after_create-Keeps t d (ok a) w q = resolve_duplicate-Keeps t d a w q
  after_create-Keeps t d (err EventStoreError.conflict) w q = q
  after_create-Keeps t d (err error) w q = q

  pub append_create-Keeps : (e : DocumentEvent x) → Keeps Q (append_create store e)
  unfolding append_create
  append_create-Keeps e w q =
      after_create-Keeps e.tenant_id e.document_id (store.append e create_only w).0
        (store.append e create_only w).1 (append_keeps e create_only w q)

  after_append-Keeps :
      (again : Action W (Result AppendError Appended)) (t d : Text)
      (answer : Result EventStoreError Appended)
      → Keeps Q again
      → Keeps Q (after_append store again t d answer)
  unfolding after_append
  after_append-Keeps again t d (ok a) k w q = resolve_duplicate-Keeps t d a w q
  after_append-Keeps again t d (err EventStoreError.conflict) k w q = k w q
  after_append-Keeps again t d (err error) k w q = q

  after_last-Keeps :
      (again : Action W (Result AppendError Appended)) (t d : Text) (client : Option ℕ)
      (build : ℕ → DocumentEvent x) (answer : Result EventStoreError (Option (ℕ × ℕ)))
      → Keeps Q again
      → Keeps Q (after_last store again t d client build answer)
  unfolding after_last
  after_last-Keeps again t d client build (err error) k w q = q
  after_last-Keeps again t d client build (ok none) k w q = q
  after_last-Keeps again t d client build (ok (some (v, s))) k w q =
      let e = build (next_version v) in
      ground (
        arith,
        append_keeps e (exactly s) w q,
        after_append-Keeps again t d (store.append e (exactly s) w).0 k
            (store.append e (exactly s) w).1,
      )

  append_update_rounds-Keeps :
      (n : ℕ) (t d : Text) (client : Option ℕ) (build : ℕ → DocumentEvent x)
      → Keeps Q (append_update_rounds store n t d client build)
  unfolding append_update_rounds
  append_update_rounds-Keeps zero t d client build w q = q
  append_update_rounds-Keeps (suc n) t d client build w q =
      after_last-Keeps (append_update_rounds store n t d client build) t d client build
        (store.last t d w).0 (append_update_rounds-Keeps n t d client build) (store.last t d w).1
        (last_keeps t d w q)

  pub append_update-Keeps :
      (t d : Text) (client : Option ℕ) (build : ℕ → DocumentEvent x)
      → Keeps Q (append_update store t d client build)
  unfolding append_update
  append_update-Keeps t d client build w q = append_update_rounds-Keeps 3 t d client build w q
