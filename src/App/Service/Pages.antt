-- ===== src/App/Service/Pages.antt =====
-- The pages of a listing.
use delphi.Base.{
  ℕ, ◌≤◌, ◌<◌, ◌≡◌, refl, ◌↔◌, Option, none, some, List, [], ◌∷◌, Text, ok, arith, attempt_ok, pure,
  length, last?, ok_inj,
}
use mathlib.Core.Path.{subst}
use native.Mathlib.Decide.{dec_lt}
use delphi.Platform.{Platform}
use delphi.Domain.Fold.{DocumentState}
use delphi.App.Errors.{from_read}
use delphi.App.Ports.{DocumentCursor}
use delphi.App.Service.{
  DocumentService, DocumentPage, list_documents, clamp_limit, page_of, cursor_of, max_list_limit,
}

cursor_of_last :
    {x : Platform} (items : List (DocumentState x))
    → 1 ≤ length items
    → (c : DocumentCursor x) × (cursor_of (last? items) ≡ some c)
cursor_of_last [] h = absurd (omega arith)
cursor_of_last (d ∷ []) h =
    (record { updated_at = d.updated_at; document_id = d.document_id }, refl)
cursor_of_last (d ∷ (e ∷ items)) h = cursor_of_last (e ∷ items) (omega arith)

page_of_next :
    {x : Platform} (limit : ℕ) (items : List (DocumentState x))
    → 1 ≤ limit
    → limit ≤ max_list_limit
    → length items ≤ limit
    → ((page_of limit items).next ≡ none) ↔ (length items < limit)
unfolding page_of
page_of_next limit items lo hi fits = (
  λ last_page. elim (dec_lt (length items) limit) [
    | yes short ↦ short
    | no full ↦ let (c, found) = cursor_of_last items (omega arith) in absurd (ground arith)
  ],
  λ short. ground arith,
)

-- The number of documents that a listing asks for, from the limit of the request.
abbrev pub IsLimit : ℕ → ℕ → Type 0
IsLimit requested n =
    (1 ≤ n)
    × (n ≤ 200)
    × (1 ≤ requested → requested ≤ 200 → n ≡ requested)
    × (requested ≡ 0 → n ≡ 1)
    × (200 < requested → n ≡ 200)

-- A page of at most `n` documents, whose cursor is that of its last document, and is there exactly
-- when the page has `n` of them.
abbrev pub IsPage : {x : Platform} → ℕ → DocumentPage x → Type 0
IsPage n page =
    (length page.items ≤ n)
    × ((page.next ≡ none) ↔ (length page.items < n))
    × (length page.items ≡ n → page.next ≡ cursor_of (last? page.items))

clamped : (requested : ℕ) → IsLimit requested (clamp_limit requested)
clamped requested = (
  omega arith,
  omega arith,
  λ lo hi. omega arith,
  λ zero_asked. omega arith,
  λ above. omega arith,
)

page_of-IsPage :
    {x : Platform} (n : ℕ) (items : List (DocumentState x))
    → 1 ≤ n
    → n ≤ 200
    → length items ≤ n
    → IsPage n (page_of n items)
unfolding page_of
page_of-IsPage n items lo hi fits = (fits, page_of_next n items lo hi fits, λ full. ground arith)

module _ {x : Platform} {W : Type 0} (s : DocumentService x W) where
  -- A listing, over a read model that never answers more documents than it is asked for. The read
  -- model is asked for the requested number, or for 1 or 200 where that is below or above these, and
  -- the page has what it answered; its cursor is that of the last document, and is there exactly
  -- when the page has as many documents as were asked for.
  pub list_documents-next :
      (tenant : Text) (limit : ℕ) (after : Option (DocumentCursor x)) (w : W)
      {page : DocumentPage x}
      → ((t : Text) (n : ℕ) (from : Option (DocumentCursor x)) (w : W)
            (items : List (DocumentState x))
          → (s.documents.list t n from w).0 ≡ ok items
          → length items ≤ n)
      → (list_documents s tenant limit after w).0 ≡ ok page
      → (n : ℕ) × IsLimit limit n
        × ((s.documents.list tenant n after w).0 ≡ ok page.items)
        × IsPage n page
  unfolding list_documents
  list_documents-next tenant limit after w {page} bounded h =
      let (items, got, made) =
        attempt_ok (s.documents.list tenant (clamp_limit limit) after) from_read
          (λ items. pure (ok (page_of (clamp_limit limit) items))) w h in
      subst
        (λ page.
          (n : ℕ) × IsLimit limit n
          × ((s.documents.list tenant n after w).0 ≡ ok page.items)
          × IsPage n page)
        (ok_inj made)
        (
          clamp_limit limit,
          clamped limit,
          got,
          page_of-IsPage (clamp_limit limit) items (clamped limit).0 (clamped limit).1
              (bounded tenant (clamp_limit limit) after w items got),
        )
