-- ===== src/App/Principal/Keyspace.antt =====
-- The keyspace of upload records: who can name which key.
use delphi.Base.{◌≡◌, refl, true, [], ◌∷◌, ◌++◌, Text, ok, arith, all}
use delphi.App.Uploads.{key}
use delphi.App.Principal.{Principal, is_safe_char, new_principal}

-- Two texts of safe characters before a slash are one, and so is what follows.
split_slash :
    (a b p q : Text)
    → all is_safe_char a ≡ true
    → all is_safe_char b ≡ true
    → a ++ (b'/' ∷ p) ≡ b ++ (b'/' ∷ q)
    → (a ≡ b) × (p ≡ q)
split_slash [] [] p q h k e = (refl, ground arith)
split_slash [] (y ∷ b) p q h k e = absurd (ground arith)
split_slash (x ∷ a) [] p q h k e = absurd (ground arith)
split_slash (x ∷ a) (y ∷ b) p q h k e = ground (arith, split_slash a b p q)

safe_of :
    (t u : Text) {p : Principal}
    → new_principal t u ≡ ok p
    → (all is_safe_char p.tenant_id ≡ true) × (all is_safe_char p.user_id ≡ true)
unfolding new_principal
safe_of t u h = (ground arith, ground arith)

-- Two callers that were let in share a key of an upload record only if they are the same tenant, the
-- same user and name the same upload.
pub key-inj :
    (t u t' u' i i' : Text) {p q : Principal}
    → new_principal t u ≡ ok p
    → new_principal t' u' ≡ ok q
    → key p.tenant_id p.user_id i ≡ key q.tenant_id q.user_id i'
    → (p ≡ q) × (i ≡ i')
unfolding key
key-inj t u t' u' i i' {p} {q} h k e =
    let (tenant, rest) =
      split_slash p.tenant_id q.tenant_id _ _ (safe_of t u h).0 (safe_of t' u' k).0 e in
    let (user, upload) =
      split_slash p.user_id q.user_id i i' (safe_of t u h).1 (safe_of t' u' k).1 rest in
    (ground arith, upload)
