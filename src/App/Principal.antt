-- ===== src/App/Principal.antt =====
-- crates/document-app/src/principal.rs: an authenticated caller whose ids are safe in keys.
pub mod Keyspace
use delphi.Base.{
  ℕ, Bool, not, ◌&&◌, ◌||◌, Text, Result, ok, err, all, is_empty, length, leb, ◌==◌, if◌then◌else◌,
}

abbrev pub max_principal_chars : ℕ
max_principal_chars = 128

pub data PrincipalError : Type 0 where
  tenant user : PrincipalError

pub record Principal : Type 0 where
  pub tenant_id : Text
  pub user_id : Text

-- `ch.is_ascii_alphanumeric() || ch == '-' || ch == '_'`
abbrev pub is_safe_char : ℕ → Bool
is_safe_char c =
    (leb b'0' c && leb c b'9')
    || (leb b'A' c && leb c b'Z')
    || (leb b'a' c && leb c b'z')
    || c == b'-'
    || c == b'_'

unfoldable pub is_safe_segment : Text → Bool
is_safe_segment value =
    not (is_empty value) && leb (length value) max_principal_chars && all is_safe_char value

-- `Principal::new`
unfoldable pub new_principal : Text → Text → Result PrincipalError Principal
unfolding is_safe_segment
new_principal tenant_id user_id =
    if not (is_safe_segment tenant_id)
    then err tenant
    else if not (is_safe_segment user_id)
    then err user
    else ok (record { tenant_id = tenant_id; user_id = user_id })
