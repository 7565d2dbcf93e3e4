-- ===== src/Domain/Validation.antt =====
-- crates/document-domain/src/validation.rs: the one check of metadata on every write path.
pub mod Limits
use delphi.Base.{
  ℕ, ◌*◌, Bool, ◌&&◌, ◌||◌, Option, none, some, List, [], ◌∷◌, Text, Result, ok, err, and_then,
  trim, is_control, any, length, ltb, ◌==◌, if◌then◌else◌,
}
use delphi.Platform.{Platform}
use delphi.Domain.Events.{MetadataPatch}

abbrev pub max_title_chars : ℕ
max_title_chars = 512

abbrev pub max_tags : ℕ
max_tags = 64

abbrev pub max_tag_chars : ℕ
max_tag_chars = 64

abbrev pub max_description_chars : ℕ
max_description_chars = 8192

abbrev pub max_metadata_bytes : ℕ
max_metadata_bytes = 32 * 1024

pub data ValidationError : Type 0 where
  title tag_count tag description metadata_shape metadata_size : ValidationError

pub check_title : Option Text → Result ValidationError (Unit {0})
check_title none = ok tt
check_title (some t) =
    let len = length (trim t) in if len == 0 || ltb max_title_chars len then err title else ok tt

pub check_tag : Text → Result ValidationError (Unit {0})
check_tag t =
    let trimmed = trim t in
    if length trimmed == 0 || ltb max_tag_chars (length trimmed)
    then err tag
    else if any is_control trimmed
    then err tag
    else ok tt

-- The loop over the tags.
pub check_each_tag : List Text → Result ValidationError (Unit {0})
unfolding check_tag
check_each_tag [] = ok tt
check_each_tag (t ∷ ts) = and_then (check_tag t) (λ _. check_each_tag ts)

pub check_tags : Option (List Text) → Result ValidationError (Unit {0})
unfolding check_each_tag
check_tags none = ok tt
check_tags (some ts) = if ltb max_tags (length ts) then err tag_count else check_each_tag ts

pub check_description : Option Text → Result ValidationError (Unit {0})
check_description none = ok tt
check_description (some d) = if ltb max_description_chars (length d) then err description else ok tt

pub check_serialized : Option ℕ → Result ValidationError (Unit {0})
check_serialized none = err metadata_shape
check_serialized (some len) = if ltb max_metadata_bytes len then err metadata_size else ok tt

pub check_metadata : (x : Platform) → Option (x.Json) → Result ValidationError (Unit {0})
unfolding check_serialized
check_metadata x none = ok tt
check_metadata x (some m) =
    if x.is_object m then check_serialized (x.serialized_len m) else err metadata_shape

unfoldable pub validate_metadata_patch :
    {x : Platform} → MetadataPatch x → Result ValidationError (Unit {0})
unfolding check_title check_tags check_description check_metadata
validate_metadata_patch {x} p = and_then (check_title p.title) λ _.
    and_then (check_tags p.tags)
      λ _. and_then (check_description p.description) λ _. check_metadata x p.metadata
