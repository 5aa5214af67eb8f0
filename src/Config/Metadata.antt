-- ===== src/Config/Metadata.antt =====
-- internal/config/config.go: the platform names, and the bounds on what a server says of itself.
use sshm.Prelude.{
  ℕ, Bool, true, false, ◌&&◌, ◌||◌, List, [], ◌∷◌, Option, if◌then◌else◌, ltb, length, elements,
  is_nil,
}
use sshm.Text.{Text, ◌==◌, codes}
unfoldable use sshm.Text.{trim_space, to_lower, contains_any, contains_rune}
use sshm.Result.{Result, ok, err, ◌>>◌, fail_if}

pub data MetadataError : Type 0 where
  unknown_platform not_single_line too_long : MetadataError
  has_nul has_newline over_limit : Text → MetadataError
  too_many_tags bad_tag long_tag : MetadataError

-- The values of Platform.
abbrev pub platform_windows : Text
platform_windows = codes "windows"

abbrev pub platform_linux : Text
platform_linux = codes "linux"

abbrev pub platform_macos : Text
platform_macos = codes "macos"

-- NormalizePlatform
unfoldable pub normalize_platform : (ℕ → ℕ) → Text → Result MetadataError Text
normalize_platform lower value =
    let v = to_lower lower (trim_space value) in
    if v == [] || v == codes "unknown" || v == codes "auto"
    then ok []
    else if v == codes "windows" || v == codes "win"
    then ok platform_windows
    else if v == codes "linux"
    then ok platform_linux
    else if v == codes "macos" || v == codes "darwin" || v == codes "mac"
    then ok platform_macos
    else err unknown_platform

abbrev pub max_description_runes : ℕ
max_description_runes = 500

abbrev pub max_label_runes : ℕ
max_label_runes = 100

abbrev pub max_group_runes : ℕ
max_group_runes = 100

abbrev pub max_tags : ℕ
max_tags = 32

abbrev pub max_tag_runes : ℕ
max_tag_runes = 64

abbrev pub max_notes_runes : ℕ
max_notes_runes = 4000

-- "\x00\r\n"
abbrev pub control : Text
control = 0 ∷ 13 ∷ 10 ∷ []

-- ValidateDescription
unfoldable pub validate_description : Text → Result MetadataError (Unit {0})
validate_description description = do
  fail_if (contains_any description control) not_single_line
  fail_if (ltb max_description_runes (length description)) too_long

-- One turn of the loop over label, group and notes; the flag is `name != "notes"`.
validate_field : Text → Bool → Text → ℕ → Result MetadataError (Unit {0})
validate_field name single_line value limit = do
  fail_if (contains_rune value 0) (has_nul name)
  fail_if (single_line && contains_any value (13 ∷ 10 ∷ [])) (has_newline name)
  fail_if (ltb limit (length value)) (over_limit name)

validate_tags : List Text → Result MetadataError (Unit {0})
validate_tags [] = ok tt
validate_tags (tag ∷ tags) = do
  fail_if (is_nil (trim_space tag) || contains_any tag control) bad_tag
  fail_if (ltb max_tag_runes (length tag)) long_tag
  validate_tags tags

-- ValidateServerMetadataBounds. The fields are a Go map: which of several errors is returned is
-- not determined there, here it is the first in this order.
unfoldable pub validate_server_metadata_bounds :
    Text → Text → Option (List Text) → Text → Text → Result MetadataError (Unit {0})
unfolding validate_description validate_field validate_tags
validate_server_metadata_bounds label description tags group notes = do
  validate_description description
  validate_field (codes "label") true label max_label_runes
  validate_field (codes "group") true group max_group_runes
  validate_field (codes "notes") false notes max_notes_runes
  fail_if (ltb max_tags (length (elements tags))) too_many_tags
  validate_tags (elements tags)
