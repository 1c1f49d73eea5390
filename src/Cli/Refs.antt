-- ===== src/Cli/Refs.antt =====
-- `valid_ref` of lib/task_cli.py.
use ai_bobnet.Json.{among}
use ai_bobnet.Base.{
  has_part, split, ◌==◌, false, is_token, ends_with, any, all, is_digit, ◌||◌, starts_with, codes,
  length, ◌&&◌, partition, if◌then◌else◌, text_eq, not, leb, Bool, Text, ℕ, [], ◌∷◌,
}

-- [A-Za-z0-9._/@:+~^-]
abbrev is_ref_char : ℕ → Bool
is_ref_char c =
    (leb b'A' c && leb c b'Z')
    || (leb b'a' c && leb c b'z')
    || is_digit c
    || any (λ d. c == d) (codes "._/@:+~^-")

-- REF_TEXT_RE
unfoldable pub is_ref_text : Text → Bool
is_ref_text s = leb 1 (length s) && leb (length s) 255 && all is_ref_char s

-- the parts that a path may not have
abbrev is_dots : Text → Bool
is_dots part = among part ([] ∷ codes "." ∷ codes ".." ∷ [])

unfoldable pub valid_file : Text → Bool
valid_file ref = not (starts_with (codes "/") ref || any is_dots (split b'/' ref))

-- a component that git refuses
abbrev bad_component : Text → Bool
bad_component part =
    text_eq part [] || starts_with (codes ".") part || ends_with (codes ".lock") part

unfoldable pub valid_git : Text → Bool
valid_git ref = not (
    text_eq ref (codes "@")
    || (starts_with (codes "/") ref || starts_with (codes ".") ref)
    || (ends_with (codes "/") ref || ends_with (codes ".") ref)
    || has_part (codes "..") ref
    || any (λ c. any (λ d. c == d) (codes "~^:")) ref
    || any bad_component (split b'/' ref))

-- the branches on the prefix
unfoldable pub valid_kind : Text → Text → Bool
unfolding valid_file valid_git
valid_kind prefix ref =
    if text_eq prefix (codes "msg")
    then is_token ref
    else if text_eq prefix (codes "file")
    then valid_file ref
    else valid_git ref

-- `valid_ref`
unfoldable pub valid_ref : Text → Bool
unfolding is_ref_text valid_kind
valid_ref value =
    let (prefix, found, ref) = partition b':' value in
    if not found
      || not (among prefix (codes "msg" ∷ codes "git" ∷ codes "file" ∷ []))
      || not (is_ref_text ref)
      || starts_with (codes "-") ref
    then false
    else valid_kind prefix ref
