-- ===== src/Tools.antt =====
-- src/tools/mod.rs: what a utility model may be told. Redact hides credentials, Paths hides file names;
-- here they are put together. The workspace's two paths are texts where they are valid UTF-8.
pub mod Redact
pub mod Paths
pub mod Clean
pub mod Hidden
pub mod Sanitized
use skyport.Prelude.{
  ℕ, zero, suc, ◌-◌, Bool, false, not, ◌&&◌, ◌||◌, Option, none, some, List, [], ◌∷◌, ◌++◌, map,
  ltb, leb, ◌==◌, if◌then◌else◌, length, take, any, Text, codes, text_eq, starts_with, split_once,
  is_empty, trim,
}
use skyport.Tools.Redact.{redact_secrets}
use skyport.Tools.Paths.{redact_absolute_paths}

abbrev pub truncation_marker : Text
truncation_marker = codes "\n... [truncated]"

unfoldable pub truncate_chars : Text → ℕ → Text
truncate_chars input max_chars =
    if leb (length input) max_chars
    then input
    else if leb max_chars (length truncation_marker)
    then take max_chars input
    else take (max_chars - length truncation_marker) input ++ truncation_marker

unfoldable pub ensure_cloud_consent : Text → Bool → Bool
ensure_cloud_consent model allow_cloud = allow_cloud || (elim (split_once b'/' model) [
  | none ↦ false
  | some (provider, model_id) ↦
      not (is_empty (trim model_id))
      && (text_eq provider (codes "ollama") || text_eq provider (codes "lmstudio"))
])

pub record Workspace : Type 0 where
  pub root : Option Text
  pub path : Option Text

-- `str::replace` of a pattern that is not empty: how many characters of an occurrence are left
unfoldable pub replace_from : ℕ → Text → Text → Text → Text
replace_from n from to [] = []
replace_from (suc n) from to (c ∷ s) = replace_from n from to s
replace_from zero from to (c ∷ s) =
    let found = to ++ replace_from (length from - 1) from to s in
    let other = c ∷ replace_from zero from to s in if starts_with from (c ∷ s) then found else other

abbrev pub forward_slash : ℕ → ℕ
forward_slash c = if c == b'\\' then b'/' else c

abbrev pub hide_path : Option Text → Text → Text
hide_path none hidden = hidden
hide_path (some []) hidden = hidden
hide_path (some path) hidden =
    replace_from 0 (map forward_slash path) (codes "[workspace]")
      (replace_from 0 path (codes "[workspace]") hidden)

abbrev pub hide_workspace : Option Workspace → Text → Text
hide_workspace none input = input
hide_workspace (some workspace) input = hide_path workspace.path (hide_path workspace.root input)

unfoldable pub sanitize_for_model : Text → Option Workspace → ℕ → Text
unfolding redact_secrets redact_absolute_paths truncate_chars replace_from
sanitize_for_model input workspace max_chars =
    truncate_chars (redact_absolute_paths (redact_secrets (hide_workspace workspace input)))
      max_chars

-- `read_bounded`: `chunks` are what the reads give, the last of them before an empty one; `none` is a
-- read that fails. The answer is what was kept, and whether any was dropped.
unfoldable pub read_bounded : List (Option (List ℕ)) → ℕ → List ℕ → Bool → Option (List ℕ × Bool)
read_bounded [] limit output truncated = some (output, truncated)
read_bounded (none ∷ chunks) limit output truncated = none
read_bounded (some chunk ∷ chunks) limit output truncated =
    let remaining = limit - length output in
    read_bounded chunks limit (output ++ take remaining chunk)
      (truncated || ltb remaining (length chunk))
