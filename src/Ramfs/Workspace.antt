-- ===== src/Ramfs/Workspace.antt =====
-- The directories of lang.c and feed.c in the memory file system: the end of `lang_init`, and
-- `jug_feed_init`.
use kudos_judge.Base.{◌++◌, Bytes, ℤ, negsuc, Result, ok, error}
use kudos_judge.Verdict.{codes}

-- `mkdir` makes a directory, finds it there (EEXIST), or fails.
pub data Mkdir : Type 0 where
  makes finds fails : Mkdir

-- The directory of a name, or the error where it cannot be made.
abbrev workspace : Bytes → ℤ → (Bytes → Mkdir) → Result Bytes
workspace name code mkdir = elim (mkdir name) [ fails ↦ error code | _ ↦ ok name ]

-- "%s/%s" with the path of the ramfs
abbrev pub lang_workspace_name : Bytes → Bytes
lang_workspace_name path = path ++ codes "/lang-workspace"

abbrev pub feed_workspace_name : Bytes → Bytes
feed_workspace_name path = path ++ codes "/feed-workspace"

unfoldable pub lang_init_workspace : Bytes → (Bytes → Mkdir) → Result Bytes
lang_init_workspace path mkdir = workspace (lang_workspace_name path) (negsuc 4) mkdir

unfoldable pub feed_init : Bytes → (Bytes → Mkdir) → Result Bytes
feed_init path mkdir = workspace (feed_workspace_name path) (negsuc 0) mkdir
