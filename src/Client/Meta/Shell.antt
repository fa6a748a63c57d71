-- ===== src/Client/Meta/Shell.antt =====
-- crates/precall-client/src/meta.rs: `explorer_paths`, over the location URLs of the shell
-- windows.
use pre_call.Prelude.{Text, codes, List, [], ◌∷◌, Option, none, some, strip_prefix, ◌==◌}
use pre_call.Prelude.Print.{after_last, replace, rsplit_once, trim_end_matches}
use pre_call.Proto.Metadata.{FileRecord}
use pre_call.Client.Meta.{Desktop}

-- The record for what follows `file:///`.
unfoldable pub folder_record : Text → FileRecord
unfolding replace after_last rsplit_once trim_end_matches
folder_record rest =
    let path = replace b'/' b'\\' rest in
    let name = after_last (λ c. c == b'\\') path in
    record {
      path = trim_end_matches b'\\' path;
      name = name;
      extension = rsplit_once b'.' name;
      kind = some (codes "folder");
      file_type = none;
      properties = none;
      object_id = none;
      volume_id = none;
    }

push_folder : Option Text → List FileRecord → List FileRecord
unfolding folder_record
push_folder none rest = rest
push_folder (some path) rest = folder_record path ∷ rest

unfoldable pub folders : List (Option Text) → List FileRecord
unfolding push_folder strip_prefix
folders [] = []
folders (none ∷ rest) = folders rest
folders (some url ∷ rest) = push_folder (strip_prefix (codes "file:///") url) (folders rest)

from_windows : Option (List (Option Text)) → List FileRecord
unfolding folders
from_windows none = []
from_windows (some urls) = folders urls

unfoldable pub explorer_paths : Desktop → List FileRecord
unfolding from_windows
explorer_paths d = from_windows d.shell_windows
