-- ===== src/Build/Version/File.antt =====
-- `resolve_auto_version` and `existing_versions` (src/authoring/build.rs) together: where the manifest
-- of the next build goes.
use smrt.Base.{map, Option, some, List, ℕ-Eq, Text, Text-Eq}
use smrt.Base.Results.{Result, ok}

-- the answers for a directory that is read to its end and holds these files
abbrev pub whole : List Text → Result (List (Result (Option Text)))
whole names = ok (map (λ (name : Text). ok (some name)) names)
