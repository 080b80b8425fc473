-- ===== src/Concord/DocResource.antt =====
-- apps/server/src/concord/store.ts: a shared document is a repository file.
use please_hire_me.Prelude.{[], ◌∷◌, ◌++◌, ◌==◌, if◌then◌else◌, Text, codes}

-- `docId.replace(/^\/+/, "")`.
unfoldable pub strip_slashes : Text → Text
strip_slashes [] = []
strip_slashes (c ∷ s) = if c == b'/' then strip_slashes s else c ∷ s

unfoldable pub doc_resource : Text → Text
unfolding strip_slashes
doc_resource doc_id = codes "repo:" ++ strip_slashes doc_id
