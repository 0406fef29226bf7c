-- ===== src/Tools/Paths.antt =====
-- The names of stored files: sanitizePath and sanitizeFilename of tools/storage.go.
pub mod Clean
use ho.Server.Api.Folder.{slash, to_slashes, clean_parts}
use ho.Prelude.{◌==◌, [], ◌∷◌, ◌++◌, length, drop, if◌then◌else◌}
use ho.Prelude.Bytes.{Bytes, split, join, trim_left, has_prefix}

abbrev pub without_root : Bytes → Bytes
without_root name = if has_prefix name (slash ∷ []) then trim_left (λ c. c == slash) name else name

-- The parts are cleaned as sanitizeUploadFolder of server/public/handler.go does it.
unfoldable pub sanitize_path : Bytes → Bytes
sanitize_path name = join (slash ∷ []) (clean_parts (split slash (without_root (to_slashes name))))

abbrev pub cut_prefix : Bytes → Bytes → Bytes
cut_prefix name prefix = if has_prefix name prefix then drop (length prefix) name else name

unfoldable pub sanitize_filename : Bytes → Bytes → Bytes
sanitize_filename name storage_dir = cut_prefix (sanitize_path name) (storage_dir ++ (slash ∷ []))
