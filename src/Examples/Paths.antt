-- ===== src/Examples/Paths.antt =====
-- Names of stored files: tools/storage.go.
use ho.Tools.Paths.{sanitize_path, sanitize_filename}
use ho.Tools.Paths.Clean.{sanitize_filename-IsInside}
use ho.Server.Api.Folder.{IsInside}
use ho.Prelude.{◌≡◌, refl}
use ho.Prelude.Bytes.{codes}

sanitize_filename-IsInside_example :
    IsInside (sanitize_filename (codes "/../assets\\css/./site.css") (codes "assets"))
sanitize_filename-IsInside_example =
    sanitize_filename-IsInside (codes "/../assets\\css/./site.css") (codes "assets")

stripped :
    sanitize_filename (codes "/../assets\\css/./site.css") (codes "assets") ≡ codes "css/site.css"
unfolding sanitize_filename sanitize_path
stripped = refl
