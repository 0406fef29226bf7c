-- ===== src/Examples/Api.antt =====
-- Requests to the public API: server/public/handler.go.
use ho.Server.Api.Columns.{Endpoint, fields_of, field_columns, strip_row}
use ho.Server.Api.Fields.{IsFieldList, fields_of-IsFieldList, is_stripped, strip_row-find}
use ho.Server.Api.Folder.{IsInside, sanitize_upload_folder, sanitize_upload_folder-IsInside}
use ho.Server.Api.Window.{is_recent, end_time, run, run-is_recent}
use ho.Server.Api.Pages.{slash, find_param_page, extract, IsFirst, fill, find_param_page-fill}
use ho.Prelude.{ℕ, ◌≤◌, ◌≡◌, refl}
use ho.Prelude.{none, some}
use ho.Prelude.{List, [], ◌∷◌, map, if◌then◌else◌}
use ho.Prelude.{length, select}
use ho.Prelude.Bytes.{Bytes, codes, split}
use ho.Prelude.Dict.{bytes_eq, find}

abbrev users : Endpoint
users = record {
  public_columns = [];
  secure_columns = (codes "secret", codes "hash") ∷ (codes "token", codes "encrypt") ∷ [];
}

fields_of-IsFieldList_example : IsFieldList users (fields_of users (codes "name, secret,x;y,name"))
fields_of-IsFieldList_example = fields_of-IsFieldList users (codes "name, secret,x;y,name")

named_fields : fields_of users (codes "name, secret,x;y,name") ≡ codes "id" ∷ codes "name" ∷ []
unfolding fields_of field_columns
named_fields = refl

abbrev user_row : List (Bytes × ℕ)
user_row = (codes "id", 1) ∷ (codes "secret", 2) ∷ (codes "token", 3) ∷ []

strip_row-find_example : find (codes "token") (strip_row users.secure_columns user_row) ≡ (
    if is_stripped (codes "token") users.secure_columns
    then none
    else find (codes "token") user_row)
strip_row-find_example = strip_row-find users.secure_columns (codes "token") user_row

-- An encrypted column stays.
token_kept : strip_row users.secure_columns user_row ≡ (codes "id", 1) ∷ (codes "token", 3) ∷ []
unfolding strip_row
token_kept = refl

sanitize_upload_folder-IsInside_example : IsInside (sanitize_upload_folder (codes "../a/ .. /b"))
sanitize_upload_folder-IsInside_example = sanitize_upload_folder-IsInside (codes "../a/ .. /b")

cleaned : sanitize_upload_folder (codes "../a/ .. /b") ≡ codes "a/b"
unfolding sanitize_upload_folder
cleaned = refl

abbrev waits : List ℕ
waits = 1 ∷ 2 ∷ 70000000000 ∷ []

run-is_recent_example :
    length (select (is_recent (end_time 5 waits)) (run (codes "k") 2 5 waits ([], [])).1) ≤ 2
run-is_recent_example = run-is_recent (codes "k") 2 5 waits

abbrev pages : List Bytes
pages = codes "/shop/:id" ∷ codes "/thread/:id/by/:user" ∷ []

abbrev path : Bytes
path = codes "/thread/4/by/ann"

abbrev params : List (Bytes × Bytes)
params = (codes "id", codes "4") ∷ (codes "user", codes "ann") ∷ []

found : find_param_page pages path ≡ some (codes "/thread/:id/by/:user", params)
unfolding find_param_page extract
found = refl

find_param_page-fill_example :
    IsFirst pages path (codes "/thread/:id/by/:user") params
    × (map (fill params) (split slash (codes "/thread/:id/by/:user")) ≡ map some (split slash path))
find_param_page-fill_example =
    find_param_page-fill pages path (codes "/thread/:id/by/:user") params
      ((tt, (tt, (refl, (tt, (refl, tt)))))) found
