-- ===== src/Brain/Tasks/Names.antt =====
-- Names that may stand in the text of a statement: isSafeName of brain/scheduled.go.
use ho.Prelude.{ℕ}
use ho.Prelude.{Bool, ◌&&◌, ◌||◌}
use ho.Prelude.{ltb, leb, ◌==◌}
use ho.Prelude.{length, all}
use ho.Prelude.Bytes.{Bytes}

abbrev pub is_safe_char : ℕ → Bool
is_safe_char c =
    (leb b'a' c && leb c b'z')
    || ((leb b'A' c && leb c b'Z') || ((leb b'0' c && leb c b'9') || c == b'_'))

abbrev pub is_safe_name : Bytes → Bool
is_safe_name name = all is_safe_char name && ltb 0 (length name)
