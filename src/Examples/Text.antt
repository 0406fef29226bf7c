-- ===== src/Examples/Text.antt =====
-- brain/plan.go, on texts that a language model returned.
use ho.Prelude.{◌≡◌, refl, [], ◌∷◌, some}
use ho.Prelude.Bytes.{Bytes, codes}
use ho.Brain.Json.{
  close_text, repair_trimmed, scan, scan_byte, bracket, repair_truncated_json, find_json_end,
  end_from,
}
use ho.Brain.Json.Nested.{
  plain, at, read, read_from, read_byte, Repaired, repair_truncated_json-Repaired,
}

abbrev cut : Bytes
cut = codes "{\"pages\":[{\"path\":1},"

cut-reading : read cut ≡ some (at (b']' ∷ b'}' ∷ []) plain)
unfolding read_from read_byte
cut-reading = refl

repair_truncated_json-Repaired_example : Repaired cut (repair_truncated_json cut)
repair_truncated_json-Repaired_example =
    repair_truncated_json-Repaired cut (at (b']' ∷ b'}' ∷ []) plain) refl cut-reading refl

mended : repair_truncated_json cut ≡ codes "{\"pages\":[{\"path\":1}]}"
unfolding repair_truncated_json repair_trimmed close_text scan scan_byte bracket
mended = refl

-- A key without its value is kept: the repaired text is nested, but no JSON.
lone_key : repair_truncated_json (codes "{\"a\":") ≡ codes "{\"a\"}"
unfolding repair_truncated_json repair_trimmed close_text scan scan_byte bracket
lone_key = refl

abbrev object : Bytes
object = codes "{\"a\":[\"}\"]}"

object-end : find_json_end object ≡ some 11
unfolding find_json_end end_from
object-end = refl
