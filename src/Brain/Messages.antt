-- ===== src/Brain/Messages.antt =====
-- The messages kept of a long conversation with the model: pruneMessages and summarizeToolCall of
-- brain/messages.go. What json.Unmarshal makes of a call's arguments, its text fields, is part of
-- the call; the id of the call that a result answers is left out.
pub mod Bound
pub mod Recent
pub mod Paired
use ho.Prelude.{ℕ, zero, suc, ◌+◌, ◌-◌, ◌*◌, ◌/◌, ◌%◌, ◌≤◌, ◌<◌, ◌≡◌, refl, sym, ap, ◌∙◌, subst}
use ho.Prelude.{◌≢◌, ◌↔◌, ◌⊎◌, inl, inr, Bool, true, false, not, ◌&&◌, ◌||◌, Option, none, some}
use ho.Prelude.{
  List, [], ◌∷◌, ◌++◌, map, arith, if◌then◌else◌, ltb, leb, ◌==◌, Bool-cases, Option-cases,
}
use ho.Prelude.{length, All, any, all, select, take, drop, length-append, any-append, All-append}
use ho.Prelude.{All-map, take-drop, length-drop, ==_iff, ==_refl, String, min, max}
use ho.Prelude.Bytes.{Bytes, codes, same, has_prefix, join}
use ho.Prelude.Dict.{bytes_eq, find}

pub data Role : Type 0 where
  user assistant tool system : Role

pub record ToolCall : Type 0 where
  pub name : Bytes
  pub args : Option (List (Bytes × Bytes))

pub record Message : Type 0 where
  pub role : Role
  pub content : Bytes
  pub calls : List ToolCall

abbrev pub is_user : Message → Bool
is_user m = elim m.role [ user ↦ true | assistant ↦ false | tool ↦ false | system ↦ false ]

abbrev pub is_assistant : Message → Bool
is_assistant m = elim m.role [ user ↦ false | assistant ↦ true | tool ↦ false | system ↦ false ]

abbrev pub is_tool : Message → Bool
is_tool m = elim m.role [ user ↦ false | assistant ↦ false | tool ↦ true | system ↦ false ]

abbrev pub is_nil : Bytes → Bool
is_nil [] = true
is_nil (c ∷ s) = false

abbrev pub is_page_context : Message → Bool
is_page_context m = is_user m && has_prefix m.content (codes "[PAGE_CTX]")

abbrev pub is_anchor : Message → Bool
is_anchor m = is_user m && has_prefix m.content (codes "[ANCHOR]")

-- args[name].(string), empty where there is none
abbrev field : Bytes → List (Bytes × Bytes) → Bytes
field name args = elim (find name args) [ none ↦ [] | some value ↦ value ]

abbrev unless_nil : Bytes → Bytes → Bytes
unless_nil value summary = if is_nil value then [] else summary

abbrev summarize_args : Bytes → List (Bytes × Bytes) → Bytes
summarize_args name args =
    let action = field (codes "action") args in
    let path = field (codes "path") args in
    let table = field (codes "table_name") args in
    let file = field (codes "filename") args in
    if same name (codes "manage_pages")
    then (if same action (codes "save") then unless_nil path (codes "built page " ++ path) else [])
    else if same name (codes "manage_schema")
    then (if same action (codes "create")
        then unless_nil table (codes "created table " ++ table)
        else [])
    else if same name (codes "manage_endpoints")
    then (if has_prefix action (codes "create_")
        then unless_nil path (action ++ (codes " /api/" ++ path))
        else [])
    else if same name (codes "manage_files")
    then unless_nil file (codes "saved " ++ file)
    else if same name (codes "manage_layout")
    then (if same action (codes "save") then codes "saved layout" else [])
    else if same name (codes "manage_data")
    then (if same action (codes "insert") then unless_nil table (codes "seeded " ++ table) else [])
    else []

-- A line on a tool call, empty where there is nothing to tell.
unfoldable pub summarize_tool_call : ToolCall → Bytes
summarize_tool_call call = elim call.args [ none ↦ [] | some args ↦ summarize_args call.name args ]

abbrev summaries : List ToolCall → List Bytes
summaries calls = select (λ s. not (is_nil s)) (map summarize_tool_call calls)

abbrev pub parts_of : Message → List Bytes
parts_of m = if is_assistant m then summaries m.calls else []

-- A message whose content is cleared.
abbrev pub cleared : Message
cleared = record { role = user; content = []; calls = [] }

-- From the last message back: every [PAGE_CTX] but the latest is cleared.
unfoldable pub clear_contexts : List Message → List Message
clear_contexts [] = []
clear_contexts (m ∷ ms) =
    let rest = clear_contexts ms in
    if is_page_context m && any is_page_context ms then cleared ∷ rest else m ∷ rest

-- latestPageCtx > 0
abbrev pub has_later_context : List Message → Bool
has_later_context [] = false
has_later_context (m ∷ ms) = any is_page_context ms

-- The messages that the rebuild keeps.
abbrev pub is_kept : Message → Bool
is_kept m = not (is_nil m.content) || not (is_user m)

unfoldable pub clean : List Message → List Message
clean ms = if has_later_context ms then select is_kept (clear_contexts ms) else clear_contexts ms

abbrev pub count : (Message → Bool) → List Message → ℕ
count p ms = length (select p ms)

-- The anchors that may be kept, by the number of anchors.
unfoldable pub max_anchors : ℕ → ℕ
max_anchors n = min 24 (14 + n / 3)

abbrev pub progress : List Bytes → Message
progress parts = record {
  role = user;
  content = codes "[Progress] " ++ join (codes ", ") parts;
  calls = [];
}

-- A pending summary is written out.
abbrev pub flush : List Bytes → List Message → List Message
flush [] ms = ms
flush (p ∷ parts) ms = progress (p ∷ parts) ∷ ms

-- The zone between the first message and the recent ones: the first anchors of the budget stay, the
-- calls of the others are summarized.
unfoldable pub zone : ℕ → List Bytes → List Message → List Message
zone budget parts [] = flush parts []
zone budget parts (m ∷ ms) =
    let kept = zone (budget - 1) [] ms in
    let rest = zone budget (parts ++ parts_of m) ms in
    if is_anchor m && ltb 0 budget then flush parts (m ∷ kept) else rest

abbrev pub starts_with_tool : List Message → Bool
starts_with_tool [] = false
starts_with_tool (m ∷ ms) = is_tool m

-- Where the recent messages start: not at the result of a tool, if it can be helped.
unfoldable pub back_up : ℕ → List Message → ℕ
back_up zero ms = 0
back_up (suc k) ms =
    let before = back_up k ms in
    if ltb 0 k && starts_with_tool (drop (suc k) ms) then before else suc k

abbrev pub first : List Message → List Message
first ms = take 1 ms

-- The end of pruneMessages, for the messages that are left and more than the recent ones.
unfoldable pub compact : ℕ → List Message → List Message
compact max_recent ms =
    let start = length ms - max_recent in
    let recent = back_up start ms in
    let anchors = count is_anchor (take (start - 1) (drop 1 ms)) in
    first ms ++ (zone (max_anchors anchors) [] (take (recent - 1) (drop 1 ms)) ++ drop recent ms)

unfoldable pub prune_messages : ℕ → List Message → List Message
prune_messages max_recent ms =
    if leb (length ms) (max_recent + 1)
    then ms
    else if has_later_context ms && leb (length (clean ms)) (max_recent + 1)
    then clean ms
    else compact max_recent (clean ms)
