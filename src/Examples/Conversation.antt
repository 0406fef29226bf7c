-- ===== src/Examples/Conversation.antt =====
-- A long conversation: brain/messages.go.
use ho.Brain.Messages.{
  Message, Role, user, assistant, tool, clean, clear_contexts, compact, zone, back_up, max_anchors,
  summarize_tool_call, prune_messages,
}
use ho.Brain.Messages.Recent.{Keeps, prune_messages-Keeps}
use ho.Brain.Messages.Paired.{Paired, prune_messages-Paired}
use ho.Prelude.{◌≡◌, refl}
use ho.Prelude.{some}
use ho.Prelude.{List, [], ◌∷◌, ◌++◌}
use ho.Prelude.Bytes.{Bytes, codes}

abbrev says : Role → Bytes → Message
says who text = record { role = who; content = text; calls = [] }

abbrev call : Message
call = record {
  role = assistant;
  content = [];
  calls =
      record { name = codes "manage_layout"; args = some ((codes "action", codes "save") ∷ []) }
      ∷ [];
}

abbrev talk : List Message
talk =
    says user (codes "Build it")
    ∷ says user (codes "[PAGE_CTX] one")
    ∷ call
    ∷ says tool (codes "ok")
    ∷ says user (codes "[PAGE_CTX] two")
    ∷ says assistant (codes "done")
    ∷ []

prune_messages-Keeps_example : Keeps 2 (clean talk) (prune_messages 2 talk)
prune_messages-Keeps_example = prune_messages-Keeps 2 talk refl

prune_messages-Paired_example : Paired 0 (prune_messages 2 talk)
prune_messages-Paired_example =
    prune_messages-Paired 2 talk (refl, refl, refl)
      (refl, (refl, (refl, (refl, (refl, (refl, tt))))))

pruned : prune_messages 2 talk ≡ (
    says user (codes "Build it")
    ∷ says user (codes "[Progress] saved layout")
    ∷ says user (codes "[PAGE_CTX] two")
    ∷ says assistant (codes "done")
    ∷ [])
unfolding prune_messages clean clear_contexts compact zone back_up max_anchors summarize_tool_call
pruned = refl

-- The results of one reply with an anchor between them, and what pruning leaves of them.
abbrev interleaved : List Message
interleaved =
    says user (codes "Build it")
    ∷ record { role = assistant; content = []; calls = call.calls ++ call.calls }
    ∷ says tool (codes "one")
    ∷ says user (codes "[ANCHOR] layout")
    ∷ says tool (codes "two")
    ∷ says assistant (codes "done")
    ∷ []

orphan : prune_messages 2 interleaved ≡ (
    says user (codes "Build it")
    ∷ says user (codes "[Progress] saved layout, saved layout")
    ∷ says user (codes "[ANCHOR] layout")
    ∷ says tool (codes "two")
    ∷ says assistant (codes "done")
    ∷ [])
unfolding prune_messages clean clear_contexts compact zone back_up max_anchors summarize_tool_call
orphan = refl
