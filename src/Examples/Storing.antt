-- ===== src/Examples/Storing.antt =====
-- A conversation with one turn, and another one of another user.
use delphi.Base.{
  List, ◌++◌, inr, arith, ◌≡◌, refl, false, none, some, [], ◌∷◌, ok, err, codes, same, All,
  if◌then◌else◌,
}
use delphi.Chat.Contracts.{ConversationDetail, ConversationSummary, MessageDto}
use delphi.Chat.Repository.{
  StoredConversation, MemoryState, row_at, visible_to, forbidden, not_found, get_conversation,
  list_conversations, assert_parent_tail, new_row, to_detail, visible_row,
}
use delphi.Chat.Repository.Commit.{Turn, commit_turn_with_metadata, committed}
use delphi.Chat.Repository.Calls.{commit, run_call}
use delphi.Chat.Repository.Visibility.{IsListed, hidden_stays}
use delphi.Chat.Repository.Turns.{IsConversation, run_call-IsConversation}
use delphi.Chat.Repository.ReadBack.{
  IsKept, IsUserMessage, IsAssistantMessage, commit_turn-get_conversation,
}
use delphi.Examples.Demo.{demo}

abbrev mine : StoredConversation demo
mine = new_row (codes "t1") (codes "u1") none 1 (codes "c1")

abbrev theirs : StoredConversation demo
theirs = new_row (codes "t1") (codes "u2") (some (codes "Plans")) 2 (codes "c2")

abbrev rows : MemoryState demo
rows = mine ∷ theirs ∷ []

abbrev turn : Turn
turn = record {
  turn_id = codes "turn1";
  user_message_id = codes "m1";
  user_text = codes "hello";
  parent_message_id = none;
  assistant_message_id = codes "m2";
  assistant_text = codes "hi";
  citations = [];
}

found_theirs : row_at (codes "c2") rows ≡ some theirs
unfolding row_at same
found_theirs = refl

hidden_stays_example :
    (row_at
        (codes "c2")
        (run_call (codes "t1") (codes "u1") (commit (codes "c2") turn false none 5) rows)
      ≡ some theirs)
    × (get_conversation (codes "t1") (codes "u1") (codes "c2") rows
        ≡ (err (if same theirs.tenant_id (codes "t1") then forbidden else not_found), rows))
    × ((assert_parent_tail (codes "t1") (codes "u1") (codes "c2") none rows).0
        ≡ err (if same theirs.tenant_id (codes "t1") then forbidden else not_found))
    × (listed : List (ConversationSummary demo)) × (list_conversations
          (codes "t1")
          (codes "u1")
          rows
        ≡ (ok listed, rows))
    × All (IsListed (codes "t1") (codes "u1") rows) listed
hidden_stays_example =
    hidden_stays (codes "t1") (codes "u1") (codes "c2") theirs none
      (commit (codes "c2") turn false none 5) rows (inr (inr (λ h. absurd (ground arith)))) tt
      found_theirs

rows-IsConversation : All IsConversation rows
rows-IsConversation =
    (record { chained = tt; counted = refl }, (record { chained = tt; counted = refl }, tt))

run_call-IsConversation_example :
    All IsConversation
      (run_call (codes "t1") (codes "u1") (commit (codes "c1") turn false none 5) rows)
run_call-IsConversation_example =
    run_call-IsConversation (codes "t1") (codes "u1") (commit (codes "c1") turn false none 5) rows
      rows-IsConversation

abbrev detail : ConversationDetail demo
detail = to_detail (committed turn false none 5 0 mine)

committed_detail :
    (commit_turn_with_metadata (codes "t1") (codes "u1") (codes "c1") turn false none 5 rows).0
    ≡ ok detail
unfolding commit_turn_with_metadata visible_row row_at visible_to same
committed_detail = refl

commit_turn-get_conversation_example :
    (row : StoredConversation demo) × (kept : List (MessageDto demo)) × (asked : MessageDto demo)
    × (answered : MessageDto demo) × (row_at (codes "c1") rows ≡ some row)
    × (detail.id ≡ row.id)
    × (detail.title ≡ row.title)
    × IsKept none row.messages kept
    × (detail.messages ≡ kept ++ asked ∷ (answered ∷ []))
    × IsUserMessage turn 5 asked
    × IsAssistantMessage turn false none 5 answered
    × ((get_conversation
          (codes "t1")
          (codes "u1")
          (codes "c1")
          (commit_turn_with_metadata
            (codes "t1")
            (codes "u1")
            (codes "c1")
            turn
            false
            none
            5
            rows).1).0
        ≡ ok detail)
    × ((assert_parent_tail
          (codes "t1")
          (codes "u1")
          (codes "c1")
          (some (codes "m2"))
          (commit_turn_with_metadata
            (codes "t1")
            (codes "u1")
            (codes "c1")
            turn
            false
            none
            5
            rows).1).0
        ≡ ok tt)
commit_turn-get_conversation_example =
    commit_turn-get_conversation (codes "t1") (codes "u1") (codes "c1") turn false none 5 rows
      detail committed_detail
