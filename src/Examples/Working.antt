-- ===== src/Examples/Working.antt =====
-- A worker whose ports act on a world that counts commits and keeps one lock and one title.
use delphi.Base.{
  decimal, ◌%◌, ◌^◌, ℕ, ◌+◌, ◌≡◌, arith, refl, inr, false, none, some, Option, List, [], ◌∷◌, ◌++◌,
  Text, ok, codes, same, trim,
}
use delphi.Chat.Contracts.{ChatEvent, FinishReason, TurnRequested, ConversationDetail}
use delphi.Chat.Locks.{lock_key, set_lock, ChatLock, committed, requested}
use delphi.Chat.Worker.Titles.{
  TitlePorts, Titling, IsTitle, clean_title, title_of, generate_title, spawn_title_generation,
  spawn_title_generation-Keeps,
}
use delphi.Chat.Worker.{TurnPorts}
use delphi.Chat.Worker.Stream.{envelope, Signal, delta, poll, stop}
use delphi.Chat.Worker.Steps.{run_turn}
use delphi.Chat.Worker.Quiet.{Quiet, run_turn-Keeps}
use delphi.Chat.Events.{new_bus}
use delphi.Chat.Worker.Memory.{Backend, memory_ports, committed_redelivered}
use delphi.Examples.Demo.{demo}
use delphi.Examples.Chatting.{claimed}

pub record Desk : Type 0 where
  pub lock : Option (ChatLock demo)
  pub commits : ℕ
  pub events : ℕ
  pub title : Text

abbrev empty_conversation : ConversationDetail demo
empty_conversation = record {
  id = codes "c1";
  title = codes "New chat";
  messages = [];
  updated_at = 5;
}

abbrev ports : TurnPorts demo Desk
ports = record {
  now = λ w. (7, w);
  new_id = λ w. (codes "m9", w);
  load_lock = λ t c w. (ok w.lock, w);
  claim_lock = λ t c turn worker w. (ok claimed, w);
  mark_lock_terminal = λ t c turn worker terminal w. (ok claimed, w);
  mark_published = λ t c turn w. (ok tt, w);
  stop_requested = λ t c turn w. (ok false, w);
  release_lock = λ t c turn w. (tt, record w { lock = none });
  ack = λ turn w. (ok tt, w);
  publish = λ envelope w. (ok (codes "1"), record w { events = w.events + 1 });
  waiting_stops = λ w. ([], w);
  record_turn_failed = λ t u c turn error w. (ok tt, w);
  get_conversation = λ t u c w. (ok empty_conversation, w);
  commit_turn = λ t u c turn w. (ok empty_conversation, record w { commits = w.commits + 1 });
  commit_interrupted_turn =
      λ t u c turn w. (ok empty_conversation, record w { commits = w.commits + 1 });
  stream_chat = λ messages w. (ok tt, w);
  start_maintenance = λ w. (tt, w);
  end_maintenance = λ w. (tt, w);
  spawn_title_generation = λ text w. (tt, w);
}

abbrev command : TurnRequested demo
command = record {
  v = 1;
  command_id = codes "cmd";
  tenant_id = codes "t1";
  user_id = codes "u1";
  conversation_id = codes "c1";
  turn_id = codes "turn1";
  ts = 5;
}

-- The turn was committed, and its last event was not published.
abbrev desk : Desk
desk = record {
  lock = some (record claimed { state = committed; assistant_message_id = some (codes "m2") });
  commits = 1;
  events = 4;
  title = codes "New chat";
}

ports-Quiet : Quiet ports (λ w. w.commits ≡ 1)
ports-Quiet = record {
  now_keeps = λ w q. q;
  load_keeps = λ t c w q. q;
  mark_keeps = λ t c turn worker terminal w q. q;
  published_keeps = λ t c turn w q. q;
  release_keeps = λ t c turn w q. q;
  ack_keeps = λ turn w q. q;
  publish_keeps = λ envelope w q. q;
  record_keeps = λ t u c turn error w q. q;
}

run_turn-Keeps_example : (run_turn ports (codes "w1") command [] desk).1.commits ≡ 1
run_turn-Keeps_example =
    run_turn-Keeps ports (λ w. w.commits ≡ 1) ports-Quiet command (codes "w1") [] desk (inr refl)
      refl

-- The missing event is published, and the lock is released.
ended_desk :
    (run_turn ports (codes "w1") command [] desk).1
    ≡ record { lock = none; commits = 1; events = 5; title = codes "New chat" }
unfolding run_turn same
ended_desk = refl

abbrev signals : List Signal
signals = delta (codes "Hel") ∷ poll ∷ stop none ∷ delta (codes "lo") ∷ []

-- A turn that is claimed and driven commits once, and publishes five events.
abbrev waiting_desk : Desk
waiting_desk = record {
  lock = some (record claimed { state = requested });
  commits = 0;
  events = 0;
  title = codes "New chat";
}

driven :
    (run_turn ports (codes "w1") command signals waiting_desk).1
    ≡ record { lock = none; commits = 1; events = 5; title = codes "New chat" }
unfolding run_turn same trim
driven = refl

-- The task of a title, over a model that puts its answer in quotes.
abbrev title_ports : TitlePorts demo Desk
title_ports = record {
  stream_title =
      λ messages w. (ok (ok (0x201c ∷ codes "Gree") ∷ ok (codes "ting" ++ 0x201d ∷ []) ∷ []), w);
  rename_if_default = λ t u c title w. (ok (some empty_conversation), record w { title = title });
}

title_ports-Titling : Titling ports title_ports (λ w. IsTitle w.title)
title_ports-Titling = record {
  now_keeps = λ w q. q;
  publish_keeps = λ e w q. q;
  stream_keeps = λ messages w q. q;
  rename_keeps = λ t u c title titled w q. titled;
}

spawn_title_generation-Keeps_example :
    IsTitle (spawn_title_generation ports title_ports command claimed (codes "Hello") desk).1.title
spawn_title_generation-Keeps_example =
    spawn_title_generation-Keeps ports title_ports (λ w. IsTitle w.title) title_ports-Titling
      command claimed (codes "Hello") desk ((λ e. cc), omega arith)

greeting :
    (spawn_title_generation ports title_ports command claimed (codes "Hello") desk).1.title
    ≡ codes "Greeting"
unfolding spawn_title_generation generate_title title_of clean_title trim
greeting = refl

-- The same over the in-memory stores.
abbrev place : Text
place = lock_key (codes "t1") (codes "c1")

abbrev ended_lock : ChatLock demo
ended_lock = record claimed { state = committed; assistant_message_id = some (codes "m2") }

abbrev backend : Backend demo
backend = record {
  locks = set_lock place (some ended_lock) (λ key. none);
  bus = new_bus demo;
  rows = [];
  stops = [];
}

found_ended : backend.locks place ≡ some ended_lock
unfolding same
found_ended = refl

abbrev on_memory : TurnPorts demo (Backend demo)
on_memory = memory_ports 900 7 (codes "m9") (λ messages. ok tt)

committed_redelivered_example :
    ((run_turn on_memory (codes "w1") command [] backend).0 ≡ ok tt)
    × ((run_turn on_memory (codes "w1") command [] backend).1.rows ≡ [])
    × ((run_turn on_memory (codes "w1") command [] backend).1.locks place ≡ none)
    × ((run_turn on_memory (codes "w1") command [] backend).1.bus.event_log
        ≡ []
          ++ record {
            event_id = decimal ((0 + 1) % 2 ^ 64);
            envelope =
                envelope on_memory command (ChatEvent.finish (codes "m2") FinishReason.stop) 7;
          }
            ∷ [])
committed_redelivered_example =
    committed_redelivered 900 7 (codes "m9") (λ messages. ok tt) (codes "w1") command [] backend
      ended_lock (codes "m2") found_ended refl refl refl refl
