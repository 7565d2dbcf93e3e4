-- ===== src/Chat/Worker/Titles.antt =====
-- services/chat-worker/src/main.rs: the title that the task of a finished turn makes for its
-- conversation. The model's stream is the list of what it gives, and the logs are left out.
use delphi.Base.{
  ℕ, zero, suc, ◌-◌, ◌≤◌, ◌≡◌, ◌≢◌, refl, Bool, false, not, ◌&&◌, ◌==◌, Option, none, some, List,
  [], ◌∷◌, ◌++◌, Text, Result, ok, err, Action, Keeps, pure, ◌>>=◌, codes, trim, take, drop, length,
  any, is_empty, head?, last?, ltb, leb, if◌then◌else◌, arith, and_some,
}
use delphi.Platform.{Platform}
use delphi.Chat.Contracts.{
  MessageRole, ConversationDetail, TurnRequested, ChatEvent, ChatEventEnvelope,
}
use delphi.Chat.Locks.{ChatLock}
use delphi.Chat.Repository.{StorageError}
use delphi.Chat.Worker.{TurnPorts, LlmMessage}
use delphi.Chat.Worker.Stream.{envelope}

abbrev pub quotes : List ℕ
quotes = 34 ∷ 39 ∷ 0x201c ∷ 0x201d ∷ 0x2018 ∷ 0x2019 ∷ []

abbrev pub is_quote : Option ℕ → Bool
is_quote none = false
is_quote (some c) = any (λ quote. quote == c) quotes

-- The title without the quotes around it.
unfoldable pub without_quotes : Text → Text
without_quotes title =
    if leb 2 (length title) && (is_quote (head? title) && is_quote (last? title))
    then trim (take (length title - 2) (drop 1 title))
    else title

unfoldable pub shortened : Text → Text
shortened title = if ltb 60 (length title) then take 60 title else title

unfoldable pub clean_title : Text → Text
unfolding shortened without_quotes
clean_title raw = shortened (without_quotes (trim raw))

abbrev pub title_prompt : Text → Text → List LlmMessage
title_prompt user_msg assistant_msg =
    record {
      role = MessageRole.system;
      content =
          codes
            "You produce concise chat titles. Respond with ONLY the title (no quotes, no preamble), 60 characters or less, summarising the user's question.";
    }
    ∷ record {
      role = MessageRole.user;
      content =
          codes "User: "
          ++ user_msg
          ++ 10 ∷ 10 ∷ codes "Assistant: "
          ++ assistant_msg
          ++ 10 ∷ 10 ∷ codes "Title:";
    }
    ∷ []

-- The loop over the stream, from the text so far.
unfoldable pub collected : Text → List (Result Text Text) → Option Text
collected output [] = some output
collected output (ok text ∷ items) = collected (output ++ text) items
collected output (err error ∷ items) = none

unfoldable pub title_of : Text → Option Text
unfolding clean_title
title_of output =
    let title = clean_title output in if not (is_empty title) then some title else none

unfoldable pub title_from : Result Text (List (Result Text Text)) → Option Text
unfolding collected title_of
title_from (ok items) = and_some (collected [] items) title_of
title_from (err error) = none

-- The calls of the task: `title_llm` and the repository.
pub record TitlePorts (x : Platform) (W : Type 0) : Type 0 where
  pub stream_title : List LlmMessage → Action W (Result Text (List (Result Text Text)))
  pub rename_if_default :
      Text → Text → Text → Text → Action W (Result StorageError (Option (ConversationDetail x)))

module _ {x : Platform} {W : Type 0} (p : TurnPorts x W) (t : TitlePorts x W) where
  unfoldable pub generate_title : Text → Text → Action W (Option Text)
  unfolding title_from
  generate_title user_msg assistant_msg = do
    stream ← t.stream_title (title_prompt user_msg assistant_msg)
    pure (title_from stream)

  -- What follows the rename, whose publication may fail.
  abbrev pub after_rename :
      TurnRequested x
      → Text
      → Result StorageError (Option (ConversationDetail x))
      → Action W (Unit {0})
  after_rename command title (ok (some conversation)) = do
    now ← p.now
    published ← p.publish (envelope p command (ChatEvent.title_updated title) now)
    pure tt
  after_rename command title (ok none) = pure tt
  after_rename command title (err error) = pure tt

  unfoldable pub after_title : TurnRequested x → ChatLock x → Option Text → Action W (Unit {0})
  after_title command lock none = pure tt
  after_title command lock (some title) = do
    renamed ← t.rename_if_default command.tenant_id lock.user_id command.conversation_id title
    after_rename command title renamed

  unfoldable pub spawn_title_generation : TurnRequested x → ChatLock x → Text → Action W (Unit {0})
  unfolding generate_title after_title
  spawn_title_generation command lock assistant_text = do
    title ← generate_title lock.text assistant_text
    after_title command lock title

-- A title that a conversation may be given.
abbrev pub IsTitle : Text → Type 0
IsTitle title = (title ≢ []) × (length title ≤ 60)

length-take : {A : Type 0} (n : ℕ) (xs : List A) → length (take n xs) ≤ n
length-take zero xs = omega arith
length-take (suc n) [] = omega arith
length-take (suc n) (a ∷ xs) = omega (arith, length-take n xs)

length-shortened : (title : Text) → length (shortened title) ≤ 60
unfolding shortened
length-shortened title = ground (arith, length-take 60 title)

kept-cases :
    (raw title : Text)
    → (if not (is_empty raw) then some raw else none) ≡ some title
    → (title ≢ []) × (raw ≡ title)
kept-cases [] title h = absurd (cc)
kept-cases (c ∷ raw) title h = (λ e. cc, cc)

title_of-IsTitle : (output title : Text) → title_of output ≡ some title → IsTitle title
unfolding title_of clean_title
title_of-IsTitle output title h =
    let (nonempty, found) = kept-cases (clean_title output) title h in
    (nonempty, rw (← found) (length-shortened (without_quotes (trim output))))

and_some-IsTitle :
    (output : Option Text) (title : Text) → and_some output title_of ≡ some title → IsTitle title
and_some-IsTitle none title h = absurd (cc)
and_some-IsTitle (some output) title h = title_of-IsTitle output title h

title_from-IsTitle :
    (stream : Result Text (List (Result Text Text))) (title : Text)
    → title_from stream ≡ some title
    → IsTitle title
unfolding title_from
title_from-IsTitle (ok items) title h = and_some-IsTitle (collected [] items) title h
title_from-IsTitle (err error) title h = absurd (cc)

-- The calls that the task makes keep a fact of the world, the rename where the title is one of one
-- to sixty characters.
pub record Titling {x : Platform} {W : Type 0} (p : TurnPorts x W) (t : TitlePorts x W)
    (Q : W → Type 0) : Type 0 where
  pub now_keeps : Keeps Q p.now
  pub publish_keeps : (e : ChatEventEnvelope x) → Keeps Q (p.publish e)
  pub stream_keeps : (messages : List LlmMessage) → Keeps Q (t.stream_title messages)
  pub rename_keeps :
      (tenant user conversation title : Text)
      → IsTitle title
      → Keeps Q (t.rename_if_default tenant user conversation title)

module _ {x : Platform} {W : Type 0} (p : TurnPorts x W) (t : TitlePorts x W) (Q : W → Type 0)
    (titling : Titling p t Q) (command : TurnRequested x) (lock : ChatLock x) where
  after_rename-Keeps :
      (title : Text) (r : Result StorageError (Option (ConversationDetail x)))
      → Keeps Q (after_rename p t command title r)
  after_rename-Keeps title (ok (some conversation)) w q =
      titling.publish_keeps (envelope p command (ChatEvent.title_updated title) (p.now w).0)
        (p.now w).1 (titling.now_keeps w q)
  after_rename-Keeps title (ok none) w q = q
  after_rename-Keeps title (err error) w q = q

  after_title-Keeps :
      (title : Option Text)
      → ((kept : Text) → title ≡ some kept → IsTitle kept)
      → Keeps Q (after_title p t command lock title)
  unfolding after_title
  after_title-Keeps none valid w q = q
  after_title-Keeps (some title) valid w q =
      let renamed =
        t.rename_if_default command.tenant_id lock.user_id command.conversation_id title w in
      after_rename-Keeps title renamed.0 renamed.1 (
        titling.rename_keeps command.tenant_id lock.user_id command.conversation_id title
          (valid title refl) w q)

  -- The task of a title leaves true every fact that its calls keep, where of its rename that is
  -- asked at titles of one to sixty characters only: whatever the model answers, no conversation is
  -- given a title that is empty or longer.
  pub spawn_title_generation-Keeps :
      (assistant_text : Text) (w : W)
      → Q w
      → Q (spawn_title_generation p t command lock assistant_text w).1
  unfolding spawn_title_generation generate_title
  spawn_title_generation-Keeps assistant_text w q =
      let stream = t.stream_title (title_prompt lock.text assistant_text) w in
      after_title-Keeps (title_from stream.0) (title_from-IsTitle stream.0) stream.1
        (titling.stream_keeps (title_prompt lock.text assistant_text) w q)
