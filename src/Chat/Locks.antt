-- ===== src/Chat/Locks.antt =====
-- crates/nats/src/lib.rs: the lock of a conversation, which carries the turn that is in flight, in
-- the in-memory bus. An operation is given two readings of the clock where the code takes two: the
-- one that its test of the lease reads, and the later one that a new lease starts from.
pub mod Calls
pub mod Exclusion
pub mod Ending
use delphi.Base.{
  ℕ, Bool, true, false, not, ◌&&◌, ◌||◌, Option, none, some, ◌∷◌, ◌++◌, Text, Result, ok, err,
  Action, pure, codes, same, same_option, if◌then◌else◌,
}
use delphi.Platform.{Platform}

pub data ChatBusError : Type 0 where
  unavailable : ChatBusError
  payload : Text → ChatBusError
  in_flight : ChatBusError

pub data ChatLockState : Type 0 where
  requested running committed interrupted failed : ChatLockState

pub record ChatLock (x : Platform) : Type 0 where
  pub tenant_id : Text
  pub user_id : Text
  pub conversation_id : Text
  pub turn_id : Text
  pub user_message_id : Text
  pub text : Text
  pub parent_message_id : Option Text
  pub bearer_subject : Text
  pub state : ChatLockState
  pub worker_id : Option Text
  pub stop_requested : Bool
  pub stop_requested_by : Option Text
  pub stop_requested_at : Option x.Time
  pub lease_expires_at : x.Time
  pub assistant_message_id : Option Text
  pub terminal_content : Option Text
  pub terminal_error : Option Text
  pub terminal_event_published : Bool

pub record ChatTerminalUpdate : Type 0 where
  pub state : ChatLockState
  pub assistant_message_id : Option Text
  pub content : Option Text
  pub error : Option Text

-- `ChatSubjects::lock_key`
abbrev pub lock_key : Text → Text → Text
lock_key tenant conversation = tenant ++ (b'/' ∷ conversation)

abbrev pub is_terminal_state : ChatLockState → Bool
is_terminal_state committed = true
is_terminal_state interrupted = true
is_terminal_state failed = true
is_terminal_state other = false

abbrev pub is_running : ChatLockState → Bool
is_running running = true
is_running other = false

-- `lock_expires_at`, at a reading of the clock; `chat_lock_ttl` is `ttl`, in seconds.
abbrev pub lock_expires_at : (x : Platform) → ℕ → x.Time → x.Time
lock_expires_at x ttl now = x.plus_seconds now ttl

-- The map of the locks, by key.
abbrev pub Locks : Platform → Type 0
Locks x = Text → Option (ChatLock x)

module _ {x : Platform} where
  abbrev pub set_lock : Text → Option (ChatLock x) → Locks x → Locks x
  set_lock key lock locks k = if same key k then lock else locks k

  abbrev pub is_expired : x.Time → ChatLock x → Bool
  is_expired now lock = x.at_or_before lock.lease_expires_at now

  abbrev pub is_terminal : ChatLock x → Bool
  is_terminal lock = is_terminal_state lock.state

  -- `is_some_and`, on a lock
  abbrev pub some_lock : (ChatLock x → Bool) → Option (ChatLock x) → Bool
  some_lock p none = false
  some_lock p (some lock) = p lock

  abbrev pub of_turn : Text → ChatLock x → Bool
  of_turn turn lock = same lock.turn_id turn

  abbrev pub of_worker : Text → ChatLock x → Bool
  of_worker worker lock = same_option lock.worker_id (some worker)

  -- `if let Some(worker_id) = worker_id { ... }`
  abbrev pub other_worker : Option Text → ChatLock x → Bool
  other_worker none lock = false
  other_worker (some worker) lock = not (of_worker worker lock)

  -- What a write through `get_mut` leaves, and the clone that is answered.
  abbrev pub answer_with : Text → ChatLock x → Action (Locks x) (Result ChatBusError (ChatLock x))
  answer_with key lock locks = (ok lock, set_lock key (some lock) locks)

  abbrev pub refuse : {A : Type 0} → ChatBusError → Action (Locks x) (Result ChatBusError A)
  refuse error locks = (err error, locks)

  unfoldable pub acquire_lock :
      x.Time → ChatLock x → Action (Locks x) (Result ChatBusError (Unit {0}))
  acquire_lock now lock locks =
      let key = lock_key lock.tenant_id lock.conversation_id in
      if some_lock (λ old. not (is_expired now old)) (locks key)
      then (err in_flight, locks)
      else (ok tt, set_lock key (some lock) locks)

  unfoldable pub load_lock :
      Text → Text → Action (Locks x) (Result ChatBusError (Option (ChatLock x)))
  load_lock tenant conversation locks = (ok (locks (lock_key tenant conversation)), locks)

module _ {x : Platform} (ttl : ℕ) where
  -- `ChatLock::requested`
  abbrev pub requested_lock :
      Text → Text → Text → Text → Text → Text → Option Text → Text → x.Time → ChatLock x
  requested_lock tenant user conversation turn user_message text parent subject now = record {
    tenant_id = tenant;
    user_id = user;
    conversation_id = conversation;
    turn_id = turn;
    user_message_id = user_message;
    text = text;
    parent_message_id = parent;
    bearer_subject = subject;
    state = requested;
    worker_id = none;
    stop_requested = false;
    stop_requested_by = none;
    stop_requested_at = none;
    lease_expires_at = lock_expires_at x ttl now;
    assistant_message_id = none;
    terminal_content = none;
    terminal_error = none;
    terminal_event_published = false;
  }

  -- The claim of a lock that is there.
  unfoldable pub claim :
      Text
      → Text
      → Text
      → x.Time
      → x.Time
      → ChatLock x
      → Action (Locks x) (Result ChatBusError (ChatLock x))
  claim key turn worker now after lock =
      if of_turn turn lock
      then if is_terminal lock
        then pure (ok lock)
        else if is_expired now lock
        then refuse (payload (codes "chat lock payload expired before worker claim"))
        else if is_running lock.state && not (of_worker worker lock)
        then refuse in_flight
        else answer_with key (record lock {
          state = running;
          worker_id = some worker;
          lease_expires_at = lock_expires_at x ttl after;
        })
      else if not (is_expired now lock)
      then refuse in_flight
      else refuse (payload (codes "chat lock payload missing before worker claim"))

  abbrev pub claim_found :
      Text
      → Text
      → Text
      → x.Time
      → x.Time
      → Option (ChatLock x)
      → Action (Locks x) (Result ChatBusError (ChatLock x))
  claim_found key turn worker now after none =
      refuse (payload (codes "chat lock payload missing before worker claim"))
  claim_found key turn worker now after (some lock) = claim key turn worker now after lock

  unfoldable pub claim_lock :
      Text
      → Text
      → Text
      → Text
      → x.Time
      → x.Time
      → Action (Locks x) (Result ChatBusError (ChatLock x))
  unfolding claim
  claim_lock tenant conversation turn worker now after locks =
      let key = lock_key tenant conversation in
      claim_found key turn worker now after (locks key) locks

  abbrev pub terminated : ChatTerminalUpdate → x.Time → ChatLock x → ChatLock x
  terminated terminal after lock = record lock {
    state = terminal.state;
    assistant_message_id = terminal.assistant_message_id;
    terminal_content = terminal.content;
    terminal_error = terminal.error;
    terminal_event_published = false;
    lease_expires_at = lock_expires_at x ttl after;
  }

  abbrev pub mark_found :
      Text
      → Text
      → Option Text
      → ChatTerminalUpdate
      → x.Time
      → Option (ChatLock x)
      → Action (Locks x) (Result ChatBusError (ChatLock x))
  mark_found key turn worker terminal after none = refuse in_flight
  mark_found key turn worker terminal after (some lock) =
      if not (of_turn turn lock) || other_worker worker lock
      then refuse in_flight
      else answer_with key (terminated terminal after lock)

  unfoldable pub mark_lock_terminal :
      Text
      → Text
      → Text
      → Option Text
      → ChatTerminalUpdate
      → x.Time
      → Action (Locks x) (Result ChatBusError (ChatLock x))
  mark_lock_terminal tenant conversation turn worker terminal after locks =
      let key = lock_key tenant conversation in
      mark_found key turn worker terminal after (locks key) locks

  abbrev pub renew_found :
      Text
      → Text
      → Text
      → x.Time
      → x.Time
      → Option (ChatLock x)
      → Action (Locks x) (Result ChatBusError (ChatLock x))
  renew_found key turn worker now after none = refuse in_flight
  renew_found key turn worker now after (some lock) =
      if not (of_turn turn lock) || not (of_worker worker lock) || is_expired now lock
      then refuse in_flight
      else answer_with key (record lock { lease_expires_at = lock_expires_at x ttl after })

  unfoldable pub renew_lock :
      Text
      → Text
      → Text
      → Text
      → x.Time
      → x.Time
      → Action (Locks x) (Result ChatBusError (ChatLock x))
  renew_lock tenant conversation turn worker now after locks =
      let key = lock_key tenant conversation in
      renew_found key turn worker now after (locks key) locks

module _ {x : Platform} where
  abbrev pub published_mark : Text → Text → Option (ChatLock x) → Locks x → Locks x
  published_mark key turn none locks = locks
  published_mark key turn (some lock) locks =
      if of_turn turn lock && is_terminal lock
      then set_lock key (some (record lock { terminal_event_published = true })) locks
      else locks

  unfoldable pub mark_terminal_event_published :
      Text → Text → Text → Action (Locks x) (Result ChatBusError (Unit {0}))
  mark_terminal_event_published tenant conversation turn locks =
      let key = lock_key tenant conversation in (ok tt, published_mark key turn (locks key) locks)

  abbrev pub stop_found :
      Text
      → Text
      → x.Time
      → x.Time
      → Option (ChatLock x)
      → Action (Locks x) (Result ChatBusError (Option (ChatLock x)))
  stop_found key requested_by now after none locks = (ok none, locks)
  stop_found key requested_by now after (some lock) locks =
      let stopped = record lock {
        stop_requested = true;
        stop_requested_by = some requested_by;
        stop_requested_at = some after;
      } in
      if not (is_expired now lock)
      then (ok (some stopped), set_lock key (some stopped) locks)
      else (ok none, set_lock key none locks)

  unfoldable pub request_stop :
      Text
      → Text
      → Text
      → x.Time
      → x.Time
      → Action (Locks x) (Result ChatBusError (Option (ChatLock x)))
  request_stop tenant conversation requested_by now after locks =
      let key = lock_key tenant conversation in
      stop_found key requested_by now after (locks key) locks

  unfoldable pub stop_requested :
      Text → Text → Text → x.Time → Action (Locks x) (Result ChatBusError Bool)
  stop_requested tenant conversation turn now locks = (
    ok (
        some_lock (λ lock. not (is_expired now lock) && of_turn turn lock && lock.stop_requested)
          (locks (lock_key tenant conversation))),
    locks,
  )

  unfoldable pub release_lock : Text → Text → Text → Locks x → Locks x
  release_lock tenant conversation turn locks =
      let key = lock_key tenant conversation in
      if some_lock (of_turn turn) (locks key) then set_lock key none locks else locks
