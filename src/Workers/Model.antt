-- ===== src/Workers/Model.antt =====
-- `_WorkerGroup` and `_owned_to_thread` of velociraptor_observation_workers.py. Each call that
-- holds the lock, and each part of `_owned_to_thread` between two waits, is one method.
use mcp_velociraptor.Prelude.{
  ◌+◌, ◌∷◌, some, none, leb, any, all, ◌||◌, not, if◌then◌else◌, false, [], Option, List, ◌==◌,
  ◌&&◌, ℕ, true, Bool,
}
use mcp_velociraptor.Proc.{pure, gets, ◌>>◌, ◌>>=◌, raise, require, modify, Proc}

pub data Refusal : Type 0 where
  budget_invalid budget_exhausted ingress_closed owner_invalid finish_unconfirmed : Refusal
  timeout_invalid barrier_unknown start_failed join_unconfirmed primary_error : Refusal

-- `_ThreadWork`, with the thread that it holds: whether it was made and whether it is alive.
-- `notified` says that the waiting task was woken up.
pub record Work : Type 0 where
  pub sequence : ℕ
  pub owner : ℕ
  pub has_thread : Bool
  pub alive : Bool
  pub error : Bool
  pub exited : Bool
  pub notified : Bool
  pub joined : Bool
  pub cancelled : Bool

-- `_WorkerGroup`; an owner is known by its sequence number.
pub record Group : Type 0 where
  pub limit : ℕ
  pub sequence : ℕ
  pub owners : List ℕ
  pub ended : List ℕ
  pub threads : List Work
  pub closing : Bool
  pub unknown : Bool

abbrev pub Method : Type 0 → Type 0
Method A = Proc Group Refusal A

abbrev pub new_work : ℕ → ℕ → Work
new_work n owner = record {
  sequence = n;
  owner = owner;
  has_thread = false;
  alive = false;
  error = false;
  exited = false;
  notified = false;
  joined = false;
  cancelled = false;
}

abbrev pub empty : ℕ → Group
empty limit = record {
  limit = limit;
  sequence = 0;
  owners = [];
  ended = [];
  threads = [];
  closing = false;
  unknown = false;
}

-- `__init__`
unfoldable pub new_group : ℕ → Option Group
new_group max_work = if max_work == 0 then none else some (empty max_work)

abbrev pub mem : ℕ → List ℕ → Bool
mem n ns = any (λ m. m == n) ns

abbrev pub set_closing : Group → Group
set_closing s = record s { closing = true }

abbrev pub set_unknown : Group → Group
set_unknown s = record s { unknown = true; closing = true }

-- `_next`
unfoldable pub next : Method ℕ
next = do
  s ← gets (λ s. s)
  if leb s.limit s.sequence
      then (do modify set_closing; raise budget_exhausted)
      else (do modify (λ t. record t { sequence = s.sequence + 1 }); pure (s.sequence + 1))

-- `_admit`
unfoldable pub admit : Method ℕ
admit = do
  s ← gets (λ s. s)
  require (not (s.closing || s.unknown)) ingress_closed
  n ← next
  modify (λ t. record t { owners = n ∷ t.owners })
  pure n

-- `_valid`
abbrev pub is_valid : ℕ → Group → Bool
is_valid owner s = mem owner s.owners && not (mem owner s.ended)

-- `_register`
unfoldable pub register : ℕ → Method ℕ
register owner = do
  s ← gets (λ s. s)
  require (not s.unknown && is_valid owner s) owner_invalid
  n ← next
  modify (λ t. record t { threads = new_work n owner ∷ t.threads })
  pure n

-- `w.owner is owner and not w.joined`
abbrev pub is_pending : ℕ → Work → Bool
is_pending owner w = (w.owner == owner) && not w.joined

-- `_finish_owner`; the last argument says whether there is a `primary` error to raise
unfoldable pub finish_owner : ℕ → Bool → Method (Unit {0})
finish_owner owner primary = do
  s ← gets (λ s. s)
  if not (is_valid owner s) || any (is_pending owner) s.threads
      then (do
        modify (λ t. record t { unknown = true })
        raise (if primary then primary_error else finish_unconfirmed))
      else modify (λ t. record t { ended = owner ∷ t.ended })

-- `_freeze`
unfoldable pub freeze : Method (Unit {0})
freeze = modify set_closing

-- `_mark_unknown`
unfoldable pub mark_unknown : Method (Unit {0})
mark_unknown = modify set_unknown

abbrev pub is_done : Work → Bool
is_done w = w.joined && w.exited && w.has_thread && not w.alive

-- `_quiescent`
abbrev pub is_quiescent : Group → Bool
is_quiescent s =
    not s.unknown
    && (all (λ o. mem o s.ended) s.owners && all (λ o. mem o s.owners) s.ended)
    && all is_done s.threads

-- `_wait_barrier` up to its loop
unfoldable pub begin_barrier : ℕ → Method (Unit {0})
begin_barrier timeout_ns = do require (not (timeout_ns == 0)) timeout_invalid; freeze

-- One round of the loop of `_wait_barrier`: `none` is another round. The argument says whether the
-- deadline has come.
unfoldable pub poll_barrier : Bool → Method (Option ℕ)
poll_barrier late = do
  s ← gets (λ s. s)
  if is_quiescent s
      then pure (some s.sequence)
      else if s.unknown || late
      then (do mark_unknown; raise barrier_unknown)
      else pure none

abbrev pub find : ℕ → List Work → Option Work
find n [] = none
find n (w ∷ ws) = if w.sequence == n then some w else find n ws

abbrev pub update : ℕ → (Work → Work) → List Work → List Work
update n f [] = []
update n f (w ∷ ws) = if w.sequence == n then f w ∷ ws else w ∷ update n f ws

abbrev pub change : ℕ → (Work → Work) → Group → Group
change n f s = record s { threads = update n f s.threads }

abbrev pub started : Bool → Work → Work
started b w = record w { has_thread = true; alive = b; error = not b || w.error }

-- The thread of a work is made and started; `_observe` and `start` succeed or raise.
unfoldable pub start : ℕ → Bool → Bool → Method (Unit {0})
start n observed starts = do
  modify (change n (started (observed && starts)))
  if observed && starts then pure tt else (do mark_unknown; raise start_failed)

abbrev pub executed : Bool → Bool → Bool → Work → Work
executed raised observed notified w = record w {
  error = raised || not observed;
  exited = true;
  notified = notified;
}

-- `execute`, in the thread: whether the function raised, and whether `_observe` and the call that
-- wakes up the task succeed
unfoldable pub execute : ℕ → Bool → Bool → Bool → Method (Unit {0})
execute n raised observed notified = do
  modify (change n (executed raised observed notified))
  if observed && notified then pure tt else mark_unknown

-- From `thread.join()`, which returns or raises, to the end of `_owned_to_thread`: the error of the
-- cancellation or of the function comes first.
unfoldable pub join : ℕ → Bool → Work → Method (Unit {0})
join n returns w =
    if returns && not (w.alive || not w.exited)
    then (do
      modify (change n (λ v. record v { joined = true }))
      if w.cancelled || w.error then raise primary_error else pure tt)
    else (do
      mark_unknown
      raise (if w.cancelled || w.error then primary_error else join_unconfirmed))
