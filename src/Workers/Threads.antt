-- ===== src/Workers/Threads.antt =====
-- The steps of velociraptor_observation_workers.py: those of the handlers, the threads and the
-- controller, in any order that the program allows.
use mcp_velociraptor.Proc.{modify, gets, final, ◌>>=◌, pure, ◌>>◌}
use mcp_velociraptor.Workers.Model.{
  join, change, execute, start, poll_barrier, begin_barrier, finish_owner, register, find,
  mark_unknown, freeze, admit, Group, Work, Method,
}
use mcp_velociraptor.Prelude.{
  ◌||◌, true, false, none, if◌then◌else◌, [], some, ◌∷◌, not, Option, ◌&&◌, Bool, ℕ, List,
}

pub data Event : Type 0 where
  admits freezes marks_unknown : Event
  registers : ℕ → Event
  finishes : ℕ → Bool → Event
  begins_barrier : ℕ → Event
  polls : Bool → Event
  -- the steps of the work n
  starts : ℕ → Bool → Bool → Event
  executes : ℕ → Bool → Bool → Bool → Event
  exits cancels : ℕ → Event
  joins : ℕ → Bool → Event

-- A step of a work that is not at that point of the program does nothing.
abbrev pub found : (Work → Bool) → (Work → Method (Unit {0})) → Option Work → Method (Unit {0})
found test step none = pure tt
found test step (some w) = if test w then step w else pure tt

unfoldable pub at_work : ℕ → (Work → Bool) → (Work → Method (Unit {0})) → Method (Unit {0})
at_work n test step = do w ← gets (λ s. find n s.threads); found test step w

abbrev pub is_new : Work → Bool
is_new w = not w.has_thread

abbrev pub is_running : Work → Bool
is_running w = w.alive && not w.exited

abbrev pub is_leaving : Work → Bool
is_leaving w = w.alive && w.exited

-- the task waits for its thread, which was started
abbrev pub is_waiting : Work → Bool
is_waiting w = (w.alive || w.exited) && not w.notified && not w.joined

abbrev pub is_joinable : Work → Bool
is_joinable w = w.has_thread && w.notified && not w.joined

abbrev pub ignore : {A : Type 0} → Method A → Method (Unit {0})
ignore m = do m; pure tt

abbrev pub perform : Event → Method (Unit {0})
perform admits = ignore admit
perform freezes = freeze
perform marks_unknown = mark_unknown
perform (registers owner) = ignore (register owner)
perform (finishes owner primary) = finish_owner owner primary
perform (begins_barrier timeout_ns) = begin_barrier timeout_ns
perform (polls late) = ignore (poll_barrier late)
perform (starts n observed b) = at_work n is_new (λ w. start n observed b)
perform (executes n raised observed notified) =
    at_work n is_running (λ w. execute n raised observed notified)
perform (exits n) = at_work n is_leaving (λ w. modify (change n (λ v. record v { alive = false })))
perform (cancels n) =
    at_work n is_waiting (λ w. modify (change n (λ v. record v { cancelled = true })))
perform (joins n returns) = at_work n is_joinable (join n returns)

unfoldable pub history : List Event → Group → Group
history [] s = s
history (e ∷ es) s = history es (final (perform e s))
