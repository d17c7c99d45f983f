-- ===== src/Workers/Tests.antt =====
-- One handler with one thread, from its admission to the barrier.
use mcp_velociraptor.Workers.Safe.{IsGroup}
use mcp_velociraptor.Workers.Barrier.{poll_barrier-IsDone}
use mcp_velociraptor.Workers.Unknown.{history-unknown}
use mcp_velociraptor.Proc.{ok, err, ◌>>=◌}
use mcp_velociraptor.Workers.Threads.{
  begins_barrier, joins, exits, finishes, executes, starts, polls, at_work, registers, admits,
  Event, history,
}
use mcp_velociraptor.Workers.Invariant.{new_group-IsGroup}
use mcp_velociraptor.Workers.Model.{
  freeze, begin_barrier, finish_owner, join, execute, start, set_unknown, is_done, mem,
  barrier_unknown, register, next, empty, admit, poll_barrier, new_group, Work, Group,
}
use mcp_velociraptor.Prelude.{all, some, false, [], ◌≡◌, ◌∷◌, true, List, refl}

abbrev handled : List Event
handled =
    admits
    ∷ registers 1
    ∷ starts 2 true true
    ∷ executes 2 false true true
    ∷ exits 2
    ∷ joins 2 true
    ∷ finishes 1 false
    ∷ begins_barrier 5
    ∷ []

abbrev finished_work : Work
finished_work = record {
  sequence = 2;
  owner = 1;
  has_thread = true;
  alive = false;
  error = false;
  exited = true;
  notified = true;
  joined = true;
  cancelled = false;
}

abbrev quiet : Group
quiet = record {
  limit = 3;
  sequence = 2;
  owners = 1 ∷ [];
  ended = 1 ∷ [];
  threads = finished_work ∷ [];
  closing = true;
  unknown = false;
}

abbrev late_calls : List Event
late_calls = admits ∷ registers 1 ∷ polls true ∷ finishes 1 true ∷ joins 2 true ∷ []

opened : new_group 3 ≡ some (empty 3)
unfolding new_group
opened = refl

handled-run : history handled (empty 3) ≡ quiet
unfolding history admit next register at_work start execute join finish_owner begin_barrier freeze
    ◌>>=◌
handled-run = refl

new_group-IsGroup_example : IsGroup (history handled (empty 3))
new_group-IsGroup_example = new_group-IsGroup 3 (empty 3) handled opened

polled : poll_barrier false quiet ≡ ok (some 2) quiet
unfolding poll_barrier ◌>>=◌
polled = refl

poll_barrier-IsDone_example :
    ((history late_calls quiet).sequence ≡ 2)
    × ((history late_calls quiet).owners ≡ 1 ∷ [])
    × ((history late_calls quiet).threads ≡ finished_work ∷ [])
    × (all (λ o. mem o (history late_calls quiet).ended) (history late_calls quiet).owners ≡ true)
    × (all is_done (history late_calls quiet).threads ≡ true)
poll_barrier-IsDone_example = poll_barrier-IsDone false quiet quiet 2 late_calls refl polled

abbrev lost : Group
lost = record quiet { unknown = true }

history-unknown_example :
    ((history late_calls lost).unknown ≡ true)
    × ((history late_calls lost).sequence ≡ 2)
    × ((history late_calls lost).owners ≡ 1 ∷ [])
    × (poll_barrier false (history late_calls lost)
        ≡ err barrier_unknown (set_unknown (history late_calls lost)))
history-unknown_example = history-unknown late_calls lost false refl
