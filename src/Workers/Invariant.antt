-- ===== src/Workers/Invariant.antt =====
-- The steps of velociraptor_observation_workers.py in any order, about the invariant of a group.
use mcp_velociraptor.Workers.Steps.{
  join-IsGroup, execute-IsGroup, start-IsGroup, at_work-IsGroup, unknown-IsGroup, closing-IsGroup,
}
use mcp_velociraptor.Workers.Admission.{finish_owner-IsGroup, register-IsGroup, admit-IsGroup}
use mcp_velociraptor.Proc.Keeps.{
  Keeps-require, Keeps-raise, Keeps-modify, Keeps-if, Keeps-pure, Keeps-gets, Keeps-bind,
}
use mcp_velociraptor.Workers.Safe.{change-IsGroup, IsGroup}
use mcp_velociraptor.Proc.Triple.{Triple-modify, Keeps-final, Keeps}
use mcp_velociraptor.Workers.Threads.{
  marks_unknown, freezes, admits, is_joinable, joins, is_waiting, cancels, is_leaving, exits,
  is_running, executes, is_new, starts, polls, begins_barrier, finishes, registers, perform, ignore,
  Event, history,
}
use mcp_velociraptor.Workers.Model.{
  empty, begin_barrier, Group, mark_unknown, poll_barrier, new_group, freeze, Method,
}
use mcp_velociraptor.Prelude.{true, false, subst, arith, [], some, ◌≡◌, ◌∷◌, Bool, ℕ, List, refl}

poll_barrier-IsGroup : (late : Bool) → Keeps IsGroup (poll_barrier late)
unfolding poll_barrier mark_unknown
poll_barrier-IsGroup late = Keeps-bind _ _ (Keeps-gets _) λ s₀. Keeps-if _ _ _ (Keeps-pure _) (
    Keeps-if _ _ _ (Keeps-bind _ _ (Keeps-modify _ unknown-IsGroup) λ _. Keeps-raise _)
      (Keeps-pure _))

ignore-IsGroup : {A : Type 0} {m : Method A} → Keeps IsGroup m → Keeps IsGroup (ignore m)
ignore-IsGroup k = Keeps-bind _ _ k λ _. Keeps-pure _

perform-IsGroup : (e : Event) → Keeps IsGroup (perform e)
unfolding freeze mark_unknown begin_barrier
perform-IsGroup admits = ignore-IsGroup admit-IsGroup
perform-IsGroup freezes = Keeps-modify _ closing-IsGroup
perform-IsGroup marks_unknown = Keeps-modify _ unknown-IsGroup
perform-IsGroup (registers owner) = ignore-IsGroup (register-IsGroup owner)
perform-IsGroup (finishes owner primary) = finish_owner-IsGroup owner primary
perform-IsGroup (begins_barrier timeout_ns) =
    Keeps-bind _ _ (Keeps-require _ _) λ _. Keeps-modify _ closing-IsGroup
perform-IsGroup (polls late) = ignore-IsGroup (poll_barrier-IsGroup late)
perform-IsGroup (starts n observed b) = at_work-IsGroup n is_new _ (start-IsGroup n observed b)
perform-IsGroup (executes n raised observed notified) =
    at_work-IsGroup n is_running _ (execute-IsGroup n raised observed notified)
perform-IsGroup (exits n) = at_work-IsGroup n is_leaving _ λ w. Triple-modify _ λ s h.
    change-IsGroup n (λ v. record v { alive = false }) w s h.0
      (λ safe. record {
        ended_joined = safe.ended_joined;
        joined_exited = safe.joined_exited;
        joined_has_thread = safe.joined_has_thread;
        joined_not_alive = λ _. refl;
      })
      h.2
perform-IsGroup (cancels n) = at_work-IsGroup n is_waiting _ λ w. Triple-modify _ λ s h.
    change-IsGroup n (λ v. record v { cancelled = true }) w s h.0
      (λ safe. record {
        ended_joined = safe.ended_joined;
        joined_exited = safe.joined_exited;
        joined_has_thread = safe.joined_has_thread;
        joined_not_alive = safe.joined_not_alive;
      })
      h.2
perform-IsGroup (joins n returns) = at_work-IsGroup n is_joinable _ (join-IsGroup n returns)

history-IsGroup : (es : List Event) (s : Group) → IsGroup s → IsGroup (history es s)
unfolding history
history-IsGroup [] s h = h
history-IsGroup (e ∷ es) s h = history-IsGroup es _ (Keeps-final (perform-IsGroup e) s h)

-- In every history of calls and of thread steps from a new group: the owners and works together are
-- as many as the sequence number and at most the limit, and every work whose owner has ended was
-- joined; a joined work has had a thread, its function had ended, and the thread is not alive.
pub new_group-IsGroup :
    (max_work : ℕ) (s : Group) (es : List Event)
    → new_group max_work ≡ some s
    → IsGroup (history es s)
unfolding new_group
new_group-IsGroup max_work s es h =
    let e : empty max_work ≡ s = ground (arith, h) in
    history-IsGroup es s
      (subst IsGroup e (record { bounded = omega arith; counted = omega arith; all_safe = tt }))
