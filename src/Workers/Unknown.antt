-- ===== src/Workers/Unknown.antt =====
-- The steps of velociraptor_observation_workers.py in any order, about a group in an unknown
-- state.
use mcp_velociraptor.Proc.Keeps.{
  Keeps-require, Keeps-raise, Keeps-modify, Keeps-if, Keeps-pure, Keeps-gets, Keeps-bind,
}
use mcp_velociraptor.Proc.Triple.{
  Triple-require, Triple, Triple-gets, Triple-bind, Keeps-final, Keeps,
}
use mcp_velociraptor.Proc.{err, ◌>>=◌}
use mcp_velociraptor.Workers.Threads.{
  marks_unknown, freezes, admits, is_joinable, joins, is_waiting, cancels, is_leaving, exits,
  is_running, executes, is_new, starts, polls, begins_barrier, finishes, registers, perform, found,
  ignore, history, at_work, Event,
}
use mcp_velociraptor.Workers.Model.{
  is_valid, join, barrier_unknown, execute, start, set_unknown, set_closing, change, begin_barrier,
  register, mark_unknown, freeze, finish_owner, admit, Work, Method, Group, poll_barrier,
}
use mcp_velociraptor.Prelude.{
  arith, ◌∙◌, ◌||◌, ◌&&◌, not, none, ap, some, false, [], true, Option, ◌≡◌, ◌∷◌, Bool, ℕ, List,
  refl,
}

record IsUnknown (n : ℕ) (os : List ℕ) (s : Group) : Type 0 where
  is_unknown : s.unknown ≡ true
  same_sequence : s.sequence ≡ n
  same_owners : s.owners ≡ os

module _ (n : ℕ) (os : List ℕ) where
  abbrev Lost : Group → Type 0
  Lost s = IsUnknown n os s

  unknown-Lost : (s : Group) → Lost s → Lost (set_unknown s)
  unknown-Lost s h = record {
    is_unknown = refl;
    same_sequence = h.same_sequence;
    same_owners = h.same_owners;
  }

  closing-Lost : (s : Group) → Lost s → Lost (set_closing s)
  closing-Lost s h = record {
    is_unknown = h.is_unknown;
    same_sequence = h.same_sequence;
    same_owners = h.same_owners;
  }

  change-Lost : (k : ℕ) (f : Work → Work) (s : Group) → Lost s → Lost (change k f s)
  change-Lost k f s h = record {
    is_unknown = h.is_unknown;
    same_sequence = h.same_sequence;
    same_owners = h.same_owners;
  }

  unreachable :
      {A : Type 0} {m : Method A} (s₀ : Group) (b : Bool)
      → (s₀.unknown ≡ true → b ≡ false)
      → Triple (λ s. (b ≡ true) × ((s₀ ≡ s) × Lost s)) m (λ _ s. Lost s) (λ _ s. Lost s)
  unreachable s₀ b k = record {
    at = λ s h.
        let lost : s₀.unknown ≡ true = ap (λ u. u.unknown) h.1.0 ∙ h.1.1.is_unknown in
        absurd (ground (arith, h.0, k lost));
  }

  admit-Lost : Keeps Lost admit
  unfolding admit
  admit-Lost = Triple-bind (Triple-gets {P = Lost} _) λ s₀.
      Triple-bind (Triple-require {P = λ s. (s₀ ≡ s) × Lost s} _ _ λ s h. h.1)
        λ _. unreachable s₀ (not (s₀.closing || s₀.unknown)) λ u. ground (arith, u)

  register-Lost : (owner : ℕ) → Keeps Lost (register owner)
  unfolding register
  register-Lost owner = Triple-bind (Triple-gets {P = Lost} _) λ s₀.
      Triple-bind (Triple-require {P = λ s. (s₀ ≡ s) × Lost s} _ _ λ s h. h.1)
        λ _. unreachable s₀ (not s₀.unknown && is_valid owner s₀) λ u. ground (arith, u)

  finish_owner-Lost : (owner : ℕ) (primary : Bool) → Keeps Lost (finish_owner owner primary)
  unfolding finish_owner
  finish_owner-Lost owner primary = Keeps-bind _ _ (Keeps-gets _) λ s₀.
      Keeps-if _ _ _
        (Keeps-bind _ _
          (Keeps-modify _ λ s h. record {
            is_unknown = refl;
            same_sequence = h.same_sequence;
            same_owners = h.same_owners;
          })
          λ _. Keeps-raise _)
        (Keeps-modify _ λ s h. record {
          is_unknown = h.is_unknown;
          same_sequence = h.same_sequence;
          same_owners = h.same_owners;
        })

  poll_barrier-Lost : (late : Bool) → Keeps Lost (poll_barrier late)
  unfolding poll_barrier mark_unknown
  poll_barrier-Lost late = Keeps-bind _ _ (Keeps-gets _) λ s₀. Keeps-if _ _ _ (Keeps-pure _) (
      Keeps-if _ _ _ (Keeps-bind _ _ (Keeps-modify _ unknown-Lost) λ _. Keeps-raise _)
        (Keeps-pure _))

  found-Lost :
      (test : Work → Bool) (step : Work → Method (Unit {0})) (o : Option Work)
      → ((w : Work) → Keeps Lost (step w))
      → Keeps Lost (found test step o)
  found-Lost test step none k = Keeps-pure _
  found-Lost test step (some w) k = Keeps-if _ _ _ (k w) (Keeps-pure _)

  at_work-Lost :
      (i : ℕ) (test : Work → Bool) (step : Work → Method (Unit {0}))
      → ((w : Work) → Keeps Lost (step w))
      → Keeps Lost (at_work i test step)
  unfolding at_work
  at_work-Lost i test step k = Keeps-bind _ _ (Keeps-gets _) λ w. found-Lost test step w k

  ignore-Lost : {A : Type 0} {m : Method A} → Keeps Lost m → Keeps Lost (ignore m)
  ignore-Lost k = Keeps-bind _ _ k λ _. Keeps-pure _

  perform-Lost : (e : Event) → Keeps Lost (perform e)
  unfolding freeze mark_unknown begin_barrier start execute join
  perform-Lost admits = ignore-Lost admit-Lost
  perform-Lost freezes = Keeps-modify _ closing-Lost
  perform-Lost marks_unknown = Keeps-modify _ unknown-Lost
  perform-Lost (registers owner) = ignore-Lost (register-Lost owner)
  perform-Lost (finishes owner primary) = finish_owner-Lost owner primary
  perform-Lost (begins_barrier timeout_ns) =
      Keeps-bind _ _ (Keeps-require _ _) λ _. Keeps-modify _ closing-Lost
  perform-Lost (polls late) = ignore-Lost (poll_barrier-Lost late)
  perform-Lost (starts i observed b) = at_work-Lost i is_new _ λ w.
      Keeps-bind _ _ (Keeps-modify _ (change-Lost i _)) λ _.
        Keeps-if _ _ _ (Keeps-pure _)
          (Keeps-bind _ _ (Keeps-modify _ unknown-Lost) λ _. Keeps-raise _)
  perform-Lost (executes i raised observed notified) = at_work-Lost i is_running _ λ w.
      Keeps-bind _ _ (Keeps-modify _ (change-Lost i _))
        λ _. Keeps-if _ _ _ (Keeps-pure _) (Keeps-modify _ unknown-Lost)
  perform-Lost (exits i) = at_work-Lost i is_leaving _ λ w. Keeps-modify _ (change-Lost i _)
  perform-Lost (cancels i) = at_work-Lost i is_waiting _ λ w. Keeps-modify _ (change-Lost i _)
  perform-Lost (joins i returns) = at_work-Lost i is_joinable _ λ w.
      Keeps-if _ _ _
        (Keeps-bind _ _ (Keeps-modify _ (change-Lost i _))
          λ _. Keeps-if _ _ _ (Keeps-raise _) (Keeps-pure _))
        (Keeps-bind _ _ (Keeps-modify _ unknown-Lost) λ _. Keeps-raise _)

  history-Lost : (events : List Event) (s : Group) → Lost s → Lost (history events s)
  unfolding history
  history-Lost [] s h = h
  history-Lost (e ∷ events) s h = history-Lost events _ (Keeps-final (perform-Lost e) s h)

round_unknown :
    (s : Group) (late : Bool)
    → s.unknown ≡ true
    → poll_barrier late s ≡ err barrier_unknown (set_unknown s)
unfolding poll_barrier ◌>>=◌ mark_unknown
round_unknown s late u = simp u refl

-- Once a group is unknown, it stays so in every history of calls and of thread steps: no sequence
-- number is given out and no owner admitted, and every round of the barrier then raises
-- `worker_barrier_unknown`.
pub history-unknown :
    (events : List Event) (s : Group) (late : Bool)
    → s.unknown ≡ true
    → ((history events s).unknown ≡ true)
      × ((history events s).sequence ≡ s.sequence)
      × ((history events s).owners ≡ s.owners)
      × (poll_barrier late (history events s)
          ≡ err barrier_unknown (set_unknown (history events s)))
history-unknown events s late u =
    let h =
      history-Lost s.sequence s.owners events s
        (record { is_unknown = u; same_sequence = refl; same_owners = refl }) in
    (
      h.is_unknown,
      h.same_sequence,
      h.same_owners,
      round_unknown (history events s) late h.is_unknown,
    )
