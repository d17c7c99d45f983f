-- ===== src/Workers/Steps.antt =====
-- The steps of `_owned_to_thread` of velociraptor_observation_workers.py, about the invariant
-- of a group.
use mcp_velociraptor.Proc.Keeps.{Keeps-modify, Keeps-bind, Keeps-raise, Keeps-pure, Keeps-if}
use mcp_velociraptor.Proc.{◌>>=◌}
use mcp_velociraptor.Workers.Threads.{found, is_running, is_new, is_joinable, at_work}
use mcp_velociraptor.Proc.Triple.{Triple-modify, Keeps, Ends, Triple-if, Triple-bind, Triple}
use mcp_velociraptor.Workers.Safe.{change-IsGroup, IsGroup}
use mcp_velociraptor.Workers.Model.{
  find, Method, set_unknown, set_closing, mark_unknown, Work, start, join, execute, Group,
}
use mcp_velociraptor.Prelude.{
  none, inr, inl, ◌||◌, arith, Bool-cases, true, not, some, ◌&&◌, ◌≡◌, Option, Bool, ℕ, refl,
}

-- At a step of a work, the object is known to hold it, and it has passed the test.
module _ (n : ℕ) (test : Work → Bool) (step : Work → Method (Unit {0})) where
  abbrev pub Found : Work → Group → Type 0
  Found w s = (find n s.threads ≡ some w) × (test w ≡ true) × IsGroup s

  found-IsGroup :
      ((w : Work) → Triple (Found w) (step w) (λ _ s. IsGroup s) (λ _ s. IsGroup s))
      → (s : Group) → (o : Option Work) → find n s.threads ≡ o
      → IsGroup s
      → Ends (λ _ t. IsGroup t) (λ _ t. IsGroup t) (found test step o s)
  found-IsGroup k s none e h = h
  found-IsGroup k s (some w) e h = elim (Bool-cases (test w)) [
    | inl t ↦ rw t ((k w).at s (e, t, h))
    | inr t ↦ rw t h
  ]

  pub at_work-IsGroup :
      ((w : Work) → Triple (Found w) (step w) (λ _ s. IsGroup s) (λ _ s. IsGroup s))
      → Keeps IsGroup (at_work n test step)
  unfolding at_work ◌>>=◌
  at_work-IsGroup k = record { at = λ s h. found-IsGroup k s (find n s.threads) refl h }

pub unknown-IsGroup : (s : Group) → IsGroup s → IsGroup (set_unknown s)
unknown-IsGroup s h = record { bounded = h.bounded; counted = h.counted; all_safe = h.all_safe }

pub closing-IsGroup : (s : Group) → IsGroup s → IsGroup (set_closing s)
closing-IsGroup s h = record { bounded = h.bounded; counted = h.counted; all_safe = h.all_safe }

pub start-IsGroup :
    (n : ℕ) (observed begun : Bool) (w : Work)
    → Triple
        (Found n is_new (λ w. start n observed begun) w)
        (start n observed begun)
        (λ _ s. IsGroup s)
        (λ _ s. IsGroup s)
unfolding start mark_unknown
start-IsGroup n observed begun w =
    Triple-bind
      (Triple-modify {Q = λ _ s. IsGroup s} _ λ s h.
        change-IsGroup n _ w s h.0
          (λ safe. record {
            ended_joined = safe.ended_joined;
            joined_exited = safe.joined_exited;
            joined_has_thread = λ _. refl;
            joined_not_alive = λ j. absurd (ground (arith, safe.joined_has_thread j, h.1));
          })
          h.2)
      λ _.
        Keeps-if _ _ _ (Keeps-pure _)
          (Keeps-bind _ _ (Keeps-modify _ unknown-IsGroup) λ _. Keeps-raise _)

pub execute-IsGroup :
    (n : ℕ) (raised observed notified : Bool) (w : Work)
    → Triple
        (Found n is_running (λ w. execute n raised observed notified) w)
        (execute n raised observed notified)
        (λ _ s. IsGroup s)
        (λ _ s. IsGroup s)
unfolding execute mark_unknown
execute-IsGroup n raised observed notified w =
    Triple-bind
      (Triple-modify {Q = λ _ s. IsGroup s} _ λ s h.
        change-IsGroup n _ w s h.0
          (λ safe. record {
            ended_joined = safe.ended_joined;
            joined_exited = λ _. refl;
            joined_has_thread = safe.joined_has_thread;
            joined_not_alive = safe.joined_not_alive;
          })
          h.2)
      λ _. Keeps-if _ _ _ (Keeps-pure _) (Keeps-modify _ unknown-IsGroup)

pub join-IsGroup :
    (n : ℕ) (returns : Bool) (w : Work)
    → Triple
        (Found n is_joinable (join n returns) w)
        (join n returns w)
        (λ _ s. IsGroup s)
        (λ _ s. IsGroup s)
unfolding join mark_unknown
join-IsGroup n returns w =
    Triple-if (returns && not (w.alive || not w.exited))
      (λ b.
        Triple-bind
          (Triple-modify {Q = λ _ s. IsGroup s} _ λ s h.
            change-IsGroup n (λ v. record v { joined = true }) w s h.0
              (λ safe. record {
                ended_joined = λ _. refl;
                joined_exited = λ _. ground (arith, b);
                joined_has_thread = λ _. ground (arith, h.1);
                joined_not_alive = λ _. ground (arith, b);
              })
              h.2)
          λ _. Keeps-if _ _ _ (Keeps-raise _) (Keeps-pure _))
      (λ _.
        Triple-bind (Triple-modify {Q = λ _ s. IsGroup s} _ λ s h. unknown-IsGroup s h.2)
          λ _. Keeps-raise _)
