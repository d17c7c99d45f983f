-- ===== src/Workers/Admission.antt =====
-- `_admit`, `_register` and `_finish_owner` of velociraptor_observation_workers.py, about
-- the invariant of a group.
use mcp_velociraptor.Workers.Steps.{closing-IsGroup}
use mcp_velociraptor.Proc.Keeps.{Keeps-raise, Keeps-pure}
use mcp_velociraptor.Workers.Safe.{IsSafe, IsGroup}
use mcp_velociraptor.Proc.Triple.{
  Triple-pure, Triple-raise, Triple-modify, Triple-mono, Triple-require, Triple-if, Triple-gets,
  Triple-bind, Triple, Keeps,
}
use mcp_velociraptor.Workers.Model.{
  mem, new_work, is_pending, is_valid, Work, register, next, finish_owner, admit, Group,
}
use mcp_velociraptor.Prelude.{
  ◌∙◌, sym, ap, [], arith, ◌∷◌, ◌||◌, leb, false, true, All, ◌≡◌, any, ◌+◌, length, ◌&&◌, ◌≤◌, not,
  List, Bool, ℕ, refl,
}

-- A new sequence number is taken, for an owner or a work that is still to be added.
record IsTaken (s₀ : Group) (s : Group) : Type 0 where
  bounded : s.sequence ≤ s.limit
  counted : length s.owners + length s.threads + 1 ≡ s.sequence
  all_safe : All (IsSafe s.ended) s.threads
  same_ended : s.ended ≡ s₀.ended

next-IsTaken :
    (s₀ : Group) (b : Bool)
    → Triple
        (λ s. (b ≡ true) × (s₀ ≡ s) × IsGroup s)
        next
        (λ _ s. (b ≡ true) × IsTaken s₀ s)
        (λ _ s. IsGroup s)
unfolding next
next-IsTaken s₀ b = Triple-bind (Triple-gets _) λ t.
    Triple-if (leb t.limit t.sequence)
      (λ _.
        Triple-bind (Triple-modify {Q = λ _ s. IsGroup s} _ λ s h. closing-IsGroup s h.1.2)
          λ _. Triple-raise _ λ s h. h)
      λ room.
        Triple-bind
          (Triple-modify {Q = λ _ s. (b ≡ true) × IsTaken s₀ s} _ λ s h. (
            h.1.0,
            record {
              bounded = ground (arith, h.0, room);
              counted = ground (arith, h.0, h.1.2.counted);
              all_safe = h.1.2.all_safe;
              same_ended = ap (λ u. u.ended) (sym h.1.1);
            },
          ))
          λ _. Triple-pure _ λ s h. h

pub admit-IsGroup : Keeps IsGroup admit
unfolding admit
admit-IsGroup = Triple-bind (Triple-gets {P = IsGroup} _) λ s₀.
    Triple-bind (Triple-require {P = λ s. (s₀ ≡ s) × IsGroup s} _ _ λ s h. h.1) λ _.
      Triple-bind
        (Triple-mono (next-IsTaken s₀ (not (s₀.closing || s₀.unknown))) (λ s h. (h.0, h.1.0, h.1.1))
          (λ _ s h. h) (λ e s h. h))
        λ n.
          Triple-bind
            (Triple-modify {Q = λ _ s. IsGroup s} _ λ s h. record {
              bounded = h.1.bounded;
              counted = omega (arith, h.1.counted);
              all_safe = h.1.all_safe;
            })
            λ _. Keeps-pure _

new_work-IsSafe :
    (n owner : ℕ) (s₀ s : Group)
    → (not s₀.unknown && is_valid owner s₀) ≡ true
    → s.ended ≡ s₀.ended
    → IsSafe s.ended (new_work n owner)
new_work-IsSafe n owner s₀ s valid e =
    let fresh : mem owner s₀.ended ≡ false = ground (arith, valid) in
    record {
      ended_joined = λ h. cc (h, fresh, ap (mem owner) e);
      joined_exited = λ j. j;
      joined_has_thread = λ j. j;
      joined_not_alive = λ _. refl;
    }

pub register-IsGroup : (owner : ℕ) → Keeps IsGroup (register owner)
unfolding register
register-IsGroup owner = Triple-bind (Triple-gets {P = IsGroup} _) λ s₀.
    Triple-bind (Triple-require {P = λ s. (s₀ ≡ s) × IsGroup s} _ _ λ s h. h.1) λ _.
      Triple-bind
        (Triple-mono (next-IsTaken s₀ (not s₀.unknown && is_valid owner s₀))
          (λ s h. (h.0, h.1.0, h.1.1)) (λ _ s h. h) (λ e s h. h))
        λ n.
          Triple-bind
            (Triple-modify {Q = λ _ s. IsGroup s} _ λ s h. record {
              bounded = h.1.bounded;
              counted = omega (arith, h.1.counted);
              all_safe = (new_work-IsSafe n owner s₀ s h.0 h.1.same_ended, h.1.all_safe);
            })
            λ _. Keeps-pure _

-- An owner without pending works may end.
ended-IsSafe :
    (owner : ℕ) (ended : List ℕ) (ws : List Work)
    → any (is_pending owner) ws ≡ false
    → All (IsSafe ended) ws
    → All (IsSafe (owner ∷ ended)) ws
ended-IsSafe owner ended [] e h = tt
ended-IsSafe owner ended (w ∷ ws) e h =
    let safe = h.0 in
    (
      record {
        ended_joined = λ m. ground (arith, e, m, safe.ended_joined);
        joined_exited = safe.joined_exited;
        joined_has_thread = safe.joined_has_thread;
        joined_not_alive = safe.joined_not_alive;
      },
      ended-IsSafe owner ended ws (ground (arith, e)) h.1,
    )

pub finish_owner-IsGroup : (owner : ℕ) (primary : Bool) → Keeps IsGroup (finish_owner owner primary)
unfolding finish_owner
finish_owner-IsGroup owner primary = Triple-bind (Triple-gets _) λ s₀.
    Triple-if (not (is_valid owner s₀) || any (is_pending owner) s₀.threads)
      (λ _.
        Triple-bind
          (Triple-modify {Q = λ _ s. IsGroup s} _
            λ s h. record { bounded = h.1.bounded; counted = h.1.counted; all_safe = h.1.all_safe })
          λ _. Keeps-raise _)
      λ free. Triple-modify _ λ s h.
        let none_pending : any (is_pending owner) s₀.threads ≡ false = ground (arith, free) in
        record {
          bounded = h.1.bounded;
          counted = h.1.counted;
          all_safe =
              ended-IsSafe owner s.ended s.threads
                (ap (λ u. any (is_pending owner) u.threads) (sym h.0) ∙ none_pending) h.1.all_safe;
        }
