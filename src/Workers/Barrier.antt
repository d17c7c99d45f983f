-- ===== src/Workers/Barrier.antt =====
-- `_wait_barrier` of velociraptor_observation_workers.py, about what comes after it.
use mcp_velociraptor.Proc.Keeps.{
  Keeps-require, Keeps-raise, Keeps-modify, Keeps-if, Keeps-pure, Keeps-gets, Keeps-bind,
}
use mcp_velociraptor.Proc.{ok, ◌>>=◌}
use mcp_velociraptor.Proc.Triple.{
  Triple-modify, Triple-require, Triple-if, Triple-gets, Ends, Triple-bind, Triple, Keeps-final,
  Keeps,
}
use mcp_velociraptor.Workers.Model.{
  is_pending, begin_barrier, mark_unknown, set_unknown, set_closing, register, poll_barrier,
  is_valid, freeze, finish_owner, find, admit, Method, is_quiescent, is_done, mem, Group, Work,
}
use mcp_velociraptor.Workers.Threads.{
  marks_unknown, freezes, admits, is_joinable, joins, is_waiting, cancels, is_leaving, exits,
  is_running, executes, is_new, starts, polls, begins_barrier, finishes, registers, found, perform,
  ignore, history, at_work, Event,
}
use mcp_velociraptor.Prelude.{
  any, ◌||◌, none, ◌∙◌, not, sym, inr, subst, ap, inl, false, [], some, arith, Option, ◌==◌,
  Bool-cases, ◌∷◌, true, ◌≡◌, all, Bool, ℕ, List, refl,
}

all-mem : (p : ℕ → Bool) (n : ℕ) (ns : List ℕ) → all p ns ≡ true → mem n ns ≡ true → p n ≡ true
all-mem p n [] h m = cc
all-mem p n (k ∷ ns) h m = elim (Bool-cases (k == n)) [
  | inl e ↦
      let same : k ≡ n = ground (arith, e) in
      ground (arith, subst (λ i. p i ≡ p n) (sym same) refl, h)
  | inr e ↦ all-mem p n ns (ground (arith, h)) (ground (arith, e, m))
]

-- Nothing is left to do, and nothing can be added: all owners have ended and all works are done.
record IsShut (n : ℕ) (os es : List ℕ) (ws : List Work) (s : Group) : Type 0 where
  is_closing : s.closing ≡ true
  same_sequence : s.sequence ≡ n
  same_owners : s.owners ≡ os
  same_ended : s.ended ≡ es
  same_threads : s.threads ≡ ws

module _ (n : ℕ) (os es : List ℕ) (ws : List Work) (all_ended : all (λ o. mem o es) os ≡ true)
    (all_done : all is_done ws ≡ true) where
  abbrev Shut : Group → Type 0
  Shut s = IsShut n os es ws s

  invalid : (owner : ℕ) (s : Group) → Shut s → is_valid owner s ≡ true → ⊥
  invalid owner s h v =
      let admitted : mem owner s.owners ≡ true = ground (arith, v) in
      let fresh : mem owner s.ended ≡ false = ground (arith, v) in
      let ended =
        all-mem (λ o. mem o es) owner os all_ended
          (ap (mem owner) (sym h.same_owners) ∙ admitted) in
      cc (ended, fresh, ap (mem owner) h.same_ended)

  unknown-Shut : (s : Group) → Shut s → Shut (set_unknown s)
  unknown-Shut s h = record {
    is_closing = refl;
    same_sequence = h.same_sequence;
    same_owners = h.same_owners;
    same_ended = h.same_ended;
    same_threads = h.same_threads;
  }

  closing-Shut : (s : Group) → Shut s → Shut (set_closing s)
  closing-Shut s h = record {
    is_closing = refl;
    same_sequence = h.same_sequence;
    same_owners = h.same_owners;
    same_ended = h.same_ended;
    same_threads = h.same_threads;
  }

  unreachable :
      {A : Type 0} {P : Group → Type 0} {m : Method A}
      → ((s : Group) → P s → ⊥)
      → Triple P m (λ _ s. Shut s) (λ _ s. Shut s)
  unreachable k = record { at = λ s h. absurd (k s h) }

  admit-Shut : Keeps Shut admit
  unfolding admit
  admit-Shut = Triple-bind (Triple-gets {P = Shut} _) λ s₀.
      Triple-bind (Triple-require {P = λ s. (s₀ ≡ s) × Shut s} _ _ λ s h. h.1) λ _.
        unreachable λ s h.
          let closing : s₀.closing ≡ true = ap (λ u. u.closing) h.1.0 ∙ h.1.1.is_closing in
          ground (arith, h.0, closing)

  register-Shut : (owner : ℕ) → Keeps Shut (register owner)
  unfolding register
  register-Shut owner = Triple-bind (Triple-gets {P = Shut} _) λ s₀.
      Triple-bind (Triple-require {P = λ s. (s₀ ≡ s) × Shut s} _ _ λ s h. h.1) λ _.
        unreachable λ s h.
          let valid : is_valid owner s₀ ≡ true = ground (arith, h.0) in
          invalid owner s h.1.1 (ap (is_valid owner) (sym h.1.0) ∙ valid)

  finish_owner-Shut : (owner : ℕ) (primary : Bool) → Keeps Shut (finish_owner owner primary)
  unfolding finish_owner
  finish_owner-Shut owner primary = Triple-bind (Triple-gets {P = Shut} _) λ s₀.
      Triple-if (not (is_valid owner s₀) || any (is_pending owner) s₀.threads)
        (λ _.
          Triple-bind
            (Triple-modify {Q = λ _ s. Shut s} _ λ s h. record {
              is_closing = h.1.is_closing;
              same_sequence = h.1.same_sequence;
              same_owners = h.1.same_owners;
              same_ended = h.1.same_ended;
              same_threads = h.1.same_threads;
            })
            λ _. Keeps-raise _)
        λ free. unreachable λ s h.
          let valid : is_valid owner s₀ ≡ true = ground (arith, free) in
          invalid owner s h.1 (ap (is_valid owner) (sym h.0) ∙ valid)

  poll_barrier-Shut : (late : Bool) → Keeps Shut (poll_barrier late)
  unfolding poll_barrier mark_unknown
  poll_barrier-Shut late = Keeps-bind _ _ (Keeps-gets _) λ s₀. Keeps-if _ _ _ (Keeps-pure _) (
      Keeps-if _ _ _ (Keeps-bind _ _ (Keeps-modify _ unknown-Shut) λ _. Keeps-raise _)
        (Keeps-pure _))

  find-done :
      (k : ℕ) (w : Work) (vs : List Work)
      → all is_done vs ≡ true
      → find k vs ≡ some w
      → is_done w ≡ true
  find-done k w [] h e = cc
  find-done k w (v ∷ vs) h e = elim (Bool-cases (v.sequence == k)) [
    | inl same ↦
        let is_w : v ≡ w = ground (arith, same, e) in
        subst (λ u. is_done u ≡ true) is_w (ground (arith, h))
    | inr other ↦ find-done k w vs (ground (arith, h)) (ground (arith, other, e))
  ]

  found-Shut :
      (k : ℕ) (test : Work → Bool) (step : Work → Method (Unit {0})) (s : Group) (o : Option Work)
      → ((w : Work) → is_done w ≡ true → test w ≡ false)
      → find k s.threads ≡ o
      → Shut s
      → Ends (λ _ t. Shut t) (λ _ t. Shut t) (found test step o s)
  found-Shut k test step s none past e h = h
  found-Shut k test step s (some w) past e h =
      let done = find-done k w ws all_done (ap (find k) (sym h.same_threads) ∙ e) in
      rw (past w done) h

  at_work-Shut :
      (k : ℕ) (test : Work → Bool) (step : Work → Method (Unit {0}))
      → ((w : Work) → is_done w ≡ true → test w ≡ false)
      → Keeps Shut (at_work k test step)
  unfolding at_work ◌>>=◌
  at_work-Shut k test step past = record {
    at = λ s h. found-Shut k test step s (find k s.threads) past refl h;
  }

  ignore-Shut : {A : Type 0} {m : Method A} → Keeps Shut m → Keeps Shut (ignore m)
  ignore-Shut k = Keeps-bind _ _ k λ _. Keeps-pure _

  perform-Shut : (e : Event) → Keeps Shut (perform e)
  unfolding freeze mark_unknown begin_barrier
  perform-Shut admits = ignore-Shut admit-Shut
  perform-Shut freezes = Keeps-modify _ closing-Shut
  perform-Shut marks_unknown = Keeps-modify _ unknown-Shut
  perform-Shut (registers owner) = ignore-Shut (register-Shut owner)
  perform-Shut (finishes owner primary) = finish_owner-Shut owner primary
  perform-Shut (begins_barrier timeout_ns) =
      Keeps-bind _ _ (Keeps-require _ _) λ _. Keeps-modify _ closing-Shut
  perform-Shut (polls late) = ignore-Shut (poll_barrier-Shut late)
  perform-Shut (starts k observed b) = at_work-Shut k is_new _ λ w d. ground (arith, d)
  perform-Shut (executes k raised observed notified) =
      at_work-Shut k is_running _ λ w d. ground (arith, d)
  perform-Shut (exits k) = at_work-Shut k is_leaving _ λ w d. ground (arith, d)
  perform-Shut (cancels k) = at_work-Shut k is_waiting _ λ w d. ground (arith, d)
  perform-Shut (joins k returns) = at_work-Shut k is_joinable _ λ w d. ground (arith, d)

  history-Shut : (events : List Event) (s : Group) → Shut s → Shut (history events s)
  unfolding history
  history-Shut [] s h = h
  history-Shut (e ∷ events) s h = history-Shut events _ (Keeps-final (perform-Shut e) s h)

poll-quiescent :
    (late : Bool) (s t : Group) (n : ℕ)
    → poll_barrier late s ≡ ok (some n) t
    → (is_quiescent s ≡ true) × (s.sequence ≡ n) × (s ≡ t)
unfolding poll_barrier ◌>>=◌ mark_unknown
poll-quiescent late s t n h = elim (Bool-cases (is_quiescent s)) [
  | inl q ↦ (q, ground (arith, q, h), ground (arith, q, h))
  | inr q ↦ absurd (ground (arith, q, h))
]

-- When a round of the barrier of a closing group returns n, then in that group, and after every
-- further history of calls and of thread steps: the sequence number is n, no owner or work was
-- added or has changed since, every owner has ended, and every work is joined, with its function
-- ended and its thread no longer alive.
pub poll_barrier-IsDone :
    (late : Bool) (s t : Group) (n : ℕ) (events : List Event)
    → s.closing ≡ true
    → poll_barrier late s ≡ ok (some n) t
    → ((history events t).sequence ≡ n)
      × ((history events t).owners ≡ s.owners)
      × ((history events t).threads ≡ s.threads)
      × (all (λ o. mem o (history events t).ended) (history events t).owners ≡ true)
      × (all is_done (history events t).threads ≡ true)
poll_barrier-IsDone late s t n events c e =
    let (q, number, same) = poll-quiescent late s t n e in
    let all_ended : all (λ o. mem o s.ended) s.owners ≡ true = ground (arith, q) in
    let all_done : all is_done s.threads ≡ true = ground (arith, q) in
    let start : IsShut s.sequence s.owners s.ended s.threads s = record {
      is_closing = c;
      same_sequence = refl;
      same_owners = refl;
      same_ended = refl;
      same_threads = refl;
    } in
    let h =
      history-Shut s.sequence s.owners s.ended s.threads all_ended all_done events t
        (subst (IsShut s.sequence s.owners s.ended s.threads) same start) in
    (
      h.same_sequence ∙ number,
      h.same_owners,
      h.same_threads,
      subst (λ es. all (λ o. mem o es) (history events t).owners ≡ true) (sym h.same_ended)
          (ap (all (λ o. mem o s.ended)) h.same_owners ∙ all_ended),
      ap (all is_done) h.same_threads ∙ all_done,
    )
