-- ===== src/Workers/Safe.antt =====
-- The works of velociraptor_observation_workers.py: when one is safe, and the change of one.
use mcp_velociraptor.Workers.Model.{change, update, mem, find, Work, Group}
use mcp_velociraptor.Prelude.{
  suc, [], sym, ap, subst, inr, inl, arith, ◌==◌, false, Bool-cases, ◌∷◌, true, some, ◌≡◌, ◌+◌, ◌≤◌,
  length, All, ℕ, List, refl,
}

pub record IsSafe (ended : List ℕ) (w : Work) : Type 0 where
  pub ended_joined : mem w.owner ended ≡ true → w.joined ≡ true
  pub joined_exited : w.joined ≡ true → w.exited ≡ true
  pub joined_has_thread : w.joined ≡ true → w.has_thread ≡ true
  pub joined_not_alive : w.joined ≡ true → w.alive ≡ false

pub record IsGroup (s : Group) : Type 0 where
  pub bounded : s.sequence ≤ s.limit
  pub counted : length s.owners + length s.threads ≡ s.sequence
  pub all_safe : All (IsSafe s.ended) s.threads

length-update : (n : ℕ) (f : Work → Work) (ws : List Work) → length (update n f ws) ≡ length ws
length-update n f [] = refl
length-update n f (w ∷ ws) = elim (Bool-cases (w.sequence == n)) [
  | inl e ↦ rw e refl
  | inr e ↦ rw e (ap suc (length-update n f ws))
]

All-update :
    (P : Work → Type 0) (n : ℕ) (f : Work → Work) (w : Work) (ws : List Work)
    → All P ws
    → find n ws ≡ some w
    → (P w → P (f w))
    → All P (update n f ws)
All-update P n f w [] h e k = h
All-update P n f w (v ∷ ws) h e k = elim (Bool-cases (v.sequence == n)) [
  | inl same ↦
      let is_w : v ≡ w = ground (arith, same, e) in
      rw same (subst (λ u. P (f u)) (sym is_w) (k (subst P is_w h.0)), h.1)
  | inr other ↦ rw other (h.0, All-update P n f w ws h.1 (ground (arith, other, e)) k)
]

-- A change of the found work that is safe keeps the invariant.
pub change-IsGroup :
    (n : ℕ) (f : Work → Work) (w : Work) (s : Group)
    → find n s.threads ≡ some w
    → (IsSafe s.ended w → IsSafe s.ended (f w))
    → IsGroup s
    → IsGroup (change n f s)
change-IsGroup n f w s e k h = record {
  bounded = h.bounded;
  counted = omega (arith, h.counted, length-update n f s.threads);
  all_safe = All-update (IsSafe s.ended) n f w s.threads h.all_safe e k;
}
