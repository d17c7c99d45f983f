-- ===== src/Paths/Collisions.antt =====
-- `_check_collisions` of velo_transfer/manifest.py, about the names as a whole.
use mcp_velociraptor.Protocol.Faults.{expect}
use mcp_velociraptor.Wire.Frame.{same_bytes_iff, same_bytes}
use mcp_velociraptor.Paths.{cons_head, split, parents_of, heads, join, is_in, Unicode}
use mcp_velociraptor.Prelude.{
  ◌∙◌, subst, map, length-append, ap, ◌==◌, ◌++◌, sym, arith, Bool-cases, ◌<◌, ◌≡◌, ◌||◌, not,
  length, String, All, ℕ, List, Bool, refl, inl, inr, [], ◌∷◌, true, false, none,
}

-- `All` of two predicates, of one that follows, and of a list's image
module _ {A : Type 0} (P Q : A → Type 0) where
  pub All-zip : (xs : List A) → All P xs → All Q xs → All (λ x. P x × Q x) xs
  All-zip [] h k = tt
  All-zip (x ∷ xs) (h, hs) (k, ks) = ((h, k), All-zip xs hs ks)

  pub All-imply : (xs : List A) → ((x : A) → P x → Q x) → All P xs → All Q xs
  All-imply [] f h = tt
  All-imply (x ∷ xs) f (h, hs) = (f x h, All-imply xs f hs)

pub All-map :
    {A B : Type 0} (P : B → Type 0) (f : A → B) (xs : List A)
    → All (λ x. P (f x)) xs
    → All P (map f xs)
All-map P f [] h = tt
All-map P f (x ∷ xs) (h, hs) = (h, All-map P f xs hs)

pub neither : (x y : Bool) → x || y ≡ false → (x ≡ false) × (y ≡ false)
neither x y h = (ground arith, ground arith)

pub neither-false : (x y : Bool) → x ≡ false → y ≡ false → x || y ≡ false
neither-false x y h k = ground arith

pub not-true : (x : Bool) → not x ≡ true → x ≡ false
not-true true h = cc h
not-true false h = refl

pub not-false : (x : Bool) → x ≡ false → not x ≡ true
not-false true h = cc h
not-false false h = refl

pub expect-none : (b : Bool) (code : String) → b ≡ true → expect b code ≡ none
expect-none true code h = refl
expect-none false code h = cc h

pub same_bytes-swap : (a b : List ℕ) → same_bytes a b ≡ false → same_bytes b a ≡ false
same_bytes-swap a b h = elim (Bool-cases (same_bytes b a)) [
  | inr e ↦ e
  | inl e ↦ cc (h, (same_bytes_iff a b).1 (sym ((same_bytes_iff b a).0 e)))
]

longer-differs : (a b : List ℕ) → length a < length b → same_bytes a b ≡ false
longer-differs a b h = elim (Bool-cases (same_bytes a b)) [
  | inr e ↦ e
  | inl e ↦ absurd (irrefl (length a) (length b) (ap length ((same_bytes_iff a b).0 e)) h)
]
  where
    irrefl : (m n : ℕ) → m ≡ n → m < n → ⊥
    irrefl m n e h = omega arith

abbrev IsCons : List (List ℕ) → Type 0
IsCons [] = ⊥
IsCons (p ∷ ps) = Unit {0}

module _ (sep : ℕ) where
  join-empty : (ps : List (List ℕ)) → IsCons ps → join sep ([] ∷ ps) ≡ sep ∷ join sep ps
  join-empty [] h = absurd h
  join-empty (p ∷ ps) h = refl

  join-head : (c : ℕ) (ps : List (List ℕ)) → IsCons ps → join sep (cons_head c ps) ≡ c ∷ join sep ps
  join-head c [] h = absurd h
  join-head c (p ∷ []) h = refl
  join-head c (p ∷ q ∷ ps) h = refl

  cons_head-IsCons : (c : ℕ) (ps : List (List ℕ)) → IsCons (cons_head c ps)
  cons_head-IsCons c [] = tt
  cons_head-IsCons c (p ∷ ps) = tt

  split-IsCons : (cs : List ℕ) → IsCons (split sep cs)
  split-IsCons [] = tt
  split-IsCons (c ∷ cs) = elim (Bool-cases (c == sep)) [
    | inl e ↦ rw e tt
    | inr e ↦ rw e (cons_head-IsCons c (split sep cs))
  ]

  -- what was split is joined again
  join-split : (cs : List ℕ) → join sep (split sep cs) ≡ cs
  join-split [] = refl
  join-split (c ∷ cs) = elim (Bool-cases (c == sep)) [
    | inl e ↦ rw e (
        join-empty (split sep cs) (split-IsCons cs)
        ∙ (ap (◌∷◌ sep) (join-split cs) ∙ ap (λ d. d ∷ cs) (sym (same_number c sep e))))
    | inr e ↦ rw e (join-head c (split sep cs) (split-IsCons cs) ∙ ap (◌∷◌ c) (join-split cs))
  ]
    where
      same_number : (a b : ℕ) → a == b ≡ true → a ≡ b
      same_number a b h = ground arith

  abbrev IsHead : List (List ℕ) → List (List ℕ) → Type 0
  IsHead ps h = IsCons h × (length (join sep h) < length (join sep ps))

  longer : (p q : List ℕ) → length p < length (p ++ sep ∷ q)
  longer p q = omega (arith, length-append p (sep ∷ q))

  longer-cons :
      (p : List ℕ) (ps h : List (List ℕ)) → IsCons ps → IsHead ps h → IsHead (p ∷ ps) (p ∷ h)
  longer-cons p [] h c k = absurd c
  longer-cons p (q ∷ ps) [] c k = absurd k.0
  longer-cons p (q ∷ ps) (x ∷ hs) c (_, k) = (
    tt,
    omega (
      arith,
      length-append p (sep ∷ join sep (x ∷ hs)),
      length-append p (sep ∷ join sep (q ∷ ps)),
      k,
    ),
  )

  heads-IsHead : (ps : List (List ℕ)) → All (IsHead ps) (heads ps)
  heads-IsHead [] = tt
  heads-IsHead (p ∷ []) = tt
  heads-IsHead (p ∷ q ∷ ps) = (
    (tt, longer p (join sep (q ∷ ps))),
    All-map (IsHead (p ∷ q ∷ ps)) (λ h. p ∷ h) (heads (q ∷ ps))
        (All-imply (IsHead (q ∷ ps)) (λ h. IsHead (p ∷ q ∷ ps) (p ∷ h)) (heads (q ∷ ps))
          (λ h k. longer-cons p (q ∷ ps) h tt k) (heads-IsHead (q ∷ ps))),
  )

module _ (u : Unicode) where
  not-in :
      (names : List (List ℕ)) (f : List ℕ)
      → All (λ n. same_bytes n f ≡ false) names
      → is_in u names f ≡ false
  not-in [] f h = refl
  not-in (n ∷ ns) f (h, hs) = neither-false (same_bytes n f) (is_in u ns f) h (not-in ns f hs)

  -- No text is above itself.
  pub own_parents : (f : List ℕ) → is_in u (parents_of u f) f ≡ false
  unfolding parents_of
  own_parents f = not-in (parents_of u f) f (
      All-map (λ n. same_bytes n f ≡ false) (join b'/') (heads (split b'/' f))
        (All-imply (IsHead b'/' (split b'/' f)) (λ h. same_bytes (join b'/' h) f ≡ false)
          (heads (split b'/' f))
          (λ h k.
            longer-differs (join b'/' h) f
              (subst (λ v. length (join b'/' h) < length v) (join-split b'/' f) k.1))
          (heads-IsHead b'/' (split b'/' f))))
