-- ===== src/Journal/Operations.antt =====
-- The calls of `RequestJournal` of velociraptor_observation_journal.py, in any order.
use mcp_velociraptor.Proc.Keeps.{
  Keeps-raise, Keeps-pure, Keeps-bind, Keeps-if, Keeps-require, Keeps-modify, Keeps-gets,
}
use mcp_velociraptor.Proc.Handle.{Triple-on_error}
use mcp_velociraptor.Proc.{final}
use mcp_velociraptor.Proc.Triple.{
  Triple-pure, Triple-if, Triple, Keeps-final, Triple-modify, Triple-mono, Triple-some_or,
  Triple-require, Triple-gets, Triple-bind, Keeps,
}
use mcp_velociraptor.Journal.Invariant.{
  set_failed-IsJournal, append-IsJournal, poisoned-IsJournal, publish-Triple, available-Triple,
  count_record-IsCounted, IsAvailable, set_sealed, IsJournal, IsCounted,
}
use mcp_velociraptor.Prelude.{
  Option, inr, ◌∙◌, inl, Bool-cases, some, ap, refl, sym, subst, true, ◌&&◌, leb, length, false, [],
  ◌≤◌, ◌≡◌, arith, ◌∷◌, Bool, ◌+◌, ℕ, String, List,
}
use mcp_velociraptor.Journal.Model.{
  Method, set_poisoned, count_record, close_claim, claim, seal_chain, fail, close_publisher, seal,
  close, append, Refusal, Journal, Payload, Depends,
}

-- the calls that a client can make
pub data Operation : Type 0 where
  appends : Payload → Operation
  seals : String → Bool → Operation
  fails closes : Operation
  claims : ℕ → String → String → String → Operation
  closes_claim : Option ℕ → Operation

abbrev pub perform : Depends → Operation → Method (Unit {0})
perform d (appends payload) = append d payload
perform d (seals outcome failing) = seal d outcome failing
perform d fails = fail d
perform d closes = close d
perform d (claims owner key tool digest) = claim d owner key tool digest
perform d (closes_claim owner) = close_claim d owner

-- A history of calls; an exception ends its own call only.
unfoldable pub history : Depends → List Operation → Journal → Journal
history d [] s = s
history d (op ∷ ops) s = history d ops (final (perform d op s))

module _ (d : Depends) where
  abbrev Counted : Refusal → Journal → Type 0
  Counted e s = IsCounted d s

  IsCounted-asked : (n : ℕ) (s : Journal) → IsCounted d s → IsCounted d (record s { asked = n })
  IsCounted-asked n s h = ground arith

  sealed-IsJournal : (s : Journal) → IsCounted d s → s.poisoned ≡ false → IsJournal d (set_sealed s)
  sealed-IsJournal s h p = record {
    is_counted = ground arith;
    poisoned_failed = λ q. cc (p, q);
    open_chain = λ _ q. cc q;
  }

  abbrev Sealable : List ℕ → Journal → Type 0
  Sealable raw s =
      (s.count + 1 ≤ d.max_records)
      × (s.bytes + length raw ≤ d.max_total_bytes)
      × (s.poisoned ≡ false)
      × IsCounted d s

  ready :
      (s₀ s : Journal) (raw : List ℕ)
      → s₀ ≡ s
      → (leb (s₀.count + 1) d.max_records && leb (s₀.bytes + length raw) d.max_total_bytes) ≡ true
      → IsAvailable d s
      → Sealable raw s
  ready s₀ s raw e t a =
      let c = ap (λ (j : Journal). j.count) e in
      let b = ap (λ (j : Journal). j.bytes) e in
      (ground (arith, c, t), ground (arith, b, t), a.not_poisoned, a.is_counted)

  done :
      (raw : List ℕ) (s t : Journal)
      → Sealable raw s
      → t ≡ count_record d.sha256 raw s
      → IsJournal d (set_sealed t)
  done raw s t h e =
      subst (λ u. IsJournal d (set_sealed u)) (sym e)
        (sealed-IsJournal (count_record d.sha256 raw s) (count_record-IsCounted d raw s h.0 h.1 h.3)
          h.2)

  claimed : (o : ℕ) (s : Journal) → IsJournal d s → IsJournal d (record s { owner = some o })
  claimed o s h = record {
    is_counted = ground (arith, h.is_counted);
    poisoned_failed = h.poisoned_failed;
    open_chain = λ p e. ground (arith, h.open_chain p e);
  }

  seal-IsJournal :
      (outcome : String) (failing : Bool) → Keeps (IsJournal d) (seal d outcome failing)
  unfolding seal seal_chain
  seal-IsJournal outcome failing = Triple-bind (available-Triple d) λ _.
      Triple-on_error {X = Counted} set_poisoned
        (Triple-bind (Triple-gets _) λ s₀.
          Triple-bind (Triple-require _ _ λ s h. h.1.is_counted) λ _.
            Triple-bind (Triple-some_or _ _ λ s h. h.1.1.is_counted) λ raw.
              Triple-bind (Triple-require _ _ λ s h. h.1.1.1.is_counted) λ _.
                Triple-bind
                  (Triple-mono
                    (publish-Triple d (Sealable raw) raw (s₀.events + 1)
                      (λ n s h. (h.0, h.1, h.2, IsCounted-asked n s h.3)) (λ s h. h.3))
                    (λ s h. ready s₀ s raw h.1.1.1.0 h.0 h.1.1.1.1) (λ _ s h. h)
                    (λ e s h. h.is_counted))
                  λ _. Triple-modify _ λ t h. done raw h.0 t h.1 h.2)
        (λ e s h. poisoned-IsJournal d s h)

  -- closed just now, and the publisher not yet
  record IsClosing (s : Journal) : Type 0 where
    journal : IsJournal d s
    none_yet : s.closings ≡ 0
    now_closed : s.closed ≡ true

  closing :
      (s : Journal) → s.closed ≡ false → IsJournal d s → IsClosing (record s { closed = true })
  closing s o h =
      let zero_yet = h.is_counted.closings_zero o in
      record {
        journal = record {
          is_counted = ground (arith, zero_yet, h.is_counted);
          poisoned_failed = h.poisoned_failed;
          open_chain = λ p e. ground (arith, h.open_chain p e);
        };
        none_yet = zero_yet;
        now_closed = refl;
      }

  closed_once : (s : Journal) → IsClosing s → IsJournal d (record s { closings = s.closings + 1 })
  closed_once s h =
      let j = h.journal in
      record {
        is_counted = ground (arith, h.none_yet, h.now_closed, j.is_counted);
        poisoned_failed = j.poisoned_failed;
        open_chain = λ p e. ground (arith, j.open_chain p e);
      }

  closed_badly :
      (s : Journal)
      → IsClosing s
      → IsJournal d (record s { closings = s.closings + 1; failed = true; close_failed = true })
  closed_badly s h =
      let j = closed_once s h in
      record {
        is_counted = ground (arith, j.is_counted);
        poisoned_failed = λ _. refl;
        open_chain = λ p e. ground (arith, j.open_chain p e);
      }

  close_publisher-IsJournal :
      Triple IsClosing (close_publisher d) (λ _ s. IsJournal d s) (λ _ s. IsJournal d s)
  unfolding close_publisher
  close_publisher-IsJournal = record {
    at = λ s h. elim (Bool-cases d.closes) [
      | inl e ↦ simp e (closed_once s h)
      | inr e ↦ simp e (closed_badly s h)
    ];
  }

  close-IsJournal : Keeps (IsJournal d) (close d)
  unfolding close
  close-IsJournal = Triple-bind (Triple-gets _) λ closed.
      Triple-if closed (λ _. Triple-pure _ λ s h. h.1)
        λ not_yet.
          Triple-bind
            (Triple-modify {Q = λ _ s. IsClosing s} _ λ s h. closing s (sym h.0 ∙ not_yet) h.1)
            λ _.
              Triple-if d.owns_publisher (λ _. close_publisher-IsJournal)
                (λ _. Triple-pure _ λ s h. h.journal)

  claim-IsJournal : (o : ℕ) (k t a : String) → Keeps (IsJournal d) (claim d o k t a)
  unfolding claim
  claim-IsJournal o k t a = Triple-bind (Keeps-gets _) λ s₀. Triple-bind (Keeps-require _ _) λ _.
      Triple-bind (Keeps-modify _ (claimed o)) λ _.
        Keeps-if _ _ _ (Keeps-bind _ _ (Keeps-modify _ (set_failed-IsJournal d)) λ _. Keeps-raise _)
          (Keeps-pure _)

  perform-IsJournal : (op : Operation) → Keeps (IsJournal d) (perform d op)
  unfolding fail close_claim
  perform-IsJournal (appends payload) = append-IsJournal d payload
  perform-IsJournal (seals outcome failing) = seal-IsJournal outcome failing
  perform-IsJournal fails = Keeps-modify _ (set_failed-IsJournal d)
  perform-IsJournal closes = close-IsJournal
  perform-IsJournal (claims o k t a) = claim-IsJournal o k t a
  perform-IsJournal (closes_claim o) =
      Triple-bind (Keeps-gets _) λ s₀. Keeps-if _ _ _ close-IsJournal (Keeps-pure _)

  -- After any history of calls, whatever the codec and the publisher answered: the counts of
  -- records and bytes are those of the acknowledged records and within the codec's limits, the
  -- publisher was closed at most once, a poisoned journal is failed, and a chain that is neither
  -- poisoned nor sealed has one record more than events and room for its seal.
  pub history-IsJournal :
      (ops : List Operation) (s : Journal) → IsJournal d s → IsJournal d (history d ops s)
  unfolding history
  history-IsJournal [] s h = h
  history-IsJournal (op ∷ ops) s h =
      history-IsJournal ops _ (Keeps-final (perform-IsJournal op) s h)
