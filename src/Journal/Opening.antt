-- ===== src/Journal/Opening.antt =====
-- `__init__` of `RequestJournal` of velociraptor_observation_journal.py.
use mcp_velociraptor.Proc.Handle.{Triple-test}
use mcp_velociraptor.Journal.Operations.{history-IsJournal, history, Operation}
use mcp_velociraptor.Journal.Invariant.{
  publish-Triple, count_record-IsCounted, IsJournal, IsCounted,
}
use mcp_velociraptor.Proc.Triple.{
  Triple-modify, Triple_final, Triple-pure, Triple-if, Triple-some_or, Triple-gets, Triple-mono,
  Triple-bind, Triple, Ends,
}
use mcp_velociraptor.Proc.{err, ok, Exit}
use mcp_velociraptor.Journal.Model.{
  set_failed, journal_error, abandoned, count_record, empty, reserve, open_journal, first_record,
  close_publisher, close, Refusal, Payload, Journal, Depends,
}
use mcp_velociraptor.Prelude.{
  ◌∙◌, sym, subst, ◌&&◌, length, leb, inr, ◌≤◌, inl, true, false, arith, Bool-cases, ◌+◌, ◌≡◌, ℕ,
  List, refl,
}

module _ (d : Depends) where
  -- before the first record
  record IsEmpty (s : Journal) : Type 0 where
    is_counted : IsCounted d s
    no_records : s.count ≡ 0
    no_events : s.events ≡ 0
    not_poisoned : s.poisoned ≡ false

  empty-IsEmpty : (payload : Payload) → IsEmpty (empty d payload)
  empty-IsEmpty payload = record {
    is_counted = ground arith;
    no_records = refl;
    no_events = refl;
    not_poisoned = refl;
  }

  abbrev Room : List ℕ → Journal → Type 0
  Room raw s =
      (s.count + 2 ≤ d.max_records)
      × (s.bytes + length raw + d.max_record_bytes ≤ d.max_total_bytes)
      × IsEmpty s

  abbrev Counted : Refusal → Journal → Type 0
  Counted e s = IsCounted d s

  asks-Empty : (raw : List ℕ) (n : ℕ) (s : Journal) → Room raw s → Room raw (record s { asked = n })
  asks-Empty raw n s (c, b, h) = (
    c,
    b,
    record {
      is_counted = ground (arith, h.is_counted);
      no_records = h.no_records;
      no_events = h.no_events;
      not_poisoned = h.not_poisoned;
    },
  )

  opened : (raw : List ℕ) (s : Journal) → Room raw s → IsJournal d (count_record d.sha256 raw s)
  opened raw s (c, b, h) = record {
    is_counted = count_record-IsCounted d raw s (omega arith) (omega arith) h.is_counted;
    poisoned_failed = λ p. cc (p, h.not_poisoned);
    open_chain = λ _ _. ground (arith, h.no_records, h.no_events);
  }

  reserve-Empty : (raw : List ℕ) → Triple IsEmpty (reserve d raw) (λ _ s. Room raw s) Counted
  unfolding reserve
  reserve-Empty raw =
      Triple-mono
        (Triple-test IsEmpty Counted
          (λ s.
            leb (s.count + 2) d.max_records
            && leb (s.bytes + length raw + d.max_record_bytes) d.max_total_bytes)
          journal_error (λ s h. h.is_counted))
        (λ s h. h) (λ _ s h. (ground (arith, h.0), ground (arith, h.0), h.1)) (λ e s h. h)

  first_record-Ends :
      (payload : Payload) → Triple IsEmpty (first_record d payload) (λ _ s. IsJournal d s) Counted
  unfolding first_record
  first_record-Ends payload = Triple-bind (Triple-some_or _ _ λ s h. h.is_counted) λ raw.
      Triple-bind (Triple-mono (reserve-Empty raw) (λ s h. h.1) (λ _ s h. h) (λ e s h. h)) λ _.
        Triple-mono (publish-Triple d (Room raw) raw 0 (asks-Empty raw) (λ s h. h.2.is_counted))
          (λ s h. h) (λ _ t h. subst (IsJournal d) (sym h.2) (opened raw h.0 h.1))
          (λ e s h. h.is_counted)

  abbrev Failed : Journal → Type 0
  Failed s = IsCounted d s × (s.failed ≡ true)

  abbrev Abandoned : Journal → Type 0
  Abandoned s = IsCounted d s × (s.failed ≡ true) × (s.closed ≡ true)

  abbrev Closing : Journal → Type 0
  Closing s = IsCounted d s × (s.failed ≡ true) × (s.closed ≡ true) × (s.closings ≡ 0)

  closing : (s : Journal) → s.closed ≡ false → Failed s → Closing (record s { closed = true })
  closing s e (h, f) = (ground (arith, h, h.closings_zero e), f, refl, h.closings_zero e)

  close_publisher-Abandoned :
      Triple Closing (close_publisher d) (λ _ s. Abandoned s) (λ _ s. Abandoned s)
  unfolding close_publisher
  close_publisher-Abandoned = record {
    at = λ s h. elim (Bool-cases d.closes) [
      | inl e ↦ simp e (ground (arith, h), h.1, h.2)
      | inr e ↦ simp e (ground (arith, h), refl, h.2)
    ];
  }

  close-Abandoned : Triple Failed (close d) (λ _ s. Abandoned s) (λ _ s. Abandoned s)
  unfolding close
  close-Abandoned = Triple-bind (Triple-gets _) λ closed.
      Triple-if closed (λ is_closed. Triple-pure _ λ s h. (h.1.0, h.1.1, sym h.0 ∙ is_closed))
        λ not_yet.
          Triple-bind
            (Triple-modify {Q = λ _ s. Closing s} _ λ s h. closing s (sym h.0 ∙ not_yet) h.1)
            λ _.
              Triple-if d.owns_publisher (λ _. close_publisher-Abandoned)
                (λ _. Triple-pure _ λ s h. (h.0, h.1, h.2))

  abbrev Opened : Unit {0} → Journal → Type 0
  Opened a s = (ops : List Operation) → IsJournal d (history d ops s)

  concluded :
      (r : Exit Journal Refusal (Unit {0}))
      → Ends (λ _ s. IsJournal d s) Counted r
      → Ends Opened
          (λ _ s. Abandoned s)
          (elim r [ ok a s ↦ ok tt s | err e s ↦ err e (abandoned d (err e s)) ])
  concluded (ok a s) h = λ ops. history-IsJournal d ops s h
  concluded (err e s) h =
      Triple_final close-Abandoned (λ _ s h. h) (λ _ s h. h) (set_failed s)
        (ground (arith, h), refl)

  -- Whatever the codec and the publisher answer: the constructor either makes a journal that
  -- satisfies the invariant, now and after every history of calls, or raises and leaves a journal
  -- that is failed and closed, whose counts are still those of the acknowledged records, and whose
  -- publisher was closed at most once.
  pub open_journal-Opened :
      (payload : Payload) → Ends Opened (λ _ s. Abandoned s) (open_journal d payload)
  unfolding open_journal
  open_journal-Opened payload =
      concluded (first_record d payload (empty d payload))
        ((first_record-Ends payload).at (empty d payload) (empty-IsEmpty payload))
