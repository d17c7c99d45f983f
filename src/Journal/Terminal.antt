-- ===== src/Journal/Terminal.antt =====
-- `RequestJournal` of velociraptor_observation_journal.py, about its end: poisoned, closed or
-- sealed.
use mcp_velociraptor.Proc.Handle.{some_or_ok, require_ok, on_error_ok, bind_ok}
use mcp_velociraptor.Journal.Invariant.{set_sealed, IsJournal}
use mcp_velociraptor.Proc.{some_or, require, ◌>>=◌, on_error, ok}
use mcp_velociraptor.Proc.Keeps.{
  Keeps-raise, Keeps-require, Keeps-modify, Keeps-pure, Keeps-if, Keeps-gets, Keeps-bind,
}
use mcp_velociraptor.Proc.Triple.{Keeps-final, Triple-bind, Triple, Keeps}
use mcp_velociraptor.Journal.Operations.{
  closes, fails, closes_claim, claims, seals, appends, perform, history, Operation,
}
use mcp_velociraptor.Journal.Model.{
  raised, codec_error, malformed, journal_error, set_poisoned, ref, acknowledged, Ack, count_record,
  is_expected, sealing, claim, seal_record, ask, append, publish, close_claim, Entry, set_failed,
  seal_chain, fail, close_publisher, close, available, Method, seal, Journal, Depends,
}
use mcp_velociraptor.Prelude.{
  ◌∙◌, ◌&&◌, not, leb, [], ◌∷◌, ◌++◌, false, ◌≤◌, length, some, inr, inl, ◌+◌, arith, Bool-cases,
  ◌||◌, true, ◌≡◌, Bool, ℕ, String, List, refl,
}

module _ (d : Depends) where
  abbrev blocked : Journal → Bool
  blocked s = s.poisoned || s.closed || s.sealed

  -- blocked, with what the publisher has seen so far
  record IsSilent (n : ℕ) (l : List (List ℕ)) (s : Journal) : Type 0 where
    is_blocked : blocked s ≡ true
    same_asked : s.asked ≡ n
    same_published : s.published ≡ l

  module _ (n : ℕ) (l : List (List ℕ)) where
    available-Silent : Triple (IsSilent n l) (available d) (λ _ _. ⊥) (λ _ s. IsSilent n l s)
    unfolding available
    available-Silent = record { at = λ s h. simp (h.is_blocked) h }

    fail-Silent : (s : Journal) → IsSilent n l s → IsSilent n l (set_failed s)
    fail-Silent s h = record {
      is_blocked = h.is_blocked;
      same_asked = h.same_asked;
      same_published = h.same_published;
    }

    unreachable :
        {A : Type 0} {m : Method A}
        → Triple (λ _. ⊥) m (λ _ s. IsSilent n l s) (λ _ s. IsSilent n l s)
    unreachable = record { at = λ s h. absurd h }

    closed-Silent :
        (b : Bool) (s : Journal) → IsSilent n l s → IsSilent n l (record s { closed = true })
    closed-Silent b s h = record {
      is_blocked = ground arith;
      same_asked = h.same_asked;
      same_published = h.same_published;
    }

    publisher-Silent : Keeps (IsSilent n l) (close_publisher d)
    unfolding close_publisher
    publisher-Silent = record {
      at = λ s h. elim (Bool-cases d.closes) [
        | inl e ↦ simp e (record {
          is_blocked = h.is_blocked;
          same_asked = h.same_asked;
          same_published = h.same_published;
        })
        | inr e ↦ simp e (record {
          is_blocked = h.is_blocked;
          same_asked = h.same_asked;
          same_published = h.same_published;
        })
      ];
    }

    close-Silent : Keeps (IsSilent n l) (close d)
    unfolding close
    close-Silent = Keeps-bind _ _ (Keeps-gets _) λ closed. Keeps-if _ _ _ (Keeps-pure _) (
        Keeps-bind _ _ (Keeps-modify _ (closed-Silent true))
          λ _. Keeps-if _ _ _ publisher-Silent (Keeps-pure _))

    perform-Silent : (op : Operation) → Keeps (IsSilent n l) (perform d op)
    unfolding fail close_claim append seal claim
    perform-Silent (appends payload) = Triple-bind available-Silent λ _. unreachable
    perform-Silent (seals outcome failing) = Triple-bind available-Silent λ _. unreachable
    perform-Silent fails = Keeps-modify _ fail-Silent
    perform-Silent closes = close-Silent
    perform-Silent (claims o k t a) = Keeps-bind _ _ (Keeps-gets _) λ s₀.
        Keeps-bind _ _ (Keeps-require _ _) λ _.
          Keeps-bind _ _
            (Keeps-modify _ λ s h. record {
              is_blocked = h.is_blocked;
              same_asked = h.same_asked;
              same_published = h.same_published;
            })
            λ _.
              Keeps-if _ _ _ (Keeps-bind _ _ (Keeps-modify _ fail-Silent) λ _. Keeps-raise _)
                (Keeps-pure _)
    perform-Silent (closes_claim o) =
        Keeps-bind _ _ (Keeps-gets _) λ s₀. Keeps-if _ _ _ close-Silent (Keeps-pure _)

    history-Silent :
        (ops : List Operation) (s : Journal) → IsSilent n l s → IsSilent n l (history d ops s)
    unfolding history
    history-Silent [] s h = h
    history-Silent (op ∷ ops) s h = history-Silent ops _ (Keeps-final (perform-Silent op) s h)

  -- Once a journal is poisoned, closed or sealed, no history of calls asks the publisher for
  -- anything, adds a record, or makes the journal available again.
  pub history-blocked :
      (ops : List Operation) (s : Journal)
      → (s.poisoned || s.closed || s.sealed) ≡ true
      → ((history d ops s).asked ≡ s.asked)
        × ((history d ops s).published ≡ s.published)
        × (((history d ops s).poisoned || (history d ops s).closed || (history d ops s).sealed)
            ≡ true)
  history-blocked ops s b =
      let h =
        history-Silent s.asked s.published ops s
          (record { is_blocked = b; same_asked = refl; same_published = refl }) in
      (h.same_asked, h.same_published, h.is_blocked)

  -- the record with which the chain is sealed
  abbrev pub seal_entry : String → Bool → Journal → Entry
  seal_entry outcome failing s = record {
    kind = seal_record;
    sequence = s.events + 1;
    previous = s.head;
    payload = sealing outcome failing s.events;
  }

  acknowledged_ok :
      (raw : List ℕ) (sequence : ℕ) (a : Ack) (s : Journal)
      → is_expected d.sha256 raw sequence a ≡ true
      → acknowledged d a (is_expected d.sha256 raw sequence a) s ≡ ok tt s
  acknowledged_ok raw sequence (ref path size digest) s h = require_ok journal_error s h
  acknowledged_ok raw sequence malformed s h = cc
  acknowledged_ok raw sequence raised s h = cc

  publish_ok :
      (raw : List ℕ) (sequence : ℕ) (s : Journal)
      → is_expected d.sha256 raw sequence (d.publish s.asked raw) ≡ true
      → publish d raw sequence s
        ≡ ok tt (count_record d.sha256 raw (record s { asked = s.asked + 1 }))
  unfolding publish ask
  publish_ok raw sequence s h =
      let t = record s { asked = s.asked + 1 } in
      bind_ok
        (on_error set_poisoned
          (ask d raw >>= λ ack. acknowledged d ack (is_expected d.sha256 raw sequence ack)))
        {s = s} {t = t} _
        (on_error_ok
          (ask d raw >>= λ ack. acknowledged d ack (is_expected d.sha256 raw sequence ack)) {s = s}
          {t = t} set_poisoned
          (bind_ok (ask d raw) {s = s} {t = t}
              (λ ack. acknowledged d ack (is_expected d.sha256 raw sequence ack)) refl
            ∙ acknowledged_ok raw sequence (d.publish s.asked raw) t h))

  unblocked : (p c e : Bool) → p ≡ false → c ≡ false → e ≡ false → not (p || c || e) ≡ true
  unblocked p c e hp hc he = ground arith

  may_fail : (f : Bool) → not (f && not true) ≡ true
  may_fail f = ground arith

  chain_ok :
      (outcome : String) (raw : List ℕ) (s : Journal)
      → d.encode (seal_entry outcome true s) ≡ some raw
      → (leb (s.count + 1) d.max_records && leb (s.bytes + length raw) d.max_total_bytes) ≡ true
      → is_expected d.sha256 raw (s.events + 1) (d.publish s.asked raw) ≡ true
      → seal_chain d outcome true s
        ≡ ok tt (set_sealed (count_record d.sha256 raw (record s { asked = s.asked + 1 })))
  unfolding seal_chain ◌>>=◌
  chain_ok outcome raw s enc room ack =
      bind_ok (require (not (s.failed && not true)) journal_error) _
        (require_ok journal_error s (may_fail s.failed))
      ∙ (bind_ok (some_or codec_error (d.encode (seal_entry outcome true s))) _
            (some_or_ok codec_error s enc)
          ∙ (bind_ok
                (require
                  (leb (s.count + 1) d.max_records && leb (s.bytes + length raw) d.max_total_bytes)
                  journal_error)
                _ (require_ok journal_error s room)
              ∙ bind_ok (publish d raw (s.events + 1)) {s = s} _
                  (publish_ok raw (s.events + 1) s ack)))

  -- Where the encoder keeps its limit of a record: a journal that satisfies the invariant and is
  -- neither poisoned, closed nor sealed can be sealed as failed: if its seal encodes and the
  -- publisher acknowledges it as expected, `seal` returns, with the seal as the last record. The
  -- budgets never refuse it.
  pub seal-open :
      (outcome : String) (raw : List ℕ) (s : Journal)
      → ((e : Entry) (r : List ℕ) → d.encode e ≡ some r → length r ≤ d.max_record_bytes)
      → IsJournal d s
      → s.poisoned ≡ false
      → s.closed ≡ false
      → s.sealed ≡ false
      → d.encode (seal_entry outcome true s) ≡ some raw
      → is_expected d.sha256 raw (s.events + 1) (d.publish s.asked raw) ≡ true
      → (t : Journal) × (seal d outcome true s ≡ ok tt t)
        × (t.sealed ≡ true)
        × (t.published ≡ s.published ++ raw ∷ [])
  unfolding seal available
  seal-open outcome raw s limit j p c e enc ack =
      let o = j.open_chain p e in
      let small = limit _ raw enc in
      let room : (leb (s.count + 1) d.max_records && leb (s.bytes + length raw) d.max_total_bytes)
          ≡ true =
        ground (arith, o, small) in
      (
        set_sealed (count_record d.sha256 raw (record s { asked = s.asked + 1 })),
        bind_ok (available d) {s = s} _
              (require_ok journal_error s (unblocked s.poisoned s.closed s.sealed p c e))
            ∙ on_error_ok (seal_chain d outcome true) {s = s} set_poisoned
                (chain_ok outcome raw s enc room ack),
        refl,
        refl,
      )
