-- ===== src/Journal/Invariant.antt =====
-- The invariant of `RequestJournal` of velociraptor_observation_journal.py, and `append`.
use mcp_velociraptor.Proc.Handle.{Triple-test, Triple-on_error}
use mcp_velociraptor.Proc.Keeps.{Keeps-require, Keeps-raise}
use mcp_velociraptor.Bytes.{total-append, total}
use mcp_velociraptor.Prelude.{
  sym, subst, [], ◌∷◌, length-append, ◌&&◌, leb, ℕ, arith, List, Bool, refl, ◌||◌, not, ◌≤◌, true,
  length, false, ◌+◌, ◌≡◌,
}
use mcp_velociraptor.Proc.Triple.{
  Triple-some_or, Triple-require, Triple-gets, Triple-modify, Triple-bind, Keeps, Triple-mono,
  Triple,
}
use mcp_velociraptor.Journal.Model.{
  Payload, append_event, set_failed, append, malformed, raised, ref, count_record, acknowledged,
  set_poisoned, reserve, publish, ask, Ack, journal_error, available, Journal, Depends,
}

-- The counters say what the publisher has acknowledged, and they are within the codec's limits;
-- the publisher is closed at most once.
pub record IsCounted (d : Depends) (s : Journal) : Type 0 where
  pub counted : s.count ≡ length s.published
  pub sized : s.bytes ≡ total s.published
  pub count_within : s.count ≤ d.max_records
  pub bytes_within : s.bytes ≤ d.max_total_bytes
  pub closings_le : s.closings ≤ 1
  pub closings_zero : s.closed ≡ false → s.closings ≡ 0

-- A chain that can still be sealed: one record for the acceptance and each event, and room for the
-- seal.
pub record IsOpen (d : Depends) (s : Journal) : Type 0 where
  pub numbered : s.count ≡ s.events + 1
  pub count_room : s.count + 1 ≤ d.max_records
  pub bytes_room : s.bytes + d.max_record_bytes ≤ d.max_total_bytes

pub record IsJournal (d : Depends) (s : Journal) : Type 0 where
  pub is_counted : IsCounted d s
  pub poisoned_failed : s.poisoned ≡ true → s.failed ≡ true
  pub open_chain : s.poisoned ≡ false → s.sealed ≡ false → IsOpen d s

module _ (d : Depends) where
  -- past `_available`
  pub record IsAvailable (s : Journal) : Type 0 where
    pub is_counted : IsCounted d s
    pub not_poisoned : s.poisoned ≡ false
    pub not_sealed : s.sealed ≡ false
    pub not_closed : s.closed ≡ false
    pub is_open : IsOpen d s

  pub IsAvailable-IsJournal : (s : Journal) → IsAvailable s → IsJournal d s
  IsAvailable-IsJournal s h = record {
    is_counted = h.is_counted;
    poisoned_failed = λ p. cc (p, h.not_poisoned);
    open_chain = λ _ _. h.is_open;
  }

  all_false : (a b c : Bool) → not (a || b || c) ≡ true → (a ≡ false) × (b ≡ false) × (c ≡ false)
  all_false a b c h = ground arith

  pub now-IsAvailable :
      (s : Journal)
      → not (s.poisoned || s.closed || s.sealed) ≡ true
      → IsJournal d s
      → IsAvailable s
  now-IsAvailable s t h =
      let (p, c, e) = all_false s.poisoned s.closed s.sealed t in
      record {
        is_counted = h.is_counted;
        not_poisoned = p;
        not_sealed = e;
        not_closed = c;
        is_open = h.open_chain p e;
      }

  -- room for the record, and for a seal after it
  abbrev HasRoom : List ℕ → Journal → Type 0
  HasRoom raw s =
      (s.count + 2 ≤ d.max_records)
      × (s.bytes + length raw + d.max_record_bytes ≤ d.max_total_bytes)

  pub ask-Keeps :
      (P : Journal → Type 0) (raw : List ℕ)
      → ((n : ℕ) (s : Journal) → P s → P (record s { asked = n }))
      → Keeps P (ask d raw)
  unfolding ask
  ask-Keeps P raw asks = record { at = λ s h. asks (s.asked + 1) s h }

  pub acknowledged-Keeps :
      (P : Journal → Type 0) (a : Ack) (b : Bool) → Keeps P (acknowledged d a b)
  acknowledged-Keeps P raised b = Keeps-raise _
  acknowledged-Keeps P malformed b = Keeps-require _ _
  acknowledged-Keeps P (ref path size digest) b = Keeps-require _ _

  pub available-Triple :
      Triple (IsJournal d) (available d) (λ _ s. IsAvailable s) (λ _ s. IsJournal d s)
  unfolding available
  available-Triple =
      Triple-mono
        (Triple-test (IsJournal d) (λ _ s. IsJournal d s)
          (λ s. not (s.poisoned || s.closed || s.sealed)) journal_error (λ s h. h))
        (λ s h. h) (λ _ s h. now-IsAvailable s h.0 h.1) (λ e s h. h)

  reserve-Triple :
      (raw : List ℕ)
      → Triple IsAvailable
          (reserve d raw)
          (λ _ s. HasRoom raw s × IsAvailable s)
          (λ _ s. IsJournal d s)
  unfolding reserve
  reserve-Triple raw =
      Triple-mono
        (Triple-test IsAvailable (λ _ s. IsJournal d s)
          (λ s.
            leb (s.count + 2) d.max_records
            && leb (s.bytes + length raw + d.max_record_bytes) d.max_total_bytes)
          journal_error IsAvailable-IsJournal)
        (λ s h. h) (λ _ s h. (ground (arith, h.0), h.1)) (λ e s h. h)

  pub count_record-IsCounted :
      (raw : List ℕ) (s : Journal)
      → s.count + 1 ≤ d.max_records
      → s.bytes + length raw ≤ d.max_total_bytes
      → IsCounted d s
      → IsCounted d (count_record d.sha256 raw s)
  count_record-IsCounted raw s c b h =
      ground (arith, length-append s.published (raw ∷ []), total-append s.published (raw ∷ []))

  -- What an exception of `_publish` leaves is poisoned.
  pub poisoned-IsJournal : (s : Journal) → IsCounted d s → IsJournal d (set_poisoned s)
  poisoned-IsJournal s h = record {
    is_counted = ground arith;
    poisoned_failed = λ _. refl;
    open_chain = λ p. cc;
  }

  -- From any object of which P says what it has counted and which `asked` does not concern,
  -- `_publish` returns with the record counted, or leaves a poisoned journal.
  pub publish-Triple :
      (P : Journal → Type 0) (raw : List ℕ) (sequence : ℕ)
      → ((n : ℕ) (s : Journal) → P s → P (record s { asked = n }))
      → ((s : Journal) → P s → IsCounted d s)
      → Triple P
          (publish d raw sequence)
          (λ _ t. (s : Journal) × P s × (t ≡ count_record d.sha256 raw s))
          (λ _ s. IsJournal d s)
  unfolding publish
  publish-Triple P raw sequence asks counted =
      Triple-bind
        (Triple-on_error set_poisoned
          (Triple-bind (ask-Keeps P raw asks) λ ack. acknowledged-Keeps P ack _)
          (λ e s h. poisoned-IsJournal s (counted s h)))
        λ _. Triple-modify _ λ s h. (s, h, refl)

abbrev next_event : Journal → Journal
next_event t = record t { events = t.events + 1 }

abbrev pub set_sealed : Journal → Journal
set_sealed t = record t { sealed = true }

module _ (d : Depends) where
  abbrev Kept : {A : Type 0} → A → Journal → Type 0
  Kept _ s = IsJournal d s

  appended :
      (raw : List ℕ) (s : Journal)
      → HasRoom d raw s × IsAvailable d s
      → IsJournal d (next_event (count_record d.sha256 raw s))
  appended raw s h =
      let room = h.0 in
      let a = h.1 in
      record {
        is_counted =
            ground (arith, count_record-IsCounted d raw s (omega arith) (omega arith) a.is_counted);
        poisoned_failed = λ p. cc (p, a.not_poisoned);
        open_chain = λ _ _. ground (arith, a.is_open);
      }

  pub asks-Room :
      (raw : List ℕ) (n : ℕ) (s : Journal)
      → HasRoom d raw s × IsAvailable d s
      → HasRoom d raw (record s { asked = n }) × IsAvailable d (record s { asked = n })
  asks-Room raw n s h =
      let a = h.1 in
      (
        h.0,
        record {
          is_counted = ground (arith, a.is_counted);
          not_poisoned = a.not_poisoned;
          not_sealed = a.not_sealed;
          not_closed = a.not_closed;
          is_open = ground (arith, a.is_open);
        },
      )

  pub set_failed-IsJournal : (s : Journal) → IsJournal d s → IsJournal d (set_failed s)
  set_failed-IsJournal s h = record {
    is_counted = ground (arith, h.is_counted);
    poisoned_failed = λ _. refl;
    open_chain = λ p e. ground (arith, h.open_chain p e);
  }

  pub append-IsJournal : (payload : Payload) → Keeps (IsJournal d) (append d payload)
  unfolding append append_event
  append-IsJournal payload = Triple-bind (available-Triple d) λ _.
      Triple-on_error set_failed
        (Triple-bind (Triple-gets _) λ s₀.
          Triple-bind (Triple-require _ _ λ s h. IsAvailable-IsJournal d s h.1) λ _.
            Triple-bind (Triple-require _ _ λ s h. IsAvailable-IsJournal d s h.1.1) λ _.
              Triple-bind (Triple-some_or _ _ λ s h. IsAvailable-IsJournal d s h.1.1.1) λ raw.
                Triple-bind
                  (Triple-mono (reserve-Triple d raw) (λ s h. h.1.1.1.1) (λ _ s h. h) (λ e s h. h))
                  λ _.
                    Triple-bind
                      (publish-Triple d (λ s. HasRoom d raw s × IsAvailable d s) raw (s₀.events + 1)
                        (asks-Room raw) (λ s h. h.1.is_counted))
                      λ _. Triple-modify _ λ t h.
                        subst (λ u. IsJournal d (next_event u)) (sym h.2) (appended raw h.0 h.1))
        (λ e s h. set_failed-IsJournal s h)
