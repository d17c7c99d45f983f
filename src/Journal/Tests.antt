-- ===== src/Journal/Tests.antt =====
-- A journal of at most four records of three bytes, whose publisher acknowledges each.
use mcp_velociraptor.Journal.Opening.{open_journal-Opened}
use mcp_velociraptor.Journal.Terminal.{seal-open, history-blocked}
use mcp_velociraptor.Proc.{◌>>=◌, ok, final}
use mcp_velociraptor.Journal.Operations.{appends, claims, Operation, history}
use mcp_velociraptor.Journal.Invariant.{IsCounted, IsJournal}
use mcp_velociraptor.Proc.Triple.{Ends}
use mcp_velociraptor.Journal.Model.{
  append_event, available, append, claim, ask, ref, publish, observed, reserve, first_record, seal,
  open_journal, accepted, Payload, Journal, Entry, Depends,
}
use mcp_velociraptor.Prelude.{
  ◌≤◌, [], ◌++◌, ◌∷◌, ◌||◌, length, false, String, ◌≡◌, ℕ, true, some, arith, List, refl,
}

abbrev digest_of : List ℕ → String
digest_of bytes = "d"

abbrev small : Depends
small = record {
  max_records = 4;
  max_record_bytes = 3;
  max_total_bytes = 12;
  encode = λ e. some (e.sequence ∷ []);
  sha256 = digest_of;
  publish = λ n raw. ref n (length raw) "d";
  closes = true;
  owns_publisher = true;
}

abbrev parent : Payload
parent = accepted "key" "tool" "arguments"

abbrev made : Journal
made = final (open_journal small parent)

open_journal-Opened_example :
    Ends
      (λ _ s. (ops : List Operation) → IsJournal small (history small ops s))
      (λ _ s. IsCounted small s × (s.failed ≡ true) × (s.closed ≡ true))
      (open_journal small parent)
open_journal-Opened_example = open_journal-Opened small parent

abbrev calls : List Operation
calls = claims 1 "key" "tool" "arguments" ∷ appends (observed (some 1) "begun") ∷ []

-- the journal after the calls
abbrev begun : Journal
begun = record {
  owner = some 1;
  parent = parent;
  head = some (record { size = 1; sha256 = "d" });
  count = 2;
  bytes = 2;
  events = 1;
  failed = false;
  poisoned = false;
  sealed = false;
  closed = false;
  close_failed = false;
  published = (0 ∷ []) ∷ (1 ∷ []) ∷ [];
  asked = 2;
  closings = 0;
}

begun_run : history small calls made ≡ begun
unfolding history open_journal first_record reserve publish ask claim append available append_event
    ◌>>=◌
begun_run = refl

begun-IsJournal : IsJournal small begun
begun-IsJournal = record {
  is_counted = ground arith;
  poisoned_failed = λ p. cc;
  open_chain = λ _ _. ground arith;
}

limited : (e : Entry) (r : List ℕ) → small.encode e ≡ some r → length r ≤ 3
limited e r h = ground (arith, h)

seal-open_example :
    (t : Journal) × (seal small "done" true begun ≡ ok tt t)
    × (t.sealed ≡ true)
    × (t.published ≡ begun.published ++ (2 ∷ []) ∷ [])
seal-open_example =
    seal-open small "done" (2 ∷ []) begun limited begun-IsJournal refl refl refl refl refl

abbrev shut : Journal
shut = record begun { closed = true }

history-blocked_example :
    ((history small calls shut).asked ≡ 2)
    × ((history small calls shut).published ≡ begun.published)
    × (((history small calls shut).poisoned
          || (history small calls shut).closed
          || (history small calls shut).sealed)
        ≡ true)
history-blocked_example = history-blocked small calls shut refl
