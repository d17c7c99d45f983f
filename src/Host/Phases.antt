-- ===== src/Host/Phases.antt =====
-- `_phase_data` of velo_transfer/host_journal.py, the check of the data that a journal is made or saved
-- with. `failing` is `TransferContentError` with its code.
use mcp_velociraptor.Wire.Frame.{same_bytes}
use mcp_velociraptor.Json.Same.{same_json}
use mcp_velociraptor.Protocol.Faults.{Check, expect, first, item, is_true}
use mcp_velociraptor.Json.{has_keys, is_text, get, contains, Json, null, bool, str}
use mcp_velociraptor.Prelude.{
  all, ◌&&◌, ◌||◌, not, is_none, [], ◌∷◌, ℕ, if◌then◌else◌, Bool, String, List, true, false, some,
  none,
}

abbrev phases : List String
phases =
    "CREATED" ∷ "PREPARING" ∷ "READY" ∷ "TRANSFERRING" ∷ "VERIFYING" ∷ "PUBLISHED" ∷ "CLEANING"
    ∷ "COMPLETE" ∷ "FAILED" ∷ "CONFLICT" ∷ "CANCELLED" ∷ []

abbrev pub immutable : List String
immutable =
    "guest_request" ∷ "binding" ∷ "prepare_receipt" ∷ "source_validation_receipt"
    ∷ "publication_receipt" ∷ "publish_intent" ∷ []

abbrev is_phase : Json → Bool
is_phase (str s) = contains phases s
is_phase _ = false

abbrev is_bool : Json → Bool
is_bool (bool b) = true
is_bool _ = false

abbrev pub is_nothing : Json → Bool
is_nothing null = true
is_nothing _ = false

abbrev pub has_key : String → Json → Bool
has_key key doc = elim (get key doc) [ none ↦ false | some v ↦ true ]

abbrev is_channel : Json → Bool
is_channel v = is_nothing v || is_text "velo" v || is_text "windows" v

-- the data that is there before: none yet, not known, or that of the last save
pub data Before : Type 0 where
  initial unknown : Before
  after : Json → Before

abbrev pub form_checks : Json → List Check
form_checks doc =
    expect (is_phase (item "phase" doc)) "invalid_phase"
    ∷ expect (is_bool (item "published_ever" doc)) "invalid_journal_data"
    ∷ expect (is_bool (item "begin_attempted" doc)) "invalid_journal_data"
    ∷ expect (not (has_key "last_phase" doc) || is_phase (item "last_phase" doc)) "invalid_phase"
    ∷ expect (is_channel (item "channel" doc)) "invalid_channel"
    ∷ expect (not (is_true (item "begin_attempted" doc)) || not (is_nothing (item "channel" doc)))
        "invalid_channel"
    ∷ []

abbrev pub completion_check : Json → Check
completion_check doc =
    if is_text "COMPLETE" (item "phase" doc)
    then (let c = item "completion" doc in
        expect
          (is_true (item "published_ever" doc)
            && not (is_nothing (item "publication_receipt" doc))
            && has_keys
                ("destination_verified" ∷ "guest_cleanup_complete" ∷ "host_cleanup_complete" ∷ []) c
            && is_true (item "destination_verified" c)
            && is_true (item "guest_cleanup_complete" c)
            && is_true (item "host_cleanup_complete" c))
          "completion_unproven")
    else none

module _ (canonical_json : Json → List ℕ) where
  -- a fact that was there is the same
  abbrev pub same_fact : Json → Json → String → Bool
  same_fact previous doc key =
      is_nothing (item key previous)
      || (has_key key doc
          && same_bytes (canonical_json (item key previous)) (canonical_json (item key doc)))

  abbrev pub kept_checks : Json → Json → List Check
  kept_checks previous doc =
      expect (not (is_true (item "published_ever" previous)) || is_true (item "published_ever" doc))
        "published_fact_lost"
      ∷ expect
          (not (is_true (item "begin_attempted" previous)) || is_true (item "begin_attempted" doc))
          "begin_fact_lost"
      ∷ expect
          (not (is_true (item "begin_attempted" previous))
            || same_json (item "channel" previous) (item "channel" doc))
          "channel_changed"
      ∷ expect (all (same_fact previous doc) immutable) "immutable_fact_changed"
      ∷ []

  abbrev pub before_check : Before → Json → Check
  before_check unknown doc = none
  before_check initial doc =
      expect
        (is_text "CREATED" (item "phase" doc)
          && not (is_true (item "published_ever" doc))
          && not (is_true (item "begin_attempted" doc))
          && is_nothing (item "channel" doc))
        "invalid_initial_state"
  before_check (after previous) doc = first (kept_checks previous doc)

  unfoldable pub phase_data : Before → Json → Check
  phase_data before doc =
      first (first (form_checks doc) ∷ before_check before doc ∷ completion_check doc ∷ [])

  -- The data after attempts to save: where the check refuses, what was there stays.
  unfoldable pub saves : List Json → Json → Json
  saves [] previous = previous
  saves (doc ∷ docs) previous =
      saves docs (if is_none (phase_data (after previous) doc) then doc else previous)
