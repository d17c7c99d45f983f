-- ===== src/Protocol/Course.antt =====
-- The states that the terminal of velo_transfer/protocol.py can be in, each with the calls that led
-- to it.
-- after the preparation, or after the publication too: for each action its identifier, its inputs
-- and its receipt
use mcp_velociraptor.Protocol.Snapshot.{keywords}
use mcp_velociraptor.Protocol.Receipts.{validate_publication, validate_prepare}
use mcp_velociraptor.Protocol.Fields.{is_push}
use mcp_velociraptor.Proc.{pure, final, ◌>>◌}
use mcp_velociraptor.Protocol.Faults.{is_true, expect, object, item, first, Check}
use mcp_velociraptor.Protocol.Machine.{
  fail_action, authorize_release, release_result, complete_release, complete_commit, done,
  complete_prepare, broken, phase_after, input_key, new_op, inputs_check, authorized, begin_action,
}
use mcp_velociraptor.Protocol.Terminal.{
  released, published, may_begin, release, ready, put, prepared, commit, prepare, Terminal,
  Operation, Prefix, Method, Action,
}
use mcp_velociraptor.Text.{is_id}
use mcp_velociraptor.Prelude.{◌&&◌, [], some, none, ◌∷◌, true, ◌≡◌, List, String}
use mcp_velociraptor.Json.{null, end, member, is_dict, obj, Json}

pub data Ground : Type 0 where
  sent : String → Json → Json → Ground
  placed : String → Json → Json → String → Json → Json → Ground

pub data Course : Type 0 where
  untouched : Course
  preparing : String → Json → Course
  prepare_broken : String → Json → String → Course
  based : Ground → Course
  committing : String → Json → Json → String → Json → Course
  commit_broken : String → Json → Json → String → Json → String → Course
  release_begun release_authorized : Ground → String → Json → Course
  release_broken : Ground → String → Json → String → Course
  release_done : Ground → String → Json → Json → Course

module _ (digest_json : Json → String) (b d : Json) (p : Prefix) where
  -- a new operation of the action
  abbrev pub op : Action → String → Json → Operation
  op a i x = new_op digest_json i (input_key digest_json b a x) x

  abbrev pub initial : Terminal
  initial = record {
    binding = b;
    destination = d;
    prefix = p;
    phase = ready;
    prepare_receipt = null;
    publication = null;
    authorization = none;
    prepare_op = none;
    commit_op = none;
    release_op = none;
  }

  abbrev pub prepare_result : Json → Json
  prepare_result r = obj (member "prepare_receipt" r end)

  abbrev pub commit_result : Json → Json
  commit_result r = obj (member "publication_receipt" r end)

  abbrev pub ground_state : Ground → Terminal
  ground_state (sent i x r) = record initial {
    phase = prepared;
    prepare_receipt = r;
    prepare_op = some (done digest_json (prepare_result r) (op prepare i x));
  }
  ground_state (placed i x r j y q) = record initial {
    phase = published;
    prepare_receipt = r;
    publication = q;
    prepare_op = some (done digest_json (prepare_result r) (op prepare i x));
    commit_op = some (done digest_json (commit_result q) (op commit j y));
  }

  abbrev pub releasing_state : Ground → String → Json → Terminal
  releasing_state g i x =
      authorized digest_json i (item "publication_receipt" x)
        (put release (op release i x) (ground_state g))

  abbrev pub state_of : Course → Terminal
  state_of untouched = initial
  state_of (preparing i x) = put prepare (op prepare i x) initial
  state_of (prepare_broken i x code) = record initial {
    phase = phase_after digest_json p code;
    prepare_op = some (broken digest_json code (op prepare i x));
  }
  state_of (based g) = ground_state g
  state_of (committing i x r j y) = put commit (op commit j y) (ground_state (sent i x r))
  state_of (commit_broken i x r j y code) = record (ground_state (sent i x r)) {
    phase = phase_after digest_json p code;
    commit_op = some (broken digest_json code (op commit j y));
  }
  state_of (release_begun g i x) = put release (op release i x) (ground_state g)
  state_of (release_authorized g i x) = releasing_state g i x
  state_of (release_broken g i x code) = record (ground_state g) {
    phase = phase_after digest_json p code;
    release_op = some (broken digest_json code (op release i x));
  }
  state_of (release_done g i x c) = record (releasing_state g i x) {
    phase = released;
    release_op = some (
        done digest_json (release_result digest_json (item "publication_receipt" x) c)
          (op release i x));
  }

  -- What was checked when the action began in the state.
  pub record Began (a : Action) (i : String) (x : Json) (s : Terminal) : Type 0 where
    pub inputs_fine : inputs_check digest_json s a x ≡ none
    pub phase_fine : may_begin p a s.phase ≡ true
    pub id_fine : is_id i ≡ true
    pub is_dict_fine : is_dict x ≡ true
    pub keywords_fine : keywords x ≡ none

  abbrev pub IsGround : Ground → Type 0
  IsGround (sent i x r) = Began prepare i x initial × (validate_prepare r b ≡ none)
  IsGround (placed i x r j y q) =
      Began prepare i x initial
      × (validate_prepare r b ≡ none)
      × Began commit j y (ground_state (sent i x r))
      × (is_push b ≡ true)
      × (validate_publication digest_json q b r d ≡ none)

  abbrev pub cleanup_check : Json → Check
  cleanup_check c = first (
      object ("temporary_files_removed" ∷ "workers_stopped" ∷ []) "invalid_cleanup" c
      ∷ expect (is_true (item "temporary_files_removed" c) && is_true (item "workers_stopped" c))
          "cleanup_incomplete"
      ∷ [])

  abbrev pub IsCourse : Course → Type 0
  IsCourse untouched = Unit {0}
  IsCourse (preparing i x) = Began prepare i x initial
  IsCourse (prepare_broken i x code) = Began prepare i x initial × (is_id code ≡ true)
  IsCourse (based g) = IsGround g
  IsCourse (committing i x r j y) =
      IsGround (sent i x r) × Began commit j y (ground_state (sent i x r))
  IsCourse (commit_broken i x r j y code) =
      IsGround (sent i x r) × Began commit j y (ground_state (sent i x r)) × (is_id code ≡ true)
  IsCourse (release_begun g i x) = IsGround g × Began release i x (ground_state g)
  IsCourse (release_authorized g i x) = IsGround g × Began release i x (ground_state g)
  IsCourse (release_broken g i x code) =
      IsGround g × Began release i x (ground_state g) × (is_id code ≡ true)
  IsCourse (release_done g i x c) =
      IsGround g × Began release i x (ground_state g) × (cleanup_check c ≡ none)

  -- a state with its course
  abbrev pub HasCourse : Terminal → Type 0
  HasCourse s = (c : Course) × IsCourse c × (s ≡ state_of c)

-- the calls that an owner makes; an identifier and the inputs stand with the call that begins
pub data Call : Type 0 where
  begins : String → Action → Json → Call
  completes_prepare completes_commit completes_release : String → Json → Call
  authorizes : String → Call
  fails : Action → String → String → Call

abbrev pub perform : (Json → String) → Call → Method (Unit {0})
perform digest_json (begins i a x) = begin_action digest_json i a x >> pure tt
perform digest_json (completes_prepare i r) = complete_prepare digest_json i r
perform digest_json (completes_commit i r) = complete_commit digest_json i r
perform digest_json (completes_release i c) = complete_release digest_json i c
perform digest_json (authorizes i) = authorize_release digest_json i
perform digest_json (fails a i code) = fail_action digest_json a i code

-- A history of calls; an error ends its own call only.
unfoldable pub history : (Json → String) → List Call → Terminal → Terminal
history digest_json [] s = s
history digest_json (c ∷ cs) s = history digest_json cs (final (perform digest_json c s))

-- New identifiers have the form of one, and inputs are keyword arguments.
abbrev pub IsCall : Call → Type 0
IsCall (begins i a x) = (is_id i ≡ true) × (is_dict x ≡ true) × (keywords x ≡ none)
IsCall _ = Unit {0}
