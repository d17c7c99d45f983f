-- ===== src/Protocol/Machine.antt =====
-- `GuestTerminal` of velo_transfer/protocol.py: the actions of a guest after its package is there.
-- `digest_json` is the SHA-256 of the canonical text of a value.
use mcp_velociraptor.Json.Same.{same_json}
use mcp_velociraptor.Protocol.Receipts.{
  validate_source_validation, validate_publication, validate_prepare,
}
use mcp_velociraptor.Protocol.Fields.{is_push, identifier}
use mcp_velociraptor.Protocol.Faults.{is_true, item, first, expect, object, failing, demand, Check}
use text.Mathlib.Text.{◌==◌ as str_eq}
use mcp_velociraptor.Proc.{pure, modify, gets, ◌>>◌, ◌>>=◌, raise}
use mcp_velociraptor.Json.{str, end, member, obj, null, Json}
use mcp_velociraptor.Prelude.{
  not, ◌∷◌, is_none, ◌&&◌, [], ◌||◌, none, if◌then◌else◌, false, some, String, Option, Bool,
}
use mcp_velociraptor.Protocol.Terminal.{
  any_running, put, op_of, may_begin, action_name, Phase, Terminal, Prefix, Operation, Method,
  Authorization, Action, prepare, commit, release, other, prepared, published, releasing, released,
  failed, changed, source, dest, in_progress, completed, refused,
}

module _ (digest_json : Json → String) where
  -- `_inputs`
  unfoldable pub inputs_check : Terminal → Action → Json → Check
  inputs_check s prepare inputs = object [] "invalid_action_input" inputs
  inputs_check s commit inputs = first (
      expect (is_push s.binding) "action_not_allowed"
      ∷ object ("prepare_receipt" ∷ "source_validation_receipt" ∷ []) "invalid_action_input" inputs
      ∷ validate_prepare (item "prepare_receipt" inputs) s.binding
      ∷ expect (same_json (item "prepare_receipt" inputs) s.prepare_receipt)
          "receipt_binding_mismatch"
      ∷ validate_source_validation digest_json (item "source_validation_receipt" inputs) s.binding
          s.prepare_receipt
      ∷ [])
  inputs_check s release inputs = first (
      object ("prepare_receipt" ∷ "publication_receipt" ∷ []) "invalid_action_input" inputs
      ∷ validate_prepare (item "prepare_receipt" inputs) s.binding
      ∷ expect (same_json (item "prepare_receipt" inputs) s.prepare_receipt)
          "receipt_binding_mismatch"
      ∷ validate_publication digest_json (item "publication_receipt" inputs) s.binding
          s.prepare_receipt s.destination
      ∷ expect
          (not (is_push s.binding) || same_json (item "publication_receipt" inputs) s.publication)
          "receipt_binding_mismatch"
      ∷ [])
  inputs_check s (other name) inputs = some (failing "action_not_allowed")

  abbrev pub input_key : Json → Action → Json → String
  input_key binding action inputs = digest_json (
      obj (
        member "binding" binding
          (member "action" (str (action_name action)) (member "inputs" inputs end))))

  abbrev pub new_op : String → String → Json → Operation
  new_op fresh key inputs = record {
    operation_id = fresh;
    input_digest = key;
    status = in_progress;
    inputs = inputs;
    result = null;
  }

  -- A second call of an action replays the first one, if it is the same.
  abbrev pub begin_or_replay :
      String → Action → Json → String → Terminal → Option Operation → Method Operation
  begin_or_replay fresh action inputs key s (some previous) = do
    demand (expect (str_eq previous.input_digest key) "action_conflict")
    pure previous
  begin_or_replay fresh action inputs key s none = do
    demand (
        expect (may_begin s.prefix action s.phase && not (any_running s))
          "action_precondition_failed")
    modify (put action (new_op fresh key inputs))
    pure (new_op fresh key inputs)

  -- `begin_action`; the first argument is the new identifier that `uuid4` gives
  unfoldable pub begin_action : String → Action → Json → Method Operation
  begin_action fresh action inputs = do
    s ← gets (λ s. s)
    demand (inputs_check s action inputs)
    begin_or_replay fresh action inputs (input_key s.binding action inputs) s (op_of action s)

  abbrev pub is_pending : String → Operation → Bool
  is_pending operation_id op = elim op.status [
    | in_progress ↦ str_eq op.operation_id operation_id
    | _ ↦ false
  ]

  abbrev pub pending_op : String → Option Operation → Method Operation
  pending_op operation_id none = raise (failing "operation_mismatch")
  pending_op operation_id (some op) = do
    demand (expect (is_pending operation_id op) "operation_mismatch")
    pure op

  -- `_pending`
  unfoldable pub pending : Action → String → Method Operation
  pending action operation_id = do op ← gets (op_of action); pending_op operation_id op

  abbrev pub done : Json → Operation → Operation
  done result op = record op { status = completed; result = result }

  -- `_complete`
  unfoldable pub complete : Action → String → Json → Method (Unit {0})
  complete action operation_id result = do
    op ← pending action operation_id
    modify (put action (done result op))

  unfoldable pub complete_prepare : String → Json → Method (Unit {0})
  complete_prepare operation_id receipt = do
    s ← gets (λ s. s)
    pending prepare operation_id
    demand (validate_prepare receipt s.binding)
    modify (λ t. record t { prepare_receipt = receipt; phase = prepared })
    complete prepare operation_id (obj (member "prepare_receipt" receipt end))

  unfoldable pub complete_commit : String → Json → Method (Unit {0})
  complete_commit operation_id receipt = do
    s ← gets (λ s. s)
    pending commit operation_id
    demand (expect (is_push s.binding) "action_not_allowed")
    demand (validate_publication digest_json receipt s.binding s.prepare_receipt s.destination)
    modify (λ t. record t { publication = receipt; phase = published })
    complete commit operation_id (obj (member "publication_receipt" receipt end))

  abbrev pub authorized : String → Json → Terminal → Terminal
  authorized operation_id receipt t = record t {
    publication = receipt;
    authorization =
        some (record { operation_id = operation_id; receipt_sha256 = digest_json receipt });
    phase = releasing;
  }

  -- What it returns is the attribute `authorization`, which a caller reads in the object.
  unfoldable pub authorize_release : String → Method (Unit {0})
  authorize_release operation_id = do
    op ← pending release operation_id
    authorization ← gets (λ s. s.authorization)
    elim authorization [
      | some a ↦ pure tt
      | none ↦ modify (authorized operation_id (item "publication_receipt" op.inputs))
    ]

  abbrev pub is_authorized : String → Option Authorization → Bool
  is_authorized operation_id none = false
  is_authorized operation_id (some a) = str_eq a.operation_id operation_id

  abbrev pub release_result : Json → Json → Json
  release_result receipt cleanup =
      obj (member "publication_receipt" receipt (member "cleanup" cleanup end))

  unfoldable pub complete_release : String → Json → Method (Unit {0})
  complete_release operation_id cleanup = do
    pending release operation_id
    s ← gets (λ s. s)
    demand (expect (is_authorized operation_id s.authorization) "release_not_authorized")
    demand (object ("temporary_files_removed" ∷ "workers_stopped" ∷ []) "invalid_cleanup" cleanup)
    demand (
        expect
          (is_true (item "temporary_files_removed" cleanup)
            && is_true (item "workers_stopped" cleanup))
          "cleanup_incomplete")
    modify (λ t. record t { phase = released })
    complete release operation_id (release_result s.publication cleanup)

  abbrev pub phase_after : Prefix → String → Phase
  phase_after source code = if str_eq code "source_changed" then changed else failed
  phase_after dest code = failed

  abbrev pub broken : String → Operation → Operation
  broken code op = record op { status = refused; result = obj (member "error" (str code) end) }

  -- `fail_action`
  unfoldable pub fail_action : Action → String → String → Method (Unit {0})
  fail_action action operation_id code = do
    op ← pending action operation_id
    demand (identifier (str code))
    s ← gets (λ s. s)
    demand (expect (is_none s.authorization) "release_already_authorized")
    modify (put action (broken code op))
    modify (λ t. record t { phase = phase_after t.prefix code })
