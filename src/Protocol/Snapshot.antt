-- ===== src/Protocol/Snapshot.antt =====
-- `snapshot` and `restore` of `GuestTerminal` in velo_transfer/protocol.py. `canonical_json` is the
-- canonical text of a value and `digest_json` its SHA-256.
use mcp_velociraptor.Wire.Frame.{same_bytes}
use mcp_velociraptor.Json.Same.{same_json}
use mcp_velociraptor.Protocol.Fields.{identifier}
use mcp_velociraptor.Proc.{modify, gets, ◌>>=◌, raise, ◌>>◌, pure}
use mcp_velociraptor.Protocol.Faults.{expect, item, crash, object, failing, demand, Check}
use mcp_velociraptor.Prelude.{
  not, [], ◌∷◌, ◌&&◌, is_none, false, true, none, if◌then◌else◌, all, ℕ, some, Bool, String, Option,
  List,
}
use mcp_velociraptor.Json.{
  put as put_member, is_dict, keys, is_text, get, contains, null, member, end, str, obj, Members,
  Json,
}
use mcp_velociraptor.Protocol.Machine.{
  begin_action, complete_release, complete_commit, complete_prepare, fail_action, authorize_release,
}
use mcp_velociraptor.Protocol.Terminal.{
  changed, failed, released, releasing, open_terminal, published, prepared, release, ready, refused,
  dest, commit, source, prepare, completed, other, in_progress, Phase, Method, Authorization,
  Terminal, Status, Prefix, Operation, Action,
}

abbrev pub phase_text : Prefix → Phase → String
phase_text source ready = "SOURCE_READY"
phase_text source prepared = "SOURCE_PREPARED"
phase_text source published = "SOURCE_PUBLISHED"
phase_text source releasing = "SOURCE_RELEASING"
phase_text source released = "SOURCE_RELEASED"
phase_text source failed = "SOURCE_FAILED"
phase_text source changed = "SOURCE_CHANGED"
phase_text dest ready = "DEST_RECEIVED"
phase_text dest prepared = "DEST_PREPARED"
phase_text dest published = "DEST_PUBLISHED"
phase_text dest releasing = "DEST_RELEASING"
phase_text dest released = "DEST_RELEASED"
phase_text dest failed = "DEST_FAILED"
phase_text dest changed = "DEST_CHANGED"

abbrev pub status_text : Status → String
status_text in_progress = "IN_PROGRESS"
status_text completed = "DONE"
status_text refused = "FAILED"

abbrev pub op_json : Operation → Json
op_json op = obj (
    member "operation_id" (str op.operation_id) (
      member "input_digest" (str op.input_digest) (
        member "status" (str (status_text op.status))
          (member "inputs" op.inputs (member "result" op.result end)))))

abbrev add_op : String → Option Operation → Members → Members
add_op name none m = m
add_op name (some op) m = member name (op_json op) m

abbrev pub authorization_json : Option Authorization → Json
authorization_json none = null
authorization_json (some a) = obj (
    member "operation_id" (str a.operation_id)
      (member "publication_receipt_sha256" (str a.receipt_sha256) end))

-- the dict of the operations
abbrev pub operations_json : Terminal → Json
operations_json s = obj (
    add_op "prepare" s.prepare_op (add_op "commit" s.commit_op (add_op "release" s.release_op end)))

unfoldable pub snapshot : Terminal → Json
snapshot s = obj (
    member "schema" (str "velo.transfer.guest_terminal.v1") (
      member "binding" s.binding (
        member "destination" s.destination (
          member "local_phase" (str (phase_text s.prefix s.phase)) (
            member "prepare_receipt" s.prepare_receipt (
              member "publication_receipt" s.publication (
                member "release_authorization" (authorization_json s.authorization)
                  (member "operations" (operations_json s) end))))))))

-- A publication that is there is a dict with keys.
abbrev pub evidence : Prefix → Json → Json
evidence p null = null
evidence source receipt = str "host_reported_publication"
evidence dest receipt = str "guest_verified_destination"

abbrev with_item : String → Json → Json → Json
with_item k v (obj m) = obj (put_member k v m)
with_item k v w = w

-- `status`
unfoldable pub status : Terminal → Json
status s = with_item "publication_evidence" (evidence s.prefix s.publication) (
    with_item "state_scope"
      (str (elim s.prefix [ source ↦ "guest_source" | dest ↦ "guest_destination" ])) (snapshot s))

abbrev pub invalid : String
invalid = "invalid_terminal_snapshot"

-- the text in a value that was checked to be one
abbrev pub text_of : Json → String
text_of (str s) = s
text_of _ = ""

abbrev set_id : String → Option Operation → Option Operation
set_id operation_id none = none
set_id operation_id (some op) = some (record op { operation_id = operation_id })

-- `state.operations[action]["operation_id"] = operation_id`
abbrev pub rename : Action → String → Terminal → Terminal
rename prepare i s = record s { prepare_op = set_id i s.prepare_op }
rename commit i s = record s { commit_op = set_id i s.commit_op }
rename release i s = record s { release_op = set_id i s.release_op }
rename (other name) i s = s

abbrev pub keys_within : List String → Json → Bool
keys_within names (obj m) = all (contains names) (keys m)
keys_within names _ = false

-- A keyword argument that `begin_action` has already is a TypeError.
abbrev pub keywords : Json → Check
keywords inputs =
    if is_none (get "action" inputs) && is_none (get "self" inputs) then none else some crash

abbrev pub is_null : Json → Bool
is_null null = true
is_null _ = false

module _ (digest_json : Json → String) where
  -- a DONE operation
  unfoldable pub finish : Action → String → Json → Method (Unit {0})
  finish prepare i result = do
    demand (object ("prepare_receipt" ∷ []) invalid result)
    complete_prepare digest_json i (item "prepare_receipt" result)
  finish commit i result = do
    demand (object ("publication_receipt" ∷ []) invalid result)
    complete_commit digest_json i (item "publication_receipt" result)
  finish _ i result = do
    demand (object ("publication_receipt" ∷ "cleanup" ∷ []) invalid result)
    authorize_release digest_json i
    complete_release digest_json i (item "cleanup" result)

  -- an IN_PROGRESS operation; the argument says that the snapshot has an authorization
  abbrev pub proceed : Action → String → Bool → Method (Unit {0})
  proceed release i true = authorize_release digest_json i
  proceed _ i _ = pure tt

  -- what `code` may be is checked by `fail_action`
  abbrev fail_with : Action → String → Json → Method (Unit {0})
  fail_with action i (str code) = fail_action digest_json action i code
  fail_with action i _ = raise (failing "invalid_receipt_id")

  unfoldable pub resume : Action → String → Json → Bool → Json → Method (Unit {0})
  resume action i status is_authorized result =
      if is_text "FAILED" status
      then (do
        demand (object ("error" ∷ []) invalid result)
        fail_with action i (item "error" result))
      else if is_text "DONE" status
      then finish action i result
      else if is_text "IN_PROGRESS" status
      then proceed action i is_authorized
      else raise (failing invalid)

  -- one saved operation; `fresh` is the identifier that `begin_action` makes for it
  unfoldable pub replay : String → Action → Bool → Json → Method (Unit {0})
  replay fresh action is_authorized saved = do
    demand (
        object ("operation_id" ∷ "input_digest" ∷ "status" ∷ "inputs" ∷ "result" ∷ []) invalid
          saved)
    demand (identifier (item "operation_id" saved))
    demand (expect (is_dict (item "inputs" saved)) invalid)
    demand (keywords (item "inputs" saved))
    started ← begin_action digest_json fresh action (item "inputs" saved)
    demand (expect (is_text started.input_digest (item "input_digest" saved)) invalid)
    modify (rename action (text_of (item "operation_id" saved)))
    resume action (text_of (item "operation_id" saved)) (item "status" saved) is_authorized
        (item "result" saved)

  abbrev pub replay_saved : String → Action → Bool → Option Json → Method (Unit {0})
  replay_saved fresh action is_authorized none = pure tt
  replay_saved fresh action is_authorized (some saved) = replay fresh action is_authorized saved

  -- the three rounds of the loop
  unfoldable pub replay_all : (Action → String) → Bool → Json → Method (Unit {0})
  replay_all fresh is_authorized operations = do
    replay_saved (fresh prepare) prepare is_authorized (get "prepare" operations)
    replay_saved (fresh commit) commit is_authorized (get "commit" operations)
    replay_saved (fresh release) release is_authorized (get "release" operations)

  module _ (canonical_json : Json → List ℕ) where
    -- `restore`
    unfoldable pub restore : (Action → String) → Json → Json → Json → Method (Unit {0})
    restore fresh saved binding destination = do
      demand (
          object
            ("schema" ∷ "binding" ∷ "destination" ∷ "local_phase" ∷ "prepare_receipt"
              ∷ "publication_receipt" ∷ "release_authorization" ∷ "operations" ∷ [])
            invalid saved)
      open_terminal binding destination
      demand (
          expect
            (is_text "velo.transfer.guest_terminal.v1" (item "schema" saved)
              && same_json (item "binding" saved) binding
              && same_json (item "destination" saved) destination
              && keys_within ("prepare" ∷ "commit" ∷ "release" ∷ []) (item "operations" saved))
            invalid)
      replay_all fresh (not (is_null (item "release_authorization" saved)))
          (item "operations" saved)
      s ← gets (λ s. s)
      demand (expect (same_bytes (canonical_json (snapshot s)) (canonical_json saved)) invalid)
