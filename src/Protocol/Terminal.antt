-- ===== src/Protocol/Terminal.antt =====
-- The object of `GuestTerminal` of velo_transfer/protocol.py and its constructor.
use mcp_velociraptor.Protocol.Fields.{validate_destination, is_push, validate_binding, is_pull}
use mcp_velociraptor.Protocol.Faults.{demand, Fault}
use mcp_velociraptor.Proc.{modify, ◌>>◌, Proc}
use mcp_velociraptor.Json.{null, Json}
use mcp_velociraptor.Prelude.{◌||◌, true, none, if◌then◌else◌, false, some, String, Option, Bool}

pub data Action : Type 0 where
  prepare commit release : Action
  other : String → Action

-- `self.prefix`
pub data Prefix : Type 0 where
  source dest : Prefix

-- `self.local_phase` without its prefix; `ready` is SOURCE_READY or DEST_RECEIVED.
pub data Phase : Type 0 where
  ready prepared published releasing released failed changed : Phase

pub data Status : Type 0 where
  in_progress completed refused : Status

pub record Operation : Type 0 where
  pub operation_id : String
  pub input_digest : String
  pub status : Status
  pub inputs : Json
  pub result : Json

-- `release_authorization`: the operation and the digest of the receipt
pub record Authorization : Type 0 where
  pub operation_id : String
  pub receipt_sha256 : String

-- The attributes; `null` stands for `None`, and `operations` are the three fields at the end.
pub record Terminal : Type 0 where
  pub binding : Json
  pub destination : Json
  pub prefix : Prefix
  pub phase : Phase
  pub prepare_receipt : Json
  pub publication : Json
  pub authorization : Option Authorization
  pub prepare_op : Option Operation
  pub commit_op : Option Operation
  pub release_op : Option Operation

abbrev pub Method : Type 0 → Type 0
Method A = Proc Terminal Fault A

abbrev pub prefix_of : Json → Prefix
prefix_of binding = if is_pull binding then source else dest

abbrev pub start : Json → Json → Terminal
start binding destination = record {
  binding = binding;
  destination = destination;
  prefix = prefix_of binding;
  phase = ready;
  prepare_receipt = null;
  publication = null;
  authorization = none;
  prepare_op = none;
  commit_op = none;
  release_op = none;
}

-- `__init__`, which makes the object anew
unfoldable pub open_terminal : Json → Json → Method (Unit {0})
open_terminal binding destination = do
  demand (validate_binding binding)
  demand (validate_destination destination (is_push binding))
  modify (λ _. start binding destination)

abbrev pub op_of : Action → Terminal → Option Operation
op_of prepare s = s.prepare_op
op_of commit s = s.commit_op
op_of release s = s.release_op
op_of (other name) s = none

-- `self.operations[action] = operation`
abbrev pub put : Action → Operation → Terminal → Terminal
put prepare op s = record s { prepare_op = some op }
put commit op s = record s { commit_op = some op }
put release op s = record s { release_op = some op }
put (other name) op s = s

abbrev pub action_name : Action → String
action_name prepare = "prepare"
action_name commit = "commit"
action_name release = "release"
action_name (other name) = name

-- the phase in which an action may begin
abbrev pub may_begin : Prefix → Action → Phase → Bool
may_begin p prepare ready = true
may_begin dest commit prepared = true
may_begin source release prepared = true
may_begin dest release published = true
may_begin _ _ _ = false

abbrev pub is_running : Option Operation → Bool
is_running none = false
is_running (some op) = elim op.status [ in_progress ↦ true | _ ↦ false ]

abbrev pub any_running : Terminal → Bool
any_running s = is_running s.prepare_op || is_running s.commit_op || is_running s.release_op
