-- ===== src/Protocol/Tests.antt =====
-- A push, from the preparation to the release of its package.
use mcp_velociraptor.Protocol.History.{restore-history}
use mcp_velociraptor.Protocol.Recover.{recover-publish}
use mcp_velociraptor.Protocol.Faults.{failing}
use mcp_velociraptor.Protocol.Again.{begin-again}
use mcp_velociraptor.Protocol.Final.{release-irreversible, IsLeaving}
use mcp_velociraptor.Protocol.Snapshot.{snapshot, restore}
use mcp_velociraptor.Protocol.Errors.{perform-atomic}
use mcp_velociraptor.Protocol.Outcome.{released-IsReleased, IsReleased}
use mcp_velociraptor.Json.Same.{same_json}
use mcp_velociraptor.Protocol.Receipts.{
  publication_receipt, recover_publication, publish_intent, validate_source_validation,
  validate_publication, validate_prepare,
}
use mcp_velociraptor.Protocol.Fields.{directory_identity, validate_destination, validate_binding}
use mcp_velociraptor.Json.Proper.{is_proper}
use mcp_velociraptor.Text.{is_hex, is_id}
use mcp_velociraptor.Proc.{err, ◌>>=◌, ok}
use mcp_velociraptor.Prelude.{inl, some, ◌∷◌, ◌≡◌, [], ℕ, String, List, All, true, refl}
use mcp_velociraptor.Protocol.Course.{
  perform, IsCall, Call, history, begins, completes_prepare, completes_commit, completes_release,
  authorizes, fails,
}
use mcp_velociraptor.Protocol.Machine.{
  new_op, inputs_check, pending, complete, fail_action, authorize_release, complete_release,
  complete_commit, complete_prepare, begin_action,
}
use mcp_velociraptor.Protocol.Terminal.{
  put, Operation, Authorization, start, open_terminal, Terminal, Action, prepare, commit, release,
  released,
}
use mcp_velociraptor.Json.{Json, bool, int, str, obj, end, member}

abbrev hash : String
hash = "0123456789abcdef0123456789abcdef0123456789abcdef0123456789abcdef"

abbrev digest_json : Json → String
digest_json v = hash

abbrev canonical_json : Json → List ℕ
canonical_json v = []

abbrev fresh : Action → String
fresh a = "fresh"

abbrev binding : Json
binding = obj (
    member "protocol_version" (str "velo.transfer.v1") (
      member "transfer_id" (str "t1") (
        member "request_digest" (str hash) (
          member "direction" (str "push") (
            member "vm_uuid" (str "vm") (
              member "boot_identity" (str "boot") (
                member "vm_epoch" (str "1") (
                  member "policy_id" (str "policy") (
                    member "package_size" (int 5) (
                      member "package_sha256" (str hash)
                        (member "manifest_sha256" (str hash) end)))))))))))

abbrev destination : Json
destination = obj (
    member "endpoint" (str "guest") (
      member "identity" (obj (member "user" (str "analyst") end))
        (member "canonical_path" (str "/srv/drop") end)))

abbrev directory : ℕ → Json
directory n = obj (member "device" (int 1) (member "inode" (int n) end))

abbrev prepare_document : Json
prepare_document = obj (
    member "type" (str "prepare") (
      member "binding" binding (
        member "prepare_id" (str "p1")
          (member "identity_digest" (str hash) (member "prepared" (bool true) end)))))

abbrev validation_document : Json
validation_document = obj (
    member "type" (str "source_validation") (
      member "binding" binding
        (member "prepare_receipt_sha256" (str hash) (member "identity_digest" (str hash) end))))

abbrev publication_document : Json
publication_document = obj (
    member "type" (str "publication") (
      member "binding" binding (
        member "prepare_receipt_sha256" (str hash) (
          member "destination" destination (
            member "manifest_sha256" (str hash) (
              member "directory_identity" (directory 7)
                (member "publication_id" (str "q1") end)))))))

abbrev cleanup : Json
cleanup =
    obj (member "temporary_files_removed" (bool true) (member "workers_stopped" (bool true) end))

abbrev first_calls : List Call
first_calls =
    begins "o1" prepare (obj end)
    ∷ completes_prepare "o1" prepare_document
    ∷ begins "o2" commit (
        obj (
          member "prepare_receipt" prepare_document
            (member "source_validation_receipt" validation_document end)))
    ∷ fails commit "o9" "lost"
    ∷ completes_commit "o2" publication_document
    ∷ begins "o3" release (
        obj (
          member "prepare_receipt" prepare_document
            (member "publication_receipt" publication_document end)))
    ∷ authorizes "o3"
    ∷ []

abbrev last_calls : List Call
last_calls = fails release "o3" "lost" ∷ completes_release "o3" cleanup ∷ []

abbrev all_calls : List Call
all_calls =
    begins "o1" prepare (obj end)
    ∷ completes_prepare "o1" prepare_document
    ∷ begins "o2" commit (
        obj (
          member "prepare_receipt" prepare_document
            (member "source_validation_receipt" validation_document end)))
    ∷ fails commit "o9" "lost"
    ∷ completes_commit "o2" publication_document
    ∷ begins "o3" release (
        obj (
          member "prepare_receipt" prepare_document
            (member "publication_receipt" publication_document end)))
    ∷ authorizes "o3"
    ∷ fails release "o3" "lost"
    ∷ completes_release "o3" cleanup
    ∷ []

abbrev opened : Terminal
opened = start binding destination

open-start : open_terminal binding destination opened ≡ ok tt opened
unfolding open_terminal ◌>>=◌ validate_binding validate_destination is_id is_hex
open-start = refl

first-IsCall : All IsCall first_calls
unfolding is_id
first-IsCall =
    ((refl, refl, refl), (tt, ((refl, refl, refl), (tt, (tt, ((refl, refl, refl), (tt, tt)))))))

last-IsCall : All IsCall last_calls
last-IsCall = (tt, (tt, tt))

every-IsCall : All IsCall all_calls
unfolding is_id
every-IsCall = (
  (refl, refl, refl),
  (tt, ((refl, refl, refl), (tt, (tt, ((refl, refl, refl), (tt, (tt, (tt, tt)))))))),
)

binding-proper : is_proper binding ≡ true
unfolding is_proper
binding-proper = refl

destination-proper : is_proper destination ≡ true
unfolding is_proper
destination-proper = refl

abbrev evidence : Authorization
evidence = record { operation_id = "o3"; receipt_sha256 = hash }

end-released : (history digest_json all_calls opened).phase ≡ released
unfolding history begin_action complete_prepare complete_commit complete_release authorize_release
    fail_action complete pending inputs_check validate_prepare validate_publication
    validate_source_validation validate_binding validate_destination directory_identity is_id is_hex
    same_json ◌>>=◌
end-released = refl

first-authorized : (history digest_json first_calls opened).authorization ≡ some evidence
unfolding history begin_action complete_prepare complete_commit complete_release authorize_release
    fail_action complete pending inputs_check validate_prepare validate_publication
    validate_source_validation validate_binding validate_destination directory_identity is_id is_hex
    same_json ◌>>=◌
first-authorized = refl

unknown-operation :
    perform digest_json (completes_prepare "o9" prepare_document) opened
    ≡ err (failing "operation_mismatch") opened
unfolding history begin_action complete_prepare complete_commit complete_release authorize_release
    fail_action complete pending inputs_check validate_prepare validate_publication
    validate_source_validation validate_binding validate_destination directory_identity is_id is_hex
    same_json ◌>>=◌
unknown-operation = refl

abbrev first_op : Operation
first_op = new_op digest_json "o1" hash (obj end)

begins-first :
    begin_action digest_json "o1" prepare (obj end) opened
    ≡ ok first_op (put prepare first_op opened)
unfolding history begin_action complete_prepare complete_commit complete_release authorize_release
    fail_action complete pending inputs_check validate_prepare validate_publication
    validate_source_validation validate_binding validate_destination directory_identity is_id is_hex
    same_json ◌>>=◌
begins-first = refl

abbrev intent : Json
intent = obj (
    member "type" (str "publish_intent")
      (member "publication" publication_document (member "parent_identity" (directory 2) end)))

intends :
    publish_intent digest_json binding prepare_document destination (directory 7) (directory 2) "q1"
    ≡ inl intent
unfolding publish_intent publication_receipt validate_prepare validate_publication validate_binding
    validate_destination directory_identity is_id is_hex same_json
intends = refl

restore-history_example :
    restore digest_json canonical_json fresh
      (snapshot (history digest_json all_calls opened))
      binding
      destination
      opened
    ≡ ok tt (history digest_json all_calls opened)
restore-history_example =
    restore-history digest_json canonical_json fresh binding destination all_calls opened opened
      opened binding-proper destination-proper every-IsCall open-start

released-IsReleased_example :
    IsReleased digest_json binding destination (history digest_json all_calls opened)
released-IsReleased_example =
    released-IsReleased digest_json binding destination all_calls opened opened every-IsCall
      open-start end-released

release-irreversible_example :
    ((history digest_json last_calls (history digest_json first_calls opened)).authorization
      ≡ some evidence)
    × IsLeaving (history digest_json last_calls (history digest_json first_calls opened)).phase
release-irreversible_example =
    release-irreversible digest_json binding destination first_calls last_calls opened opened
      evidence first-IsCall last-IsCall open-start first-authorized

perform-atomic_example : opened ≡ opened
perform-atomic_example =
    perform-atomic digest_json (completes_prepare "o9" prepare_document) opened opened
      (failing "operation_mismatch") unknown-operation

begin-again_example :
    begin_action digest_json "o2" prepare (obj end) (put prepare first_op opened)
    ≡ ok first_op (put prepare first_op opened)
begin-again_example =
    begin-again digest_json "o1" "o2" prepare (obj end) first_op opened
      (put prepare first_op opened) begins-first

directory-proper : (n : ℕ) → is_proper (directory n) ≡ true
unfolding is_proper
directory-proper n = refl

recover-publish_example :
    recover_publication digest_json intent binding prepare_document destination
      (directory 7)
      (directory 2)
      (str hash)
    ≡ publication_receipt digest_json binding prepare_document destination (directory 7) "q1"
unfolding is_proper
recover-publish_example =
    recover-publish digest_json binding prepare_document destination (directory 7) (directory 2)
      "q1" intent refl (directory-proper 7) (directory-proper 2) intends
