-- ===== src/Request/Tests.antt =====
-- A push of one file.
use mcp_velociraptor.Request.Spec.{read_spec-IsStable, read_open, read_spec, Stat, IsStable, Disk}
use mcp_velociraptor.Text.{is_hex}
use mcp_velociraptor.Json.Same.{same_json}
use mcp_velociraptor.Protocol.Fields.{validate_destination}
use mcp_velociraptor.Paths.{parents_of, is_relative, check_collisions}
use mcp_velociraptor.Request.Sources.{sources-check_collisions, AllSources}
use mcp_velociraptor.Request.Facts.{make_guest_request-digest, intent-resumed, resumed}
use mcp_velociraptor.Result.Outcome.{Parse}
use mcp_velociraptor.Request.Guest.{
  package_check, request_digest, guest_members, make_guest_request,
}
use mcp_velociraptor.Protocol.Faults.{item}
use mcp_velociraptor.Request.Accepted.{load_request-IsValid, IsNamed, ValidDocument}
use mcp_velociraptor.Request.{name, sources_from, Library}
use mcp_velociraptor.Request.Document.{set_item, completed, load_request, intent, HostRequest}
use mcp_velociraptor.Request.Document.{parse, validate_document, completed, intent}
use mcp_velociraptor.Request.{posix, windows, validate_budget, evidence, source_check}
use mcp_velociraptor.Prelude.{map, ◌↔◌, ◌≡◌, ℕ, false, List, refl, [], ◌∷◌, some, none, inl, true}
use mcp_velociraptor.Json.{Items, Members, Json, obj, member, int, str, end, bool, arr, cons, nil}
use mcp_velociraptor.Paths.Tests.{plain}
use mcp_velociraptor.Result.Tests.{hash}

abbrev library : Library
library = record {
  uuid_text = λ s. some s;
  lower = λ s. s;
  canonical_json = λ _. some [];
  digest_json = λ _. hash;
  unicode = plain;
  is_positive = λ _. true;
  is_finite = λ _. true;
  is_at_most = λ _ _. true;
}

abbrev sources : List Json
sources =
    obj (member "absolute_path" (str "/s/a") (member "relative_path" (str "x/a") end))
    ∷ obj (member "absolute_path" (str "/s/b") (member "relative_path" (str "x/b") end))
    ∷ []

abbrev array : List Json → Items
array [] = nil
array (x ∷ xs) = cons x (array xs)

abbrev limits : Json
limits = obj (
    member "max_files" (int 2) (
      member "max_metadata_bytes" (int 100) (
        member "max_logical_bytes" (int 0) (
          member "max_package_bytes" (int 10) (
            member "min_free_bytes" (int 0) (
              member "max_chunk_bytes" (int 1) (
                member "max_duration_seconds" (int 9)
                  (member "request_timeout_seconds" (int 5) end))))))))

abbrev document_before : Members → Json
document_before m = obj (
    member "schema" (str "velo.transfer.request.v1") (
      member "direction" (str "push") (
        member "sources" (arr (array sources)) (
          member "destination_directory" (str "C:\\d") (
            member "connection_profile" (str "/c") (
              member "expected_vm_identity"
                (obj (
                  member "vm_uuid" (str "u")
                    (member "boot_identity" (str "b") (member "vm_epoch" (str "1") end))))
                (member "evidence_context"
                  (obj (
                    member "producer_complete" (bool true) (
                      member "producer_quiescent" (bool true)
                        (member "references" (arr (cons (str "r") nil)) end))))
                  (member "budget" limits m))))))))

abbrev document : Json
document = document_before end

abbrev filled : Json
filled = document_before (member "transfer_id" (str "fresh1") (member "resume" (bool false) end))

abbrev request : HostRequest library
request = record {
  transfer_id = "fresh1";
  resume = false;
  intent_digest = hash;
  request_timeout_seconds = int 5;
  document = filled;
}

abbrev loads : List ℕ → Parse
loads _ = record { dicts = []; value = some document }

sources-check_collisions_example :
    (sources_from plain true [] [] sources ≡ none)
    ↔ (AllSources plain true sources × (check_collisions plain (map name sources) [] ≡ none))
sources-check_collisions_example = sources-check_collisions plain true sources

document-loaded : load_request library "fresh1" loads (inl []) (str "/spec") ≡ inl request
unfolding load_request posix is_relative parse validate_document validate_budget evidence
    sources_from source_check parents_of windows completed intent
document-loaded = refl

load_request-IsValid_example : ValidDocument library filled × IsNamed library "fresh1" "fresh1"
load_request-IsValid_example =
    load_request-IsValid library "fresh1" loads (inl []) (str "/spec") request document-loaded

intent-resumed_example :
    intent library (completed library "other" (resumed library "t1" document))
    ≡ intent library (completed library "fresh1" document)
intent-resumed_example = intent-resumed library "fresh1" "other" "t1" document

abbrev guest_destination : Json
guest_destination = obj (
    member "endpoint" (str "guest") (
      member "identity" (obj (member "root" (str "r") end))
        (member "canonical_path" (str "C:\\d") end)))

abbrev package_identity : Json
package_identity =
    obj
      (member "size" (int 5) (member "sha256" (str hash) (member "manifest_sha256" (str hash) end)))

abbrev guest : Json
guest =
    set_item "request_digest" (str hash)
      (obj (guest_members library request guest_destination package_identity))

guest-made : make_guest_request library request guest_destination package_identity ≡ inl guest
unfolding make_guest_request package_check request_digest validate_destination same_json is_hex
guest-made = refl

make_guest_request-digest_example : item "request_digest" guest ≡ str (request_digest library guest)
make_guest_request-digest_example =
    make_guest_request-digest library request guest_destination package_identity guest guest-made

abbrev spec_stat : Stat
spec_stat = record {
  is_link = false;
  is_regular = true;
  links = 1;
  device = 1;
  inode = 2;
  size = 1;
  mtime_ns = 3;
}

abbrev disk : Disk
disk = record {
  parents = some (record spec_stat { is_regular = false }) ∷ [];
  before = some spec_stat;
  is_open = true;
  opened = some spec_stat;
  raw = some (b'1' ∷ []);
  final_opened = some spec_stat;
  final_path = some spec_stat;
  is_closed = true;
}

spec-read : read_spec disk ≡ inl (b'1' ∷ [])
unfolding read_spec read_open
spec-read = refl

read_spec-IsStable_example : IsStable disk (b'1' ∷ [])
read_spec-IsStable_example = read_spec-IsStable disk (b'1' ∷ []) spec-read
