-- ===== src/Result/Tests.antt =====
-- The result of a push that is complete.
use mcp_velociraptor.Protocol.Faults.{item}
use mcp_velociraptor.Result.Codes.{exit_code-facts}
use mcp_velociraptor.Json.Same.{same_json}
use mcp_velociraptor.Result.Shape.{validate_result-IsBounded, IsBounded}
use mcp_velociraptor.Result.Reading.{decode_result_iff, IsReadable}
use mcp_velociraptor.Result.Facts.{ExitFacts}
use mcp_velociraptor.Protocol.Fields.{validate_destination}
use mcp_velociraptor.Text.{is_hex, is_id}
use mcp_velociraptor.Paths.{parents_of, is_relative, above, distinct, check_collisions}
use mcp_velociraptor.Result.Document.{
  evidence, roles_from, warnings, cleanup, files, packaged, destination, source_vm, channel,
  transfer_id, validate_fields,
}
use mcp_velociraptor.Proc.{◌>>=◌}
use mcp_velociraptor.Sizes.{open_children, enter, charge, chars, visit, validate_json}
use mcp_velociraptor.Result.Outcome.{
  exit_code, bytes_of, result_exit_code, encode_result, decode_result, outcome, publication,
  encoded, Parse, check_result, validate_result,
}
use mcp_velociraptor.Result.{identity, file, result_path, reference, Outside}
use mcp_velociraptor.Prelude.{inr, ap, ◌↔◌, ◌≡◌, ℕ, true, String, List, refl, [], ◌∷◌, some, inl}
use mcp_velociraptor.Json.{Members, Json, obj, member, int, str, end, bool, null, arr, cons, nil}
use mcp_velociraptor.Paths.Tests.{plain}

abbrev pub hash : String
hash = "0123456789abcdef0123456789abcdef0123456789abcdef0123456789abcdef"

abbrev raw : List ℕ
raw = b'{' ∷ b'}' ∷ []

abbrev outside : Outside
outside = record {
  uuid_text = λ s. some s;
  canonical_json = λ _. some raw;
  number_text = λ _. some (b'5' ∷ []);
  unicode = plain;
}

abbrev evidence_of : String → Json
evidence_of role = obj (
    member "role" (str role) (
      member "reference"
        (obj (
          member "name" (str "receipt") (
            member "size" (int 1) (
              member "sha256" (str hash) (
                member "device" (int 1)
                  (member "inode" (int 2) (member "mtime_ns" (int 3) end)))))))
        end))

abbrev one_file : Json
one_file = obj (
    member "source" (str "/s/a") (
      member "relative_path" (str "a") (
        member "destination" (str "/d/a")
          (member "size" (int 5) (member "sha256" (str hash) end)))))

abbrev destination_json : Json
destination_json = obj (
    member "endpoint" (str "guest") (
      member "identity" (obj (member "root" (str "r") end))
        (member "canonical_path" (str "C:\\d") end)))

abbrev finished_rest : Members
finished_rest = member "files" (arr (cons one_file nil)) (
    member "source_stability" (str "stable_at_required_check") (
      member "phase" (str "COMPLETE") (
        member "last_phase" null (
          member "published_ever" (bool true) (
            member "destination_verified" (bool true) (
              member "cleanup" (obj (member "host" (bool true) (member "guest" (bool true) end))) (
                member "publication_receipt_sha256" (str hash) (
                  member "warnings" (arr nil) (
                    member "evidence_index"
                      (arr (
                        cons (evidence_of "publication_receipt") (
                          cons (evidence_of "destination_verification") (
                            cons (evidence_of "host_cleanup")
                              (cons (evidence_of "guest_cleanup") nil)))))
                      end)))))))))

abbrev finished : Json
finished = obj (
    member "schema" (str "velo.transfer.result.v1") (
      member "outcome" (str "complete") (
        member "transfer_id" (str "t1") (
          member "request_digest" (str hash) (
            member "direction" (str "push") (
              member "channel" (str "velo") (
                member "fallback_reason" null (
                  member "source_vm_identity" null (
                    member "destination_identity" destination_json (
                      member "package_sha256" (str hash) (
                        member "package_size" (int 5) (
                          member "manifest_sha256" (str hash)
                            (member "resumed_bytes" (int 0) finished_rest)))))))))))))

abbrev loads : List ℕ → Parse
loads _ = record { dicts = []; value = some finished }

finished-valid : validate_result outside 5 4096 finished ≡ inl finished
unfolding same_json validate_result check_result validate_json visit chars charge enter
    open_children ◌>>=◌ encoded validate_fields transfer_id channel source_vm destination packaged
    files cleanup warnings roles_from evidence reference result_path file identity publication
    outcome check_collisions distinct above is_relative parents_of is_id is_hex validate_destination
finished-valid = refl

finished-code : result_exit_code outside 5 4096 finished ≡ inl 0
unfolding result_exit_code
finished-code =
    ap (λ x. elim x [ inl v ↦ inl (exit_code (item "outcome" v)) | inr e ↦ inr e ]) finished-valid

exit_code-facts_example : ExitFacts finished 0
exit_code-facts_example = exit_code-facts outside 5 4096 finished 0 finished-code

validate_result-IsBounded_example : IsBounded outside 5 4096 finished
validate_result-IsBounded_example =
    validate_result-IsBounded outside 5 4096 finished finished finished-valid

finished-written : encode_result outside 5 4096 finished ≡ inl raw
unfolding encode_result
finished-written =
    ap (λ x. elim x [ inl v ↦ bytes_of outside 5 4096 (outside.canonical_json v) | inr e ↦ inr e ])
      finished-valid

decode_result_iff_example :
    (decode_result outside 5 4096 loads raw ≡ inl finished)
    ↔ IsReadable outside 5 4096 (loads raw) raw finished
decode_result_iff_example = decode_result_iff outside 5 4096 loads raw finished
