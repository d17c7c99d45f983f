-- ===== src/Protocol/Replay.antt =====
-- The rounds of `restore` in velo_transfer/protocol.py, each on the state that the rounds before it
-- have made.
use mcp_velociraptor.Text.{is_id, same_text_refl}
use text.Mathlib.Text.{◌==◌ as str_eq}
use mcp_velociraptor.Protocol.Receipts.{validate_publication, validate_prepare}
use mcp_velociraptor.Protocol.Fields.{is_push, identifier}
use mcp_velociraptor.Proc.Handle.{bind_ok}
use mcp_velociraptor.Proc.{◌>>=◌, ok}
use mcp_velociraptor.Protocol.Snapshot.{
  keywords, invalid, status_text, resume, op_json, rename, replay,
}
use mcp_velociraptor.Json.{has_keys, is_dict, str, Json}
use mcp_velociraptor.Protocol.Faults.{object, item, is_true, expect, demand, Check}
use mcp_velociraptor.Prelude.{
  is_none, some, ◌&&◌, [], ◌∷◌, true, ◌∙◌, false, ap, Bool, none, ◌≡◌, String, refl,
}
use mcp_velociraptor.Protocol.Course.{
  prepare_result, commit_result, release_done, sent, placed, release_authorized, committing, based,
  release_begun, preparing, Ground, state_of, Course, op, Began,
}
use mcp_velociraptor.Protocol.Machine.{
  phase_after, release_result, done, broken, pending_op, pending, complete, fail_action,
  complete_release, complete_prepare, complete_commit, authorize_release, input_key, begin_action,
}
use mcp_velociraptor.Protocol.Terminal.{
  released, published, prepared, any_running, put, op_of, Operation, Terminal, Status, Action,
  Prefix, prepare, commit, release, other,
}

pub demand_ok : {S : Type 0} (c : Check) (s : S) → c ≡ none → demand c s ≡ ok tt s
demand_ok c s e = ap (λ v. demand v s) e

module _ (digest_json : Json → String) (b d : Json) (p : Prefix) where
  -- a saved operation, with its status and result
  abbrev saved_op : Action → String → Json → Status → Json → Operation
  saved_op a i x status result = record (op digest_json b d p a i x) {
    status = status;
    result = result;
  }

  begin-ok :
      (fresh : String) (a : Action) (i : String) (x : Json) (s : Terminal)
      → Began digest_json b d p a i x s
      → s.prefix ≡ p
      → s.binding ≡ b
      → op_of a s ≡ none
      → any_running s ≡ false
      → begin_action digest_json fresh a x s
        ≡ ok (op digest_json b d p a fresh x) (put a (op digest_json b d p a fresh x) s)
  unfolding begin_action ◌>>=◌
  begin-ok fresh a i x s h q w o r = rw (h.inputs_fine, o) (rw (q, w, h.phase_fine, r) refl)

  renamed :
      (a : Action) (fresh i : String) (x : Json) (s : Terminal)
      → rename a i (put a (op digest_json b d p a fresh x) s) ≡ put a (op digest_json b d p a i x) s
  renamed prepare fresh i x s = refl
  renamed commit fresh i x s = refl
  renamed release fresh i x s = refl
  renamed (other n) fresh i x s = refl

  pub replay-resume :
      (fresh : String) (a : Action) (i : String) (x : Json) (status : Status) (result : Json)
      (is_authorized : Bool) (s : Terminal)
      → Began digest_json b d p a i x s
      → s.prefix ≡ p
      → s.binding ≡ b
      → op_of a s ≡ none
      → any_running s ≡ false
      → replay digest_json fresh a is_authorized (op_json (saved_op a i x status result)) s
        ≡ resume digest_json a i
            (str (status_text status))
            is_authorized
            result
            (put a (op digest_json b d p a i x) s)
  unfolding replay ◌>>=◌
  replay-resume fresh a i x status result auth s h q w o r =
      bind_ok (demand (identifier (str i))) _ (demand_ok (identifier (str i)) s (rw h.id_fine refl))
      ∙ (bind_ok (demand (expect (is_dict x) invalid)) _
            (demand_ok (expect (is_dict x) invalid) s (rw h.is_dict_fine refl))
          ∙ (bind_ok (demand (keywords x)) _ (demand_ok (keywords x) s h.keywords_fine)
              ∙ (bind_ok (begin_action digest_json fresh a x) _ (begin-ok fresh a i x s h q w o r)
                  ∙ (bind_ok
                        (demand (
                          expect
                            (str_eq (input_key digest_json b a x) (input_key digest_json b a x))
                            invalid))
                        _ (demand_ok _ _ (rw (same_text_refl (input_key digest_json b a x)) refl))
                      ∙ ap (resume digest_json a i (str (status_text status)) auth result)
                          (renamed a fresh i x s)))))

  abbrev pub st : Course → Terminal
  st c = state_of digest_json b d p c

  pending_op-ok :
      (a : Action) (i : String) (x : Json) (s : Terminal)
      → pending_op digest_json i (some (op digest_json b d p a i x)) s
        ≡ ok (op digest_json b d p a i x) s
  unfolding ◌>>=◌
  pending_op-ok a i x s =
      bind_ok (demand (expect (str_eq i i) "operation_mismatch")) _
        (demand_ok (expect (str_eq i i) "operation_mismatch") s (rw (same_text_refl i) refl))

  pending-ok :
      (a : Action) (i : String) (x : Json) (s : Terminal)
      → op_of a s ≡ some (op digest_json b d p a i x)
      → pending digest_json a i s ≡ ok (op digest_json b d p a i x) s
  unfolding pending ◌>>=◌
  pending-ok a i x s e = ap (λ o. pending_op digest_json i o s) e ∙ pending_op-ok a i x s

  complete-ok :
      (a : Action) (i : String) (x result : Json) (s : Terminal)
      → op_of a s ≡ some (op digest_json b d p a i x)
      → complete digest_json a i result s
        ≡ ok tt (put a (done digest_json result (op digest_json b d p a i x)) s)
  unfolding complete ◌>>=◌
  complete-ok a i x result s e = bind_ok (pending digest_json a i) _ (pending-ok a i x s e)

  pub prepare-ok :
      (i : String) (x r : Json)
      → validate_prepare r b ≡ none
      → complete_prepare digest_json i r (st (preparing i x)) ≡ ok tt (st (based (sent i x r)))
  unfolding complete_prepare ◌>>=◌
  prepare-ok i x r e =
      let s = st (preparing i x) in
      bind_ok (pending digest_json prepare i) _ (pending-ok prepare i x s refl)
      ∙ (bind_ok (demand (validate_prepare r b)) _ (demand_ok (validate_prepare r b) s e)
          ∙ complete-ok prepare i x (prepare_result digest_json b d p r)
              (record s { prepare_receipt = r; phase = prepared }) refl)

  pub commit-ok :
      (k : String) (x r : Json) (i : String) (y q : Json)
      → is_push b ≡ true
      → validate_publication digest_json q b r d ≡ none
      → complete_commit digest_json i q (st (committing k x r i y))
        ≡ ok tt (st (based (placed k x r i y q)))
  unfolding complete_commit ◌>>=◌
  commit-ok k x r i y q u e =
      let s = st (committing k x r i y) in
      bind_ok (pending digest_json commit i) _ (pending-ok commit i y s refl)
      ∙ (bind_ok (demand (expect (is_push b) "action_not_allowed")) _
            (demand_ok (expect (is_push b) "action_not_allowed") s (rw u refl))
          ∙ (bind_ok (demand (validate_publication digest_json q b r d)) _
                (demand_ok (validate_publication digest_json q b r d) s e)
              ∙ complete-ok commit i y (commit_result digest_json b d p q)
                  (record s { publication = q; phase = published }) refl))

  pub authorize-ok :
      (g : Ground) (i : String) (y : Json)
      → authorize_release digest_json i (st (release_begun g i y))
        ≡ ok tt (st (release_authorized g i y))
  unfolding authorize_release ◌>>=◌
  authorize-ok (sent j x r) i y =
      bind_ok (pending digest_json release i) _
        (pending-ok release i y (st (release_begun (sent j x r) i y)) refl)
  authorize-ok (placed j x r k z q) i y =
      bind_ok (pending digest_json release i) _
        (pending-ok release i y (st (release_begun (placed j x r k z q) i y)) refl)

  pub release-ok :
      (g : Ground) (i : String) (y v : Json)
      → has_keys ("temporary_files_removed" ∷ "workers_stopped" ∷ []) v ≡ true
      → (is_true (item "temporary_files_removed" v) && is_true (item "workers_stopped" v)) ≡ true
      → complete_release digest_json i v (st (release_authorized g i y))
        ≡ ok tt (st (release_done g i y v))
  unfolding complete_release ◌>>=◌
  release-ok g i y v u w =
      let s = st (release_authorized g i y) in
      let names = "temporary_files_removed" ∷ "workers_stopped" ∷ [] in
      let removed =
        is_true (item "temporary_files_removed" v) && is_true (item "workers_stopped" v) in
      bind_ok (pending digest_json release i) _ (pending-ok release i y s refl)
      ∙ (bind_ok (demand (expect (str_eq i i) "release_not_authorized")) _ (
            demand_ok (expect (str_eq i i) "release_not_authorized") s (rw (same_text_refl i) refl))
          ∙ (bind_ok (demand (object names "invalid_cleanup" v)) _
                (demand_ok (object names "invalid_cleanup" v) s (rw u refl))
              ∙ (bind_ok (demand (expect removed "cleanup_incomplete")) _
                    (demand_ok (expect removed "cleanup_incomplete") s (rw w refl))
                  ∙ complete-ok release i y
                      (release_result digest_json (item "publication_receipt" y) v)
                      (record s { phase = released }) refl)))

  -- a failure of an operation that runs, before the release is authorized
  pub fail-ok :
      (a : Action) (i : String) (x : Json) (code : String) (s : Terminal)
      → op_of a s ≡ some (op digest_json b d p a i x)
      → is_id code ≡ true
      → s.authorization ≡ none
      → (put a (broken digest_json code (op digest_json b d p a i x)) s).prefix ≡ p
      → fail_action digest_json a i code s
        ≡ ok tt (record (put a (broken digest_json code (op digest_json b d p a i x)) s) {
          phase = phase_after digest_json p code;
        })
  unfolding fail_action ◌>>=◌
  fail-ok a i x code s e u n q =
      bind_ok (pending digest_json a i) _ (pending-ok a i x s e)
      ∙ (bind_ok (demand (identifier (str code))) _
            (demand_ok (identifier (str code)) s (rw u refl))
          ∙ (bind_ok (demand (expect (is_none s.authorization) "release_already_authorized")) _ (
                demand_ok (expect (is_none s.authorization) "release_already_authorized") s
                  (rw n refl))
              ∙ rw q refl))
