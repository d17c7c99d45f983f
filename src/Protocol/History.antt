-- ===== src/Protocol/History.antt =====
-- Histories of calls of the terminal of velo_transfer/protocol.py.
use mcp_velociraptor.Protocol.Checks.{demand-inversion}
use mcp_velociraptor.Protocol.Keep.{
  authorize_release-Kept, complete_release-Kept, complete_commit-Kept, complete_prepare-Kept,
}
use mcp_velociraptor.Protocol.Fails.{fail_action-Kept}
use mcp_velociraptor.Protocol.Steps.{begin-Begins, begins-HasCourse}
use mcp_velociraptor.Protocol.RoundTrip.{restore-course}
use mcp_velociraptor.Protocol.Snapshot.{snapshot, restore}
use mcp_velociraptor.Json.Proper.{same_json_refl, is_proper}
use mcp_velociraptor.Protocol.Ends.{st, Has, Kept}
use mcp_velociraptor.Protocol.Fields.{is_push, validate_destination, validate_binding}
use mcp_velociraptor.Protocol.Faults.{demand}
use mcp_velociraptor.Protocol.Machine.{begin_action}
use mcp_velociraptor.Protocol.Terminal.{start, prefix_of, Action, Prefix, Terminal, open_terminal}
use mcp_velociraptor.Json.{Json}
use mcp_velociraptor.Prelude.{sym, subst, ap, [], ◌∷◌, true, All, ℕ, none, ◌≡◌, List, String, refl}
use mcp_velociraptor.Protocol.Course.{
  perform, IsCourse, HasCourse, IsCall, history, Call, Course, untouched, begins, completes_prepare,
  completes_commit, completes_release, authorizes, fails,
}
use mcp_velociraptor.Proc.{modify, Exit, pure, ◌>>◌, final, Proc, ◌>>=◌, ok, err}

module _ {S E A : Type 0} where
  final-ends :
      (r : Exit S E A)
      → final {A = Unit {0}} (elim r [ ok a t ↦ ok tt t | err e t ↦ err e t ]) ≡ final r
  final-ends (ok a t) = refl
  final-ends (err e t) = refl

  final-pure : (m : Proc S E A) (s : S) → final ((m >> pure tt) s) ≡ final (m s)
  unfolding ◌>>=◌
  final-pure m s = final-ends (m s)

module _ (digest_json : Json → String) (b d : Json) (p : Prefix) where
  perform-course :
      (call : Call) (c : Course)
      → IsCall call
      → IsCourse digest_json b d p c
      → Has digest_json b d p (final (perform digest_json call (st digest_json b d p c)))
  unfolding Kept
  perform-course (begins i a x) c k h =
      subst (Has digest_json b d p)
        (sym (final-pure (begin_action digest_json i a x) (st digest_json b d p c)))
        (begins-HasCourse digest_json b d p a i x c h k
          (begin-Begins digest_json b d a i x (st digest_json b d p c)))
  perform-course (completes_prepare i r) c k h = complete_prepare-Kept digest_json b d p i r c h
  perform-course (completes_commit i r) c k h = complete_commit-Kept digest_json b d p i r c h
  perform-course (completes_release i v) c k h = complete_release-Kept digest_json b d p i v c h
  perform-course (authorizes i) c k h = authorize_release-Kept digest_json b d p i c h
  perform-course (fails a i code) c k h = fail_action-Kept digest_json b d p a i code c h

  perform-HasCourse :
      (call : Call) (s : Terminal)
      → IsCall call
      → Has digest_json b d p s
      → Has digest_json b d p (final (perform digest_json call s))
  perform-HasCourse call s k (c, h, e) =
      subst (λ t. Has digest_json b d p (final (perform digest_json call t))) (sym e)
        (perform-course call c k h)

  pub history-HasCourse :
      (calls : List Call) (s : Terminal)
      → All IsCall calls
      → Has digest_json b d p s
      → Has digest_json b d p (history digest_json calls s)
  unfolding history
  history-HasCourse [] s k h = h
  history-HasCourse (call ∷ calls) s (k, ks) h =
      history-HasCourse calls (final (perform digest_json call s)) ks (perform-HasCourse call s k h)

-- the constructor that has returned
record IsOpening (b d : Json) (s : Terminal) : Type 0 where
  pub binding_fine : validate_binding b ≡ none
  pub destination_fine : validate_destination d (is_push b) ≡ none
  pub started : s ≡ start b d

opening : (b d : Json) (s₀ s : Terminal) → open_terminal b d s₀ ≡ ok tt s → IsOpening b d s
unfolding open_terminal ◌>>=◌
opening b d s₀ s h =
    let (e, k) =
      demand-inversion (validate_binding b)
        (demand (validate_destination d (is_push b)) >> modify (λ _. start b d)) s₀ s tt h in
    let (f, l) =
      demand-inversion (validate_destination d (is_push b)) (modify (λ _. start b d)) s₀ s tt k in
    record { binding_fine = e; destination_fine = f; started = ap final (sym l) }

module _ (digest_json : Json → String) where
  -- every state of a terminal has its course
  pub opened-HasCourse :
      (b d : Json) (calls : List Call) (s₀ s : Terminal)
      → All IsCall calls
      → open_terminal b d s₀ ≡ ok tt s
      → HasCourse digest_json b d (prefix_of b) (history digest_json calls s)
  opened-HasCourse b d calls s₀ s ks o =
      history-HasCourse digest_json b d (prefix_of b) calls s ks
        (untouched, tt, (opening b d s₀ s o).started)

  module _ (canonical_json : Json → List ℕ) (fresh : Action → String) where
    -- After any history of calls, whose inputs are dicts of keyword arguments, `restore` rebuilds
    -- the terminal from its snapshot as it is, where no dict of the binding and the destination
    -- repeats a key.
    pub restore-history :
        (b d : Json) (calls : List Call) (s₀ s t : Terminal)
        → is_proper b ≡ true
        → is_proper d ≡ true
        → All IsCall calls
        → open_terminal b d s₀ ≡ ok tt s
        → restore digest_json canonical_json fresh (snapshot (history digest_json calls s)) b d t
          ≡ ok tt (history digest_json calls s)
    restore-history b d calls s₀ s t pb pd ks o =
        let w = opening b d s₀ s o in
        let (c, h, e) = opened-HasCourse b d calls s₀ s ks o in
        subst (λ v. restore digest_json canonical_json fresh (snapshot v) b d t ≡ ok tt v) (sym e)
          (restore-course digest_json canonical_json fresh b d c t
            (record {
              binding_fine = w.binding_fine;
              destination_fine = w.destination_fine;
              binding_same = same_json_refl b pb;
              destination_same = same_json_refl d pd;
            })
            h)
