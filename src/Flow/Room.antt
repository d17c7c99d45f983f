-- ===== src/Flow/Room.antt =====
-- `_call` of velo_flow/coordinator.py, about the room that a run has for more calls.
use mcp_velociraptor.Flow.Log.{Tally, tally, HasRoom, IsLogged}
use mcp_velociraptor.Proc.{modify, ◌>>◌}
use mcp_velociraptor.Proc.Keeps.{Keeps-require, Keeps-some_or, Keeps-weaken}
use mcp_velociraptor.Bytes.{total-append, total}
use mcp_velociraptor.Flow.Calls.{validator, count_call, call}
use mcp_velociraptor.Flow.Sink.{marker, add_call, write, append_call}
use mcp_velociraptor.Proc.Triple.{
  Triple-some_or, Triple-raise, Triple-modify, Triple-mono, Triple-if, Triple-require, Triple-gets,
  Triple-bind, Triple, Keeps,
}
use mcp_velociraptor.Json.{Json}
use mcp_velociraptor.Flow.Model.{
  raw_record_too_large, fail, crash, list_flow_files, get_flow_results, log_slot_reserve,
  log_record_limit, get_flow_status, Answer, Tool, World, Spec, Run,
}
use mcp_velociraptor.Prelude.{
  inr, some, inl, false, ◌++◌, refl, ltb, [], ◌∷◌, true, ◌≡◌, ◌≤◌, suc, length, leb, arith, ◌+◌, ℕ,
  List,
}
use mcp_velociraptor.Flow.Ticks

pub HasRoom-less :
    (spec : Spec) (a b c d a' b' c' d' : ℕ) (t : Tally)
    → HasRoom spec a b c d t
    → a' ≤ a
    → b' ≤ b
    → c' ≤ c
    → d' ≤ d
    → HasRoom spec a' b' c' d' t
HasRoom-less spec a b c d a' b' c' d' t h p q r u = omega arith

module _ (spec : Spec) (w : World) where
  abbrev pub End : Run → Type 0
  End s = IsLogged spec w (tally s)

  pub HasRoom-IsLogged : (a b c d : ℕ) (s : Run) → HasRoom spec a b c d (tally s) → End s
  HasRoom-IsLogged a b c d s h = record {
    status_in = omega arith;
    results_in = omega arith;
    files_in = omega arith;
    counted = h.counted;
    log_in = inl (omega arith);
  }

  abbrev Room : ℕ → ℕ → ℕ → ℕ → Run → Type 0
  Room a b c d s = HasRoom spec a b c d (tally s)

  -- room for one more call of the tool
  abbrev RoomFor : Tool → ℕ → ℕ → ℕ → ℕ → Run → Type 0
  RoomFor get_flow_status a b c d = Room (suc a) b c d
  RoomFor get_flow_results a b c d = Room a (suc b) c d
  RoomFor list_flow_files a b c d = Room a b (suc c) d

  count-Room :
      (t : Tool) (a b c d : ℕ) (s : Run) → RoomFor t a b c d s → Room a b c d (count_call t s)
  count-Room get_flow_status a b c d s h = omega arith
  count-Room get_flow_results a b c d s h = omega arith
  count-Room list_flow_files a b c d s h = omega arith

  RoomFor-less : (t : Tool) (a b c d : ℕ) (s : Run) → RoomFor t a b c d s → End s
  RoomFor-less get_flow_status a b c d s h = HasRoom-IsLogged (suc a) b c d s h
  RoomFor-less get_flow_results a b c d s h = HasRoom-IsLogged a (suc b) c d s h
  RoomFor-less list_flow_files a b c d s h = HasRoom-IsLogged a b (suc c) d s h

  reserve :
      (t : Tool) (a b c used : ℕ) (s : Run)
      → leb (used + log_slot_reserve) spec.max_log_bytes ≡ true
      → used ≡ s.calls_bytes
      → RoomFor t a b c 0 s
      → RoomFor t a b c log_record_limit s
  reserve get_flow_status a b c used s fits e h = ground arith
  reserve get_flow_results a b c used s fits e h = ground arith
  reserve list_flow_files a b c used s fits e h = ground arith

  add_call-counted :
      (raw : List ℕ) (a b c d : ℕ) (s : Run)
      → Room a b c d s
      → s.calls_bytes + length raw ≡ total (s.calls ++ raw ∷ [])
  add_call-counted raw a b c d s h = ground (arith, total-append s.calls (raw ∷ []))

  add_call-Room :
      (raw : List ℕ) (a b c : ℕ) (s : Run)
      → length raw ≤ log_record_limit
      → Room a b c log_record_limit s
      → Room a b c 0 (add_call raw s)
  add_call-Room raw a b c s le h = ground (arith, total-append s.calls (raw ∷ []))

  module _ (a b c : ℕ) where
    ticks-write : (d : ℕ) → Keeps (Room a b c d) (write w)
    ticks-write d = Ticks.write-Keeps (Room a b c d) w (λ n s h. h) (λ n s h. h) (λ n s h. h)

    Keeps-write : (A : Type 0) → Keeps (λ s. A × Room a b c log_record_limit s) (write w)
    Keeps-write A =
        Ticks.write-Keeps (λ s. A × Room a b c log_record_limit s) w (λ n s h. h) (λ n s h. h)
          (λ n s h. h)

    drop-Room : (d : ℕ) (s : Run) → Room a b c d s → End s
    drop-Room d s h = HasRoom-IsLogged a b c d s h

    overrun-IsLogged :
        (t : Tool) (args : Json) (line : List ℕ) (s : Run)
        → w.dumps (marker t args) ≡ some line
        → Room a b c log_record_limit s
        → End (record (add_call (line ++ b'\n' ∷ []) s) { calls_complete = false })
    overrun-IsLogged t args line s e h = record {
      status_in = omega arith;
      results_in = omega arith;
      files_in = omega arith;
      counted = add_call-counted (line ++ b'\n' ∷ []) a b c log_record_limit s h;
      log_in = inr (record {
        incomplete = refl;
        earlier = s.calls;
        tool = t;
        args = args;
        line = line;
        dumped = e;
        last = refl;
        free = omega arith;
      });
    }

    -- the exit by an oversized record
    write-marker :
        (t : Tool) (args : Json) (line : List ℕ)
        → Triple {A = Unit {0}}
            (λ s. (w.dumps (marker t args) ≡ some line) × Room a b c log_record_limit s)
            (do
              write w
              modify (add_call (line ++ b'\n' ∷ []))
              modify (λ s. record s { calls_complete = false })
              fail raw_record_too_large)
            (λ _ s. Room a b c 0 s)
            (λ _ s. End s)
    write-marker t args line =
        Triple-bind
          (Keeps-weaken (Keeps-write (w.dumps (marker t args) ≡ some line))
            (λ e s h. drop-Room log_record_limit s h.1))
          λ _.
            Triple-bind
              (Triple-modify {Q = λ _ s. End (record s { calls_complete = false })} _
                (λ s h. overrun-IsLogged t args line s h.0 h.1))
              λ _.
                Triple-bind (Triple-modify {Q = λ _ s. End s} _ λ s h. h)
                  λ _. Triple-raise _ λ s h. h

    append_call-Room :
        (t : Tool) (args : Json) (r : Answer)
        → Triple
            (Room a b c log_record_limit)
            (append_call w t args r)
            (λ _ s. Room a b c 0 s)
            (λ _ s. End s)
    unfolding append_call
    append_call-Room t args r =
        Triple-bind (Keeps-weaken (Keeps-some_or _ _) (λ e. drop-Room log_record_limit)) λ raw.
          Triple-if (ltb log_record_limit (length raw))
            (λ _.
              Triple-bind
                (Triple-some_or crash (w.dumps (marker t args)) (drop-Room log_record_limit))
                λ line. write-marker t args line)
            λ fits.
              Triple-bind
                (Keeps-weaken (ticks-write log_record_limit) (λ e. drop-Room log_record_limit))
                λ _. Triple-modify _ (λ s. add_call-Room raw a b c s (ground arith))

    pub call-Room :
        (t : Tool) (args : Json)
        → Triple (RoomFor t a b c 0) (call w spec t args) (λ _ s. Room a b c 0 s) (λ _ s. End s)
    unfolding call validator
    call-Room t args = Triple-bind (Triple-gets _) λ used.
        Triple-bind (Triple-require _ _ λ s h. RoomFor-less t a b c 0 s h.1) λ _.
          Triple-bind
            (Triple-bind
              (Triple-mono (Triple-gets {P = RoomFor t a b c log_record_limit} _)
                (λ s h. reserve t a b c used s h.0 h.1.0 h.1.1) (λ _ s h. h.1) (λ e s h. h))
              λ schemas.
                Keeps-weaken (Keeps-some_or _ _) λ e s. RoomFor-less t a b c log_record_limit s)
            λ schemas.
              Triple-bind
                (Keeps-weaken (Keeps-require _ _) λ e s. RoomFor-less t a b c log_record_limit s)
                λ _.
                  Triple-bind
                    (Triple-modify {Q = λ _ s. Room a b c log_record_limit s} _
                      (count-Room t a b c log_record_limit))
                    λ _.
                      Triple-bind
                        (Keeps-weaken
                          (Ticks.bounded-Keeps (Room a b c log_record_limit) w (λ n s h. h)
                            (λ n s h. h) (λ n s h. h) spec _)
                          (λ e. drop-Room log_record_limit))
                        λ result. Triple-bind (append_call-Room t args result) λ _.
                          Keeps-weaken
                            (Ticks.checked-Keeps (Room a b c 0) w (λ n s h. h) (λ n s h. h)
                              (λ n s h. h) result t)
                            (λ e. drop-Room 0)
