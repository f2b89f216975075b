-- ===== src/Control/Updater/Progress.antt =====
-- control/updater.go: what `ApplyUpdate` publishes, in every interleaving with its progress.
use cells_sync.Prelude.{
  map, sym, ℕ, ◌+◌, ◌≤◌, ◌≡◌, refl, ◌∙◌, arith, String, Bool, true, false, Option, none, some, List,
  [], ◌∷◌, ◌++◌, length, if◌then◌else◌, string_eq, Bool-cases, inl, inr,
}
use mathlib.Core.List.{append-nil, map-append}
use cells_sync.Control.Updater.{Package, UpdateMessage, apply_status, Host, dispatch, dispatch_all}
use cells_sync.Control.Updater.Published.{
  is_end, ends, after_end, progress_of, ends-append, progress_of-append, after_end-first,
  length-after_end, dispatch_all-append, Rises, last_of, Rises-append, last_of-append,
}
use cells_sync.Control.Updater.Download.{
  Doubles, Installer, download, Running, Action, send, take, finish, running, last_status, sends,
  takes, finishes, act, act_all, apply_update,
}

module _ (F : Doubles) where
  module _ (p : Package) (failure : Option String) where
    abbrev count : Option ℕ → ℕ
    count none = 0
    count (some pg) = 1

    record Inv (r : Running F) : Type 0 where
      kept : r.failure ≡ failure
      read : List ℕ  -- the progress that was read and is published
      shown : progress_of r.published ≡ map F.single read
      rises : Rises F F.zero_bits read
      last : last_of F F.zero_bits read ≡ r.previous
      ended_by : ends r.published ≡ (if r.ended then last_status F p failure ∷ [] else [])
      sent : r.ended ≡ true → r.to_send ≡ []
      quiet : dispatch_all r.published ≡ []
      late : length (after_end r.published) + (if r.ended then count r.held else 0) ≤ 1

    sends-Inv :
        (pgs : List ℕ) (o : Option ℕ) (r : Running F)
        → r.to_send ≡ pgs
        → r.held ≡ o
        → Inv r
        → Inv (sends F p pgs o r)
    sends-Inv [] o r e e' h = h
    sends-Inv (pg ∷ pgs) (some q) r e e' h = h
    sends-Inv (pg ∷ pgs) none r e e' h = record {
      kept = h.kept;
      read = h.read;
      shown = h.shown;
      rises = h.rises;
      last = h.last;
      ended_by = h.ended_by;
      quiet = h.quiet;
      sent = λ done. ground (arith, h.sent done, e);
      late = elim (Bool-cases r.ended) [
        | inl done ↦ ground (arith, h.sent done, e)
        | inr open_ ↦ ground (arith, open_, h.late)
      ];
    }

    abbrev progress : ℕ → UpdateMessage
    progress pg = apply_status "downloading" p (F.single pg) ""

    open_after_end :
        (r : Running F)
        → r.ended ≡ false
        → Inv r
        → (m : UpdateMessage) → after_end (r.published ++ (m ∷ [])) ≡ []
    open_after_end r e h m = after_end-first r.published m (h.ended_by ∙ rw e refl)

    took :
        (r : Running F) (pg : ℕ)
        → r.held ≡ some pg
        → F.exceeds pg r.previous ≡ true
        → Inv r
        → Inv
            (record r { held = none; previous = pg; published = r.published ++ (progress pg ∷ []) })
    unfolding dispatch
    took r pg e up h = record {
      kept = h.kept;
      read = h.read ++ (pg ∷ []);
      shown =
          rw (progress_of-append r.published (progress pg), h.shown)
            (sym (map-append F.single h.read (pg ∷ [])));
      rises = Rises-append F F.zero_bits pg h.read h.rises (rw h.last up);
      last = last_of-append F F.zero_bits pg h.read;
      ended_by = rw (ends-append r.published (progress pg)) (append-nil _ ∙ h.ended_by);
      quiet = rw (dispatch_all-append r.published (progress pg), h.quiet) refl;
      sent = h.sent;
      late = elim (Bool-cases r.ended) [
        | inl done ↦ ground (arith, done, e, h.late, length-after_end r.published (progress pg))
        | inr open_ ↦ ground (arith, open_, open_after_end r open_ h (progress pg))
      ];
    }

    takes-Inv : (o : Option ℕ) (r : Running F) → r.held ≡ o → Inv r → Inv (takes F p o r)
    takes-Inv none r e h = h
    takes-Inv (some pg) r e h = elim (Bool-cases (F.exceeds pg r.previous)) [
      | inl up ↦ rw up (took r pg e up h)
      | inr low ↦ rw low (record {
        kept = h.kept;
        read = h.read;
        shown = h.shown;
        rises = h.rises;
        last = h.last;
        ended_by = h.ended_by;
        quiet = h.quiet;
        sent = h.sent;
        late = ground (arith, h.late);
      })
    ]

    progress_of-last_status :
        (ms : List UpdateMessage) (e : Option String)
        → progress_of (ms ++ (last_status F p e ∷ [])) ≡ progress_of ms
    progress_of-last_status ms none = progress_of-append ms _ ∙ append-nil (progress_of ms)
    progress_of-last_status ms (some e) = progress_of-append ms _ ∙ append-nil (progress_of ms)

    dispatch_all-last_status :
        (ms : List UpdateMessage) (e : Option String)
        → dispatch_all (ms ++ (last_status F p e ∷ [])) ≡ dispatch_all ms
    unfolding dispatch
    dispatch_all-last_status ms none = dispatch_all-append ms _ ∙ append-nil (dispatch_all ms)
    dispatch_all-last_status ms (some e) = dispatch_all-append ms _ ∙ append-nil (dispatch_all ms)

    is_end-last_status : (e : Option String) → is_end (last_status F p e) ≡ true
    is_end-last_status none = refl
    is_end-last_status (some e) = refl

    finishes-Inv :
        (pgs : List ℕ) (ended : Bool) (r : Running F)
        → r.to_send ≡ pgs
        → r.ended ≡ ended
        → Inv r
        → Inv (finishes F p pgs ended r)
    finishes-Inv (pg ∷ pgs) ended r e e' h = h
    finishes-Inv [] true r e e' h = h
    finishes-Inv [] false r e e' h = record {
      kept = h.kept;
      read = h.read;
      shown = progress_of-last_status r.published r.failure ∙ h.shown;
      rises = h.rises;
      last = h.last;
      ended_by =
          rw
            (
              ends-append r.published (last_status F p r.failure),
              h.kept,
              h.ended_by,
              e',
              is_end-last_status failure,
            )
            refl;
      quiet = rw (dispatch_all-last_status r.published r.failure) h.quiet;
      sent = λ done. e;
      late = rw (open_after_end r e' h (last_status F p r.failure)) (ground (arith, h.late));
    }

    act_all-Inv : (as' : List Action) (r : Running F) → Inv r → Inv (act_all F p as' r)
    unfolding act_all act
    act_all-Inv [] r h = h
    act_all-Inv (send ∷ as') r h = act_all-Inv as' _ (sends-Inv r.to_send r.held r refl refl h)
    act_all-Inv (take ∷ as') r h = act_all-Inv as' _ (takes-Inv r.held r refl h)
    act_all-Inv (finish ∷ as') r h =
        act_all-Inv as' _ (finishes-Inv r.to_send r.ended r refl refl h)

    running-Inv : (pgs : List ℕ) → Inv (running F p pgs failure)
    unfolding running dispatch_all
    running-Inv pgs = record {
      kept = refl;
      read = [];
      shown = refl;
      rises = tt;
      last = refl;
      ended_by = refl;
      quiet = refl;
      sent = λ h. cc;
      late = omega arith;
    }

  module _ {κ} {K B : Type κ} (H : Host) (I : Installer K B) where
    abbrev pub outcome_error : Bool → String → Package → Bool → Option String
    outcome_error debug key p dry = (download F H I debug key p dry).error

    apply_update-Inv :
        (debug : Bool) (key : String) (p : Package) (dry : Bool) (actions : List Action)
        → Inv p (outcome_error debug key p dry) (apply_update F H I debug key p dry actions)
    unfolding apply_update
    apply_update-Inv debug key p dry actions =
        act_all-Inv p _ actions _ (running-Inv p _ (download F H I debug key p dry).progress)

    pub apply_update-quiet :
        (debug : Bool) (key : String) (p : Package) (dry : Bool) (actions : List Action)
        → dispatch_all (apply_update F H I debug key p dry actions).published ≡ []
    apply_update-quiet debug key p dry actions =
        let h = apply_update-Inv debug key p dry actions in h.quiet

  -- The interleaving that publishes each progress before the next one is read.
  abbrev pub in_turn : List ℕ → List Action
  in_turn [] = finish ∷ []
  in_turn (pg ∷ pgs) = send ∷ take ∷ in_turn pgs

  module _ (p : Package) where
    pub act_all-in_turn :
        (pgs : List ℕ) (r : Running F)
        → r.to_send ≡ pgs
        → r.held ≡ none
        → r.ended ≡ false
        → (act_all F p (in_turn pgs) r).ended ≡ true
    unfolding act_all act
    act_all-in_turn [] r e e' e'' = rw (e, e'') refl
    act_all-in_turn (pg ∷ pgs) r e e' e'' =
        rw (e, e')
          (elim (Bool-cases (F.exceeds pg r.previous)) [
            | inl up ↦ rw (up, act_all) (act_all-in_turn pgs _ refl refl e'')
            | inr low ↦ rw (low, act_all) (act_all-in_turn pgs _ refl refl e'')
          ])
