-- ===== src/Operation/Outcomes.antt =====
-- What the runners of internal/operation/manager.go report, against what they did.
use geoflow_updater.Prelude.{
  String, ◌≡◌, ◌⊎◌, refl, sym, ap, ◌∙◌, subst, inl, inr, Bool, true, false, List, [], ◌∷◌, ◌++◌,
  All, Memᴰ, if◌then◌else◌,
}
use geoflow_updater.Operation.Records.{
  OperationStatus, Method, verifies, resumes, validates_point, quiesces_for_recovery, restores,
  Happening, called, refused, saved, unsaved, Log, Host, State,
}
use geoflow_updater.Operation.Steps.{call, step, guarded}
use geoflow_updater.Operation.Runners.{
  needs_recovery, succeeds, unchanged, recovery_steps, rollback_runner,
}
use geoflow_updater.Operation.Extends.{
  About, Extends, Extends-Memᴰ, Stepped, call-Called, step-Stepped,
}

-- A method that only looks.
abbrev pub only_looks : Method → Bool
only_looks verifies = true
only_looks (validates_point p) = true
only_looks _ = false

-- Nothing but looking has been tried.
abbrev pub IsUntouched : Happening → Type 0
IsUntouched (called m) = only_looks m ≡ true
IsUntouched (refused m e) = only_looks m ≡ true
IsUntouched (saved o) = Unit
IsUntouched (unsaved o e) = Unit

abbrev pub Facts : List Happening → Log → Type 0
Facts es l = All (λ e. Memᴰ e l) es

-- What the end of a data recovery has to be.
abbrev pub Recovers : String → State → Type 0
Recovers point (o, l) =
    ((o.status ≡ OperationStatus.failed) × All IsUntouched l)
    ⊎ ((o.status ≡ OperationStatus.recovery_required)
        ⊎ ((o.status ≡ OperationStatus.succeeded)
            × Facts
                (called verifies
                  ∷ called resumes
                  ∷ called (restores point o.id)
                  ∷ called (quiesces_for_recovery point)
                  ∷ called (validates_point point)
                  ∷ [])
                l))

guarded_rule :
    (P : State → Type 0) {m : Method} {s : State} (r : Bool × State) (stop go : State → State)
    → Stepped m s r
    → ((t : State) → Stepped m s (false, t) → P (stop t))
    → ((t : State) → Stepped m s (true, t) → P (go t))
    → P (guarded r stop go)
guarded_rule P (true, t) stop go h k n = n t h
guarded_rule P (false, t) stop go h k n = k t h

Facts-Extends :
    {A : Happening → Type 0} {s t : State} (es : List Happening)
    → Extends A s t
    → Facts es s.1
    → Facts es t.1
Facts-Extends [] h f = tt
Facts-Extends (e ∷ es) h f = (Extends-Memᴰ e h f.0, Facts-Extends es h f.1)

-- News about a method that only looks touch nothing.
IsUntouched-news :
    (m : Method) (news l : Log)
    → only_looks m ≡ true
    → All (About m) news
    → All IsUntouched l
    → All IsUntouched (news ++ l)
IsUntouched-news m [] l o h u = u
IsUntouched-news m (called k ∷ news) l o h u =
    (ap only_looks h.0 ∙ o, IsUntouched-news m news l o h.1 u)
IsUntouched-news m (refused k e ∷ news) l o h u =
    (ap only_looks h.0 ∙ o, IsUntouched-news m news l o h.1 u)
IsUntouched-news m (saved x ∷ news) l o h u = (tt, IsUntouched-news m news l o h.1 u)
IsUntouched-news m (unsaved x e ∷ news) l o h u = (tt, IsUntouched-news m news l o h.1 u)

Extends-IsUntouched :
    {m : Method} {s t : State}
    → only_looks m ≡ true
    → Extends (About m) s t
    → All IsUntouched s.1
    → All IsUntouched t.1
Extends-IsUntouched {m} {s} o h u =
    subst (λ l. All IsUntouched l) (sym h.grown) (IsUntouched-news m h.news s.1 o h.sort u)

module _ ⦃host : Host⦄ (point : String) where
  -- A step after which a failure needs recovery.
  recovering_step :
      (name : String) (m : Method) (s : State) (go : State → State)
      → ((t : State) → Stepped m s (true, t) → Recovers point (go t))
      → Recovers point (guarded (step name (call m) s) needs_recovery go)
  recovering_step name m s go k =
      guarded_rule (Recovers point) (step name (call m) s) needs_recovery go
        (step-Stepped m name (call m) s (call-Called m)) (λ t h. inr (inl refl)) k

  -- The goal of a recovery, for the operation of a state.
  abbrev done_for : State → List Happening
  done_for s =
      called (restores point s.0.id)
      ∷ called (quiesces_for_recovery point)
      ∷ called (validates_point point)
      ∷ []

  resumed_Recovers :
      (s : State)
      → Facts (done_for s) s.1
      → Recovers point (
          guarded
            (step "resume" (call resumes) s)
            needs_recovery
            λ s. guarded (step "verify" (call verifies) s) needs_recovery succeeds)
  resumed_Recovers s f = recovering_step "resume" resumes s _ λ t (h, c, _).
      recovering_step "verify" verifies t succeeds λ u (h', c', _). inr (
        inr (
          refl,
          (
            c',
            (
              Extends-Memᴰ (called resumes) h' c,
              (
                subst (λ id. Memᴰ (called (restores point id)) u.1) (sym (h'.same_id ∙ h.same_id))
                    (Extends-Memᴰ (called (restores point s.0.id)) h'
                      (Extends-Memᴰ (called (restores point s.0.id)) h f.0)),
                Facts-Extends
                    (called (quiesces_for_recovery point) ∷ called (validates_point point) ∷ []) h'
                    (Facts-Extends
                      (called (quiesces_for_recovery point) ∷ called (validates_point point) ∷ []) h
                      f.1),
              ),
            ),
          ),
        ))

  restored_Recovers :
      (s : State)
      → Memᴰ (called (validates_point point)) s.1
      → Recovers point (recovery_steps point s)
  restored_Recovers s v = recovering_step "quiesce" (quiesces_for_recovery point) s _ λ t (h, c, _).
      recovering_step "rollback" (restores point t.0.id) t _ λ u (h', c', _). resumed_Recovers u (
        subst (λ id. Memᴰ (called (restores point id)) u.1) (sym h'.same_id) c',
        (
          Extends-Memᴰ (called (quiesces_for_recovery point)) h' c,
          (
            Extends-Memᴰ (called (validates_point point)) h'
                (Extends-Memᴰ (called (validates_point point)) h v),
            tt,
          ),
        ),
      )

  if_rule : (P : State → Type 0) (b : Bool) {s t : State} → P s → P t → P (if b then s else t)
  if_rule P true p q = p
  if_rule P false p q = q

  -- A data recovery that starts before anything was touched ends, on every path, in one of three ways:
  -- it failed, and only looked at the host; or it needs recovery; or it succeeded, and the point was
  -- validated, the host was quiesced for it, the point was restored under the identity of the
  -- operation, and the services were resumed and verified.
  pub rollback_runner-Recovers :
      (s : State) → All IsUntouched s.1 → Recovers point (rollback_runner point s)
  unfolding rollback_runner
  rollback_runner-Recovers (o, l) u =
      if_rule (Recovers point) host.available
        (guarded_rule (Recovers point) (step "preflight" (call (validates_point point)) (o, l))
          unchanged (recovery_steps point)
          (step-Stepped (validates_point point) "preflight" (call (validates_point point)) (o, l)
            (call-Called (validates_point point)))
          (λ t (h, f). inl (f, Extends-IsUntouched refl h u))
          (λ t (h, c, _). restored_Recovers t c))
        (inl (refl, u))
