-- ===== src/Operation/Extends.antt =====
-- What a step of internal/operation/manager.go adds to the log, and how it leaves the status.
use geoflow_updater.Prelude.{
  String, ◌≡◌, refl, sym, ap, ◌∙◌, subst, Bool, true, false, none, some, List, [], ◌∷◌, ◌++◌, All,
  Memᴰ, Error,
}
use geoflow_updater.Update.Journal.{Stage}
use geoflow_updater.Operation.Records.{
  OperationStatus, Operation, Method, creates_point, Happening, called, refused, saved, unsaved,
  Log, Host, State,
}
use geoflow_updater.Operation.Steps.{
  bounded, save_result, method_result, save, update_stage, call, create_point, step_failed,
  step_succeeded, step_called, step_started, step,
}

-- A write of the journal, or the method itself.
abbrev pub About : Method → Happening → Type 0
About m (called k) = k ≡ m
About m (refused k e) = k ≡ m
About m (saved o) = Unit
About m (unsaved o e) = Unit

-- The log has grown by happenings of one sort, and the operation is the same one.
pub record Extends (A : Happening → Type 0) (s s' : State) : Type 0 where
  pub news : List Happening
  pub sort : All A news
  pub grown : s'.1 ≡ news ++ s.1
  pub same_id : s'.0.id ≡ s.0.id

append_assoc : (xs ys zs : List Happening) → xs ++ (ys ++ zs) ≡ (xs ++ ys) ++ zs
append_assoc [] ys zs = refl
append_assoc (x ∷ xs) ys zs = ap (◌∷◌ x) (append_assoc xs ys zs)

All-append :
    (A : Happening → Type 0) (xs ys : List Happening) → All A xs → All A ys → All A (xs ++ ys)
All-append A [] ys h k = k
All-append A (x ∷ xs) ys h k = (h.0, All-append A xs ys h.1 k)

Memᴰ-append : (e : Happening) (xs ys : List Happening) → Memᴰ e ys → Memᴰ e (xs ++ ys)
Memᴰ-append e [] ys m = m
Memᴰ-append e (x ∷ xs) ys m = Memᴰ.tail (Memᴰ-append e xs ys m)

pub Extends-trans :
    {A : Happening → Type 0} {s t u : State} → Extends A s t → Extends A t u → Extends A s u
Extends-trans {A} {s} h k = record {
  news = k.news ++ h.news;
  sort = All-append A k.news h.news k.sort h.sort;
  grown = k.grown ∙ ap (λ l. k.news ++ l) h.grown ∙ append_assoc k.news h.news s.1;
  same_id = k.same_id ∙ h.same_id;
}

pub Extends-Memᴰ :
    {A : Happening → Type 0} {s t : State} (e : Happening) → Extends A s t → Memᴰ e s.1 → Memᴰ e t.1
Extends-Memᴰ {s} e h m = subst (Memᴰ e) (sym h.grown) (Memᴰ-append e h.news s.1 m)

-- Another operation with the same identity.
pub Extends-put :
    {A : Happening → Type 0} {s : State} {o : Operation} {l : Log} (o' : Operation)
    → o'.id ≡ o.id
    → Extends A s (o, l)
    → Extends A s (o', l)
Extends-put o' p h = record {
  news = h.news;
  sort = h.sort;
  grown = h.grown;
  same_id = p ∙ h.same_id;
}

-- What a step leaves.
abbrev pub Stepped : Method → State → Bool × State → Type 0
Stepped m s (true, s') = Extends (About m) s s' × Memᴰ (called m) s'.1 × (s'.0.status ≡ s.0.status)
Stepped m s (false, s') = Extends (About m) s s' × (s'.0.status ≡ OperationStatus.failed)

-- What a write of the journal, or a call, leaves.
abbrev pub Noted : Method → State → Error × State → Type 0
Noted m s (e, s') = Extends (About m) s s' × (s'.0.status ≡ s.0.status)

abbrev pub Called : Method → State → Error × State → Type 0
Called m s (none, s') = Extends (About m) s s' × Memᴰ (called m) s'.1 × (s'.0.status ≡ s.0.status)
Called m s (some e, s') = Extends (About m) s s'

save_result-Noted :
    (m : Method) (e : Error) (o o' : Operation) (l : Log)
    → o'.id ≡ o.id
    → o'.status ≡ o.status
    → Noted m (o, l) (save_result e o' l)
save_result-Noted m none o o' l p q =
    (record { news = saved o' ∷ []; sort = (tt, tt); grown = refl; same_id = p }, q)
save_result-Noted m (some e) o o' l p q =
    (record { news = unsaved o' e ∷ []; sort = (tt, tt); grown = refl; same_id = p }, q)

method_result-Called :
    (m : Method) (e : Error) (o o' : Operation) (l : Log)
    → o'.id ≡ o.id
    → o'.status ≡ o.status
    → Called m (o, l) (method_result e m (o', l))
method_result-Called m none o o' l p q = (
  record { news = called m ∷ []; sort = (refl, tt); grown = refl; same_id = p },
  Memᴰ.head refl,
  q,
)
method_result-Called m (some e) o o' l p q = record {
  news = refused m e ∷ [];
  sort = (refl, tt);
  grown = refl;
  same_id = p;
}

module _ ⦃host : Host⦄ where
  update_stage-Noted : (m : Method) (st : Stage) (s : State) → Noted m s (update_stage st s)
  unfolding update_stage save bounded
  update_stage-Noted m st (o, l) = save_result-Noted m _ o _ l refl refl

  pub call-Called : (m : Method) (s : State) → Called m s (call m s)
  unfolding call
  call-Called m (o, l) = method_result-Called m (host.answer l m) o o l refl refl

  pub create_point-Called :
      (label : String) (s : State) → Called (creates_point label) s (create_point label s)
  unfolding create_point
  create_point-Called label (o, l) =
      method_result-Called (creates_point label) (host.answer l (creates_point label)) o _ l refl
        refl

  step_succeeded-Stepped :
      (m : Method) (name : String) (s t : State) (r : Error × State)
      → Extends (About m) s t
      → Memᴰ (called m) t.1
      → t.0.status ≡ s.0.status
      → Noted m t r
      → Stepped m s (step_succeeded name r)
  step_succeeded-Stepped m name s t (none, u) h c p (k, q) =
      (Extends-trans h k, Extends-Memᴰ (called m) k c, q ∙ p)
  step_succeeded-Stepped m name s t (some e, (o, l)) h c p (k, q) =
      (Extends-put _ refl (Extends-trans h k), refl)

  step_failed-Stepped :
      (m : Method) (name e : String) (s t : State) (r : Error × State)
      → Extends (About m) s t
      → Noted m t r
      → Stepped m s (step_failed name e r)
  step_failed-Stepped m name e s t (x, (o, l)) h (k, q) =
      (Extends-put _ refl (Extends-trans h k), refl)

  step_called-Stepped :
      (m : Method) (name : String) (s t : State) (r : Error × State)
      → Extends (About m) s t
      → t.0.status ≡ s.0.status
      → Called m t r
      → Stepped m s (step_called name r)
  step_called-Stepped m name s t (none, u) h p (k, c, q) =
      step_succeeded-Stepped m name s u _ (Extends-trans h k) c (q ∙ p) (update_stage-Noted m _ u)
  step_called-Stepped m name s t (some e, u) h p k =
      step_failed-Stepped m name e s u _ (Extends-trans h k) (update_stage-Noted m _ u)

  step_started-Stepped :
      (m : Method) (name : String) (run : State → Error × State) (s : State) (r : Error × State)
      → ((t : State) → Called m t (run t))
      → Noted m s r
      → Stepped m s (step_started name run r)
  step_started-Stepped m name run s (some e, (o, l)) c (h, p) = (Extends-put _ refl h, refl)
  step_started-Stepped m name run s (none, t) c (h, p) =
      step_called-Stepped m name s t (run t) h p (c t)

  -- A step adds writes of the journal and at most calls of its method to the log. Where it goes on,
  -- the method returned nil and the status is as it was; where not, the status is `failed`.
  pub step-Stepped :
      (m : Method) (name : String) (run : State → Error × State) (s : State)
      → ((t : State) → Called m t (run t))
      → Stepped m s (step name run s)
  unfolding step
  step-Stepped m name run s c = step_started-Stepped m name run s _ c (update_stage-Noted m _ s)
