-- ===== src/Coordination/Head.antt =====
-- The writes of internal/coordination/store.go and head.go. A write is told how it ends.
use geoflow_updater.Prelude.{
  ℕ, String, Bool, not, ◌&&◌, none, some, List, [], ◌∷◌, ◌++◌, ltb, str_eq, if◌then◌else◌,
}
use geoflow_updater.Prelude.Result.{Result, ok, err, ◌>>=◌, ◌>>◌, require}
use geoflow_updater.Coordination.Patterns.{hex32}
use geoflow_updater.Coordination.Records.{
  RawMessage, Admission, valid_admission, Plan, valid_plan, Head, valid_head,
}
use geoflow_updater.Coordination.Files.{
  Failure, plan_invalid, not_exist, invalid_admission_authority, invalid_order_authority,
  superseded, invalid_projection, unreadable_json, Store, WriteEnd, clean, early, late,
  write_result, read, entries, create, replace, root,
}
use geoflow_updater.Coordination.Store.{admissions, operation, latest, next_sequence}

-- The state after an operation, and its error.
abbrev pub Change : Type 0
Change = Store × Result Failure (Unit {0})

abbrev pub numbered : Admission → ℕ → Admission
numbered a n = record a { sequence = n }

-- The write of `Accept`, for an admission that has its number.
unfoldable pub accept_numbered : WriteEnd → Admission → Store → Change
unfolding create
accept_numbered end a s =
    if valid_admission a
    then (let (d, e) = create end a.client_request_id a s.admissions in
        (record s { admissions = d }, e))
    else (s, err invalid_admission_authority)

abbrev pub accept_next : WriteEnd → Admission → Store → Result Failure ℕ → Change
accept_next end a s (ok n) = accept_numbered end (numbered a n) s
accept_next end a s (err e) = (s, err e)

-- `Accept`.
unfoldable pub accept : WriteEnd → Admission → Store → Change
unfolding accept_numbered
accept end a s = accept_next end a s (next_sequence s a.instance_id)

-- `writeHead`.
unfoldable pub write_head : WriteEnd → Head → Store → Change
write_head end h s =
    if valid_head h
    then elim end [
      | early e ↦ (s, write_result (early e))
      | clean ↦ (record s { head = some (some h) }, ok tt)
      | late e ↦ (record s { head = some (some h) }, write_result (late e))
    ]
    else (s, err invalid_order_authority)

-- `BeginLegacy`.
unfoldable pub begin_legacy : WriteEnd → String → String → RawMessage → Store → Change
unfolding write_head
begin_legacy end id operation_id contents s =
    if str_eq id "primary"
    then elim (next_sequence s id) [
      | ok n ↦
          write_head end
            (record {
              sequence = n;
              schema_version = 2;
              instance_id = id;
              origin = "legacy";
              operation_id = operation_id;
              operation = contents;
            })
            s
      | err e ↦ (s, err e)
    ]
    else (s, ok tt)

-- `syncHeadOperation`.
unfoldable pub sync_head_operation : WriteEnd → String → String → RawMessage → Store → Change
unfolding write_head
sync_head_operation end id operation_id contents s = elim (latest s id) [
  | err not_exist ↦ (s, ok tt)
  | err e ↦ (s, err e)
  | ok h ↦
      if str_eq h.operation_id operation_id
      then write_head end (record h { operation = contents }) s
      else (s, err superseded)
]

-- The admission with a new projection of its operation.
abbrev pub projected : Admission → RawMessage → String → Admission
projected a contents point = record a {
  operation = contents;
  recovery_point_id = if str_eq point "" then a.recovery_point_id else point;
}

-- The write of an admission's projection, and then of the head.
unfoldable pub project :
    WriteEnd → WriteEnd → String → String → RawMessage → Admission → Store → Change
unfolding replace
project end head_end id operation_id contents a s = elim contents.recovery_point_id [
  | none ↦ (s, err unreadable_json)
  | some point ↦
      let a' = projected a contents point in
      if valid_admission a'
      then (let (d, e) = replace end a'.client_request_id a' s.admissions in
          let s' = record s { admissions = d } in
          elim e [
            | err failure ↦ (s', err failure)
            | ok _ ↦ sync_head_operation head_end id operation_id contents s'
          ])
      else (s, err invalid_projection)
]

unfoldable pub update_found : WriteEnd → WriteEnd → String → String → RawMessage → Store → Change
unfolding project
update_found end head_end id operation_id contents s = elim (operation s id operation_id) [
  | err not_exist ↦ sync_head_operation head_end id operation_id contents s
  | err e ↦ (s, err e)
  | ok a ↦ project end head_end id operation_id contents a s
]

-- `UpdateOperation`.
unfoldable pub update_operation :
    WriteEnd → WriteEnd → String → String → RawMessage → Store → Change
unfolding update_found
update_operation end head_end id operation_id contents s = elim (latest s id) [
  | err not_exist ↦ update_found end head_end id operation_id contents s
  | err e ↦ (s, err e)
  | ok h ↦
      if str_eq h.operation_id operation_id
      then update_found end head_end id operation_id contents s
      else (s, err superseded)
]

-- Plans. `digest` is `Digest` of store.go on plans.
module _ (digest : Plan → String) where
  -- `SavePlan`.
  unfoldable pub save_plan : WriteEnd → Plan → Store → Change
  unfolding create
  save_plan end p s =
      if valid_plan digest p
      then (let (d, e) = create end p.plan_id p s.plans in (record s { plans = d }, e))
      else (s, err plan_invalid)

  -- `Plan`.
  unfoldable pub plan : Store → String → String → Result Failure Plan
  unfolding read
  plan s id name = do
    require (hex32 name) plan_invalid
    root id
    p ← read name s.plans
    require (valid_plan digest p && str_eq p.instance_id id && str_eq p.plan_id name) plan_invalid
    ok p

  unfoldable pub plan_points : Store → String → ℕ → List String → Result Failure (List String)
  plan_points s id now [] = ok []
  plan_points s id now (name ∷ names) = do
    p ← plan s id name
    rest ← plan_points s id now names
    ok (
        if ltb now p.expires_at && not (str_eq p.recovery_point_id "")
        then p.recovery_point_id ∷ rest
        else rest)

  -- An operation that has not ended may still need its recovery point.
  abbrev pub is_open : String → Bool
  is_open status =
      not (str_eq status "succeeded")
      && not (str_eq status "failed")
      && not (str_eq status "rolled_back")

  unfoldable pub admission_points : List Admission → Result Failure (List String)
  admission_points [] = ok []
  admission_points (a ∷ records) = elim a.operation.status [
    | none ↦ err unreadable_json
    | some status ↦ do
      rest ← admission_points records
      ok (
          if is_open status && not (str_eq a.recovery_point_id "")
          then a.recovery_point_id ∷ rest
          else rest)
  ]

  -- `ProtectedPoints`: the set is the list of its elements.
  unfoldable pub protected_points : Store → String → ℕ → Result Failure (List String)
  unfolding entries plan_points admission_points
  protected_points s id now = do
    root id
    names ← entries s.plans
    planned ← plan_points s id now names
    records ← admissions s id
    running ← admission_points records
    ok (planned ++ running)
