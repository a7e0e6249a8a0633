-- ===== src/Recovery/Begun.antt =====
-- The authority that `Begin` and `Restored` of internal/recoverycontrol/store.go return.
use geoflow_updater.Prelude.{
  ◌≡◌, refl, inl, inr, String, Bool, true, false, ◌&&◌, Bool-cases, str_eq, eq_iff, eq_refl, arith,
}
use geoflow_updater.Prelude.Result.{Result, ok, err}
use geoflow_updater.Prelude.Action.{Leaves, proceed, done, check, ◌>>◌}
use geoflow_updater.RecoveryControl.Records.{Failure, Authority}
use geoflow_updater.RecoveryControl.Disk.{Disk, Ends, Control}
use geoflow_updater.RecoveryControl.Store.{
  is_transaction, rotated, in_phase, begin_transaction, mark_restored, begin, restored, change,
}
use geoflow_updater.RecoveryControl.Commits.{Whatever, IsCommitted, change_commits}

-- The authority is that of a request.
pub record IsFor (point transaction digest : String) (a : Authority) : Type 0 where
  pub same_point : a.point_id ≡ point
  pub same_transaction : is_transaction a.state.transaction_id transaction ≡ true
  pub same_digest : a.admin_digest ≡ digest

module _ (w : Ends) (point transaction digest : String) where
  rotated_with :
      (a : Authority) (t : Disk) (epoch : Result Failure String)
      → Leaves Whatever
          (λ b s. IsFor point transaction digest b)
          (proceed (t, epoch) (λ e. done (rotated e point transaction digest a)))
  rotated_with a t (ok e) =
      (tt, record { same_point = refl; same_transaction = eq_refl transaction; same_digest = refl })
  rotated_with a t (err e) = tt

  begin_transaction-IsFor :
      (a : Authority) (t : Disk)
      → Leaves Whatever
          (λ b s. IsFor point transaction digest b)
          (begin_transaction w point transaction digest a t)
  unfolding begin_transaction
  begin_transaction-IsFor a t =
      elim (Bool-cases (is_transaction a.state.transaction_id transaction)) [
        | inl e ↦ elim (Bool-cases (str_eq a.point_id point && str_eq a.admin_digest digest)) [
          | inl f ↦
              rw (e, f)
                (
                  tt,
                  record {
                    same_point = (eq_iff a.point_id point).0 (ground arith);
                    same_transaction = e;
                    same_digest = (eq_iff a.admin_digest digest).0 (ground arith);
                  },
                )
          | inr f ↦ rw (e, f) tt
        ]
        | inr e ↦ rw e (rotated_with a t w.next_epoch)
      ]

  guarded_begin :
      (instance : String) (valid : Bool) (f : Failure) (call : Control Authority) (d : Disk)
      → Leaves Whatever
          (λ b s. IsFor point transaction digest b × IsCommitted instance b s)
          (call d)
      → Leaves Whatever
          (λ b s. IsFor point transaction digest b × IsCommitted instance b s)
          ((check valid f >> call) d)
  guarded_begin instance true f call d h = h
  guarded_begin instance false f call d h = tt

  -- What `Begin` returns is for its request, and committed.
  pub begin-IsFor :
      (instance : String) (d : Disk)
      → Leaves Whatever
          (λ b s. IsFor point transaction digest b × IsCommitted instance b s)
          (begin w instance point transaction digest d)
  unfolding begin
  begin-IsFor instance d =
      guarded_begin instance _ _
        (change w instance true (begin_transaction w point transaction digest)) d
        (change_commits w (IsFor point transaction digest) instance true
          (begin_transaction w point transaction digest) d begin_transaction-IsFor)

-- The data of the transaction are restored.
pub record IsRestored (transaction : String) (a : Authority) : Type 0 where
  pub restored_mark : a.data_restored ≡ true
  pub transaction_mark : is_transaction a.state.transaction_id transaction ≡ true

mark_restored-IsRestored :
    (transaction : String) (a : Authority) (t : Disk)
    → Leaves Whatever (λ b s. IsRestored transaction b) (mark_restored transaction a t)
unfolding mark_restored
mark_restored-IsRestored transaction a t = elim (Bool-cases (in_phase transaction "restoring" a)) [
  | inl e ↦ rw e (tt, record { restored_mark = refl; transaction_mark = ground arith })
  | inr e ↦ rw e tt
]

pub restored-IsRestored :
    (w : Ends) (instance transaction : String) (d : Disk)
    → Leaves Whatever
        (λ b s. IsRestored transaction b × IsCommitted instance b s)
        (restored w instance transaction d)
unfolding restored
restored-IsRestored w instance transaction d =
    change_commits w (IsRestored transaction) instance false (mark_restored transaction) d
      (mark_restored-IsRestored transaction)
