-- ===== src/Store/Snapshots.antt =====
-- store/snapshot_memory.go. A blob of any type stands for the bytes.
use asynx.Base.Dict
use asynx.Base.{String, Option, string_eq, some, none}
use asynx.Base.Dict.{Dict}
use asynx.Models.Errors.{Error, Result, fail, ok}
use asynx.Store.Memory.{Ctx}

pub record Snapshots {ℓ} (B : Type ℓ) : Type ℓ where
  pub snaps : Dict String B
  pub err_on : Dict String Error

module _ {ℓ} {B : Type ℓ} where
  -- NewSnapshots
  unfoldable pub new : Snapshots B
  new = record { snaps = Dict.empty; err_on = Dict.empty }

  pub set_error : Snapshots B → String → Error → Snapshots B
  set_error s id e = record s { err_on = Dict.put s.err_on id e }

  unfoldable pub put : Ctx → Snapshots B → String → B → Option Error × Snapshots B
  put (some e) s id blob = (some e, s)
  put none s id blob = elim (Dict.get s.err_on id) [
    | some e ↦ (some e, record s { err_on = Dict.remove s.err_on id })
    | none ↦ (none, record s { snaps = Dict.put s.snaps id blob })
  ]

  unfoldable pub get : Ctx → Snapshots B → String → Result (Option B)
  get (some e) s id = fail e
  get none s id = ok (Dict.get s.snaps id)

  unfoldable pub delete : Ctx → Snapshots B → String → Option Error × Snapshots B
  delete (some e) s id = (some e, s)
  delete none s id = (none, record s { snaps = Dict.remove s.snaps id })
