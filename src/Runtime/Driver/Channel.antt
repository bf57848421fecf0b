-- ===== src/Runtime/Driver/Channel.antt =====
-- driver.py: the progress channel of one effect, and the execution of the effect over it.
use purrcept_core.Base.{String, Bool, true, false, Option, none, some, Result, ok, err, ⊤}
use purrcept_core.Runtime.Exceptions.{Obj, Exc, event_dispatch, invalid_run_state, same_exc}
use purrcept_core.Runtime.Events.{EffectInfo, effect_progress}
use purrcept_core.Runtime.Driver.Monad.{
  Execution, finished, reports, Context, Services, Sys, emit_now, add_note, execution_also_raised,
}

-- The variables that `_make_progress_channel` closes over.
pub record Channel : Type 0 where
  pub active : Bool
  pub dispatch_error : Option Exc

abbrev pub open_channel : Channel
open_channel = record { active = true; dispatch_error = none }

-- `finish_progress`
unfoldable pub finish_progress : Channel → Option Exc × Channel
finish_progress c = (c.dispatch_error, record c { active = false })

abbrev latch : Channel → Result Exc ⊤ → Channel
latch c (err (event_dispatch o)) = record c { dispatch_error = some (event_dispatch o) }
latch c _ = c

module _ {W R : Type 0} (sv : Services W) (run_id : String) (info : EffectInfo) where
  -- `report_progress`
  report_open : Option Exc → Obj → Channel → Sys W R → Result Exc ⊤ × Channel × Sys W R
  report_open (some e) payload c s = (err e, c, s)
  report_open none payload c s =
      let (r, s') = emit_now sv (λ t. effect_progress run_id t info payload) s in (r, latch c r, s')

  unfoldable pub report_progress : Obj → Channel → Sys W R → Result Exc ⊤ × Channel × Sys W R
  unfolding report_open
  report_progress payload c s = elim c.active [
    | true ↦ report_open c.dispatch_error payload c s
    | false ↦ (err invalid_run_state, c, s)
  ]

  -- The executor runs on the world; each report goes through the channel.
  unfoldable pub run_execution :
      Execution W → Channel → Sys W R → Result Exc Obj × Channel × Sys W R
  run_execution (finished r w) c s = (r, c, record s { world = w })
  run_execution (reports payload w go) c s =
      let (r, c', s') = report_progress payload c (record s { world = w }) in
      run_execution (go r s'.world) c' s'

-- The `try` around `execute`: a latched dispatch failure comes before the execution's own outcome.
module _ {W R : Type 0} where
  abbrev note_execution : Exc → Exc → Sys W R → Sys W R
  note_execution p e s = elim (same_exc p e) [
    | true ↦ s
    | false ↦ add_note p (execution_also_raised e) s
  ]

  abbrev pub prefer_latched : Option Exc → Result Exc Obj → Sys W R → Result Exc Obj × Sys W R
  prefer_latched none r s = (r, s)
  prefer_latched (some p) (ok v) s = (err p, s)
  prefer_latched (some p) (err e) s = (err p, note_execution p e s)

  unfoldable pub execute_effect :
      Services W → String → EffectInfo → Context → Sys W R → Result Exc Obj × Sys W R
  unfolding run_execution finish_progress
  execute_effect sv run_id info context s =
      let (r, c, s') =
        run_execution sv run_id info (sv.execute info.effect context s.world) open_channel s in
      prefer_latched (finish_progress c).0 r s'
