-- ===== src/Admin/Settings.antt =====
-- internal/app/admin/admin.go, PutSetting: what is stored, whatever the ports answer.
use cloud_lab_gateway.Common.{
  ◌≡◌, ◌≢◌, Bool, false, none, some, List, [], ◌∷◌, eq_iff, arith, Option-cases, inl, inr,
}
use cloud_lab_gateway.Shared.{Time, Err, err, panic}
use cloud_lab_gateway.Identity.{Role}
use cloud_lab_gateway.Ports.{Env, Call, Trace, Setting}
use cloud_lab_gateway.Ports.Traces.{succeeded, both, add_if, commits}
use cloud_lab_gateway.Saving.{Holds}
use cloud_lab_gateway.Admin.{PutSettingInput, put_setting, setting_of}

setting_at : Call → Bool → List Setting → List Setting
setting_at (Call.settings_put s) b l = add_if b s l
setting_at _ b l = l

unfoldable pub settings_under : Bool → Trace → List Setting
unfolding setting_at
settings_under b [] = []
settings_under b (e ∷ tr) =
    setting_at e.call (both b (succeeded e.error)) (settings_under (commits e.call e.error b) tr)

-- The settings written and committed, the last one first.
abbrev pub stored_settings : Trace → List Setting
stored_settings tr = settings_under false tr

pub record IsPut (i : PutSettingInput) (old new : List Setting) (s : Setting) : Type 0 where
  pub staff : i.actor.role ≢ Role.student
  pub stored : new ≡ s ∷ old
  pub author : s.updated_by_user ≡ i.actor.user_id
  pub global : i.scope ≡ "global" → s.scope_id ≡ none
  pub named : s.scope_id ≢ some ""

setting_of-scope_id :
    (i : PutSettingInput) (now : Time)
    → (i.scope ≡ "global" → (setting_of i now).scope_id ≡ none)
      × ((setting_of i now).scope_id ≢ some "")
setting_of-scope_id i now = (
  ground (arith, eq_iff i.scope "global"),
  elim (Option-cases i.scope_id) [
    | inl n ↦ ground (arith, n)
    | inr (s, n) ↦ ground (arith, n, eq_iff s "")
  ],
)

-- put_setting does not panic. The setting that it returns is stored last and once, by a member of the staff who is
-- its author; a global setting names no scope, and no setting names an empty one. With an error nothing is stored.
pub put_setting-IsPut :
    (env : Env) (i : PutSettingInput) (tr : Trace)
    → let (r, tr') = put_setting env i tr in
      (r ≢ panic)
      × Holds (IsPut i (stored_settings tr) (stored_settings tr')) r
      × ((e : Err) → r ≡ err e → stored_settings tr' ≡ stored_settings tr)
unfolding put_setting settings_under setting_at
put_setting-IsPut env i tr =
    (ground arith, ground (arith, setting_of-scope_id i (env.now tr)), ground arith)
