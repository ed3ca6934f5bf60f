-- ===== src/Storage/Labs/Tests.antt =====
-- internal/adapters/storage/pgxrepo/lab.go: labs over a small database as tests.
use cloud_lab_gateway.Common.{◌≡◌, refl, none, some, [], ◌∷◌, List, arith}
use cloud_lab_gateway.Common.Int.{pos}
use cloud_lab_gateway.Shared.{Err}
use cloud_lab_gateway.Lab.{LabState, LabInstance, LabEvent}
use cloud_lab_gateway.Ports.{gives}
use cloud_lab_gateway.Storage.Rows.{Database, is_allowed, is_active}
use cloud_lab_gateway.Storage.Samples.{quiet_world, lab, before, lab_row, no_rows, some_rows}
use cloud_lab_gateway.Storage.Events.{append_events}
use cloud_lab_gateway.Storage.Labs
use cloud_lab_gateway.Storage.Labs.{
  unique_violation, after_create, create_lab_instance, insert_lab, create_lab_params,
  flush_lab_events, lab_event_occurred_at, after_save, update_lab_instance, update_found,
  update_lab_params, store_lab, found_lab, lab_from_row,
}
use cloud_lab_gateway.Storage.Columns.{ki_resources_from_json}
use cloud_lab_gateway.Storage.Labs.Reading.{IsDated, stored, with_origin, get-save}
use cloud_lab_gateway.Storage.Labs.Flushing.{IsFlushed, save-IsFlushed}
use cloud_lab_gateway.Storage.Labs.Active.{IsRival, save_failed_stuck}
use cloud_lab_gateway.Storage.Labs.Keeping.{IsKept}
use cloud_lab_gateway.Storage.Labs.Writes.{LabWrite, AreApart, write_all, write_all-AreApart}

lab-IsDated : IsDated lab
lab-IsDated = ground arith

created : (Labs.create quiet_world lab no_rows).1 ≡ none
unfolding Labs.create after_create create_lab_instance insert_lab create_lab_params flush_lab_events
    lab_event_occurred_at is_allowed append_events
created = ground arith

read_before : Labs.get_by_id quiet_world 1 some_rows ≡ gives before
unfolding Labs.get_by_id found_lab lab_from_row ki_resources_from_json
read_before = ground arith

saved : (Labs.save quiet_world lab some_rows).1 ≡ none
unfolding Labs.save after_save update_lab_instance update_found update_lab_params store_lab
    flush_lab_events lab_event_occurred_at is_allowed append_events
saved = ground arith

get-save_example :
    Labs.get_by_id quiet_world 1 (Labs.save quiet_world lab some_rows).0
    ≡ gives (with_origin before (stored quiet_world lab))
get-save_example =
    get-save quiet_world lab some_rows lab-IsDated {old = before} read_before saved refl

some_rows-AreApart : AreApart some_rows.labs
some_rows-AreApart = ground arith

abbrev writes : List LabWrite
writes =
    LabWrite.saved (record lab { state = LabState.cleaning })
    ∷ LabWrite.created (record lab { id = 9 })
    ∷ []

write_all-AreApart_example :
    AreApart (write_all quiet_world some_rows writes).labs
    × IsKept some_rows.labs (write_all quiet_world some_rows writes).labs
write_all-AreApart_example = write_all-AreApart quiet_world some_rows writes some_rows-AreApart

abbrev late : LabInstance
late = record lab { updated_at = pos 15 }

abbrev two_labs : Database
two_labs = record some_rows {
  labs = record (lab_row LabState.ready) { id = 8 } ∷ lab_row LabState.failed ∷ [];
}

abbrev failed_on : LabInstance
failed_on = record lab { state = LabState.cleaning }

rival : IsRival (lab_row LabState.failed) (record (lab_row LabState.ready) { id = 8 })
unfolding is_active
rival = ground arith

save_failed_stuck_example :
    Labs.save quiet_world failed_on two_labs
    ≡ (two_labs, some (Err.wrapped "pgxrepo: save lab" unique_violation))
save_failed_stuck_example =
    save_failed_stuck quiet_world failed_on two_labs refl refl refl refl refl rival

abbrev changed : LabInstance
changed = record lab {
  state = LabState.cleaning;
  pending_events = LabEvent.state_changed 1 LabState.ready LabState.cleaning "timer" ∷ [];
}

changed_saved : (Labs.save quiet_world changed some_rows).1 ≡ none
unfolding Labs.save after_save update_lab_instance update_found update_lab_params store_lab
    flush_lab_events lab_event_occurred_at is_allowed append_events
changed_saved = ground arith

save-IsFlushed_example :
    IsFlushed quiet_world changed some_rows (Labs.save quiet_world changed some_rows).0
save-IsFlushed_example = save-IsFlushed quiet_world changed refl some_rows changed_saved
