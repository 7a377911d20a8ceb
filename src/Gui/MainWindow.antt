-- ===== src/Gui/MainWindow.antt =====
-- What src/CustomerPrintClientGui/MainWindow.cpp decides by itself: which view port of the map is
-- searched, the check for updates with its command in the menu, and when the application closes. Times
-- are milliseconds of the system clock.
use customer_print_client.Prelude.{
  ℕ, ◌+◌, ◌-◌, ◌*◌, Bool, true, false, not, ◌&&◌, List, [], ◌∷◌, Option, none, some, ltb, ◌==◌,
  if◌then◌else◌,
}

-- ViewPortCache; the view port itself goes to the search as it is.
pub record ViewPortCache (V : Type 0) : Type 0 where
  pub view_port : V
  pub created : ℕ

-- The history, the newest first, and the effects: the searches of LoadOffices, the latest first, and
-- when the timer was started.
pub record Map (V : Type 0) : Type 0 where
  pub view_port_history : List (ViewPortCache V)
  pub searches : List V
  pub timer : Option ℕ

abbrev pub view_port_check_ms : ℕ
view_port_check_ms = 1000

module _ {V : Type 0} where
  -- Created less than nine tenths of the time ago or, for `ripe`, before.
  abbrev pub ripe : ℕ → ViewPortCache V → Bool
  ripe now v = ltb (v.created + 900) now

  -- The first that is ripe, and what is left when it and all behind it are erased.
  unfoldable pub split_ripe :
      ℕ → List (ViewPortCache V) → Option (ViewPortCache V) × List (ViewPortCache V)
  split_ripe now [] = (none, [])
  split_ripe now (v ∷ history) =
      let (found, left) = split_ripe now history in
      if ripe now v then (some v, []) else (found, v ∷ left)

  unfoldable pub check_view_port_to_apply : ℕ → Map V → Map V
  check_view_port_to_apply now m =
      let (found, left) = split_ripe now m.view_port_history in
      elim found [
        | none ↦ m
        | some v ↦ record m { view_port_history = left; searches = v.view_port ∷ m.searches }
      ]

  abbrev pub put_view_port : ℕ → V → Map V → Map V
  put_view_port now view_port m = record m {
    view_port_history = (record { view_port = view_port; created = now }) ∷ m.view_port_history;
    timer = some now;
  }

  unfoldable pub on_view_port_changed : ℕ → V → Map V → Map V
  on_view_port_changed now view_port m =
      put_view_port now view_port (check_view_port_to_apply now m)

  unfoldable pub on_view_port_timer : ℕ → Map V → Map V
  on_view_port_timer now m = check_view_port_to_apply now m

-- The state of the check for updates. `checks`, `receives` and `downloads` count what is under way:
-- calls of AsyncCheckForUpdates, posted events with a result, calls of AsyncDownloadUpdate.
pub record Updates : Type 0 where
  pub processing_check_update : Bool
  pub last_update_check_time : ℕ
  pub checks : ℕ
  pub receives : ℕ
  pub downloads : ℕ

-- 24 hours
abbrev pub update_check_period : ℕ
update_check_period = 24 * 3600 * 1000

unfoldable pub new_updates : ℕ → Updates
new_updates now = record {
  processing_check_update = false;
  last_update_check_time = now - update_check_period;
  checks = 0;
  receives = 0;
  downloads = 0;
}

unfoldable pub check_for_updates : Bool → ℕ → Updates → Updates
check_for_updates manually now u =
    if not manually && ltb now (u.last_update_check_time + update_check_period)
    then u
    else record u {
      processing_check_update = true;
      last_update_check_time = now;
      checks = u.checks + 1;
    }

-- The callback of AsyncCheckForUpdates, with whether there is an update.
unfoldable pub update_checked : Bool → Bool → Updates → Updates
update_checked manually found u =
    let u' = record u { checks = u.checks - 1 } in
    if not found && not manually
    then record u' { processing_check_update = false }
    else record u' { receives = u.receives + 1 }

-- HandleReceiveUpdatesInfo, with the answer to the question.
unfoldable pub handle_receive_updates_info : Bool → Bool → Updates → Updates
handle_receive_updates_info found answered_yes u =
    let u' = record u { receives = u.receives - 1 } in
    if found && answered_yes
    then record u' { downloads = u.downloads + 1 }
    else record u' { processing_check_update = false }

-- The callback of AsyncDownloadUpdate.
unfoldable pub update_downloaded : Updates → Updates
update_downloaded u = record u { downloads = u.downloads - 1; processing_check_update = false }

-- OnIdle, for an exception of the category Update: of a check, or of a download.
unfoldable pub check_failed : Updates → Updates
check_failed u = record u { checks = u.checks - 1; processing_check_update = false }

unfoldable pub download_failed : Updates → Updates
download_failed u = record u { downloads = u.downloads - 1; processing_check_update = false }

pub data UpdateEvent : Type 0 where
  check_called : Bool → ℕ → UpdateEvent
  checked : Bool → Bool → UpdateEvent
  received : Bool → Bool → UpdateEvent
  downloaded failed_check failed_download : UpdateEvent

-- The end of a check, of an event or of a download comes only while one is under way.
unfoldable pub update_step : Updates → UpdateEvent → Updates
update_step u (check_called manually now) = check_for_updates manually now u
update_step u (checked manually found) =
    if ltb 0 u.checks then update_checked manually found u else u
update_step u (received found agreed) =
    if ltb 0 u.receives then handle_receive_updates_info found agreed u else u
update_step u downloaded = if ltb 0 u.downloads then update_downloaded u else u
update_step u failed_check = if ltb 0 u.checks then check_failed u else u
update_step u failed_download = if ltb 0 u.downloads then download_failed u else u

unfoldable pub update_run : Updates → List UpdateEvent → Updates
update_run u [] = u
update_run u (e ∷ es) = update_run (update_step u e) es

-- What CheckPendingJobsAndCloseApp asks.
pub data CloseAnswer : Type 0 where
  wait_for_jobs cancel_jobs stay : CloseAnswer

-- `all_cancelled` records CancelAllPendingJobs, `closed` the call Close(true).
pub record Closing : Type 0 where
  pub close_on_last_job_destroyed : Bool
  pub all_cancelled : Bool
  pub closed : Bool

unfoldable pub check_pending_jobs_and_close_app : ℕ → CloseAnswer → Closing → Closing
check_pending_jobs_and_close_app pending answer c =
    if pending == 0 then record c { closed = true } else elim answer [
      | wait_for_jobs ↦ record c { close_on_last_job_destroyed = true }
      | cancel_jobs ↦ record c { close_on_last_job_destroyed = true; all_cancelled = true }
      | stay ↦ c
    ]

unfoldable pub on_job_destroy : ℕ → Closing → Closing
on_job_destroy pending c =
    if c.close_on_last_job_destroyed && pending == 0 then record c { closed = true } else c
