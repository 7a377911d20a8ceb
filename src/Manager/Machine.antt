-- ===== src/Manager/Machine.antt =====
-- The core manager with the promises of its Async members, as steps: a call, or the answer to one
-- of the requests whose callbacks wait, in any order.
use customer_print_client.Prelude.{ℕ, suc, none, some, List, [], ◌∷◌, Text}
use customer_print_client.Prelude.Dict.{find, erase}
use customer_print_client.Jobs.Processor.{id_key}
use customer_print_client.Cloud.Replies.{Reply, Done}
use customer_print_client.Manager.State.{
  Outside, CoreManager, select_office, select_profile_at, update_config_selected_profile,
}
use customer_print_client.Manager.Calls.{
  Call, Outcome, Waiting, Effect, settles, waits, faults, Next, start, answer,
}

-- The promise of a call has the number of the call: `waiting` has the callbacks that hold one,
-- `settled` what set_value or set_exception was called with, and `faulted` the callbacks that ran
-- into undefined behaviour, the latest first.
pub record System (J F : Type 0) : Type 0 where
  pub manager : CoreManager J F
  pub waiting : List (ℕ × Waiting)
  pub settled : List (ℕ × Outcome)
  pub faulted : List (ℕ × Done)
  pub next_promise : ℕ

pub data Event (F : Type 0) : Type 0 where
  call : Call F → Event F
  answered : ℕ → Reply → Event F
  selects_office : Text → Event F
  selects_profile : ℕ → Text → Event F
  updates_config : Event F

module _ {J N F : Type 0} (out : Outside J N F) where
  -- What a callback, or the member itself, leaves for the promise.
  unfoldable pub apply : ℕ → Effect → System J F → System J F
  apply p (settles o) s = record s { settled = (p, o) ∷ s.settled }
  apply p (waits w) s = record s { waiting = (p, w) ∷ s.waiting }
  apply p faults s = record s { faulted = (p, tt) ∷ s.faulted }

  unfoldable pub apply_all : ℕ → Next → System J F → System J F
  unfolding apply
  apply_all p [] s = s
  apply_all p (e ∷ es) s = apply_all p es (apply p e s)

  unfoldable pub proceed : ℕ → CoreManager J F × Next → System J F → System J F
  unfolding apply_all
  proceed p (m, es) s = apply_all p es (record s { manager = m })

  abbrev with_manager : CoreManager J F → System J F → System J F
  with_manager m s = record s { manager = m }

  -- An answer to a request that nothing waits for does nothing.
  unfoldable pub step : Event F → System J F → System J F
  unfolding start answer proceed select_office select_profile_at update_config_selected_profile
  step (call c) s =
      proceed s.next_promise (start out c s.manager)
        (record s { next_promise = suc s.next_promise })
  step (answered p r) s = elim (find p s.waiting) [
    | none ↦ s
    | some w ↦ proceed p (answer out w r s.manager) (record s { waiting = erase p s.waiting })
  ]
  step (selects_office ouid) s = with_manager (select_office out ouid s.manager) s
  step (selects_profile a puid) s = with_manager (select_profile_at a puid s.manager) s
  step updates_config s = with_manager (update_config_selected_profile out s.manager) s

  -- The systems that events lead to from one in which no promise was made.
  pub data Reachable (m : CoreManager J F) : System J F → Type 0 where
    at_start :
        Reachable m
          (record { manager = m; waiting = []; settled = []; faulted = []; next_promise = 0 })
    after : {s : System J F} → Reachable m s → (e : Event F) → Reachable m (step e s)
