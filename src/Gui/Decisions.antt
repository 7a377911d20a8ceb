-- ===== src/Gui/Decisions.antt =====
-- What the decisions of src/CustomerPrintClientGui/MainWindow.cpp come to over time.
use customer_print_client.Prelude.{
  ℕ, ◌+◌, ◌≤◌, ◌<◌, ◌≡◌, inl, inr, refl, ap, ◌∙◌, true, false, List, [], ◌∷◌, ◌++◌, none, some,
  arith, Bool-cases,
}
use customer_print_client.Gui.MainWindow.{
  view_port_check_ms, put_view_port, ViewPortCache, Map, ripe, split_ripe, check_view_port_to_apply,
  on_view_port_changed, on_view_port_timer, Updates, new_updates, check_for_updates, update_checked,
  handle_receive_updates_info, update_downloaded, check_failed, download_failed, UpdateEvent,
  check_called, checked, received, downloaded, failed_check, failed_download, update_step,
  update_run,
}

-- While the command is off, something of a check is under way.
abbrev UnderWay : Updates → Type 0
UnderWay u = u.processing_check_update ≡ true → 0 < u.checks + u.receives + u.downloads

step-UnderWay : (e : UpdateEvent) (u : Updates) → UnderWay u → UnderWay (update_step u e)
unfolding update_step check_for_updates update_checked handle_receive_updates_info update_downloaded
    check_failed download_failed
step-UnderWay (check_called manually now) u h = ground arith
step-UnderWay (checked manually found) u h = ground arith
step-UnderWay (received found agreed) u h = ground arith
step-UnderWay downloaded u h = ground arith
step-UnderWay failed_check u h = ground arith
step-UnderWay failed_download u h = ground arith

run-UnderWay : (es : List UpdateEvent) (u : Updates) → UnderWay u → UnderWay (update_run u es)
unfolding update_run
run-UnderWay [] u h = h
run-UnderWay (e ∷ es) u h = run-UnderWay es (update_step u e) (step-UnderWay e u h)

abbrev pub under_way : Updates → ℕ
under_way u = u.checks + u.receives + u.downloads

-- Over any history of checks, results, questions and downloads, successful or not, once none of them
-- is under way the command that checks for updates is enabled.
pub check_enabled_again :
    (es : List UpdateEvent) (now : ℕ)
    → under_way (update_run (new_updates now) es) ≡ 0
    → (update_run (new_updates now) es).processing_check_update ≡ false
unfolding new_updates
check_enabled_again es now idle =
    let u = update_run (new_updates now) es in
    elim (Bool-cases u.processing_check_update) [
      | inl on ↦ absurd (omega (arith, run-UnderWay es (new_updates now) (λ h. cc) on, idle))
      | inr off ↦ off
    ]

module _ {V : Type 0} where
  -- No view port of the history is older than this time.
  abbrev Since : ℕ → List (ViewPortCache V) → Type 0
  Since t [] = Unit
  Since t (v ∷ history) = (t ≤ v.created) × Since t history

  nothing_ripe :
      (t now : ℕ) (history : List (ViewPortCache V))
      → Since t history
      → now ≤ t + 900
      → split_ripe now history ≡ (none, history)
  unfolding split_ripe
  nothing_ripe t now [] h soon = refl
  nothing_ripe t now (v ∷ history) h soon =
      let rest = nothing_ripe t now history h.1 soon in
      let young : ripe now v ≡ false = ground (arith, h.0) in rw (split_ripe, rest) (rw young refl)

  not_searched :
      (t now : ℕ) (m : Map V)
      → Since t m.view_port_history
      → now ≤ t + 900
      → check_view_port_to_apply now m ≡ m
  unfolding check_view_port_to_apply
  not_searched t now m h soon =
      rw (check_view_port_to_apply, nothing_ripe t now m.view_port_history h soon) refl

  -- The map is moved at these times to these view ports.
  unfoldable pub moved : List (ℕ × V) → Map V → Map V
  moved [] m = m
  moved ((t, view_port) ∷ moves) m = moved moves (on_view_port_changed t view_port m)

  -- All moves are within nine tenths of a second from this time.
  abbrev pub Quick : ℕ → List (ℕ × V) → Type 0
  Quick t [] = Unit
  Quick t ((now, view_port) ∷ moves) = (t ≤ now) × (now ≤ t + 900) × Quick t moves

  pushed :
      (t now : ℕ) (view_port : V) (m : Map V)
      → Since t m.view_port_history
      → now ≤ t + 900
      → on_view_port_changed now view_port m ≡ put_view_port now view_port m
  unfolding on_view_port_changed
  pushed t now view_port m h soon = ap (put_view_port now view_port) (not_searched t now m h soon)

  -- Quick moves are not searched.
  moved-searches :
      (t : ℕ) (moves : List (ℕ × V)) (m : Map V)
      → Since t m.view_port_history
      → Quick t moves
      → ((moved moves m).searches ≡ m.searches) × Since t (moved moves m).view_port_history
  unfolding moved
  moved-searches t [] m h quick = (refl, h)
  moved-searches t ((now, view_port) ∷ moves) m h (late, soon, quick) =
      rw (moved, pushed t now view_port m h soon) (moved-searches t moves _ (late, h) quick)

  moved-append :
      (moves : List (ℕ × V)) (last : ℕ) (view_port : V) (m : Map V)
      → moved (moves ++ (last, view_port) ∷ []) m
        ≡ on_view_port_changed last view_port (moved moves m)
  unfolding moved
  moved-append [] last view_port m = refl
  moved-append ((now, v) ∷ moves) last view_port m =
      moved-append moves last view_port (on_view_port_changed now v m)

  Quick-parts :
      (t : ℕ) (moves : List (ℕ × V)) (last : ℕ) (view_port : V)
      → Quick t (moves ++ (last, view_port) ∷ [])
      → Quick t moves × (last ≤ t + 900)
  Quick-parts t [] last view_port (late, soon, tt) = (tt, soon)
  Quick-parts t ((now, v) ∷ moves) last view_port (late, soon, quick) =
      let (rest, end) = Quick-parts t moves last view_port quick in ((late, soon, rest), end)

  split_first :
      (v : ViewPortCache V) (history : List (ViewPortCache V)) (now : ℕ)
      → v.created + 900 < now
      → split_ripe now (v ∷ history) ≡ (some v, [])
  unfolding split_ripe
  split_first v history now old =
      let is_ripe : ripe now v ≡ true = ground arith in rw (split_ripe, is_ripe) refl

  searched_first :
      (v : ViewPortCache V) (history : List (ViewPortCache V)) (now : ℕ) (m : Map V)
      → m.view_port_history ≡ v ∷ history
      → v.created + 900 < now
      → let m' = on_view_port_timer now m in
        (m'.searches ≡ v.view_port ∷ m.searches) × (m'.view_port_history ≡ [])
  unfolding on_view_port_timer check_view_port_to_apply
  searched_first v history now m front old =
      let split : split_ripe now m.view_port_history ≡ (some v, []) =
        ap (split_ripe now) front ∙ split_first v history now old in
      rw (on_view_port_timer, check_view_port_to_apply, split) (refl, ap (λ parts. parts.1) split)

  -- The map is moved quickly, from a time when no view port waits: all moves are within nine tenths of
  -- a second. When the timer ends, a second after the last move, that move's view port alone is
  -- searched, and none waits any more.
  pub last_move_searched :
      (t : ℕ) (moves : List (ℕ × V)) (m : Map V) (last now : ℕ) (view_port : V)
      → m.view_port_history ≡ []
      → Quick t (moves ++ (last, view_port) ∷ [])
      → last + view_port_check_ms ≤ now
      → let m' = on_view_port_timer now (moved (moves ++ (last, view_port) ∷ []) m) in
        (m'.searches ≡ view_port ∷ m.searches) × (m'.view_port_history ≡ [])
  last_move_searched t moves m last now view_port empty quick later =
      let (before, soon) = Quick-parts t moves last view_port quick in
      let (same, since) = moved-searches t moves m (rw empty tt) before in
      let at_end =
        moved-append moves last view_port m ∙ pushed t last view_port (moved moves m) since soon in
      let (searched, none_waits) =
        searched_first (record { view_port = view_port; created = last })
          (moved moves m).view_port_history now (moved (moves ++ (last, view_port) ∷ []) m)
          (ap (λ m. m.view_port_history) at_end) (omega (arith, later)) in
      (
        searched ∙ ap (λ searches. view_port ∷ searches) (ap (λ m. m.searches) at_end ∙ same),
        none_waits,
      )
