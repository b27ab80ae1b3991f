-- ===== src/Bridge/Session/Laws.antt =====
-- nexus-bridge/bridge.go, manageConnection: how a connection ends and when its token is refreshed.
use nexus_framework.Prelude.{
  ℕ, suc, ◌+◌, ◌≤◌, ◌≡◌, ◌⊎◌, inl, inr, refl, true, false, Option, none, some, List, [], ◌∷◌, ◌++◌,
  if◌then◌else◌, arith, Option-cases, Bool-cases,
}
use nexus_framework.Prelude.Int.{ℤ}
use nexus_framework.Strategy.{Token}
use nexus_framework.Bridge.Errors.{GoError, cancelled}
use nexus_framework.Bridge.Session.{
  Event, context_done, read_error, timer_fired, refreshed, refresh_failed, Action, inc_disconnects,
  set_connection_status, on_disconnect, inc_token_refreshes, start_refresh, Session,
  connection_closed, drop_with, expiry_check, is_enabled, handle, event_loop, run_connection,
  check_then, prepend,
}

-- The refreshes that a run starts, and the answers among its events.
abbrev pub starts : List Action → ℕ
starts [] = 0
starts (start_refresh ∷ l) = suc (starts l)
starts (_ ∷ l) = starts l

abbrev pub answers : List (Event × ℤ) → ℕ
answers [] = 0
answers ((refreshed t, _) ∷ l) = suc (answers l)
answers ((refresh_failed e, _) ∷ l) = suc (answers l)
answers (_ ∷ l) = answers l

-- The refreshes that may start before the next answer.
abbrev pub free : Session → ℕ
free s = if s.refreshing then 0 else 1

starts-event_loop :
    (buffer : ℤ) (s : Session) (events : List (Event × ℤ))
    → starts (event_loop buffer s events).0 ≤ answers events + free s
unfolding event_loop handle is_enabled
starts-event_loop buffer s [] = ground arith
starts-event_loop buffer s ((context_done, now) ∷ later) = ground arith
starts-event_loop buffer s ((read_error none, now) ∷ later) = ground arith
starts-event_loop buffer s ((read_error (some e), now) ∷ later) = ground arith
starts-event_loop buffer s ((timer_fired, now) ∷ later) = ground (
  arith,
  starts-event_loop buffer s later,
  starts-event_loop buffer (record s { refreshing = true }) later,
)
starts-event_loop buffer s ((refreshed t, now) ∷ later) = ground (
  arith,
  starts-event_loop buffer s later,
  starts-event_loop buffer (record { token = t; refreshing = false }) later,
)
starts-event_loop buffer s ((refresh_failed e, now) ∷ later) = ground (
  arith,
  starts-event_loop buffer s later,
  starts-event_loop buffer (record s { refreshing = false }) later,
)

-- There is never more than one refresh under way: a connection that starts with none has started
-- at most one more than were answered, after any events.
pub run_connection_one_refresh :
    (buffer now : ℤ) (t : Token) (events : List (Event × ℤ))
    → starts (run_connection buffer now (record { token = t; refreshing = false }) events).0
      ≤ answers events + 1
unfolding run_connection
run_connection_one_refresh buffer now t events =
    ground (arith, starts-event_loop buffer (record { token = t; refreshing = false }) events)

-- The actions of a dropped connection: the count of a disconnect, a status that is set, and the call
-- of the handler's OnDisconnect.
abbrev pub drops : List Action → ℕ
drops [] = 0
drops (inc_disconnects ∷ l) = suc (drops l)
drops (set_connection_status n ∷ l) = suc (drops l)
drops (on_disconnect e ∷ l) = suc (drops l)
drops (_ ∷ l) = drops l

-- A run that returned: its last actions drop the connection, once, and tell the handler the error
-- that is returned; or the context was done, and it was not dropped.
abbrev pub IsClosed : List Action → GoError → Type 0
IsClosed acts x =
    (before : List Action) × (drops before ≡ 0)
    × ((acts ≡ before ++ drop_with x) ⊎ ((acts ≡ before) × (x ≡ cancelled)))

IsClosed-drop :
    (y x : GoError) → ◌≡◌ {A = Option GoError} (some y) (some x) → IsClosed (drop_with y) x
IsClosed-drop y x h = ([], refl, inl (cc h))

IsClosed-timer :
    (acts : List Action) (x : GoError)
    → IsClosed acts x
    → IsClosed (inc_token_refreshes ∷ start_refresh ∷ acts) x
IsClosed-timer acts x (before, quiet, inl same) =
    (inc_token_refreshes ∷ start_refresh ∷ before, quiet, inl (cc same))
IsClosed-timer acts x (before, quiet, inr (same, done)) =
    (inc_token_refreshes ∷ start_refresh ∷ before, quiet, inr (cc same, done))

module _ (buffer now : ℤ) (s : Session) (rest : List Action × Option GoError) (x : GoError) where
  check_then-IsClosed :
      (rest.1 ≡ some x → IsClosed rest.0 x)
      → (check_then buffer now s rest).1 ≡ some x
      → IsClosed (check_then buffer now s rest).0 x
  check_then-IsClosed closed h = elim (Option-cases (expiry_check buffer now s)) [
    | inl open_still ↦ rw (open_still, check_then) (closed (rw (open_still, check_then) at h))
    | inr (y, expired) ↦
        rw (expired, check_then) (IsClosed-drop y x (rw (expired, check_then) at h))
  ]

empty_runs : (buffer : ℤ) (s : Session) {x : GoError} → (event_loop buffer s []).1 ≡ some x → ⊥
unfolding event_loop
empty_runs buffer s h = cc h

module _ (buffer : ℤ) (s : Session) (e : Event) (now : ℤ) (later : List (Event × ℤ)) where
  event_loop_skip :
      is_enabled s e ≡ false → event_loop buffer s ((e, now) ∷ later) ≡ event_loop buffer s later
  unfolding event_loop
  event_loop_skip off = rw (off, event_loop)

  event_loop_end :
      {x : GoError}
      → is_enabled s e ≡ true
      → (handle s e).2 ≡ some x
      → event_loop buffer s ((e, now) ∷ later) ≡ ((handle s e).0, some x)
  unfolding event_loop
  event_loop_end on ended = rw (on, ended, event_loop)

  event_loop_on :
      is_enabled s e ≡ true
      → (handle s e).2 ≡ none
      → event_loop buffer s ((e, now) ∷ later)
        ≡ prepend
            (handle s e).0
            (check_then buffer now (handle s e).1 (event_loop buffer (handle s e).1 later))
  unfolding event_loop
  event_loop_on on open_still = rw (on, open_still, event_loop)

handle_end :
    (s : Session) (e : Event) (x : GoError) → (handle s e).2 ≡ some x → IsClosed (handle s e).0 x
unfolding handle
handle_end s context_done x h = ([], refl, inr (refl, cc h))
handle_end s (read_error none) x h = IsClosed-drop connection_closed x h
handle_end s (read_error (some e)) x h = IsClosed-drop e x h
handle_end s timer_fired x h = absurd (cc h)
handle_end s (refreshed t) x h = absurd (cc h)
handle_end s (refresh_failed e) x h = absurd (cc h)

handle_on :
    (s : Session) (e : Event) (acts : List Action) (x : GoError)
    → (handle s e).2 ≡ none
    → IsClosed acts x
    → IsClosed ((handle s e).0 ++ acts) x
unfolding handle
handle_on s context_done acts x h c = absurd (cc h)
handle_on s (read_error none) acts x h c = absurd (cc h)
handle_on s (read_error (some e)) acts x h c = absurd (cc h)
handle_on s timer_fired acts x h c = IsClosed-timer acts x c
handle_on s (refreshed t) acts x h c = c
handle_on s (refresh_failed e) acts x h c = c

event_loop-IsClosed :
    (buffer : ℤ) (s : Session) (events : List (Event × ℤ)) (x : GoError)
    → (event_loop buffer s events).1 ≡ some x
    → IsClosed (event_loop buffer s events).0 x
event_loop-IsClosed buffer s [] x h = absurd (empty_runs buffer s h)
event_loop-IsClosed buffer s ((e, now) ∷ later) x h =
    let s' = (handle s e).1 in
    let skipped = event_loop-IsClosed buffer s later x in
    let rest = event_loop-IsClosed buffer s' later x in
    elim (Bool-cases (is_enabled s e)) [
      | inr off ↦
          let same = event_loop_skip buffer s e now later off in rw same (skipped (rw same at h))
      | inl on ↦ elim (Option-cases (handle s e).2) [
        | inr (y, ended) ↦
            let same = event_loop_end buffer s e now later on ended in
            rw same (handle_end s e x (cc (ended, rw same at h)))
        | inl open_still ↦
            let same = event_loop_on buffer s e now later on open_still in
            rw same (
              handle_on s e _ x open_still (
                check_then-IsClosed buffer now s' (event_loop buffer s' later) x rest
                  (rw same at h)))
      ]
    ]

-- A connection ends in one of two ways. Either its last actions count one disconnect, set the
-- status to 0 and tell the handler the very error that is returned, or the context was done. Of
-- these three actions there is none before the last ones, and none at all if the context was done.
pub run_connection-IsClosed :
    (buffer now : ℤ) (s : Session) (events : List (Event × ℤ)) (x : GoError)
    → (run_connection buffer now s events).1 ≡ some x
    → IsClosed (run_connection buffer now s events).0 x
unfolding run_connection
run_connection-IsClosed buffer now s events x h =
    check_then-IsClosed buffer now s (event_loop buffer s events) x
      (event_loop-IsClosed buffer s events x) h
