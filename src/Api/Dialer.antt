-- ===== src/Api/Dialer.antt =====
-- `createUpstreamDialer` of src/api/stream.js: its connections and their redialing. What a frame comes to is that of
-- `ingest`.
pub mod Connected
use nvidia_omoda.Prelude.{
  ℕ, zero, suc, ◌+◌, ◌-◌, ◌*◌, Bool, true, false, List, [], ◌∷◌, if◌then◌else◌, leb, eqb,
}

-- `live` counts the sockets that have not closed, `timers` the redials that are due; `waits` holds the delays that
-- `setTimeout` was given, the latest first.
pub record Dialer : Type 0 where
  pub running : Bool
  pub backoff : ℕ
  pub live : ℕ
  pub timers : ℕ
  pub waits : List ℕ

abbrev pub new_dialer : ℕ → Dialer
new_dialer reconnect = record {
  running = false;
  backoff = reconnect;
  live = 0;
  timers = 0;
  waits = [];
}

abbrev smaller : ℕ → ℕ → ℕ
smaller a b = if leb a b then a else b

abbrev pub connect : Dialer → Dialer
connect d = record d { live = d.live + 1 }

-- What happens to a dialer: its two calls, a socket that opens or closes, and a redial that is due.
pub data Event : Type 0 where
  start stop opened closed due : Event

-- A socket of the dialer closes.
unfoldable pub on_close : ℕ → Dialer → Dialer
on_close max d =
    let gone : Dialer = record d { live = d.live - 1 } in
    if d.running
    then record gone {
      timers = d.timers + 1;
      waits = d.backoff ∷ d.waits;
      backoff = smaller (d.backoff * 2) max;
    }
    else gone

-- A redial that was not cleared in time does nothing when the dialer is stopped.
unfoldable pub on_due : Dialer → Dialer
on_due d =
    let past : Dialer = record d { timers = d.timers - 1 } in
    if d.running then connect past else past

-- `stop` clears the timer that was set last; the socket closes later.
unfoldable pub step : ℕ → ℕ → Event → Dialer → Dialer
unfolding on_close on_due
step reconnect max start d = connect (record d { running = true })
step reconnect max stop d = record d { running = false; timers = d.timers - 1 }
step reconnect max opened d = if eqb d.live 0 then d else record d { backoff = reconnect }
step reconnect max closed d = if eqb d.live 0 then d else on_close max d
step reconnect max due d = if eqb d.timers 0 then d else on_due d
