-- ===== src/Tests/Wires.antt =====
-- Runs of the yamux and QUIC adapters, and instances of their theorems.
use beamd.Prelude.{
  ◌+◌, ◌≡◌, ◌≤◌, refl, true, false, not, ◌||◌, List, [], ◌∷◌, none, some, Bytes, codes, ltb, ◌==◌,
  nat_eq, list_eq, if◌then◌else◌, arith, length, all, lookup, insert,
}
use beamd.Client.{CloseInfo, close_normal}
use beamd.Tunnel.Session.{Utf8, new_session_state, register, is_closed}
use beamd.Tunnel.Yamux.{
  YamuxStream, eof, no_error, context_over, raw_stream, new_yamux_stream, at_stream, locally_closed,
  put_back, mark_local_closed, read, open_begins, register_yamux_stream, open_ends,
}
use beamd.Tunnel.Yamux.Run.{
  new_yamux_session, Event, opens, open_returns, accepts, closes_stream, reads, timer_runs,
  closes_session, finish_goes_on, step, run,
}
use beamd.Tunnel.Yamux.Gate.{holders}
use beamd.Tunnel.Yamux.Openers.{run-gated}
use beamd.Tunnel.Yamux.Lifetime.{is_completed, run-completes}
use beamd.Tunnel.Quic.{QuicCodes, DialError, Attempt, session, failed, dial}
use beamd.Tunnel.Quic.Dialing.{Decided, dial-Decided}
use beamd.Tunnel.Quic.Keys.{Weather, not_exist, load_or_create_quic_key}
use beamd.Tunnel.Quic.Persistence.{Kept, load_or_create-Kept}

abbrev utf8 : Utf8
utf8 = record { valid_string = all (λ c. ltb c 128); through_runes = λ t. [] }

abbrev shutdown : CloseInfo
shutdown = record { code = close_normal; code_valid = true; remote = false; reason = codes "bye" }

-- An opened stream and an accepted one; this side closes the opened one.
abbrev two_streams : List Event
two_streams =
    opens false context_over
    ∷ open_returns (raw_stream 1)
    ∷ accepts 2
    ∷ reads 2 no_error
    ∷ closes_stream 1
    ∷ []

abbrev until_shutdown : List Event
until_shutdown =
    opens false context_over
    ∷ open_returns (raw_stream 1)
    ∷ accepts 2
    ∷ closes_stream 2
    ∷ reads 2 eof
    ∷ closes_session shutdown
    ∷ finish_goes_on
    ∷ finish_goes_on
    ∷ []

run-gated_example :
    ((run utf8 two_streams (new_yamux_session 128)).panicked ≡ false)
    × ((run utf8 two_streams (new_yamux_session 128)).slots
        ≡ (run utf8 two_streams (new_yamux_session 128)).opening
          + holders (run utf8 two_streams (new_yamux_session 128)).streams)
    × ((run utf8 two_streams (new_yamux_session 128)).slots
        ≤ (run utf8 two_streams (new_yamux_session 128)).limit)
run-gated_example = run-gated utf8 128 two_streams

abbrev half_closed : YamuxStream
half_closed = record {
  local_closed = true;
  remote_done = false;
  completed = false;
  timer = true;
  holds_open_slot = true;
}

waits_for_peer : lookup 1 (run utf8 two_streams (new_yamux_session 128)).streams ≡ some half_closed
unfolding run step new_yamux_session new_session_state open_begins open_ends register_yamux_stream
    register is_closed new_yamux_stream at_stream mark_local_closed locally_closed put_back read
    lookup insert
waits_for_peer = refl

run-completes_example :
    (is_completed
        (lookup 1 (step utf8 (timer_runs 1) (run utf8 two_streams (new_yamux_session 128))).streams)
      ≡ true)
    × ((not false || false) ≡ true)
run-completes_example = run-completes utf8 128 two_streams 1 half_closed waits_for_peer refl

abbrev quic : QuicCodes
quic = record { no_viable_path = 16; connection_refused = 2 }

-- A reset of the network.
abbrev reset : DialError
reset = record {
  deadline_exceeded = false;
  canceled = false;
  no_resolved_addresses = false;
  certificate = false;
  handshake_timeout = false;
  stateless_reset = true;
  version_negotiation = false;
  transport = none;
  net_timeout = none;
}

-- Only the second address answers.
abbrev second_answers : Bytes → Attempt
second_answers a = if a == codes "[::1]:443" then failed reset else session

dial-Decided_example :
    Decided quic second_answers
      (codes "[::1]:443" ∷ codes "127.0.0.1:443" ∷ [])
      (dial quic second_answers (codes "[::1]:443" ∷ codes "127.0.0.1:443" ∷ []))
dial-Decided_example =
    dial-Decided quic second_answers (codes "[::1]:443" ∷ codes "127.0.0.1:443" ∷ [])

abbrev random_key : Bytes
random_key = codes "0123456789abcdef0123456789abcdef"

abbrev fair : Weather
fair = record {
  reads = true;
  random = some random_key;
  creates = true;
  chmods = true;
  writes = true;
  syncs = true;
  closes = true;
  renames = true;
}

load_or_create-Kept_example : Kept (load_or_create_quic_key fair not_exist) fair
load_or_create-Kept_example =
    load_or_create-Kept fair fair not_exist (λ data_ h. its_length data_ h) refl
  where
    its_length : (t : Bytes) → some random_key ≡ some t → length t ≡ 32
    its_length t h = ground (arith, h)
