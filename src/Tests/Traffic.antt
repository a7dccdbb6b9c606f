-- ===== src/Tests/Traffic.antt =====
-- Runs of the traffic store and of a leased connection, and instances of their theorems.
use beamd.Prelude.{
  ℕ, ◌≡◌, ◌%◌, refl, true, false, List, [], ◌∷◌, none, some, Bytes, codes, nat_eq, list_eq, arith,
  length, lookup, Unique, map,
}
use beamd.Edge.Traffic.{key_eq, Store, word, bytes_out_by_slug}
use beamd.Edge.Traffic.Totals.{Delta, record_all, sent, total, bytes_out_by_slug-record_all}
use beamd.Edge.Traffic.File.{Json, record_of, Weather, flush}
use beamd.Edge.Traffic.Flushed.{Written, flush-Written}
use beamd.Edge.Traffic.Lease.{
  new_leased_conn, no_error, read, write, close, counting_read, counting_write, finalize, watch,
  watch_from, watch_selecting, watch_closing, by_normal_close, by_stream, Event, reads, writes,
  closes, stream_ends, watches, step, run,
}
use beamd.Edge.Traffic.Watch.{run-released}
use beamd.Edge.Traffic.Report.{run-returns}

abbrev of : Bytes → Bytes → ℕ → Delta
of slug name bytes_out = record { slug = slug; name = name; bytes_in = 10; bytes_out = bytes_out }

abbrev three_requests : List Delta
three_requests =
    of (codes "acme") (codes "web") 700
    ∷ of (codes "zeta") (codes "web") 40
    ∷ of (codes "acme") (codes "api") 5
    ∷ []

bytes_out_by_slug-record_all_example :
    total (codes "acme") (bytes_out_by_slug (record_all three_requests []))
    ≡ sent (codes "acme") three_requests % word
bytes_out_by_slug-record_all_example =
    bytes_out_by_slug-record_all (codes "acme") three_requests refl

abbrev one_tunnel : Store
one_tunnel =
    (record { slug = codes "acme"; name = codes "web" }, record { in_ = 10; out = 700 }) ∷ []

-- A codec that knows one file.
abbrev one_file : Json
one_file = record { marshal = λ rs. codes "[]"; unmarshal = λ b. some (map record_of one_tunnel) }

abbrev calm : Weather
calm = record { mkdir_ok = true; write_ok = true; left_over = none; rename_ok = true }

one_each : Unique one_tunnel
unfolding lookup
one_each = (refl, tt)

flush-Written_example :
    Written one_file one_tunnel
      (codes "/traffic.json")
      []
      (flush one_file one_tunnel (codes "/traffic.json") [] calm)
flush-Written_example =
    flush-Written one_file one_tunnel (codes "/traffic.json") [] calm refl one_each refl

-- A request that is answered, closed, and whose stream then ends.
abbrev answered : List Event
answered =
    writes 120 no_error
    ∷ reads 900 no_error
    ∷ closes false
    ∷ watches by_normal_close
    ∷ stream_ends
    ∷ watches by_stream
    ∷ watches by_stream
    ∷ []

given_back : (run answered (new_leased_conn false)).released ≡ 1
unfolding run step new_leased_conn read write close counting_read counting_write finalize watch
    watch_from watch_selecting watch_closing
given_back = refl

run-released_example :
    ((run answered (new_leased_conn false)).released ≡ 1)
    × ((run answered (new_leased_conn false)).stream_done ≡ true)
    × (length (run answered (new_leased_conn false)).reports ≡ 1)
run-released_example = run-released false answered (omega (arith, given_back))

abbrev cut_off : List Event
cut_off = writes 120 no_error ∷ stream_ends ∷ []

stream_over : (run cut_off (new_leased_conn false)).stream_done ≡ true
unfolding run step new_leased_conn write counting_write
stream_over = refl

run-returns_example :
    (run
      (watches by_stream ∷ watches by_stream ∷ [])
      (run cut_off (new_leased_conn false))).released
    ≡ 1
run-returns_example = run-returns false cut_off stream_over
