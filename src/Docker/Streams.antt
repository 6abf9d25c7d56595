-- ===== src/Docker/Streams.antt =====
-- The registry of log streams (agent/docker.go StreamLogs, StopLogStream). A stream is a number,
-- which stands for its cancel function; the mutex makes each operation one step.
use mathlib.Core.Option.{some-injective}
use game_server_manager.Base.{
  ℕ, suc, ◌<◌, ◌≡◌, ◌∙◌, none, some, Option, List, ◌∷◌, Has, ◌⊎◌, inl, inr, ap, sym, lookup, insert,
  delete, lookup-delete, lookup-insert, arith,
}
use game_server_manager.Base.Int.{ℤ, int_key, int_eq_iff}

pub record Streams : Type 0 where
  pub live : List (ℤ × ℕ)
  pub cancelled : List ℕ
  pub next : ℕ

-- if existing, ok := d.logStreams[serverID]; ok { existing() }
abbrev cancel_found : Option ℕ → List ℕ → List ℕ
cancel_found none cancelled = cancelled
cancel_found (some stream) cancelled = stream ∷ cancelled

-- The start of StreamLogs, with the new stream.
unfoldable pub stream_opens : ℤ → Streams → Streams × ℕ
stream_opens id r = (
  record {
    live = insert id r.next r.live;
    cancelled = cancel_found (lookup id r.live) r.cancelled;
    next = suc r.next;
  },
  r.next,
)

-- The deferred cleanup of StreamLogs.
unfoldable pub stream_closes : ℤ → ℕ → Streams → Streams
stream_closes id stream r = record r { live = delete id r.live; cancelled = stream ∷ r.cancelled }

abbrev stop_found : ℤ → Option ℕ → Streams → Streams
stop_found id none r = r
stop_found id (some stream) r = record r {
  live = delete id r.live;
  cancelled = stream ∷ r.cancelled;
}

-- StopLogStream
unfoldable pub stop_log_stream : ℤ → Streams → Streams
stop_log_stream id r = stop_found id (lookup id r.live) r

cancel_found-Has :
    (found : Option ℕ) (n : ℕ) (cancelled : List ℕ)
    → Has n (cancel_found found cancelled)
    → (found ≡ some n) ⊎ Has n cancelled
cancel_found-Has none n cancelled h = inr h
cancel_found-Has (some stream) n cancelled (inl same) = inl (ap some (sym same))
cancel_found-Has (some stream) n cancelled (inr h) = inr h

-- A log stream is started again for a server while it runs. The old one is cancelled, and its cleanup
-- removes the entry of the new one: from there on StopLogStream does nothing, and the new stream is
-- not cancelled.
stop_log_stream_misses :
    (id : ℤ) (r : Streams)
    → ((n : ℕ) → Has n r.cancelled → n < r.next)
    → ((n : ℕ) → lookup id r.live ≡ some n → n < r.next)
    → let first = stream_opens id r in
      let second = stream_opens id first.0 in
      let after = stream_closes id first.1 second.0 in
      (stop_log_stream id after ≡ after) × ¬ (Has second.1 after.cancelled)
unfolding stream_opens stream_closes stop_log_stream
stop_log_stream_misses id r old known = (
  ap
      (λ found.
        stop_found id found
          (stream_closes id (stream_opens id r).1 (stream_opens id (stream_opens id r).0).0))
      (lookup_gone (insert id (suc r.next) (insert id r.next r.live))),
  λ h. elim h [
    | inl same ↦ absurd (omega arith)
    | inr h ↦ elim (cancel_found-Has (lookup id (insert id r.next r.live)) (suc r.next) _ h) [
      | inl first ↦
          absurd
            (omega (arith, some-injective (suc r.next) r.next (sym first ∙ lookup-inserted r.live)))
      | inr h ↦ elim (cancel_found-Has (lookup id r.live) (suc r.next) r.cancelled h) [
        | inl found ↦ absurd (omega (arith, known (suc r.next) found))
        | inr h ↦ absurd (omega (arith, old (suc r.next) h))
      ]
    ]
  ],
)
  where
    lookup_gone : (m : List (ℤ × ℕ)) → lookup id (delete id m) ≡ none
    lookup_gone m = ground (arith, lookup-delete id id m, int_eq_iff id id)

    lookup-inserted : (m : List (ℤ × ℕ)) → lookup id (insert id r.next m) ≡ some r.next
    lookup-inserted m = ground (arith, lookup-insert id id r.next m, int_eq_iff id id)
