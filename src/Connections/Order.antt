-- ===== src/Connections/Order.antt =====
-- What a writer does with the messages of its channel (master/websocket.go agentWriter).
use game_server_manager.Base.{
  ◌≤◌, ◌≡◌, refl, ap, sym, ◌∙◌, Bool, true, false, List, [], ◌∷◌, ◌++◌, arith, append-nil,
  append_assoc, if◌then◌else◌, length, choose, subst, inl, inr, Bool-cases,
}
use game_server_manager.Protocol.{Frame}
use game_server_manager.Connections.Writer.{
  Outgoing, text, ping, close_message, Turn, puts, closes, takes, ticks, Writer, writes, returns,
  receive, tick, writer_turn, writer_turns,
}

-- The messages among what was written, in order.
unfoldable pub texts : List Outgoing → List Frame
texts [] = []
texts (text f ∷ os) = f ∷ texts os
texts (ping ∷ os) = texts os
texts (close_message ∷ os) = texts os

-- The messages that the turns put into the channel, until it is closed.
unfoldable pub put_by : (closed : Bool) → List Turn → List Frame
put_by closed [] = []
put_by closed (puts f ∷ ts) = (if closed then [] else f ∷ []) ++ put_by closed ts
put_by closed (closes ∷ ts) = put_by true ts
put_by closed (takes _ ∷ ts) = put_by closed ts
put_by closed (ticks _ ∷ ts) = put_by closed ts

texts-append : (os qs : List Outgoing) → texts (os ++ qs) ≡ texts os ++ texts qs
unfolding texts
texts-append [] qs = refl
texts-append (text f ∷ os) qs = ap (◌∷◌ f) (texts-append os qs)
texts-append (ping ∷ os) qs = texts-append os qs
texts-append (close_message ∷ os) qs = texts-append os qs

abbrev first : List Frame → List Frame
first [] = []
first (f ∷ _) = f ∷ []

-- The message that a turn loses: the first of the channel, if a running writer takes it and its write
-- fails.
abbrev pub lost_at : Turn → Writer → List Frame
lost_at (takes written) w = if w.returned then [] else if written then [] else first w.buffer
lost_at (puts _) w = []
lost_at closes w = []
lost_at (ticks _) w = []

-- The messages that the turns lose.
unfoldable pub lost_by : List Turn → Writer → List Frame
lost_by [] w = []
lost_by (t ∷ ts) w = lost_at t w ++ lost_by ts (writer_turn t w)

-- Written, lost or still in the channel, in this order: `all`. Only a writer that returned has lost
-- a message, and one at most.
pub record Accounted (all lost : List Frame) (w : Writer) : Type 0 where
  pub order : texts w.wrote ++ (lost ++ w.buffer) ≡ all
  pub at_most_one : length lost ≤ 1
  pub at_end : w.returned ≡ false → lost ≡ []

module _ (all : List Frame) where
  wrote_other :
      (o : Outgoing) (lost : List Frame) (w : Writer)
      → texts (o ∷ []) ≡ []
      → Accounted all lost w
      → Accounted all lost (writes o w)
  wrote_other o lost w silent a = record {
    order =
        ap (λ fs. fs ++ (lost ++ w.buffer))
          (texts-append w.wrote (o ∷ [])
            ∙ ap (λ fs. texts w.wrote ++ fs) silent
            ∙ append-nil (texts w.wrote))
        ∙ a.order;
    at_most_one = a.at_most_one;
    at_end = a.at_end;
  }

  returned_now :
      (lost : List Frame) (w : Writer) → Accounted all lost w → Accounted all lost (returns w)
  returned_now lost w a = record {
    order = a.order;
    at_most_one = a.at_most_one;
    at_end = λ running. absurd (cc);
  }

  received :
      (written : Bool) (fs : List Frame) (w : Writer)
      → w.buffer ≡ fs
      → Accounted all [] w
      → Accounted all (if written then [] else first fs) (receive written fs w)
  unfolding texts
  received written [] w same a =
      subst (λ lost. Accounted all lost (receive written [] w)) (none_lost written)
        (choose (Accounted all []) w.closed
          (returned_now [] (writes close_message w) (wrote_other close_message [] w refl a)) a)
    where
      none_lost : (b : Bool) → ◌≡◌ {A = List Frame} [] (if b then [] else [])
      none_lost true = refl
      none_lost false = refl
  received true (f ∷ rest) w same a = record {
    order =
        ap (λ fs. fs ++ rest) (texts-append w.wrote (text f ∷ []))
        ∙ append_assoc (texts w.wrote) (f ∷ []) rest
        ∙ ap (λ fs. texts w.wrote ++ fs) (sym same)
        ∙ a.order;
    at_most_one = omega arith;
    at_end = λ _. refl;
  }
  received false (f ∷ rest) w same a = record {
    order = ap (λ fs. texts w.wrote ++ fs) (sym same) ∙ a.order;
    at_most_one = omega arith;
    at_end = λ running'. absurd (cc);
  }

  ticked :
      (written : Bool) (lost : List Frame) (w : Writer)
      → Accounted all lost w
      → Accounted all lost (tick written w)
  unfolding texts
  ticked true lost w a = wrote_other ping lost w refl a
  ticked false lost w a = returned_now lost w a

receive-closed :
    (written : Bool) (fs : List Frame) (w : Writer) → (receive written fs w).closed ≡ w.closed
receive-closed written [] w = choose (λ (v : Writer). v.closed ≡ w.closed) w.closed refl refl
receive-closed true (f ∷ rest) w = refl
receive-closed false (f ∷ rest) w = refl

tick-closed : (written : Bool) (w : Writer) → (tick written w).closed ≡ w.closed
tick-closed true w = refl
tick-closed false w = refl

module _ (all lost : List Frame) (w : Writer) (a : Accounted all lost w) where
  put_open : (f : Frame) → Accounted (all ++ f ∷ []) lost (record w { buffer = w.buffer ++ f ∷ [] })
  put_open f = record {
    order =
        ap (λ fs. texts w.wrote ++ fs) (sym (append_assoc lost w.buffer (f ∷ [])))
        ∙ sym (append_assoc (texts w.wrote) (lost ++ w.buffer) (f ∷ []))
        ∙ ap (λ fs. fs ++ f ∷ []) a.order;
    at_most_one = a.at_most_one;
    at_end = a.at_end;
  }

  taken :
      (written : Bool)
      → Accounted all
          (lost ++ lost_at (takes written) w)
          (if w.returned then w else receive written w.buffer w)
  taken written = elim (Bool-cases w.returned) [
    | inl over ↦
        subst
          (λ (b : Bool).
            Accounted all (lost ++ (if b then [] else if written then [] else first w.buffer))
              (if b then w else receive written w.buffer w))
          (sym over) (subst (λ fs. Accounted all fs w) (sym (append-nil lost)) a)
    | inr running ↦
        subst
          (λ (b : Bool).
            Accounted all (lost ++ (if b then [] else if written then [] else first w.buffer))
              (if b then w else receive written w.buffer w))
          (sym running)
          (subst
            (λ fs.
              Accounted all (fs ++ (if written then [] else first w.buffer))
                (receive written w.buffer w))
            (sym (a.at_end running))
            (received all written w.buffer w refl
              (subst (λ fs. Accounted all fs w) (a.at_end running) a)))
  ]

  after_tick : (written : Bool) → Accounted all lost (if w.returned then w else tick written w)
  after_tick written = choose (Accounted all lost) w.returned a (ticked all written lost w a)

turns-Accounted :
    (ts : List Turn) (all lost : List Frame) (w : Writer)
    → Accounted all lost w
    → Accounted (all ++ put_by w.closed ts) (lost ++ lost_by ts w) (writer_turns ts w)
unfolding writer_turn writer_turns put_by lost_by
turns-Accounted [] all lost w a = rw (append-nil all, append-nil lost) a
turns-Accounted (puts f ∷ ts) all lost w a = elim (Bool-cases w.closed) [
  | inl shut ↦ subst put_to (sym shut) (turns-Accounted ts all lost w a)
  | inr open_ ↦
      let more : Writer = record w { buffer = w.buffer ++ f ∷ [] } in
      subst put_to (sym open_) (
        subst (λ fs. Accounted fs (lost ++ lost_by ts more) (writer_turns ts more))
          (append_assoc all (f ∷ []) (put_by w.closed ts))
          (turns-Accounted ts (all ++ f ∷ []) lost more (put_open all lost w a f)))
]
  where
    put_to : Bool → Type 0
    put_to b =
        let after : Writer = if b then w else record w { buffer = w.buffer ++ f ∷ [] } in
        Accounted (all ++ ((if b then [] else f ∷ []) ++ put_by w.closed ts))
          (lost ++ lost_by ts after) (writer_turns ts after)
turns-Accounted (closes ∷ ts) all lost w a =
    turns-Accounted ts all lost (record w { closed = true })
      (record { order = a.order; at_most_one = a.at_most_one; at_end = a.at_end })
turns-Accounted (takes written ∷ ts) all lost w a =
    let after : Writer = if w.returned then w else receive written w.buffer w in
    let same : after.closed ≡ w.closed =
      choose (λ (v : Writer). v.closed ≡ w.closed) w.returned refl
        (receive-closed written w.buffer w) in
    subst
      (λ b.
        Accounted (all ++ put_by b ts) (lost ++ lost_by (takes written ∷ ts) w)
          (writer_turns ts after))
      same
      (subst (λ fs. Accounted (all ++ put_by after.closed ts) fs (writer_turns ts after))
        (append_assoc lost (lost_at (takes written) w) (lost_by ts after))
        (turns-Accounted ts all (lost ++ lost_at (takes written) w) after
          (taken all lost w a written)))
turns-Accounted (ticks written ∷ ts) all lost w a =
    let after : Writer = if w.returned then w else tick written w in
    let same : after.closed ≡ w.closed =
      choose (λ (v : Writer). v.closed ≡ w.closed) w.returned refl (tick-closed written w) in
    subst (λ b. Accounted (all ++ put_by b ts) (lost ++ lost_by ts after) (writer_turns ts after))
      same (turns-Accounted ts all lost after (after_tick all lost w a written))

abbrev pub new_writer : List Frame → Writer
new_writer buffer = record { buffer = buffer; closed = false; wrote = []; returned = false }

-- Whatever the goroutines around a channel do and whichever writes fail: the messages that were in
-- the channel and that were put into it are, in this order, the texts that its writer wrote, those
-- that it took while their write failed, at most one, and what is left in the channel; a writer that
-- has not returned has lost none.
pub writer_turns-Accounted :
    (ts : List Turn) (buffer : List Frame)
    → Accounted
        (buffer ++ put_by false ts)
        (lost_by ts (new_writer buffer))
        (writer_turns ts (new_writer buffer))
unfolding texts
writer_turns-Accounted ts buffer =
    turns-Accounted ts buffer [] (new_writer buffer)
      (record { order = refl; at_most_one = omega arith; at_end = λ _. refl })
