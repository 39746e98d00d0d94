-- ===== src/Tcp/Replies.antt =====
-- The reply that a call waits for (crates/franka-rs/src/network/tcp.rs).
use franka_rs.Common.{
  ℕ, ◌==◌, ◌≡◌, ◌≢◌, refl, ap, sym, subst, ◌∙◌, inl, inr, Bool-cases, Option, none, some, List, [],
  ◌∷◌, ◌++◌, arith, All, Result, ok, err,
}
use franka_rs.Wire.{HeaderLayout}
use franka_rs.Tcp.{
  Demux, TcpError, Reading, arrived, would_block, poll_error, failed, server_closed,
  read_from_buffer, blocking_receive_response, claim, map_get, map_insert,
}
use franka_rs.Tcp.Reassembly.{Framed, Follows}
use franka_rs.Tcp.Passes.{Healthy, read-ReadOk, read_closed}
use franka_rs.Tcp.Claims.{Without, get-remove_other}

-- What a wait for the reply to `id` comes to, with the messages `ms` to come: it gets the first one
-- of that id whole, is still waiting, or has seen the peer close the connection when none of them has
-- that id.
abbrev pub Replied : ℕ → List (ℕ × List ℕ) → Option (Result TcpError (List ℕ)) → Type 0
Replied id ms none = Unit {0}
Replied id ms (some (ok bytes)) =
    (before : List (ℕ × List ℕ)) × (later : List (ℕ × List ℕ)) × (ms
      ≡ before ++ (id, bytes) ∷ later)
    × Without id before
Replied id ms (some (err e)) = (e ≡ server_closed) × Without id ms

-- A message of another id goes before.
Replied-later :
    (id : ℕ) (m : ℕ × List ℕ) (ms : List (ℕ × List ℕ)) (r : Option (Result TcpError (List ℕ)))
    → m.0 ≢ id
    → Replied id ms r
    → Replied id (m ∷ ms) r
Replied-later id m ms none n r = tt
Replied-later id m ms (some (ok bytes)) n (before, later, e, w) =
    (m ∷ before, later, ap (λ x. m ∷ x) e, (n, w))
Replied-later id m ms (some (err e)) n (c, w) = (c, (n, w))

-- One round of the wait, by what its read gives
abbrev wait_round :
    HeaderLayout
    → ℕ
    → List Reading
    → Result TcpError (Unit {0}) × List ℕ × Demux
    → Option (Result TcpError (List ℕ)) × List ℕ × Demux
wait_round layout id readings r =
    let (claimed, d) = claim id r.2 in
    let rest = blocking_receive_response layout id readings r.1 r.2 in
    elim r.0 [
      | err e ↦ (some (err e), r.1, r.2)
      | ok _ ↦ elim claimed [ some message ↦ (some (ok message), r.1, d) | none ↦ rest ]
    ]

-- A round whose read succeeds goes on behind it, with what the read has filed.
wait_round-Replied :
    (layout : HeaderLayout) (id : ℕ) (readings : List Reading) (ms : List (ℕ × List ℕ))
    (r : Result TcpError (Unit {0}) × List ℕ × Demux)
    → r.0 ≡ ok tt
    → map_get id r.2.received ≡ none
    → Replied id ms (blocking_receive_response layout id readings r.1 r.2).0
    → Replied id ms (wait_round layout id readings r).0
unfolding claim
wait_round-Replied layout id readings ms (ok u, s, d) h g x =
    subst
      (λ (c : Option (List ℕ)).
        Replied id ms
          (elim c as (λ _. Option (Result TcpError (List ℕ)) × List ℕ × Demux) [
            | some message ↦ (some (ok message), s, (claim id d).1)
            | none ↦ blocking_receive_response layout id readings s d
          ]).0)
      (sym g) x
wait_round-Replied layout id readings ms (err e, s, d) h g x = absurd (ground arith)

-- A round that files the message waited for returns it.
wait_round-found :
    (layout : HeaderLayout) (id : ℕ) (readings : List Reading) (bytes : List ℕ)
    (r : Result TcpError (Unit {0}) × List ℕ × Demux)
    → r.0 ≡ ok tt
    → map_get id r.2.received ≡ some bytes
    → (wait_round layout id readings r).0 ≡ some (ok bytes)
unfolding claim
wait_round-found layout id readings bytes (ok u, s, d) h g = ground arith
wait_round-found layout id readings bytes (err e, s, d) h g = absurd (ground arith)

get-insert_same :
    (id : ℕ) (m : ℕ × List ℕ) (filed : List (ℕ × List ℕ))
    → m.0 ≡ id
    → map_get id (map_insert m.0 m.1 filed) ≡ some m.1
unfolding map_get map_insert
get-insert_same id m filed e = ground arith

get-insert_other :
    (id : ℕ) (m : ℕ × List ℕ) (filed : List (ℕ × List ℕ))
    → m.0 ≢ id
    → map_get id filed ≡ none
    → map_get id (map_insert m.0 m.1 filed) ≡ none
unfolding map_get map_insert
get-insert_other id m filed n h =
    let same = get-remove_other id m.0 filed (λ e. n (sym e)) in ground arith

-- A call that waits for the reply to its request: where the demultiplexer holds no message of its
-- id and stands at the front of, or within, the first of some well-framed messages, then whatever
-- the sizes in which the socket hands out the stream, and however often it has nothing, the call
-- returns the first message of that id whole, or waits, or reports that the peer has closed the
-- connection, and that only when no message of the id was to come.
pub receive-Replied :
    (layout : HeaderLayout) (id : ℕ) (readings : List Reading) (stream : List ℕ) (d : Demux)
    (ms : List (ℕ × List ℕ))
    → All Healthy readings
    → All (Framed layout) ms
    → Follows layout d stream ms
    → map_get id d.received ≡ none
    → Replied id ms (blocking_receive_response layout id readings stream d).0
unfolding blocking_receive_response read_from_buffer
receive-Replied layout id [] stream d ms h f w none_yet = tt
receive-Replied layout id (would_block ∷ readings) stream d ms h f w none_yet =
    wait_round-Replied layout id readings ms (ok tt, stream, d) refl none_yet
      (receive-Replied layout id readings stream d ms h.1 f w none_yet)
receive-Replied layout id (arrived n ∷ readings) stream d [] h f w none_yet =
    let c =
      subst (λ z. read_from_buffer layout (arrived n) z d ≡ (err server_closed, z, d)) (sym w.1)
        (read_closed layout n d) in
    subst (λ r. Replied id [] (wait_round layout id readings r).0) (sym c) (refl, tt)
receive-Replied layout id (arrived n ∷ readings) stream d (m ∷ ms) h f w none_yet =
    let r = read_from_buffer layout (arrived n) stream d in
    let (good, moved) = read-ReadOk layout m ms f n stream d w h.0 in
    elim moved [
      | inl (follows, same) ↦
          let g : map_get id r.2.received ≡ none = ap (map_get id) same ∙ none_yet in
          wait_round-Replied layout id readings (m ∷ ms) r good g
            (receive-Replied layout id readings r.1 r.2 (m ∷ ms) h.1 f follows g)
      | inr (follows, filed) ↦ elim (Bool-cases (m.0 == id)) [
        | inl t ↦
            let e : m.0 ≡ id = ground arith in
            let g : map_get id r.2.received ≡ some m.1 =
              ap (map_get id) filed ∙ get-insert_same id m d.received e in
            subst (Replied id (m ∷ ms)) (sym (wait_round-found layout id readings m.1 r good g))
              ([], ms, ap (λ x. (x, m.1) ∷ ms) e, tt)
        | inr o ↦
            let e : m.0 ≢ id = ground arith in
            let g : map_get id r.2.received ≡ none =
              ap (map_get id) filed ∙ get-insert_other id m d.received e none_yet in
            wait_round-Replied layout id readings (m ∷ ms) r good g (
              Replied-later id m ms _ e
                (receive-Replied layout id readings r.1 r.2 ms h.1 f.1 follows g))
      ]
    ]
receive-Replied layout id (poll_error ∷ readings) stream d ms h f w none_yet = absurd h.0
receive-Replied layout id (failed why ∷ readings) stream d ms h f w none_yet = absurd h.0
