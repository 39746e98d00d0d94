-- ===== src/Tcp/Passes.antt =====
-- Passes of `read_from_buffer` over a stream of messages (crates/franka-rs/src/network/tcp.rs).
use franka_rs.Common.{
  ℕ, ◌+◌, ◌-◌, ◌<◌, min, ◌≡◌, refl, ap, sym, subst, inl, inr, ◌⊎◌, Option, List, [], ◌∷◌, ◌++◌,
  length, take, drop, length-append, length-drop, length-take, arith, All, Result, ok, err,
  if_intro, ◌==◌,
}
use franka_rs.Wire.{HeaderLayout, header_len}
use franka_rs.Tcp.{
  Demux, TcpError, Reading, arrived, would_block, poll_error, failed, server_closed, passes,
  read_from_buffer, digest, digest_in, missing, target_len, map_insert,
}
use franka_rs.Tcp.Reassembly.{
  Framed, flat, Told, Follows, Moved, Aimed, with_front, length-front, digest_in-Moved, read_facts,
  Told-Aimed,
}

module _ (layout : HeaderLayout) (m : ℕ × List ℕ) (ms : List (ℕ × List ℕ))
    (f : All (Framed layout) (m ∷ ms)) where
  abbrev pub ReadOk : List (ℕ × List ℕ) → Result TcpError (Unit {0}) × List ℕ × Demux → Type 0
  ReadOk filed r = (r.0 ≡ ok tt) × Moved layout filed m ms r.1 r.2

  digest-ReadOk :
      (filed : List (ℕ × List ℕ)) (o : Option ℕ) (id k count : ℕ) (stream front : List ℕ)
      → front ≡ take (k + count) m.1
      → drop count stream ≡ drop (k + count) m.1 ++ flat ms
      → Aimed layout m ms f o id (k + count)
      → let d : Demux = record {
        received = filed;
        pending = front;
        pending_len = o;
        pending_id = id;
      } in
        ReadOk filed ((digest layout d).0, drop count stream, (digest layout d).1)
  unfolding digest
  digest-ReadOk filed o id k count stream front e s a =
      subst
        (λ z.
          let d : Demux = record {
            received = filed;
            pending = z;
            pending_len = o;
            pending_id = id;
          } in
          ReadOk filed ((digest_in layout o d).0, drop count stream, (digest_in layout o d).1))
        (sym e) (digest_in-Moved layout m ms f filed o id (k + count) (drop count stream) a s)

  read_front :
      (filed : List (ℕ × List ℕ)) (o : Option ℕ) (id k n : ℕ) (stream : List ℕ)
      → Told layout o id k m
      → k < length m.1
      → stream ≡ drop k m.1 ++ flat ms
      → 0 < n
      → ReadOk filed (read_from_buffer layout (arrived n) stream (with_front filed o id k m.1))
  unfolding read_from_buffer missing
  read_front filed o id k n stream t h s pos =
      let l = length-front k m.1 (ground (arith, h)) in
      let count = min n (target_len o (header_len layout) - length (take k m.1)) in
      let a = Told-Aimed layout m ms f o id k count t h (ground (arith, l)) in
      let r = read_facts layout m ms f k count stream s a.1 in
      if_intro (ReadOk filed) (length (take count stream) == 0)
        (λ e. absurd (ground (arith, r.2, e, l, a.2, pos)))
        (λ _. digest-ReadOk filed o id k count stream _ r.0 r.1 a.0)

  -- A pass that is given bytes, or none yet, succeeds.
  pub read-ReadOk :
      (n : ℕ) (stream : List ℕ) (d : Demux)
      → Follows layout d stream (m ∷ ms)
      → 0 < n
      → ReadOk d.received (read_from_buffer layout (arrived n) stream d)
  read-ReadOk n stream d (k, p, s, h, t) pos =
      subst
        (λ z. ReadOk d.received (
          read_from_buffer layout (arrived n) stream (record {
            received = d.received;
            pending = z;
            pending_len = d.pending_len;
            pending_id = d.pending_id;
          })))
        (sym p) (read_front d.received d.pending_len d.pending_id k n stream t h s pos)

-- What a healthy socket says: nothing yet, or at least a byte, or, at the end, that it is closed.
abbrev pub Healthy : Reading → Type 0
Healthy would_block = Unit {0}
Healthy (arrived n) = 0 < n
Healthy _ = ⊥

abbrev pub file_all : List (ℕ × List ℕ) → List (ℕ × List ℕ) → List (ℕ × List ℕ)
file_all [] filed = filed
file_all (m ∷ ms) filed = file_all ms (map_insert m.0 m.1 filed)

-- The messages `ms` were cut into those filed, in their order, and those still awaited.
abbrev pub InOrder :
    HeaderLayout
    → List (ℕ × List ℕ)
    → List (ℕ × List ℕ)
    → Result TcpError (Unit {0}) × List ℕ × Demux
    → Type 0
InOrder layout filed ms r =
    (done rest : List (ℕ × List ℕ)) × (ms ≡ done ++ rest)
    × Follows layout r.2 r.1 rest
    × (r.2.received ≡ file_all done filed)
    × ((r.0 ≡ ok tt) ⊎ ((r.0 ≡ err server_closed) × (rest ≡ [])))

-- A message that is awaited has bytes in the stream.
Follows-empty :
    (layout : HeaderLayout) (d : Demux) (ms : List (ℕ × List ℕ)) → Follows layout d [] ms → ms ≡ []
Follows-empty layout d [] f = refl
Follows-empty layout d (m ∷ ms) (k, p, s, h, t) =
    absurd (ground (arith, ap length s, length-append (drop k m.1) (flat ms), length-drop k m.1))

-- At the end of the stream a read finds the connection closed.
pub read_closed :
    (layout : HeaderLayout) (n : ℕ) (d : Demux)
    → read_from_buffer layout (arrived n) [] d ≡ (err server_closed, [], d)
unfolding read_from_buffer
read_closed layout n d =
    let e : length {A = ℕ} (take (min n (missing layout d)) []) ≡ 0 =
      omega (arith, length-take {A = ℕ} (min n (missing layout d)) []) in
    if_intro (λ x. x ≡ (err server_closed, [], d))
      (length {A = ℕ} (take (min n (missing layout d)) []) == 0) (λ _. refl)
      (λ f. absurd (ground (arith, e, f)))

-- How `passes` goes on behind one read.
abbrev after :
    Result TcpError (Unit {0}) × List ℕ × Demux
    → Result TcpError (Unit {0}) × List ℕ × Demux
    → Result TcpError (Unit {0}) × List ℕ × Demux
after r rest = elim r.0 [ err e ↦ (err e, r.1, r.2) | ok _ ↦ rest ]

after_ok :
    (layout : HeaderLayout) (filed : List (ℕ × List ℕ)) (ms : List (ℕ × List ℕ))
    (result : Result TcpError (Unit {0})) (stream : List ℕ) (d : Demux)
    (rest : Result TcpError (Unit {0}) × List ℕ × Demux)
    → result ≡ ok tt
    → InOrder layout filed ms rest
    → InOrder layout filed ms (after (result, stream, d) rest)
after_ok layout filed ms (ok _) stream d rest e i = i
after_ok layout filed ms (err x) stream d rest e i = absurd (ground arith)

InOrder-filed :
    (layout : HeaderLayout) (filed : List (ℕ × List ℕ)) (m : ℕ × List ℕ) (ms : List (ℕ × List ℕ))
    (r : Result TcpError (Unit {0}) × List ℕ × Demux)
    → InOrder layout (map_insert m.0 m.1 filed) ms r
    → InOrder layout filed (m ∷ ms) r
InOrder-filed layout filed m ms r (done, rest, e, w, q, o) =
    (m ∷ done, rest, ap (λ z. m ∷ z) e, w, q, o)

closed :
    (layout : HeaderLayout) (stream : List ℕ) (d : Demux)
    (rest r : Result TcpError (Unit {0}) × List ℕ × Demux)
    → Follows layout d stream []
    → r ≡ (err server_closed, stream, d)
    → InOrder layout d.received [] (after r rest)
closed layout stream d rest r w e =
    subst (λ z. InOrder layout d.received [] (after z rest)) (sym e)
      ([], [], refl, w, refl, inr (refl, refl))

-- Where the demultiplexer stands at the front of, or within, the first of some well-framed
-- messages, then whatever the sizes in which the socket hands out the stream, and however often it
-- has nothing, the passes file a first part of them whole, in their order and under their ids, and
-- report no error but the closing of the connection, and that only when all are filed; what is
-- pending is a front of the next message.
pub passes-InOrder :
    (layout : HeaderLayout) (readings : List Reading) (stream : List ℕ) (d : Demux)
    (ms : List (ℕ × List ℕ))
    → All Healthy readings
    → All (Framed layout) ms
    → Follows layout d stream ms
    → InOrder layout d.received ms (passes layout readings stream d)
unfolding passes read_from_buffer
passes-InOrder layout [] stream d ms h f w = ([], ms, refl, w, refl, inl refl)
passes-InOrder layout (would_block ∷ readings) stream d ms h f w =
    passes-InOrder layout readings stream d ms h.1 f w
passes-InOrder layout (arrived n ∷ readings) stream d [] h f w =
    closed layout stream d _ (read_from_buffer layout (arrived n) stream d) w (
      subst (λ z. read_from_buffer layout (arrived n) z d ≡ (err server_closed, z, d)) (sym w.1)
        (read_closed layout n d))
passes-InOrder layout (arrived n ∷ readings) stream d (m ∷ ms) h f w =
    let r = read_from_buffer layout (arrived n) stream d in
    let x = read-ReadOk layout m ms f n stream d w h.0 in
    after_ok layout d.received (m ∷ ms) r.0 r.1 r.2 (passes layout readings r.1 r.2) x.0 (elim x.1 [
      | inl y ↦
          subst (λ z. InOrder layout z (m ∷ ms) (passes layout readings r.1 r.2)) y.1
            (passes-InOrder layout readings r.1 r.2 (m ∷ ms) h.1 f y.0)
      | inr y ↦ InOrder-filed layout d.received m ms (passes layout readings r.1 r.2) (
          subst (λ z. InOrder layout z ms (passes layout readings r.1 r.2)) y.1
            (passes-InOrder layout readings r.1 r.2 ms h.1 f.1 y.0))
    ])
passes-InOrder layout (poll_error ∷ readings) stream d ms h f w = absurd h.0
passes-InOrder layout (failed why ∷ readings) stream d ms h f w = absurd h.0
