-- ===== src/Tcp/Reassembly.antt =====
-- Messages come out of the TCP stream whole and in order, however the socket cuts it
-- (crates/franka-rs/src/network/tcp.rs).
use franka_rs.Common.{
  ℕ, ◌+◌, ◌-◌, ◌≤◌, ◌<◌, ◌≡◌, refl, ap, sym, ◌∙◌, inl, inr, ◌⊎◌, Option, none, some, List, [], ◌∷◌,
  ◌++◌, length, take, drop, length-take, length-drop, take-append_le, drop-append_le, if_intro,
  ◌==◌, ltb, ◌||◌, take_add, drop_add, take_all, drop_all, arith, All, Result, ok,
}
use franka_rs.Wire.{HeaderLayout, header_len, decode_header}
use franka_rs.Tcp.{
  Demux, TcpError, digest_in, on_header, file_in, file_complete, target_len, map_insert,
  max_tcp_message_size,
}

-- An id with the bytes of its message: the header at their front announces the id and their number,
-- which is not above the bound.
abbrev pub Framed : HeaderLayout → ℕ × List ℕ → Type 0
Framed layout m =
    (command : ℕ) × (decode_header layout (take (header_len layout) m.1)
      ≡ some (command, m.0, length m.1))
    × (header_len layout ≤ length m.1)
    × (length m.1 ≤ max_tcp_message_size)

abbrev pub flat : List (ℕ × List ℕ) → List ℕ
flat [] = []
flat (m ∷ ms) = m.1 ++ flat ms

-- What of the message the header has told, with `k` of its bytes there.
abbrev pub Told : HeaderLayout → Option ℕ → ℕ → ℕ → ℕ × List ℕ → Type 0
Told layout none id k m = k < header_len layout
Told layout (some n) id k m =
    (n ≡ length m.1) × (id ≡ m.0) × (header_len layout ≤ k) × (k < length m.1)

-- The pending bytes are the front of the first message, and the stream is the rest of the messages.
abbrev pub Follows : HeaderLayout → Demux → List ℕ → List (ℕ × List ℕ) → Type 0
Follows layout d stream [] = (d.pending ≡ []) × (stream ≡ []) × (d.pending_len ≡ none)
Follows layout d stream (m ∷ ms) =
    (k : ℕ) × (d.pending ≡ take k m.1)
    × (stream ≡ drop k m.1 ++ flat ms)
    × (k < length m.1)
    × Told layout d.pending_len d.pending_id k m

-- The same messages are awaited, or the first of them is filed.
abbrev pub Moved :
    HeaderLayout → List (ℕ × List ℕ) → ℕ × List ℕ → List (ℕ × List ℕ) → List ℕ → Demux → Type 0
Moved layout filed m ms stream d =
    (Follows layout d stream (m ∷ ms) × (d.received ≡ filed))
    ⊎ (Follows layout d stream ms × (d.received ≡ map_insert m.0 m.1 filed))

header_len_pos : (layout : HeaderLayout) → 0 < header_len layout
unfolding header_len
header_len_pos HeaderLayout.robot = omega arith
header_len_pos HeaderLayout.gripper = omega arith

-- A new message is awaited from its first byte on.
pub Follows-fresh :
    (layout : HeaderLayout) (ms : List (ℕ × List ℕ)) (d : Demux) (stream : List ℕ)
    → All (Framed layout) ms
    → d.pending ≡ []
    → d.pending_len ≡ none
    → stream ≡ flat ms
    → Follows layout d stream ms
Follows-fresh layout [] d stream f p l s = (p, s, l)
Follows-fresh layout (m ∷ ms) d stream f p l s =
    (0, p, s, ground (arith, header_len_pos layout, f.0.2), ground (arith, header_len_pos layout))

-- The demultiplexer with the first `k` bytes of a message.
abbrev pub with_front : List (ℕ × List ℕ) → Option ℕ → ℕ → ℕ → List ℕ → Demux
with_front filed len id k bytes = record {
  received = filed;
  pending = take k bytes;
  pending_len = len;
  pending_id = id;
}

pub length-front : (k : ℕ) (bytes : List ℕ) → k ≤ length bytes → length (take k bytes) ≡ k
length-front k bytes h = omega (arith, length-take k bytes, h)

module _ (layout : HeaderLayout) (m : ℕ × List ℕ) (ms : List (ℕ × List ℕ))
    (f : All (Framed layout) (m ∷ ms)) where
  abbrev pub MovedOk : List (ℕ × List ℕ) → List ℕ → Result TcpError (Unit {0}) × Demux → Type 0
  MovedOk filed stream r = (r.0 ≡ ok tt) × Moved layout filed m ms stream r.1

  filed-Moved :
      (filed : List (ℕ × List ℕ)) (id k : ℕ) (stream : List ℕ)
      → k ≡ length m.1
      → id ≡ m.0
      → stream ≡ drop k m.1 ++ flat ms
      → Moved layout filed m ms stream (record {
        received = map_insert id (take k m.1) filed;
        pending = [];
        pending_len = none;
        pending_id = 0;
      })
  filed-Moved filed id k stream e i s =
      let w : take k m.1 ≡ m.1 = take_all k m.1 (ground (arith, e)) in
      let r : drop k m.1 ≡ [] = drop_all k m.1 (ground (arith, e)) in
      let empty : Demux = record {
        received = map_insert id (take k m.1) filed;
        pending = [];
        pending_len = none;
        pending_id = 0;
      } in
      inr (
        Follows-fresh layout ms empty stream f.1 refl refl (s ∙ ap (λ z. z ++ flat ms) r),
        ap (λ z. map_insert z (take k m.1) filed) i ∙ ap (λ z. map_insert m.0 z filed) w,
      )

  -- The front of a message whose length is known is filed where it is the whole message.
  file_in-Moved :
      (filed : List (ℕ × List ℕ)) (n id k : ℕ) (stream : List ℕ)
      → n ≡ length m.1
      → id ≡ m.0
      → header_len layout ≤ k
      → k ≤ length m.1
      → stream ≡ drop k m.1 ++ flat ms
      → Moved layout filed m ms stream (file_in (some n) (with_front filed (some n) id k m.1))
  unfolding file_in
  file_in-Moved filed n id k stream en ei hk kl s =
      let l = length-front k m.1 kl in
      if_intro (Moved layout filed m ms stream) (length (take k m.1) == n)
        (λ e. filed-Moved filed id k stream (ground (arith, l, e, en)) ei s)
        (λ e. inl ((k, refl, s, ground (arith, l, e), (en, ei, hk, ground (arith, l, e))), refl))

  on_header-Moved :
      (filed : List (ℕ × List ℕ)) (o : Option (ℕ × ℕ × ℕ)) (command id k : ℕ) (stream : List ℕ)
      → o ≡ some (command, m.0, length m.1)
      → k ≡ header_len layout
      → stream ≡ drop k m.1 ++ flat ms
      → MovedOk filed stream (on_header layout o (with_front filed none id k m.1))
  unfolding on_header file_complete
  on_header-Moved filed none c id k stream e h s = absurd (ground arith)
  on_header-Moved filed (some (c', i, n)) c id k stream e h s =
      let en : n ≡ length m.1 = ground arith in
      let ei : i ≡ m.0 = ground arith in
      if_intro (MovedOk filed stream) (ltb n (header_len layout) || ltb max_tcp_message_size n)
        (λ t. absurd (ground (arith, f.0, en, t)))
        (λ _. (
          refl,
          file_in-Moved filed n i k stream en ei (ground (arith, h)) (ground (arith, h, f.0)) s,
        ))

  -- What the header has told, with at most the bytes that one read aims for.
  abbrev pub Aimed : Option ℕ → ℕ → ℕ → Type 0
  Aimed none id k = k ≤ header_len layout
  Aimed (some n) id k = (n ≡ length m.1) × (id ≡ m.0) × (header_len layout ≤ k) × (k ≤ length m.1)

  pub digest_in-Moved :
      (filed : List (ℕ × List ℕ)) (o : Option ℕ) (id k : ℕ) (stream : List ℕ)
      → Aimed o id k
      → stream ≡ drop k m.1 ++ flat ms
      → MovedOk filed stream (digest_in layout o (with_front filed o id k m.1))
  unfolding digest_in file_complete
  digest_in-Moved filed (some n) id k stream a s =
      (refl, file_in-Moved filed n id k stream a.0 a.1 a.2 a.3 s)
  digest_in-Moved filed none id k stream a s =
      let l = length-front k m.1 (ground (arith, f.0, a)) in
      if_intro (MovedOk filed stream) (length (take k m.1) == header_len layout)
        (λ e.
          let h : k ≡ header_len layout = ground (arith, l, e) in
          on_header-Moved filed (decode_header layout (take k m.1)) f.0.0 id k stream
            (ap (λ z. decode_header layout (take z m.1)) h ∙ f.0.1) h s)
        (λ e.
          let h : k < header_len layout = ground (arith, l, e, a) in
          (refl, inl ((k, refl, s, ground (arith, f.0, h), h), refl)))

  -- What one read adds to the front of the message.
  pub read_facts :
      (k count : ℕ) (stream : List ℕ)
      → stream ≡ drop k m.1 ++ flat ms
      → k + count ≤ length m.1
      → (take k m.1 ++ take count stream ≡ take (k + count) m.1)
        × (drop count stream ≡ drop (k + count) m.1 ++ flat ms)
        × (length (take count stream) ≡ count)
  read_facts k count stream s h =
      let c : count ≤ length (drop k m.1) = omega (arith, length-drop k m.1, h) in
      let r : take count stream ≡ take count (drop k m.1) =
        ap (λ z. take count z) s ∙ take-append_le count (drop k m.1) (flat ms) c in
      (
        ap (λ z. take k m.1 ++ z) r ∙ sym (take_add k count m.1),
        ap (λ z. drop count z) s
            ∙ (drop-append_le count (drop k m.1) (flat ms) c
                ∙ ap (λ z. z ++ flat ms) (sym (drop_add k count m.1))),
        ap length r ∙ length-front count (drop k m.1) c,
      )

  pub Told-Aimed :
      (o : Option ℕ) (id k count : ℕ)
      → Told layout o id k m
      → k < length m.1
      → count ≤ target_len o (header_len layout) - k
      → Aimed o id (k + count)
        × (k + count ≤ length m.1)
        × (0 < target_len o (header_len layout) - k)
  unfolding target_len
  Told-Aimed none id k count t h c = ground (arith, f.0)
  Told-Aimed (some n) id k count t h c = ground (arith, f.0)
