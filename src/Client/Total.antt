-- ===== src/Client/Total.antt =====
-- What a read of xsp_ws_client.c makes of the client, over any transport.
use xsp.Prelude.{
  if_both, option_both, ℕ, zero, suc, ◌-◌, ◌≤◌, ◌≡◌, refl, sym, ap, Bool, true, false, List, ◌++◌,
  Option, none, some, arith, ltb, ◌==◌, if◌then◌else◌, length, min, Option-cases, inl, inr, ◌⊎◌,
  get_or, ◌/◌, ◌%◌,
}
use mathlib.Core.Path.{subst}
use xsp.Client.{Transport, Client, can_read}
use xsp.Client.Read.{
  Frame, no_frame, is_too_big, is_fin, is_bad, read_count, read_more, take_overread, read_rest,
  read_data, Answer, give_up, read_exactly, fail_if, read_payload, on_size2, on_size8, read_size,
  on_header, read_header, read_frame,
}

abbrev pub is_given {ℓ} : {A : Type ℓ} → Option A → Bool
is_given none = false
is_given (some a) = true

-- How much of what the handshake read too much is left.
abbrev pub left : {T : Type 0} → Client T → ℕ
left client = client.overread_size - client.overread_consumed

-- A client with a transport, whose block is not freed before it is consumed, and that did not consume
-- more than there is.
pub record IsReady {T : Type 0} (client : Client T) : Type 0 where
  pub connected : is_given client.transport ≡ true
  pub kept : (is_given client.overread_data ≡ true) ⊎ (left client ≡ 0)
  pub bounded : client.overread_consumed ≤ client.overread_size

falls : (wanted n fuel : ℕ) → suc wanted ≤ suc fuel → (n == 0) ≡ false → suc wanted - n ≤ fuel
falls wanted n fuel h e = ground (arith, h, e)

-- What is left behind a read of `size` bytes at most.
abbrev pub Takes : {T : Type 0} → Client T → ℕ → Client T → Type 0
Takes before size after =
    ((is_given after.overread_data ≡ true) ⊎ (left after ≡ 0))
    × (left after ≤ left before - min size (left before))
    × (after.overread_consumed ≤ after.overread_size)

-- A call of `take_overread` that does not overrun the block.
abbrev Taken : {T : Type 0} → Client T → ℕ → Option (List ℕ × Client T) → Type 0
Taken before size none = ⊥
Taken before size (some p) = Takes before size p.1

kept_block :
    (b : Bool) (block : List ℕ) (consumed size : ℕ)
    → (consumed == size) ≡ b
    → (is_given (if b then none else some block) ≡ true) ⊎ (size - consumed ≡ 0)
kept_block true block consumed size e = inr (ground (arith, e))
kept_block false block consumed size e = inl refl

nothing_left : (o : Option (List ℕ)) (n : ℕ) → o ≡ none → (is_given o ≡ true) ⊎ (n ≡ 0) → n ≡ 0
nothing_left o n e (inl g) = absurd (ground (arith, ap is_given e, g))
nothing_left o n e (inr z) = z

Taken-some :
    {T : Type 0} (before : Client T) (size : ℕ) (o : Option (List ℕ × Client T))
    → Taken before size o
    → (p : List ℕ × Client T) × (o ≡ some p) × Takes before size p.1
Taken-some before size none h = absurd h
Taken-some before size (some p) h = (p, refl, h)

module _ {T : Type 0} (ops : Transport T) where
  take_overread-Takes :
      (client : Client T) (size : ℕ)
      → IsReady client
      → Taken client size (take_overread ops client size)
  unfolding take_overread
  take_overread-Takes client size ready = elim (Option-cases client.overread_data) [
    | inl e ↦
        let z = nothing_left client.overread_data (left client) e ready.kept in
        rw e (inr z, omega (arith, z), ready.bounded)
    | inr (block, e) ↦ rw e (
        if_both (Taken client size) (ltb client.overread_size client.overread_consumed) _ _
          (λ over. absurd (ground (arith, over, ready.bounded)))
          (λ under. (kept_block _ block _ _ refl, omega arith, omega (arith, ready.bounded))))
  ]

  abbrev GivenBytes : Option (Option (List ℕ) × T) → Type 0
  GivenBytes o = is_given o ≡ true

  read_more_some :
      (fuel : ℕ) (t : T) (done : List ℕ) (wanted : ℕ)
      → wanted ≤ fuel
      → is_given (read_more ops fuel t done wanted) ≡ true
  unfolding read_more
  read_more_some fuel t done zero h = refl
  read_more_some zero t done (suc wanted) h = absurd (omega (arith, h))
  read_more_some (suc fuel) t done (suc wanted) h =
      if_both GivenBytes (read_count (ops.read t (suc wanted)).1 == 0) _ _ (λ e. refl)
        (λ e.
          read_more_some fuel (ops.read t (suc wanted)).0 (done ++ (ops.read t (suc wanted)).2)
            (suc wanted - read_count (ops.read t (suc wanted)).1)
            (falls wanted (read_count (ops.read t (suc wanted)).1) fuel h e))

  -- A call that returns, with the client ready and at most so much left.
  abbrev pub Good : ℕ → Answer ops → Type 0
  Good bound none = ⊥
  Good bound (some (err, frame, client)) = IsReady client × (left client ≤ bound)

  give_up-Good :
      (bound : ℕ) (frame : Frame) (client : Client T)
      → IsReady client
      → left client ≤ bound
      → Good bound (give_up ops frame client)
  give_up-Good bound frame client r h =
      (record { connected = r.connected; kept = r.kept; bounded = r.bounded }, h)

  read_rest-given :
      (size : ℕ) (t : T) (p : List ℕ × Client T)
      → (r : Option (List ℕ) × T) × (read_rest ops size t p
          ≡ some (r.0, r.1, record p.1 { transport = some r.1 }))
  unfolding read_rest
  read_rest-given size t (early, client) =
      elim (Option-cases (read_more ops size t early (size - length early))) [
        | inl e ↦ absurd (
            ground (
              arith,
              ap is_given e,
              read_more_some size t early (size - length early) (omega arith),
            ))
        | inr (r, e) ↦ (r, rw (e, read_rest) refl)
      ]

  -- What `read_exactly` makes of what was read.
  after_read :
      ℕ
      → Frame
      → (List ℕ → T → Client T → Answer ops)
      → Option (Option (List ℕ) × T × Client T)
      → Answer ops
  after_read size frame go_on none = none
  after_read size frame go_on (some (none, t, client)) = give_up ops frame client
  after_read size frame go_on (some (some bytes, t, client)) =
      if length bytes == size then go_on bytes t client else give_up ops frame client

  after_read-Good :
      (bound size : ℕ) (frame : Frame) (go_on : List ℕ → T → Client T → Answer ops)
      (bytes : Option (List ℕ)) (t : T) (client : Client T)
      → IsReady client
      → left client ≤ bound
      → ((bytes : List ℕ) → Good bound (go_on bytes t client))
      → Good bound (after_read size frame go_on (some (bytes, t, client)))
  unfolding after_read
  after_read-Good bound size frame go_on none t client r h g = give_up-Good bound frame client r h
  after_read-Good bound size frame go_on (some bytes) t client r h g =
      if_both (Good bound) (length bytes == size) _ _ (λ e. g bytes)
        (λ e. give_up-Good bound frame client r h)

  read_exactly-Good :
      (bound size : ℕ) (client : Client T) (t : T) (frame : Frame)
      (go_on : List ℕ → T → Client T → Answer ops)
      → IsReady client
      → left client - min size (left client) ≤ bound
      → ((bytes : List ℕ) (t : T) (after : Client T)
          → IsReady after
          → left after ≤ bound
          → Good bound (go_on bytes t after))
      → Good bound (read_exactly ops client t size frame go_on)
  unfolding read_exactly read_data after_read
  read_exactly-Good bound size client t frame go_on ready h g =
      let (taken, e', (kept, less, bounded)) =
        Taken-some client size _ (take_overread-Takes client size ready) in
      let (r, e) = read_rest-given size t taken in
      subst
        (λ o.
          Good bound (
            after_read size frame go_on (elim o [ none ↦ none | some p ↦ read_rest ops size t p ])))
        (sym e')
        (subst (λ o. Good bound (after_read size frame go_on o)) (sym e)
          (after_read-Good bound size frame go_on r.0 r.1 (record taken.1 { transport = some r.1 })
            (record { connected = refl; kept = kept; bounded = bounded }) (omega (arith, less, h))
            (λ bytes.
              g bytes r.1 (record taken.1 { transport = some r.1 })
                (record { connected = refl; kept = kept; bounded = bounded })
                (omega (arith, less, h)))))

  -- Setting the state changes neither.
  fail_if-IsReady : (b : Bool) (client : Client T) → IsReady client → IsReady (fail_if ops b client)
  fail_if-IsReady b client r = record {
    connected = r.connected;
    kept = r.kept;
    bounded = r.bounded;
  }

  read_payload-Good :
      (bound buffer_size : ℕ) (frame : Frame) (size : ℕ) (t : T) (client : Client T)
      → IsReady client
      → left client ≤ bound
      → Good bound (read_payload ops buffer_size frame size t client)
  unfolding read_payload
  read_payload-Good bound buffer_size frame size t client r h =
      if_both (Good bound) (ltb buffer_size size) _ _
        (λ e. give_up-Good bound (record frame { payload_size = some size }) client r h)
        (λ e.
          read_exactly-Good bound size client t _ _ r (omega (arith, h))
            (λ bytes t' after r' h'. (r', h')))

  read_size-Good :
      (bound buffer_size : ℕ) (frame : Frame) (is_control : Bool) (size : ℕ) (t : T)
      (client : Client T)
      → IsReady client
      → left client ≤ bound
      → Good bound (read_size ops buffer_size frame is_control size t client)
  unfolding read_size
  read_size-Good bound buffer_size frame is_control size t client r h =
      if_both (Good bound) (size == 126) _ _
        (λ e.
          read_exactly-Good bound 2 (fail_if ops is_control client) t frame
            (on_size2 ops buffer_size frame) (fail_if-IsReady is_control client r)
            (omega (arith, h))
            (λ bytes t' after r' h'.
              read_payload-Good bound buffer_size frame _ t' _ (fail_if-IsReady _ after r') h'))
        (λ e.
          if_both (Good bound) (size == 127) _ _
            (λ e'.
              read_exactly-Good bound 8 (fail_if ops is_control client) t frame
                (on_size8 ops buffer_size frame) (fail_if-IsReady is_control client r)
                (omega (arith, h))
                (λ bytes t' after r' h'.
                  if_both (Good bound) (is_too_big bytes) _ _
                    (λ e''. give_up-Good bound frame after r' h')
                    (λ e''.
                      read_payload-Good bound buffer_size frame _ t' _ (fail_if-IsReady _ after r')
                        h')))
            (λ e'. read_payload-Good bound buffer_size frame size t client r h))

  read_header-Good :
      (bound buffer_size : ℕ) (header : List ℕ) (t : T) (client : Client T)
      → IsReady client
      → left client ≤ bound
      → Good bound (read_header ops buffer_size header t client)
  unfolding read_header on_header
  read_header-Good bound buffer_size header t client r h =
      if_both (Good bound) (get_or header 1 0 / 0x80 % 2 == 1) _ _
        (λ e.
          give_up-Good bound
            (record no_frame {
              fin = some (is_fin (get_or header 0 0));
              opcode = some (get_or header 0 0 % 16);
            })
            _ (fail_if-IsReady (is_bad (get_or header 0 0)) client r) h)
        (λ e. read_size-Good bound buffer_size _ _ _ t _ (fail_if-IsReady _ client r) h)

  -- `xsp_ws_client_read_frame` of a ready client that has not failed returns, whatever the transport
  -- does, with the client ready, and at least one byte less left of what the handshake read too much if
  -- there was one.
  pub read_frame-Good :
      (client : Client T) (buffer_size : ℕ)
      → IsReady client
      → can_read client.state ≡ true
      → Good (left client - 1) (read_frame ops client buffer_size)
  unfolding read_frame
  read_frame-Good client buffer_size r ok =
      option_both (Good (left client - 1)) client.transport _ _
        (λ e. absurd (ground (arith, ap is_given e, r.connected)))
        (λ t e.
          if_both (Good (left client - 1)) (can_read client.state) _ _
            (λ e'.
              read_exactly-Good (left client - 1) 2 client t no_frame (read_header ops buffer_size)
                r (omega arith)
                (λ bytes t' after r' h'.
                  read_header-Good (left client - 1) buffer_size bytes t' after r' h'))
            (λ bad. absurd (ground (arith, ok, bad))))
