-- ===== src/Client/Read/Stream.antt =====
-- Reading of xsp_ws_client.c from a transport that delivers a stream of bytes, in pieces of any size.
use xsp.Prelude.{
  ℕ, zero, suc, ◌+◌, ◌-◌, ◌≤◌, ◌<◌, ◌≡◌, refl, sym, ap, ◌∙◌, List, [], ◌++◌, append_assoc,
  append-nil, Option, none, some, arith, ==-eq_false, length, length-drop, length-take, ==_iff,
  take, drop, take-add, drop-drop,
}
use mathlib.Core.Path.{ap₂}
use xsp.Esp.{EspErr}
use xsp.Client.{Transport, Client}
use xsp.Client.Read.{
  Frame, read_count, read_more, take_overread, read_rest, read_data, read_exactly,
}

-- `pending` are the bytes to come: while enough of them are, a read gives at least one of them, and no
-- more than asked for.
pub record Streams {T : Type 0} (ops : Transport T) (pending : T → List ℕ) : Type 0 where
  pub reads :
      (t : T) (size : ℕ)
      → 0 < size
      → size ≤ length (pending t)
      → (0 < read_count (ops.read t size).1)
        × (read_count (ops.read t size).1 ≤ size)
        × ((ops.read t size).2 ≡ take (read_count (ops.read t size).1) (pending t))
        × (pending (ops.read t size).0 ≡ drop (read_count (ops.read t size).1) (pending t))

module _ {T : Type 0} (ops : Transport T) (pending : T → List ℕ) (law : Streams ops pending) where
  abbrev Reads : ℕ → List ℕ → T → Option (Option (List ℕ) × T) → Type 0
  Reads size done t result =
      (t' : T) × (result ≡ some (some (done ++ take size (pending t)), t'))
      × (pending t' ≡ drop size (pending t))

  read_more-Reads :
      (fuel : ℕ) (t : T) (done : List ℕ) (size : ℕ)
      → size ≤ fuel
      → size ≤ length (pending t)
      → Reads size done t (read_more ops fuel t done size)
  unfolding read_more
  read_more-Reads fuel t done zero h k =
      (t, ap (λ bytes. some (some bytes, t)) (sym (append-nil done)), refl)
  read_more-Reads zero t done (suc size) h k = absurd (omega arith)
  read_more-Reads (suc fuel) t done (suc size) h k =
      rw (==-eq_false count 0 (omega (arith, taken.0))) (
        let (t', e, p) =
          read_more-Reads fuel next (done ++ bytes) (suc size - count) (omega (arith, taken.0))
            (omega (arith, left)) in
        (t', e ∙ ap (λ bytes. some (some bytes, t')) joined, p ∙ behind))
    where
      count : ℕ
      count = read_count (ops.read t (suc size)).1

      next : T
      next = (ops.read t (suc size)).0

      bytes : List ℕ
      bytes = (ops.read t (suc size)).2

      taken :
          (0 < count)
          × (count ≤ suc size)
          × (bytes ≡ take count (pending t))
          × (pending next ≡ drop count (pending t))
      taken = law.reads t (suc size) (omega arith) k

      left : length (pending next) ≡ length (pending t) - count
      left = ap length taken.3 ∙ length-drop count (pending t)

      whole : count + (suc size - count) ≡ suc size
      whole = omega (arith, taken.1)

      joined :
          (done ++ bytes) ++ take (suc size - count) (pending next)
          ≡ done ++ take (suc size) (pending t)
      joined =
          append_assoc done bytes _
          ∙ ap (◌++◌ done) (
              ap₂ (λ b p. b ++ take (suc size - count) p) taken.2 taken.3
              ∙ sym (take-add count (suc size - count) (pending t))
              ∙ ap (λ n. take n (pending t)) whole)

      behind : drop (suc size - count) (pending next) ≡ drop (suc size) (pending t)
      behind =
          ap (drop (suc size - count)) taken.3
          ∙ drop-drop count (suc size - count) (pending t)
          ∙ ap (λ n. drop n (pending t)) whole

  take_overread-none :
      (client : Client T) (size : ℕ)
      → client.overread_data ≡ none
      → take_overread ops client size ≡ some ([], client)
  unfolding take_overread
  take_overread-none client size h = ground (arith, h)

  read_data_direct :
      (client : Client T) (t t' : T) (size : ℕ) (bytes : List ℕ)
      → client.overread_data ≡ none
      → read_more ops size t [] size ≡ some (some bytes, t')
      → read_data ops client t size ≡ some (some bytes, t', record client { transport = some t' })
  unfolding read_data read_rest
  read_data_direct client t t' size bytes h e =
      ap (λ o. elim o [ none ↦ none | some taken ↦ read_rest ops size t taken ])
        (take_overread-none client size h)
      ∙ ap
          (λ o. elim o [
            | none ↦ none
            | some (bytes, t') ↦ some (bytes, t', record client { transport = some t' })
          ])
          (ap (read_more ops size t []) less_nothing ∙ e)
    where
      less_nothing : size - 0 ≡ size
      less_nothing = omega arith

  -- While enough is to come and nothing was read too early, exactly so many bytes are read.
  pub read_exactly-Streams :
      (client : Client T) (t : T) (size : ℕ) (frame : Frame)
      (go_on : List ℕ → T → Client T → Option (EspErr × Frame × Client T))
      → client.overread_data ≡ none
      → size ≤ length (pending t)
      → (t' : T) × (read_exactly ops client t size frame go_on
          ≡ go_on (take size (pending t)) t' (record client { transport = some t' }))
        × (pending t' ≡ drop size (pending t))
  unfolding read_exactly
  read_exactly-Streams client t size frame go_on h enough =
      let (t', e, p) = read_more-Reads size t [] size (omega arith) enough in
      (
        t',
        rw (read_data_direct client t t' size (take size (pending t)) h e, read_exactly)
            (rw ((==_iff (length (take size (pending t))) size).1 exact) refl),
        p,
      )
    where
      exact : length (take size (pending t)) ≡ size
      exact = omega (arith, length-take size (pending t), enough)
