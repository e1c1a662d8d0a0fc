-- ===== src/Client/Read/Source.antt =====
-- A transport for xsp_ws_client.c that delivers a string byte by byte, to read from it on examples.
use xsp.Prelude.{take, drop, ◌<◌, ◌≤◌, ℕ, ◌≡◌, refl, List, [], ◌∷◌, arith, length}
use xsp.Prelude.Int.{ℤ, pos, negsuc}
use xsp.Client.{Transport}
use xsp.Client.Read.{read_count}
use xsp.Client.Read.Stream.{Streams}

-- A transport that hands out what is left of a string, one byte at a time.
abbrev pub first_byte : List ℕ → ℤ × List ℕ
first_byte [] = (negsuc 0, [])
first_byte (byte ∷ bytes) = (pos 1, byte ∷ [])

abbrev pub source : Transport (List ℕ)
source = record {
  write = λ t bytes. (t, pos 0);
  read = λ t size. (drop 1 t, (first_byte t).0, (first_byte t).1);
  poll_write = λ t. (t, pos 0);
  poll_read = λ t. (t, pos 1);
}

pub source-Streams : Streams source (λ t. t)
source-Streams = record { reads = λ t size h k. one_byte t size h k }
  where
    one_byte :
        (t : List ℕ) (size : ℕ)
        → 0 < size
        → size ≤ length t
        → (0 < read_count (first_byte t).0)
          × (read_count (first_byte t).0 ≤ size)
          × ((first_byte t).1 ≡ take (read_count (first_byte t).0) t)
          × (drop 1 t ≡ drop (read_count (first_byte t).0) t)
    one_byte [] size h k = absurd (omega arith)
    one_byte (byte ∷ bytes) size h k = (omega arith, omega arith, refl, refl)
