-- ===== src/Socks/Conn/Relay.antt =====
-- The copying of handleTCP: what is counted, and what moves.
use mathlib.Core.List.{append_assoc, append-nil}
use piaproxy.Base.{
  ℕ, ◌+◌, ◌%◌, ◌^◌, ◌<◌, ◌≡◌, refl, sym, ◌∙◌, ap, List, [], ◌∷◌, ◌++◌, arith, length, length-append,
  take, drop, take-append-drop, Bytes,
}
use piaproxy.Socks.State.{Conn, CopyEvent, down, up}
use piaproxy.Socks.Conn.{count_write, relay}

-- The bytes that the upstream sent before either direction ended.
abbrev pub downloaded : List CopyEvent → Bytes
downloaded [] = []
downloaded (down p ∷ es) = p ++ downloaded es
downloaded (up n ∷ es) = downloaded es
downloaded (_ ∷ es) = []

-- The bytes of `unread` that went up before either direction ended.
abbrev pub sent_up : List CopyEvent → Bytes → Bytes
sent_up [] unread = []
sent_up (down p ∷ es) unread = sent_up es unread
sent_up (up n ∷ es) unread = take n unread ++ sent_up es (drop n unread)
sent_up (_ ∷ es) unread = []

count_write_lem : (n k : ℕ) → k < 2 ^ 64 → count_write n k ≡ (k + n) % 2 ^ 64
unfolding count_write
count_write_lem n k h = ground arith

count_write-lt : (n k : ℕ) → k < 2 ^ 64 → count_write n k < 2 ^ 64
unfolding count_write
count_write-lt n k h = ground arith

-- Counting one piece and then the rest counts both.
count_twice :
    (xs ys : Bytes) (k : ℕ)
    → k < 2 ^ 64
    → (count_write (length xs) k + length ys) % 2 ^ 64 ≡ (k + length (xs ++ ys)) % 2 ^ 64
count_twice xs ys k h = omega (arith, count_write_lem (length xs) k h, length-append xs ys)

pub record Counted (es : List CopyEvent) (c d : Conn) : Type 0 where
  pub written : d.written ≡ c.written ++ downloaded es
  pub uploaded : d.uploaded ≡ c.uploaded ++ sent_up es c.unread
  pub rx : d.rx_bytes ≡ (c.rx_bytes + length (downloaded es)) % 2 ^ 64
  pub tx : d.tx_bytes ≡ (c.tx_bytes + length (sent_up es c.unread)) % 2 ^ 64
  pub unread : d.uploaded ++ d.unread ≡ c.uploaded ++ c.unread

-- For every interleaving of the two copies, the client gets all that the upstream sent and the
-- upstream a front part of what the client sent, in order, nothing of the client is lost or
-- doubled, and each counter grows by exactly the bytes moved, modulo 2 ^ 64.
pub relay-Counted :
    (es : List CopyEvent) (c : Conn)
    → c.rx_bytes < 2 ^ 64
    → c.tx_bytes < 2 ^ 64
    → Counted es c (relay es c).1
unfolding relay
relay-Counted [] c hr ht = record {
  written = sym (append-nil _);
  uploaded = sym (append-nil _);
  rx = omega arith;
  tx = omega arith;
  unread = refl;
}
relay-Counted (down p ∷ es) c hr ht =
    let piece = record c {
      written = c.written ++ p;
      rx_bytes = count_write (length p) c.rx_bytes;
    } in
    let rest = relay-Counted es piece (count_write-lt (length p) c.rx_bytes hr) ht in
    record {
      written = rest.written ∙ append_assoc c.written p (downloaded es);
      uploaded = rest.uploaded;
      rx = rest.rx ∙ count_twice p (downloaded es) c.rx_bytes hr;
      tx = rest.tx;
      unread = rest.unread;
    }
relay-Counted (up n ∷ es) c hr ht =
    let front = take n c.unread in
    let piece = record c {
      unread = drop n c.unread;
      uploaded = c.uploaded ++ front;
      tx_bytes = count_write (length front) c.tx_bytes;
    } in
    let rest = relay-Counted es piece hr (count_write-lt (length front) c.tx_bytes ht) in
    record {
      written = rest.written;
      uploaded = rest.uploaded ∙ append_assoc c.uploaded front (sent_up es (drop n c.unread));
      rx = rest.rx;
      tx = rest.tx ∙ count_twice front (sent_up es (drop n c.unread)) c.tx_bytes ht;
      unread =
          rest.unread
          ∙ append_assoc c.uploaded front (drop n c.unread)
          ∙ ap (◌++◌ c.uploaded) (take-append-drop n c.unread);
    }
relay-Counted (_ ∷ es) c hr ht = record {
  written = sym (append-nil _);
  uploaded = sym (append-nil _);
  rx = omega arith;
  tx = omega arith;
  unread = refl;
}
