-- ===== src/Socks/Conn/Dialogue.antt =====
-- What a client reads from the server over one whole connection. The client is written from
-- RFC 1928 and 1929, with no use of the code's packets.
pub mod Packets
pub mod Kept
pub mod Ends
pub mod Whole
use piaproxy.Base.{
  ℕ, ◌+◌, ◌==◌, ◌&&◌, ◌≡◌, Option, none, some, [], ◌∷◌, ◌++◌, if◌then◌else◌, length, Bytes,
}
use piaproxy.Socks.Reader.{read_full, read_full-append}

-- What the client makes of the stream: no method was accepted, the credentials were refused, the
-- server went away after the negotiation, or it replied with a code, and what followed.
pub data View : Type 0 where
  refused auth_failed silent : View
  replied : ℕ → Bytes → View

abbrev behind : Option (Bytes × Bytes) → Option Bytes
behind none = none
behind (some (_, rest)) = some rest

-- What stands behind the next `n` bytes.
unfoldable pub skip : ℕ → Bytes → Option Bytes
skip n bs = behind (read_full n bs)

-- What stands behind an address of a type, and its port.
unfoldable pub after_address : ℕ → Bytes → Option Bytes
after_address t bs =
    if t == 1
    then skip 6 bs
    else if t == 3
    then elim bs [ [] ↦ none | n ∷ name ↦ skip (n + 2) name ]
    else if t == 4
    then skip 18 bs
    else none

abbrev pub with_code : ℕ → Option Bytes → Option View
with_code code none = none
with_code code (some rest) = some (replied code rest)

-- A reply: version, code, a reserved byte, the type of an address, and the address.
unfoldable pub read_reply : Bytes → Option View
read_reply [] = some silent
read_reply (version ∷ code ∷ reserved ∷ t ∷ bs) =
    if version == 5 && reserved == 0 then with_code code (after_address t bs) else none
read_reply _ = none

-- The status of the credentials, and what follows a success.
unfoldable pub read_status : Bytes → Option View
read_status (version ∷ status ∷ bs) =
    if version == 1
    then (if status == 0 then read_reply bs else if length bs == 0 then some auth_failed else none)
    else none
read_status _ = none

-- The whole stream, from the choice of a method on.
unfoldable pub read_stream : Bytes → Option View
read_stream (version ∷ method ∷ bs) =
    if version == 5
    then (if method == 255
        then (if length bs == 0 then some refused else none)
        else if method == 0
        then read_reply bs
        else if method == 2
        then read_status bs
        else none)
    else none
read_stream _ = none

pub skip-append :
    (n : ℕ) (front rest : Bytes) → length front ≡ n → skip n (front ++ rest) ≡ some rest
unfolding skip
skip-append n front rest h = rw (← h, read_full-append front rest)
