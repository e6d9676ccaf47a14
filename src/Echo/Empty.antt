-- ===== src/Echo/Empty.antt =====
-- The echo of an empty message.
use epoll_server.Base.{
  ℕ, ◌≡◌, ap, subst, ◌∙◌, Bool, some, List, [], ◌∷◌, ◌++◌, arith, length, drop, All, refl,
}
use epoll_server.Buffer.Contents.{IsValid}
use epoll_server.Tlv.{outgoing_header}
use epoll_server.Tlv.Wire.{of_big_endian, length-outgoing_header, outgoing_header-announces}
use epoll_server.Connection.State.{connected, ReadReply, got, Session}
use epoll_server.Connection.Reader.{handle_message}
use epoll_server.Connection.Reader.Bounds.{Fitting}
use epoll_server.Connection.Reader.Frames.{InHeader}
use epoll_server.Connection.Reader.Pieces.{IsPiece, data_of}
use epoll_server.Connection.Reader.Delivery.{reset, IsFresh, reset-IsFresh}
use epoll_server.Connection.Reader.Empty.{handle_message_empty}
use epoll_server.Echo.{on_message, Echoed, on_message-Echoed, reset-Echoed}

fresh-InHeader : (s : Session) (xs : List ℕ) → IsFresh s → length xs ≡ 8 → InHeader s.conn [] xs
fresh-InHeader s xs f e = record {
  count = f.no_header;
  total = omega (arith, e);
  more = omega (arith, e);
  no_body = f.no_body;
  memory = refl;
  waiting = f.waiting;
}

-- The header of an empty message in one readable event, and the read of no bytes behind it.
pub empty-Echoed :
    (ok : Bool) (rs more : List ReadReply) (s : Session)
    → s.conn.state ≡ connected
    → IsValid s.conn.send_buffer
    → IsFresh s
    → data_of rs ≡ outgoing_header 0
    → All IsPiece rs
    → Fitting rs s
    → (u : Session) × (handle_message (some (on_message ok)) (rs ++ (got [] ∷ more)) s
        ≡ some (u, more))
      × Echoed ok [] s u
      × IsFresh u
empty-Echoed ok rs more s is_open v fresh e a f =
    let (t, run, _, empty, quiet) =
      handle_message_empty (on_message ok) rs more s []
        (fresh-InHeader s (data_of rs) fresh (ap length e ∙ length-outgoing_header 0))
        (ap (λ h. of_big_endian (drop 4 h)) e ∙ outgoing_header-announces 0 (omega arith)) a f in
    let echoed : Echoed ok t.conn.read_buffer s (on_message ok t) =
      on_message-Echoed ok s t is_open v quiet in
    (
      reset (on_message ok t),
      run,
      subst (λ m. Echoed ok m s (reset (on_message ok t))) empty (reset-Echoed echoed),
      reset-IsFresh (on_message ok t),
    )
