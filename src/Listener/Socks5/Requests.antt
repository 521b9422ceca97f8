-- ===== src/Listener/Socks5/Requests.antt =====
-- The answers to a request that is not a connection.
use gorp.Prelude.{ℕ, suc, ◌≡◌, refl, false, ◌&&◌, ◌==◌, List, [], ◌∷◌, ◌++◌, Option, none}
use gorp.Listener.Socks5.{
  Bytes, and_then, write_reply, reply_bytes, Target, read_connect_request, closed, after_request,
}
use gorp.Listener.Socks5.Client.{conn, read_full-append, write_lem}

-- A request of another version, or with another command than CONNECT, is answered by two replies, the
-- one with the status 7 and after it the one with the status 1, and the connection is closed.
pub after_request-denied :
    (dial : Target → Option (Option (Bytes × ℕ))) (version command reserved type r : ℕ)
    (rest : Bytes) (o : List Bytes)
    → (version == 5 && command == 1) ≡ false
    → after_request dial
        (read_connect_request (conn (version ∷ command ∷ reserved ∷ type ∷ rest) o (suc (suc r))))
      ≡ (conn rest ((o ++ reply_bytes 7 none ∷ []) ++ reply_bytes 1 none ∷ []) r, closed)
unfolding read_connect_request and_then write_reply
after_request-denied dial version command reserved type r rest o other =
    rw
      (
        read_full-append (version ∷ command ∷ reserved ∷ type ∷ []) rest o (suc (suc r)),
        other,
        write_lem (reply_bytes 7 none) rest o (suc r),
        write_lem (reply_bytes 1 none) rest (o ++ reply_bytes 7 none ∷ []) r,
      )
      refl
