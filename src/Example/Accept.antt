-- ===== src/Example/Accept.antt =====
-- An accept in a server that listens, of a client that has gone again.
use asio_tcp.Base.{◌≤◌, ◌≡◌, ◌↔◌, false, none, length}
use asio_tcp.Server.{handler_accept}
use asio_tcp.Server.Address.{handler_accept-none_iff}
use asio_tcp.Example.Ring.{list_buffer}
use asio_tcp.Example.Trace.{hdr, listening}

handler_accept-none_iff_example :
    let w = listening.last in
    (handler_accept 0 false false hdr w ≡ none)
    ↔ ((false ≡ false) × (length w.mgr.connection_list ≤ w.mgr.max_conn))
handler_accept-none_iff_example = handler_accept-none_iff 0 false hdr listening.last
