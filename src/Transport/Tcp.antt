-- ===== src/Transport/Tcp.antt =====
-- src/transport/egw_transport_tcp.c: opening a socket. Reading, writing and closing are in Io.
use service_data_gateway_edg.Prelude.{ℕ, Bool, List, Option, none, some, if◌then◌else◌}
use service_data_gateway_edg.Defs.{Err, ok, invalid_arg, open_err}
use service_data_gateway_edg.Transport.{Os, Handle, tcp_socket}

-- What `connect` returns: 0, -1 with EINPROGRESS, or -1 with another error.
pub data Connect : Type 0 where
  connected in_progress refused : Connect

-- The further calls on sockets. An address is what `inet_pton` makes of the host, if it can.
pub record TcpOs (W : Type 0) : Type 1 where
  pub os : Os W
  pub Address : Type 0
  pub inet_pton : List ℕ → Option Address
  pub socket : W → Option ℕ × W
  pub connect : ℕ → Address → ℕ → W → Connect × W

-- `egw_transport_tcp_params_t`; the timeout is not used.
pub record TcpParams : Type 0 where
  pub host : List ℕ
  pub port : ℕ
  pub connect_timeout_ms : ℕ

module _ {W : Type 0} (sys : TcpOs W) where
  open sys use {Address}

  after_connect : ℕ → Connect × W → Err × Option ℕ × W
  after_connect fd (connected, w) = (ok, some fd, w)
  after_connect fd (in_progress, w) = (ok, some fd, w)
  after_connect fd (refused, w) = (open_err, none, sys.os.close_fd fd w)

  with_socket : Address → ℕ → Option ℕ × W → Err × Option ℕ × W
  unfolding after_connect
  with_socket a port (none, w) = (open_err, none, w)
  with_socket a port (some fd, w) = after_connect fd (sys.connect fd a port w)

  with_address : Option Address → ℕ → W → Err × Option ℕ × W
  unfolding with_socket
  with_address none port w = (invalid_arg, none, w)
  with_address (some a) port w = with_socket a port (sys.socket w)

  -- `open_tcp`: the error and `h->fd`.
  unfoldable pub open_tcp : TcpParams → W → Err × Option ℕ × W
  unfolding with_address
  open_tcp p w = with_address (sys.inet_pton p.host) p.port w

  opened_socket : Err × Option ℕ × W → Option Handle × W
  opened_socket (ok, fd, w) = (some (record { fd = fd; driver = tcp_socket }), w)
  opened_socket (e, fd, w) = (none, w)

  -- `egw_transport_tcp_open`.
  unfoldable pub egw_transport_tcp_open : Bool → TcpParams → W → Option Handle × W
  unfolding open_tcp opened_socket
  egw_transport_tcp_open calloc_ok p w =
      if calloc_ok then opened_socket (open_tcp p w) else (none, w)
