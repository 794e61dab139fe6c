-- ===== src/Tests/TransportTests.antt =====
-- src/transport: a process whose descriptors are a list, and a line that refuses its attributes.
use service_data_gateway_edg.Prelude.{
  ℕ, ◌≡◌, refl, ap, true, false, List, [], ◌∷◌, Option, none, some, drop,
}
use service_data_gateway_edg.Transport.{moved, again}
use service_data_gateway_edg.Transport.Serial.{
  Termios, TermBits, SerialOs, SerialParams, egw_transport_serial_open,
}
use service_data_gateway_edg.Transport.Serial.Leaks.{Accounts, Balanced, serial_open-Balanced}

abbrev bits : TermBits
bits = record {
  clocal = 2048;
  cread = 128;
  csize = 48;
  cs5 = 0;
  cs6 = 16;
  cs7 = 32;
  cs8 = 48;
  parenb = 256;
  parodd = 512;
  cstopb = 64;
  ixon_ixoff_ixany = 7168;
  icanon_echo_echoe_isig = 27;
  opost = 1;
  b9600 = 13;
  b19200 = 14;
  b38400 = 15;
  b57600 = 4097;
  b115200 = 4098;
}

abbrev raw : Termios
raw = record { iflag = 0; oflag = 0; cflag = 0; lflag = 0; vmin = 0; vtime = 0; speeds = (0, 0) }

abbrev open_any : List ℕ → List ℕ → Option ℕ × List ℕ
open_any [] fds = (none, fds)
open_any (c ∷ path) fds = (some 5, 5 ∷ fds)

abbrev refusing : SerialOs (List ℕ)
refusing = record {
  os = record {
    read_fd = λ fd n w. (again, w);
    write_fd = λ fd bytes w. (moved 0, w);
    close_fd = λ fd w. drop 1 w;
  };
  bits = bits;
  open_tty = open_any;
  tcgetattr = λ fd w. (some raw, w);
  tcsetattr = λ fd t w. (false, w);
  tcflush = λ fd w. w;
  cfmakeraw = λ t. t;
  cfsetispeed = λ s t. record t { speeds = (s, 0) };
  cfsetospeed = λ s t. record t { speeds = (s, s) };
}

opens_5 : (path w w' : List ℕ) (fd : ℕ) → open_any path w ≡ (some fd, w') → w' ≡ fd ∷ w
opens_5 [] w w' fd e = absurd (cc)
opens_5 (c ∷ path) w w' fd e = cc

refuses_none : (path w w' : List ℕ) → open_any path w ≡ (none, w') → w' ≡ w
refuses_none [] w w' e = cc
refuses_none (c ∷ path) w w' e = absurd (cc)

refusing-Accounts : Accounts refusing (λ w. w)
refusing-Accounts = record {
  opens = opens_5;
  refuses = refuses_none;
  gets = λ fd w. refl;
  sets = λ fd t w. refl;
  flushes = λ fd w. refl;
  closes = λ fd w rest e. ap (drop 1) e;
}

abbrev tty : SerialParams
tty = record { path = 47 ∷ []; baud = 9600; parity = 78; data_bits = 8; stop_bits = 1 }

serial_open-Balanced_example :
    Balanced refusing (λ w. w) (3 ∷ []) (egw_transport_serial_open refusing true tty (3 ∷ []))
serial_open-Balanced_example =
    serial_open-Balanced refusing (λ w. w) refusing-Accounts true tty (3 ∷ [])
