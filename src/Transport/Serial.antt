-- ===== src/Transport/Serial.antt =====
-- src/transport/egw_transport_serial.c: opening and configuring a serial line, reading, writing and
-- closing. `struct termios` and its constants belong to the C library.
pub mod Leaks
use service_data_gateway_edg.Prelude.{
  ℕ, ◌+◌, ◌-◌, ◌^◌, bit_and, bit_or, ◌||◌, Bool, true, false, List, Option, none, some, Run, done,
  fault, ◌>>=◌, store, length, ◌==◌, if◌then◌else◌,
}
use service_data_gateway_edg.Defs.{Err, ok, invalid_arg, open_err, read_err, write_err}
use service_data_gateway_edg.Transport.{Sys, moved, again, failed, Os, Driver, serial, Handle}

pub record Termios : Type 0 where
  pub iflag : ℕ
  pub oflag : ℕ
  pub cflag : ℕ
  pub lflag : ℕ
  pub vmin : ℕ
  pub vtime : ℕ
  pub speeds : ℕ × ℕ

-- The flags of termios.h that the file uses, and the codes of the speeds.
pub record TermBits : Type 0 where
  pub clocal : ℕ
  pub cread : ℕ
  pub csize : ℕ
  pub cs5 : ℕ
  pub cs6 : ℕ
  pub cs7 : ℕ
  pub cs8 : ℕ
  pub parenb : ℕ
  pub parodd : ℕ
  pub cstopb : ℕ
  pub ixon_ixoff_ixany : ℕ
  pub icanon_echo_echoe_isig : ℕ
  pub opost : ℕ
  pub b9600 : ℕ
  pub b19200 : ℕ
  pub b38400 : ℕ
  pub b57600 : ℕ
  pub b115200 : ℕ

-- The further calls on a serial line.
pub record SerialOs (W : Type 0) : Type 0 where
  pub os : Os W
  pub bits : TermBits
  pub open_tty : List ℕ → W → Option ℕ × W
  pub tcgetattr : ℕ → W → Option Termios × W
  pub tcsetattr : ℕ → Termios → W → Bool × W
  pub tcflush : ℕ → W → W
  pub cfmakeraw : Termios → Termios
  pub cfsetispeed : ℕ → Termios → Termios
  pub cfsetospeed : ℕ → Termios → Termios

-- `egw_transport_serial_params_t`. The two counts are int32_t, of which only small positive values
-- matter; any other value of theirs is a number that no case names.
pub record SerialParams : Type 0 where
  pub path : List ℕ
  pub baud : ℕ
  pub parity : ℕ
  pub data_bits : ℕ
  pub stop_bits : ℕ

-- `x & ~m`, of a 32 bit `tcflag_t`.
clear : ℕ → ℕ → ℕ
clear x m = bit_and x (2 ^ 32 - 1 - m)

-- The `switch` over the speed; `none` is its default.
unfoldable pub speed : TermBits → ℕ → Option ℕ
speed b baud =
    if baud == 9600
    then some b.b9600
    else if baud == 19200
    then some b.b19200
    else if baud == 38400
    then some b.b38400
    else if baud == 57600
    then some b.b57600
    else if baud == 115200
    then some b.b115200
    else none

unfoldable pub size_bits : TermBits → ℕ → ℕ
size_bits b data_bits =
    if data_bits == 5
    then b.cs5
    else if data_bits == 6
    then b.cs6
    else if data_bits == 7
    then b.cs7
    else b.cs8

-- The `switch` over the parity, of the character's code.
unfoldable pub with_parity : TermBits → ℕ → ℕ → ℕ
unfolding clear
with_parity b parity cflag =
    if parity == b'E' || parity == b'e'
    then clear (bit_or cflag b.parenb) b.parodd
    else if parity == b'O' || parity == b'o'
    then bit_or cflag (bit_or b.parenb b.parodd)
    else clear cflag b.parenb

unfoldable pub with_stop : TermBits → ℕ → ℕ → ℕ
unfolding clear
with_stop b stop_bits cflag = if stop_bits == 2 then bit_or cflag b.cstopb else clear cflag b.cstopb

-- `tio.c_cflag |= (CLOCAL | CREAD)`.
unfoldable pub local_line : TermBits → Termios → Termios
local_line b tio = record tio { cflag = bit_or tio.cflag (bit_or b.clocal b.cread) }

-- What `open_serial` makes of the line's attributes once their speed is set.
unfoldable pub configured : TermBits → SerialParams → Termios → Termios
unfolding clear size_bits with_parity with_stop
configured b p tio = record tio {
  cflag =
      with_stop b p.stop_bits
        (with_parity b p.parity (bit_or (clear tio.cflag b.csize) (size_bits b p.data_bits)));
  iflag = clear tio.iflag b.ixon_ixoff_ixany;
  lflag = clear tio.lflag b.icanon_echo_echoe_isig;
  oflag = clear tio.oflag b.opost;
  vmin = 1;
  vtime = 0;
}

module _ {W : Type 0} (sys : SerialOs W) where
  apply_attrs : ℕ → Termios → W → Err × Option ℕ × W
  apply_attrs fd tio w =
      let (set, w) = sys.tcsetattr fd tio w in
      if set then (ok, some fd, sys.tcflush fd w) else (open_err, none, sys.os.close_fd fd w)

  with_speed : SerialParams → ℕ → Termios → Option ℕ → W → Err × Option ℕ × W
  unfolding local_line configured apply_attrs
  with_speed p fd tio none w = (invalid_arg, none, sys.os.close_fd fd w)
  with_speed p fd tio (some baud_val) w =
      apply_attrs fd
        (configured sys.bits p (
          sys.cfsetospeed baud_val
            (sys.cfsetispeed baud_val (local_line sys.bits (sys.cfmakeraw tio)))))
        w

  with_attrs : SerialParams → ℕ → Option Termios × W → Err × Option ℕ × W
  unfolding speed with_speed
  with_attrs p fd (none, w) = (open_err, none, sys.os.close_fd fd w)
  with_attrs p fd (some tio, w) = with_speed p fd tio (speed sys.bits p.baud) w

  with_fd : SerialParams → Option ℕ × W → Err × Option ℕ × W
  unfolding with_attrs
  with_fd p (none, w) = (open_err, none, w)
  with_fd p (some fd, w) = with_attrs p fd (sys.tcgetattr fd w)

  -- `open_serial`: the error and `h->fd`.
  unfoldable pub open_serial : SerialParams → W → Err × Option ℕ × W
  unfolding with_fd
  open_serial p w = with_fd p (sys.open_tty p.path w)

  opened_handle : Err × Option ℕ × W → Option Handle × W
  opened_handle (ok, fd, w) = (some (record { fd = fd; driver = serial }), w)
  opened_handle (e, fd, w) = (none, w)

  -- `egw_transport_serial_open`.
  unfoldable pub egw_transport_serial_open : Bool → SerialParams → W → Option Handle × W
  unfolding open_serial opened_handle
  egw_transport_serial_open calloc_ok p w =
      if calloc_ok then opened_handle (open_serial p w) else (none, w)
