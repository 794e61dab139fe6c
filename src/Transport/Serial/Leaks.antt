-- ===== src/Transport/Serial/Leaks.antt =====
-- src/transport/egw_transport_serial.c: a descriptor that is opened is either handed out or closed.
use service_data_gateway_edg.Prelude.{
  ℕ, ◌≡◌, refl, ◌∙◌, Bool, true, false, List, ◌∷◌, Option, none, some, Bool-cases, inl, inr,
}
use service_data_gateway_edg.Defs.{Err, ok}
use service_data_gateway_edg.Transport.{Handle}
use service_data_gateway_edg.Transport.Serial.{
  Termios, SerialOs, SerialParams, with_fd, with_attrs, with_speed, apply_attrs, opened_handle,
  open_serial, egw_transport_serial_open,
}

-- The descriptors that the process has open, as the calls change them.
pub record Accounts {W : Type 0} (sys : SerialOs W) (opened : W → List ℕ) : Type 0 where
  pub opens :
      (path : List ℕ) (w w' : W) (fd : ℕ)
      → sys.open_tty path w ≡ (some fd, w')
      → opened w' ≡ fd ∷ opened w
  pub refuses : (path : List ℕ) (w w' : W) → sys.open_tty path w ≡ (none, w') → opened w' ≡ opened w
  pub gets : (fd : ℕ) (w : W) → opened (sys.tcgetattr fd w).1 ≡ opened w
  pub sets : (fd : ℕ) (t : Termios) (w : W) → opened (sys.tcsetattr fd t w).1 ≡ opened w
  pub flushes : (fd : ℕ) (w : W) → opened (sys.tcflush fd w) ≡ opened w
  pub closes :
      (fd : ℕ) (w : W) (rest : List ℕ) → opened w ≡ fd ∷ rest → opened (sys.os.close_fd fd w) ≡ rest

module _ {W : Type 0} (sys : SerialOs W) (opened : W → List ℕ) where
  -- A handle comes with one more open descriptor, its own; no handle leaves as many as there were.
  abbrev pub Balanced : List ℕ → Option Handle × W → Type 0
  Balanced before (none, w) = opened w ≡ before
  Balanced before (some h, w) = (fd : ℕ) × (h.fd ≡ some fd) × (opened w ≡ fd ∷ before)

  Kept : List ℕ → Err × Option ℕ × W → Type 0
  Kept before (ok, none, w) = ⊥
  Kept before (ok, some fd, w) = opened w ≡ fd ∷ before
  Kept before (e, fd, w) = opened w ≡ before

  module _ (acc : Accounts sys opened) where
    apply_attrs-Kept :
        (fd : ℕ) (tio : Termios) (w : W) (before : List ℕ)
        → opened w ≡ fd ∷ before
        → Kept before (apply_attrs sys fd tio w)
    unfolding apply_attrs Kept
    apply_attrs-Kept fd tio w before h = elim (Bool-cases (sys.tcsetattr fd tio w).0) [
      | inl set ↦ rw set (acc.flushes fd (sys.tcsetattr fd tio w).1 ∙ acc.sets fd tio w ∙ h)
      | inr unset ↦
          rw unset (acc.closes fd (sys.tcsetattr fd tio w).1 before (acc.sets fd tio w ∙ h))
    ]

    with_speed-Kept :
        (p : SerialParams) (fd : ℕ) (tio : Termios) (s : Option ℕ) (w : W) (before : List ℕ)
        → opened w ≡ fd ∷ before
        → Kept before (with_speed sys p fd tio s w)
    unfolding with_speed Kept
    with_speed-Kept p fd tio none w before h = acc.closes fd w before h
    with_speed-Kept p fd tio (some baud_val) w before h = apply_attrs-Kept fd _ w before h

    with_attrs-Kept :
        (p : SerialParams) (fd : ℕ) (r : Option Termios × W) (before : List ℕ)
        → opened r.1 ≡ fd ∷ before
        → Kept before (with_attrs sys p fd r)
    unfolding with_attrs Kept
    with_attrs-Kept p fd (none, w) before h = acc.closes fd w before h
    with_attrs-Kept p fd (some tio, w) before h = with_speed-Kept p fd tio _ w before h

    with_fd-Kept :
        (p : SerialParams) (w : W) (r : Option ℕ × W)
        → sys.open_tty p.path w ≡ r
        → Kept (opened w) (with_fd sys p r)
    unfolding with_fd Kept
    with_fd-Kept p w (none, w') e = acc.refuses p.path w w' e
    with_fd-Kept p w (some fd, w') e =
        with_attrs-Kept p fd (sys.tcgetattr fd w') (opened w)
          (acc.gets fd w' ∙ acc.opens p.path w w' fd e)

    opened_handle-Balanced :
        (before : List ℕ) (r : Err × Option ℕ × W)
        → Kept before r
        → Balanced before (opened_handle sys r)
    unfolding opened_handle Kept
    opened_handle-Balanced before (ok, none, w) h = elim h [ ]
    opened_handle-Balanced before (ok, some fd, w) h = (fd, refl, h)
    opened_handle-Balanced before (e, fd, w) h = h

    -- Whatever the calls on the line answer and whether or not the handle is allocated: opening a
    -- serial line leaves one more open descriptor, the handle's, where it gives a handle, and as
    -- many as before where it gives none.
    pub serial_open-Balanced :
        (calloc_ok : Bool) (p : SerialParams) (w : W)
        → Balanced (opened w) (egw_transport_serial_open sys calloc_ok p w)
    unfolding egw_transport_serial_open
    serial_open-Balanced true p w =
        opened_handle-Balanced (opened w) (open_serial sys p w)
          (with_fd-Kept p w (sys.open_tty p.path w) refl)
    serial_open-Balanced false p w = refl
